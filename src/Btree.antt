-- ===== src/Btree.antt =====
-- The ordered sets and maps of the standard library, keyed by numbers, as ascending lists, and the
-- bounded versions that the pallets store.
pub mod Set
pub mod Map
pub mod Bounded
