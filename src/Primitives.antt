-- ===== src/Primitives.antt =====
-- primitives/src: what the pallets share.
mod Examples
pub mod Randomness
