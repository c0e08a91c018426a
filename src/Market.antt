-- ===== src/Market.antt =====
-- pallets/market/src/lib.rs: balances, deals and their life cycle.
pub mod Types
pub mod Monad
pub mod State
pub mod Funds
pub mod Settle
pub mod Validate
pub mod Publish
pub mod Terminate
pub mod Activate
pub mod Finalize
mod Examples
pub mod Solvency
