-- ===== src/StorageProvider.antt =====
-- pallets/storage-provider/src: the state of a storage provider, from the expirations of its sectors
-- up to its deadlines.
mod Examples
pub mod Outcome
pub mod Sector
pub mod SectorMap
pub mod Deadlines
pub mod Assignment
pub mod ExpirationSet
pub mod ExpirationQueue
pub mod Partition
pub mod Deadline
pub mod DeadlineInfo
pub mod State
pub mod Pallet
