-- ===== src/StorageProvider/Deadline.antt =====
-- `Deadline` (pallets/storage-provider/src/deadline.rs).
pub mod Filling
pub mod Expiry
pub mod Budget
use polka_storage.Base.{
  ℕ, Bool, true, false, not, Option, none, some, List, [], ◌∷◌, is_empty, length, all,
  if◌then◌else◌, ◌==◌,
}
use polka_storage.Base.Words.{sub_u64}
use polka_storage.Btree.Set.{BtreeSet}
use polka_storage.Btree.Set
use polka_storage.Btree.Map.{BtreeMap}
use polka_storage.Btree.Map
use polka_storage.Btree.Bounded.{Bounded}
use polka_storage.StorageProvider.Outcome.{
  Outcome, ok, err, ◌>>=◌, ◌>>◌, expect, ensure, ok_or, deadline_partition_not_found,
  deadline_partition_already_proven, deadline_proof_update_failed, deadline_sectors_not_found,
  deadline_sectors_not_faulty, deadline_failed_to_update_fault_expiration,
}
use polka_storage.StorageProvider.Sector.{SectorOnChainInfo, max_partitions_per_deadline}
use polka_storage.StorageProvider.ExpirationSet.{ExpirationSet, is_empty_set, len}
use polka_storage.StorageProvider.Partition.{
  Partition, recover_all_declared_recoveries, activate_unproven,
}
use polka_storage.StorageProvider.Partition
use polka_storage.StorageProvider.Partition.Termination

pub record Deadline : Type 0 where
  pub partitions : BtreeMap Partition
  pub expirations_blocks : BtreeMap ℕ
  pub partitions_posted : BtreeSet
  pub early_terminations : BtreeSet
  pub live_sectors : ℕ
  pub total_sectors : ℕ

-- `Deadline::new`
abbrev pub new_deadline : Deadline
new_deadline = record {
  partitions = [];
  expirations_blocks = [];
  partitions_posted = [];
  early_terminations = [];
  live_sectors = 0;
  total_sectors = 0;
}

-- `PartitionMap` of sector_map.rs
abbrev pub PartitionMap : Type 0
PartitionMap = BtreeMap BtreeSet

-- The first block, in order, that the queue maps to a partition.
unfoldable pub find_block : ℕ → BtreeMap ℕ → Option ℕ
find_block partition [] = none
find_block partition ((block, n) ∷ q) =
    if n == partition then some block else find_block partition q

-- `iter().all(|s| sectors.contains_key(&s))`
unfoldable pub all_known : BtreeSet → BtreeMap SectorOnChainInfo → Bool
all_known numbers sectors = all (λ n. Map.contains_key n sectors) numbers

module _ (bounded : Bounded) where
  unfoldable pub record_proven : BtreeMap SectorOnChainInfo → List ℕ → Deadline → Outcome Deadline
  record_proven all_sectors [] d = ok d
  record_proven all_sectors (n ∷ partitions) d = do
    partition ← ok_or (Map.get n d.partitions) deadline_partition_not_found
    ensure (not (Set.contains n d.partitions_posted)) deadline_partition_already_proven
    posted ←
        ok_or (bounded.set_try_insert max_partitions_per_deadline n d.partitions_posted)
          deadline_proof_update_failed
    recovered ← recover_all_declared_recoveries bounded all_sectors partition
    record_proven all_sectors partitions (record d {
      partitions_posted = posted;
      partitions = Map.insert n (activate_unproven recovered) d.partitions;
    })

  -- The expiration of a partition with new faults moves to the block at which they expire.
  unfoldable pub move_expiration : ℕ → ℕ → BtreeMap ℕ → Outcome (BtreeMap ℕ)
  move_expiration partition fault_expiration_block blocks =
      ok_or
        (bounded.map_try_insert ℕ max_partitions_per_deadline fault_expiration_block partition
          (elim (find_block partition blocks) [
            | some block ↦ Map.remove block blocks
            | none ↦ blocks
          ]))
        deadline_failed_to_update_fault_expiration

  unfoldable pub record_faults :
      BtreeMap SectorOnChainInfo → PartitionMap → ℕ → Deadline → Outcome Deadline
  record_faults sectors [] fault_expiration_block d = ok d
  record_faults sectors ((n, faulty_sectors) ∷ rest) fault_expiration_block d = do
    partition ← ok_or (Map.get n d.partitions) deadline_partition_not_found
    ensure (all_known faulty_sectors sectors) deadline_sectors_not_found
    (_, partition') ←
        Partition.record_faults bounded sectors faulty_sectors fault_expiration_block partition
    blocks ← move_expiration n fault_expiration_block d.expirations_blocks
    record_faults sectors rest fault_expiration_block (record d {
      partitions = Map.insert n partition' d.partitions;
      expirations_blocks = blocks;
    })

  unfoldable pub declare_faults_recovered :
      BtreeMap SectorOnChainInfo → PartitionMap → Deadline → Outcome Deadline
  declare_faults_recovered sectors [] d = ok d
  declare_faults_recovered sectors ((n, recovered_sectors) ∷ rest) d = do
    partition ← ok_or (Map.get n d.partitions) deadline_partition_not_found
    ensure (all_known recovered_sectors sectors) deadline_sectors_not_found
    ensure (all (λ s. Set.contains s partition.faults) recovered_sectors)
        deadline_sectors_not_faulty
    partition' ← Partition.declare_faults_recovered bounded recovered_sectors partition
    declare_faults_recovered sectors rest
        (record d { partitions = Map.insert n partition' d.partitions })

  unfoldable pub terminate_sectors :
      ℕ → List SectorOnChainInfo → PartitionMap → Deadline → Outcome Deadline
  terminate_sectors block_number sectors [] d = ok d
  terminate_sectors block_number sectors ((n, sector_numbers) ∷ rest) d = do
    partition ← ok_or (Map.get n d.partitions) deadline_partition_not_found
    (removed, partition') ←
        Termination.terminate_sectors bounded block_number sectors sector_numbers partition
    let d' : Deadline = record d { partitions = Map.insert n partition' d.partitions }
    d'' ←
        (if is_empty_set removed then ok d' else (do
          early ←
              expect (bounded.set_try_insert max_partitions_per_deadline n d'.early_terminations)
          ok (record d' {
            early_terminations = early;
            live_sectors = sub_u64 d'.live_sectors (len removed);
          })))
    terminate_sectors block_number sectors rest d''
