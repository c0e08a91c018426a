-- ===== src/StorageProvider/Deadline/Filling.antt =====
-- `Deadline::add_sectors` (pallets/storage-provider/src/deadline.rs): partitions are filled from the
-- last one on. The `loop` takes fuel.
pub mod Rounds
pub mod Updates
use polka_storage.Base.{
  ℕ, zero, suc, ◌+◌, ◌-◌, ◌*◌, ◌^◌, min, Bool, Option, none, some, List, [], ◌∷◌, ◌++◌, is_empty,
  length, take, drop, map, if◌then◌else◌, leb,
}
use polka_storage.Base.Words.{add_u64}
use polka_storage.Btree.Map.{BtreeMap}
use polka_storage.Btree.Map
use polka_storage.Btree.Bounded.{Bounded}
use polka_storage.StorageProvider.Outcome.{
  Outcome, ok, err, out_of_fuel, ◌>>=◌, ok_or, deadline_could_not_add_sectors,
}
use polka_storage.StorageProvider.Sector.{SectorOnChainInfo, max_partitions_per_deadline}
use polka_storage.StorageProvider.Partition.{Partition, new_partition}
use polka_storage.StorageProvider.Partition
use polka_storage.StorageProvider.Deadline.{Deadline}

-- What the loop carries: the partitions, and the expirations to record.
abbrev pub Filling : Type 0
Filling = BtreeMap Partition × List (ℕ × ℕ)

-- `entry(partition_idx).or_insert(Partition::new())`
unfoldable pub partition_at : ℕ → BtreeMap Partition → Partition
partition_at idx partitions = elim (Map.get idx partitions) [ some p ↦ p | none ↦ new_partition ]

-- Rounds enough for the loop: one for each partition that is full already, two for each sector.
unfoldable pub fill_fuel : List SectorOnChainInfo → BtreeMap Partition → ℕ
fill_fuel sectors partitions = length partitions + 2 * length sectors + 1

module _ (bounded : Bounded) where
  unfoldable pub fill_loop : ℕ → ℕ → ℕ → List SectorOnChainInfo → Filling → Outcome Filling
  fill_loop zero partition_size idx sectors f = out_of_fuel
  fill_loop (suc fuel) partition_size idx sectors (partitions, updates) =
      let p = partition_at idx partitions in
      let count = length p.sectors in
      let size = min (partition_size - count) (length sectors) in
      let next =
        fill_loop fuel partition_size (idx + 1) sectors (Map.insert idx p partitions, updates) in
      let filled = Partition.add_sectors bounded (take size sectors) p >>= λ p'.
      let f : Filling = (
        Map.insert idx p' partitions,
        updates ++ map (λ s. (s.expiration, idx)) (take size sectors),
      ) in
      let further = fill_loop fuel partition_size idx (drop size sectors) f in
      if is_empty (drop size sectors) then ok f else further in
      if leb partition_size count then next else filled

  -- The loop over the expirations to record; a later partition replaces an earlier one.
  unfoldable pub record_expirations : List (ℕ × ℕ) → BtreeMap ℕ → Outcome (BtreeMap ℕ)
  record_expirations [] blocks = ok blocks
  record_expirations ((block, partition) ∷ updates) blocks = do
    blocks' ←
        ok_or (bounded.map_try_insert ℕ max_partitions_per_deadline block partition blocks)
          deadline_could_not_add_sectors
    record_expirations updates blocks'

  unfoldable pub add_sectors : ℕ → List SectorOnChainInfo → Deadline → Outcome Deadline
  add_sectors partition_size sectors d = if is_empty sectors then ok d else (do
    (filled, updates) ←
        fill_loop (fill_fuel sectors d.partitions) partition_size (length d.partitions - 1) sectors
          (d.partitions, [])
    partitions ←
        ok_or (bounded.map_try_from Partition max_partitions_per_deadline filled)
          deadline_could_not_add_sectors
    blocks ← record_expirations updates d.expirations_blocks
    ok (record d {
      partitions = partitions;
      expirations_blocks = blocks;
      live_sectors = add_u64 d.live_sectors (length sectors);
      total_sectors = add_u64 d.total_sectors (length sectors);
    }))
