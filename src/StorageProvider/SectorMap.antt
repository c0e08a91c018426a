-- ===== src/StorageProvider/SectorMap.antt =====
-- `PartitionMap` and `DeadlineSectorMap` (pallets/storage-provider/src/sector_map.rs).
pub mod Declared
use polka_storage.Base.{ℕ, Option, none, some, List, [], ◌∷◌}
use polka_storage.Btree.Set.{BtreeSet}
use polka_storage.Btree.Map.{BtreeMap}
use polka_storage.Btree.Map
use polka_storage.Btree.Bounded.{Bounded}
use polka_storage.StorageProvider.Outcome.{
  Outcome, ok, ◌>>=◌, ok_or, map_err, sector_map_failed_to_insert_sector,
  sector_map_failed_to_insert_partition,
}
use polka_storage.StorageProvider.ExpirationSet.{try_insert_each}
use polka_storage.StorageProvider.Deadline.{PartitionMap}

abbrev pub max_terminations_per_call : ℕ
max_terminations_per_call = 32

abbrev pub DeadlineSectorMap : Type 0
DeadlineSectorMap = BtreeMap PartitionMap

-- `DeadlineSectorMap::new`
abbrev pub new_sector_map : DeadlineSectorMap
new_sector_map = []

module _ (bounded : Bounded) where
  unfoldable pub insert_sectors_into_new_partition :
      ℕ → BtreeSet → PartitionMap → Outcome PartitionMap
  insert_sectors_into_new_partition partition_number sectors m = do
    new_sectors ← try_insert_each bounded sector_map_failed_to_insert_sector sectors []
    ok_or (bounded.map_try_insert BtreeSet max_terminations_per_call partition_number new_sectors m)
        sector_map_failed_to_insert_sector

  unfoldable pub try_insert_sectors : ℕ → BtreeSet → PartitionMap → Outcome PartitionMap
  try_insert_sectors partition sectors m = elim (Map.get partition m) [
    | some s ↦ (do
      s' ← try_insert_each bounded sector_map_failed_to_insert_sector sectors s
      ok (Map.insert partition s' m))
    | none ↦
        map_err (insert_sectors_into_new_partition partition sectors m)
          sector_map_failed_to_insert_sector
  ]

  unfoldable pub try_insert : ℕ → ℕ → BtreeSet → DeadlineSectorMap → Outcome DeadlineSectorMap
  try_insert deadline_index partition sectors m = elim (Map.get deadline_index m) [
    | some p_map ↦ (do
      p_map' ← try_insert_sectors partition sectors p_map
      ok (Map.insert deadline_index p_map' m))
    | none ↦ (do
      p_map ← try_insert_sectors partition sectors []
      ok_or (bounded.map_try_insert PartitionMap max_terminations_per_call deadline_index p_map m)
          sector_map_failed_to_insert_partition)
  ]
