-- ===== src/StorageProvider/Partition.antt =====
-- `Partition` (pallets/storage-provider/src/partition.rs).
pub mod Termination
pub mod Consistency
pub mod Faults
pub mod Budget
pub mod Rounds
pub mod History
pub mod Upkeep
use polka_storage.Base.{
  ℕ, Bool, true, false, not, ◌&&◌, Option, none, some, List, [], ◌∷◌, is_empty, if◌then◌else◌, map,
  filter, leb,
}
use polka_storage.Btree.Set.{BtreeSet}
use polka_storage.Btree.Set
use polka_storage.Btree.Map.{BtreeMap}
use polka_storage.Btree.Bounded.{Bounded}
use polka_storage.StorageProvider.Outcome.{
  GeneralPalletError, Outcome, ok, err, panic, ◌>>=◌, ◌>>◌, expect, ensure, ok_or, map_err,
  partition_duplicate_sector_number, partition_failed_to_add_sector, partition_failed_to_add_faults,
  partition_failed_to_remove_recoveries,
}
use polka_storage.StorageProvider.Sector.{SectorOnChainInfo, max_sectors}
use polka_storage.StorageProvider.ExpirationQueue.{ExpirationQueue, add_active_sectors}
use polka_storage.StorageProvider.ExpirationQueue.Reschedule.{
  reschedule_as_faults, reschedule_recovered,
}

pub record Partition : Type 0 where
  pub sectors : BtreeSet
  pub unproven : BtreeSet
  pub faults : BtreeSet
  pub recoveries : BtreeSet
  pub terminated : BtreeSet
  pub expirations : ExpirationQueue
  pub early_terminations : BtreeMap BtreeSet

-- `Partition::new`
abbrev pub new_partition : Partition
new_partition = record {
  sectors = [];
  unproven = [];
  faults = [];
  recoveries = [];
  terminated = [];
  expirations = [];
  early_terminations = [];
}

-- A sector map's entries whose numbers are in a set, and their numbers.
unfoldable pub infos_in : BtreeSet → BtreeMap SectorOnChainInfo → List SectorOnChainInfo
infos_in s sectors = map (λ e. e.1) (filter (λ e. Set.contains e.0 s) sectors)

unfoldable pub numbers_in : BtreeSet → BtreeMap SectorOnChainInfo → BtreeSet
numbers_in s sectors = Set.insert_all (map (λ e. e.0) (filter (λ e. Set.contains e.0 s) sectors)) []

-- Declared recoveries that are faulty again.
unfoldable pub retracted_recoveries : BtreeSet → Partition → BtreeSet
retracted_recoveries sector_numbers p = Set.intersection p.recoveries sector_numbers

unfoldable pub new_faults : BtreeSet → Partition → BtreeSet
new_faults sector_numbers p =
    filter
      (λ n.
        not (Set.contains n (retracted_recoveries sector_numbers p))
        && not (Set.contains n p.terminated)
        && not (Set.contains n p.faults))
      sector_numbers

module _ (bounded : Bounded) where
  unfoldable pub live_sectors : Partition → Outcome BtreeSet
  live_sectors p = expect (bounded.set_try_from max_sectors (Set.difference p.sectors p.terminated))

  -- The loop of `add_sectors`, over the two sets that it fills.
  unfoldable pub add_loop :
      List SectorOnChainInfo → BtreeSet → BtreeSet → Outcome (BtreeSet × BtreeSet)
  add_loop [] all_sectors unproven = ok (all_sectors, unproven)
  add_loop (sector ∷ sectors) all_sectors unproven = do
    ensure (not (Set.contains sector.sector_number all_sectors)) partition_duplicate_sector_number
    all' ←
        ok_or (bounded.set_try_insert max_sectors sector.sector_number all_sectors)
          partition_failed_to_add_sector
    unproven' ←
        ok_or (bounded.set_try_insert max_sectors sector.sector_number unproven)
          partition_failed_to_add_sector
    add_loop sectors all' unproven'

  unfoldable pub add_sectors : List SectorOnChainInfo → Partition → Outcome Partition
  add_sectors sectors p = do
    expirations ← add_active_sectors bounded sectors p.expirations
    (all_sectors, unproven) ← add_loop sectors p.sectors p.unproven
    ok (record p { expirations = expirations; sectors = all_sectors; unproven = unproven })

  unfoldable pub add_faults : List SectorOnChainInfo → ℕ → Partition → Outcome Partition
  add_faults sectors fault_expiration p = do
    expirations ←
        map_err (reschedule_as_faults bounded fault_expiration sectors p.expirations)
          partition_failed_to_add_faults
    let sector_numbers = Set.insert_all (map (λ s. s.sector_number) sectors) []
    faults ←
        ok_or (bounded.set_try_from max_sectors (Set.union p.faults sector_numbers))
          partition_failed_to_add_faults
    ok (record p {
      expirations = expirations;
      faults = faults;
      unproven = Set.remove_all sector_numbers p.unproven;
    })

  unfoldable pub remove_recoveries : BtreeSet → Partition → Outcome Partition
  remove_recoveries sector_numbers p = do
    recoveries ←
        ok_or (bounded.set_try_from max_sectors (Set.difference p.recoveries sector_numbers))
          partition_failed_to_remove_recoveries
    ok (record p { recoveries = recoveries })

  unfoldable pub record_faults :
      BtreeMap SectorOnChainInfo → BtreeSet → ℕ → Partition → Outcome (BtreeSet × Partition)
  record_faults sectors sector_numbers fault_expiration p = do
    let retracted = retracted_recoveries sector_numbers p
    let faulty = new_faults sector_numbers p
    let new_fault_sectors = infos_in faulty sectors
    p' ←
        (if is_empty new_fault_sectors
          then ok p
          else add_faults new_fault_sectors fault_expiration p)
    let retracted_sectors = numbers_in retracted sectors
    p'' ← (if is_empty retracted_sectors then ok p' else remove_recoveries retracted_sectors p')
    ok (faulty, p'')

  unfoldable pub declare_faults_recovered : BtreeSet → Partition → Outcome Partition
  declare_faults_recovered sector_numbers p = do
    let new_recoveries = Set.intersection sector_numbers p.faults
    recoveries ← expect (bounded.set_try_from max_sectors (Set.union p.recoveries new_recoveries))
    ok (record p { recoveries = recoveries })

  unfoldable pub recover_all_declared_recoveries :
      BtreeMap SectorOnChainInfo → Partition → Outcome Partition
  recover_all_declared_recoveries all_sectors p = do
    expirations ←
        map_err (reschedule_recovered bounded all_sectors p.recoveries p.expirations)
          partition_failed_to_remove_recoveries
    faults ← expect (bounded.set_try_from max_sectors (Set.difference p.faults p.recoveries))
    ok (record p { expirations = expirations; faults = faults; recoveries = [] })

unfoldable pub activate_unproven : Partition → Partition
activate_unproven p = record p { unproven = [] }
