-- ===== src/StorageProvider/Pallet/Declare.antt =====
-- `declare_faults` and `declare_faults_recovered` (pallets/storage-provider/src/lib.rs), with the
-- parameters of fault.rs.
use polka_storage.Base.{ℕ, not, List, [], ◌∷◌, is_empty, ltb}
use polka_storage.Base.Words.{add_u64}
use polka_storage.StorageProvider.Outcome.{
  deadline_could_not_add_sectors, deadline_index_out_of_range,
}
use polka_storage.StorageProvider.DeadlineInfo.{
  DeadlineInfo, new_deadline_info, next_not_elapsed, fault_cutoff_passed, last,
}
use polka_storage.StorageProvider.Deadline
use polka_storage.StorageProvider.Deadline.{PartitionMap}
use polka_storage.StorageProvider.Deadlines.{load_deadline, store_deadline, len}
use polka_storage.StorageProvider.SectorMap.{DeadlineSectorMap, new_sector_map, try_insert}
use polka_storage.StorageProvider.State.{StorageProviderState}
use polka_storage.StorageProvider.Pallet.{
  Config, Pallet, Declaration, faults_declared, faults_recovered, try_get, insert_provider,
  deposit_event,
}
use polka_storage.StorageProvider.Pallet.Monad.{
  Call, ◌>>=◌, ◌>>◌, pure, ensure, lift, general_pallet_error, fault_declaration_too_late,
  fault_recovery_too_late,
}

module _ (c : Config) where
  -- The loop over the declarations.
  unfoldable pub group_declarations :
      List Declaration → DeadlineSectorMap → Call (Pallet c) DeadlineSectorMap
  group_declarations [] to_process = pure to_process
  group_declarations (term ∷ terms) to_process = do
    ensure (not (is_empty term.sectors)) (general_pallet_error deadline_could_not_add_sectors)
    to_process' ← lift (try_insert c.bounded term.deadline term.partition term.sectors to_process)
    group_declarations terms to_process'

  -- The deadline of a declaration, as it is at its next occurrence.
  unfoldable pub target_deadline :
      ℕ → StorageProviderState c.PeerId → ℕ → Call (Pallet c) DeadlineInfo
  target_deadline current_block sp deadline_idx = do
    ensure (ltb deadline_idx (len sp.deadlines)) (general_pallet_error deadline_index_out_of_range)
    lift (
        next_not_elapsed
          (new_deadline_info c.post current_block sp.proving_period_start deadline_idx))

  unfoldable pub record_deadline_faults :
      ℕ
      → ℕ
      → PartitionMap
      → StorageProviderState c.PeerId
      → Call (Pallet c) (StorageProviderState c.PeerId)
  record_deadline_faults current_block deadline_idx partition_map sp = do
    target_dl ← target_deadline current_block sp deadline_idx
    ensure (not (fault_cutoff_passed target_dl)) fault_declaration_too_late
    dl ← lift (load_deadline deadline_idx sp.deadlines)
    dl' ← lift (
        Deadline.record_faults c.bounded sp.sectors partition_map
          (add_u64 (last target_dl) c.fault_max_age) dl)
    pure (record sp { deadlines = store_deadline deadline_idx dl' sp.deadlines })

  unfoldable pub record_all_faults :
      ℕ
      → DeadlineSectorMap
      → StorageProviderState c.PeerId
      → Call (Pallet c) (StorageProviderState c.PeerId)
  record_all_faults current_block [] sp = pure sp
  record_all_faults current_block ((deadline_idx, partition_map) ∷ rest) sp = do
    sp' ← record_deadline_faults current_block deadline_idx partition_map sp
    record_all_faults current_block rest sp'

  unfoldable pub declare_faults : ℕ → ℕ → List Declaration → Call (Pallet c) (Unit {0})
  declare_faults owner current_block faults = do
    sp ← try_get c owner
    to_process ← group_declarations faults new_sector_map
    sp' ← record_all_faults current_block to_process sp
    insert_provider c owner sp'
    deposit_event c (faults_declared owner faults)

  unfoldable pub record_deadline_recoveries :
      ℕ
      → ℕ
      → PartitionMap
      → StorageProviderState c.PeerId
      → Call (Pallet c) (StorageProviderState c.PeerId)
  record_deadline_recoveries current_block deadline_idx partition_map sp = do
    target_dl ← target_deadline current_block sp deadline_idx
    ensure (not (fault_cutoff_passed target_dl)) fault_recovery_too_late
    dl ← lift (load_deadline deadline_idx sp.deadlines)
    dl' ← lift (Deadline.declare_faults_recovered c.bounded sp.sectors partition_map dl)
    pure (record sp { deadlines = store_deadline deadline_idx dl' sp.deadlines })

  unfoldable pub record_all_recoveries :
      ℕ
      → DeadlineSectorMap
      → StorageProviderState c.PeerId
      → Call (Pallet c) (StorageProviderState c.PeerId)
  record_all_recoveries current_block [] sp = pure sp
  record_all_recoveries current_block ((deadline_idx, partition_map) ∷ rest) sp = do
    sp' ← record_deadline_recoveries current_block deadline_idx partition_map sp
    record_all_recoveries current_block rest sp'

  unfoldable pub declare_faults_recovered : ℕ → ℕ → List Declaration → Call (Pallet c) (Unit {0})
  declare_faults_recovered owner current_block recoveries = do
    sp ← try_get c owner
    to_process ← group_declarations recoveries new_sector_map
    sp' ← record_all_recoveries current_block to_process sp
    insert_provider c owner sp'
    deposit_event c (faults_recovered owner recoveries)
