-- ===== src/StorageProvider/Pallet/Terminate.antt =====
-- `terminate_sectors` and `process_early_terminations` (pallets/storage-provider/src/lib.rs).
use polka_storage.Base.{
  ℕ, none, some, List, [], ◌∷◌, ◌++◌, map, length, ltb, leb, is_empty, if◌then◌else◌,
}
use polka_storage.Btree.Set.{BtreeSet}
use polka_storage.Btree.Set
use polka_storage.Btree.Map.{BtreeMap}
use polka_storage.Market.Types.{max_deals_per_sector}
use polka_storage.StorageProvider.Sector.{SectorOnChainInfo}
use polka_storage.StorageProvider.DeadlineInfo.{deadline_is_mutable}
use polka_storage.StorageProvider.Deadline
use polka_storage.StorageProvider.Deadline.{PartitionMap}
use polka_storage.StorageProvider.Deadlines.{load_deadline, store_deadline}
use polka_storage.StorageProvider.SectorMap.{DeadlineSectorMap, new_sector_map, try_insert}
use polka_storage.StorageProvider.State.{StorageProviderState}
use polka_storage.StorageProvider.State.EarlyTerminations.{pop_early_terminations}
use polka_storage.StorageProvider.Pallet.{
  Config, Pallet, Declaration, sectors_terminated, try_get, insert_provider, deposit_event,
  on_chain,
}
use polka_storage.StorageProvider.Pallet.Monad.{
  Call, ◌>>=◌, ◌>>◌, pure, ensure, expect, lift, map_err, cannot_terminate_immutable_deadline,
  could_not_terminate_deals,
}

-- The sectors that were terminated before the current block.
unfoldable pub sectors_to_report : ℕ → BtreeMap BtreeSet → List ℕ
sectors_to_report current_block [] = []
sectors_to_report current_block ((expiry, sector_numbers) ∷ rest) =
    (if ltb expiry current_block then sector_numbers else [])
    ++ sectors_to_report current_block rest

module _ (c : Config) where
  -- `try_into().expect(..)` of the sectors that go to the market
  unfoldable pub terminated_data : List ℕ → Call (Pallet c) (List ℕ)
  terminated_data sectors =
      expect (if leb (length sectors) max_deals_per_sector then some sectors else none)

  unfoldable pub process_early_terminations : ℕ → ℕ → Call (Pallet c) (Unit {0})
  process_early_terminations current_block owner = do
    state ← try_get c owner
    (result, state') ←
        lift (
          pop_early_terminations c.bounded c.addressed_partitions_max c.addressed_sectors_max state)
    if is_empty result.sectors then pure tt else (do
      sectors ← terminated_data (sectors_to_report current_block result.sectors)
      map_err (on_chain (c.on_sectors_terminate owner sectors)) could_not_terminate_deals
      insert_provider c owner state')

  -- The loop over the terminations.
  unfoldable pub group_terminations :
      List Declaration → DeadlineSectorMap → Call (Pallet c) DeadlineSectorMap
  group_terminations [] to_process = pure to_process
  group_terminations (term ∷ terms) to_process = do
    to_process' ← lift (try_insert c.bounded term.deadline term.partition term.sectors to_process)
    group_terminations terms to_process'

  unfoldable pub terminate_deadline :
      ℕ
      → List SectorOnChainInfo
      → ℕ
      → PartitionMap
      → StorageProviderState c.PeerId
      → Call (Pallet c) (StorageProviderState c.PeerId)
  terminate_deadline current_block sectors deadline_idx partition_sectors sp = do
    mutable ← lift (deadline_is_mutable c.post sp.proving_period_start deadline_idx current_block)
    ensure mutable cannot_terminate_immutable_deadline
    deadline ← lift (load_deadline deadline_idx sp.deadlines)
    deadline' ←
        lift (Deadline.terminate_sectors c.bounded current_block sectors partition_sectors deadline)
    pure (record sp {
      deadlines = store_deadline deadline_idx deadline' sp.deadlines;
      early_terminations = Set.insert deadline_idx sp.early_terminations;
    })

  unfoldable pub terminate_all :
      ℕ
      → List SectorOnChainInfo
      → DeadlineSectorMap
      → StorageProviderState c.PeerId
      → Call (Pallet c) (StorageProviderState c.PeerId)
  terminate_all current_block sectors [] sp = pure sp
  terminate_all current_block sectors ((deadline_idx, partition_sectors) ∷ rest) sp = do
    sp' ← terminate_deadline current_block sectors deadline_idx partition_sectors sp
    terminate_all current_block sectors rest sp'

  unfoldable pub terminate_sectors : ℕ → ℕ → List Declaration → Call (Pallet c) (Unit {0})
  terminate_sectors owner current_block terminations = do
    sp ← try_get c owner
    to_process ← group_terminations terminations new_sector_map
    sp' ← terminate_all current_block (map (λ e. e.1) sp.sectors) to_process sp
    insert_provider c owner sp'
    process_early_terminations current_block owner
    deposit_event c (sectors_terminated owner terminations)
