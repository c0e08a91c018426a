-- ===== src/StorageProvider/Partition/Termination.antt =====
-- Terminations and expirations of a partition's sectors, and `TerminationResult`
-- (pallets/storage-provider/src/partition.rs).
use polka_storage.Base.{
  ℕ, Bool, not, ◌&&◌, Option, none, some, List, [], ◌∷◌, ◌++◌, is_empty, length, take,
  if◌then◌else◌, filter, ltb, leb, ◌==◌,
}
use polka_storage.Base.Words.{add_u64, sub_u64}
use polka_storage.Btree.Set.{BtreeSet}
use polka_storage.Btree.Set
use polka_storage.Btree.Map.{BtreeMap}
use polka_storage.Btree.Map
use polka_storage.Btree.Bounded.{Bounded}
use polka_storage.StorageProvider.Outcome.{
  Outcome, ok, ◌>>=◌, ◌>>◌, expect, ensure, partition_sectors_not_live,
  partition_cannot_pop_unproven_sectors, partition_unexpected_recoveries,
  partition_expired_sectors_already_terminated,
}
use polka_storage.StorageProvider.Sector.{SectorOnChainInfo, max_sectors}
use polka_storage.StorageProvider.ExpirationSet.{ExpirationSet}
use polka_storage.StorageProvider.ExpirationQueue.{pop_until}
use polka_storage.StorageProvider.ExpirationQueue.Removal.{remove_sectors}
use polka_storage.StorageProvider.Partition.{Partition, live_sectors}

pub record TerminationResult : Type 0 where
  pub sectors : BtreeMap BtreeSet
  pub partitions_processed : ℕ
  pub sectors_processed : ℕ

-- `TerminationResult::new`
abbrev pub no_terminations : TerminationResult
no_terminations = record { sectors = []; partitions_processed = 0; sectors_processed = 0 }

-- The loop of `add_assign`: sectors of a block that both results have are joined.
unfoldable pub join_sectors : BtreeMap BtreeSet → BtreeMap BtreeSet → BtreeMap BtreeSet
join_sectors [] sectors = sectors
join_sectors ((block, new_sectors) ∷ rest) sectors = join_sectors rest (
    Map.insert block
      (elim (Map.get block sectors) [ some old ↦ Set.union old new_sectors | none ↦ new_sectors ])
      sectors)

unfoldable pub add_assign : TerminationResult → TerminationResult → TerminationResult
add_assign r rhs = record {
  partitions_processed = add_u64 r.partitions_processed rhs.partitions_processed;
  sectors_processed = add_u64 r.sectors_processed rhs.sectors_processed;
  sectors = join_sectors rhs.sectors r.sectors;
}

unfoldable pub below_limit : TerminationResult → ℕ → ℕ → Bool
below_limit r partition_limit sector_limit =
    ltb r.partitions_processed partition_limit && ltb r.sectors_processed sector_limit

-- What the loop of `pop_early_terminations` carries.
pub record Pop : Type 0 where
  pub processed : List ℕ
  pub remaining : Option (BtreeSet × ℕ)
  pub result : TerminationResult

-- One round, for the sectors terminated at one block.
unfoldable pub pop_block : ℕ → ℕ → BtreeSet → Pop → Pop
pop_block budget block sectors s =
    let count = length sectors in
    let limit = sub_u64 budget s.result.sectors_processed in
    let some_of_them = take limit sectors in
    if ltb limit count
    then record s {
      remaining = some (filter (λ n. not (Set.contains n some_of_them)) sectors, block);
      result = record s.result {
        sectors_processed = add_u64 s.result.sectors_processed limit;
        sectors = Map.insert block some_of_them s.result.sectors;
      };
    }
    else record s {
      processed = s.processed ++ block ∷ [];
      result = record s.result {
        sectors_processed = add_u64 s.result.sectors_processed count;
        sectors = Map.insert block sectors s.result.sectors;
      };
    }

-- The loop ends once the limit is reached.
unfoldable pub pop_blocks : ℕ → List (ℕ × BtreeSet) → Pop → Pop
pop_blocks budget [] s = s
pop_blocks budget ((block, sectors) ∷ rest) s =
    let s' = pop_block budget block sectors s in
    let further = pop_blocks budget rest s' in
    if leb budget s'.result.sectors_processed then s' else further

-- `processed.contains(..)` on the list of processed blocks
unfoldable pub listed : ℕ → List ℕ → Bool
listed block processed = Set.contains block processed

module _ (bounded : Bounded) where
  unfoldable pub record_early_terminations : ℕ → BtreeSet → Partition → Outcome Partition
  record_early_terminations block_number sectors p = do
    early ←
        expect
          (bounded.map_try_insert BtreeSet max_sectors block_number sectors p.early_terminations)
    ok (record p { early_terminations = early })

  -- The end of `terminate_sectors`: what is removed is terminated, and nothing else any more.
  unfoldable pub clear_terminated : BtreeSet → Partition → Outcome Partition
  clear_terminated removed_sectors p = do
    let unproven_sectors = Set.intersection removed_sectors p.unproven
    faults ← expect (bounded.set_try_from max_sectors (Set.difference p.faults removed_sectors))
    recoveries ←
        expect (bounded.set_try_from max_sectors (Set.difference p.recoveries removed_sectors))
    terminated ← expect (bounded.set_try_from max_sectors (Set.union p.terminated removed_sectors))
    unproven ←
        expect (bounded.set_try_from max_sectors (Set.difference p.unproven unproven_sectors))
    ok (record p {
      faults = faults;
      recoveries = recoveries;
      terminated = terminated;
      unproven = unproven;
    })

  unfoldable pub terminate_sectors :
      ℕ → List SectorOnChainInfo → BtreeSet → Partition → Outcome (ExpirationSet × Partition)
  terminate_sectors block_number sectors sector_numbers p = do
    live ← live_sectors bounded p
    ensure (is_empty (Set.difference sector_numbers live)) partition_sectors_not_live
    let to_remove = filter (λ s. Set.contains s.sector_number sector_numbers) sectors
    (removed, expirations) ← remove_sectors bounded to_remove p.faults p.expirations
    removed_sectors ←
        expect (
          bounded.set_try_from max_sectors
            (Set.union removed.on_time_sectors removed.early_sectors))
    p' ←
        record_early_terminations block_number removed_sectors
          (record p { expirations = expirations })
    p'' ← clear_terminated removed_sectors p'
    ok (removed, p'')

  -- The rest of a block that was processed in part stays.
  unfoldable pub keep_remaining :
      Option (BtreeSet × ℕ) → BtreeMap BtreeSet → Outcome (BtreeMap BtreeSet)
  keep_remaining none early = ok early
  keep_remaining (some (sectors, block)) early = do
    rest ← expect (bounded.set_try_from max_sectors sectors)
    expect (bounded.map_try_insert BtreeSet max_sectors block rest early)

  unfoldable pub pop_early_terminations :
      ℕ → Partition → Outcome ((TerminationResult × Bool) × Partition)
  pop_early_terminations limit p = do
    let s = pop_blocks limit p.early_terminations (record {
      processed = [];
      remaining = none;
      result = record no_terminations { partitions_processed = 1 };
    })
    early ← keep_remaining s.remaining p.early_terminations
    left ← expect (
        bounded.map_try_from BtreeSet max_sectors
          (filter (λ e. not (listed e.0 s.processed)) early))
    ok ((s.result, not (is_empty left)), record p { early_terminations = left })

  unfoldable pub pop_expired_sectors : ℕ → Partition → Outcome (ExpirationSet × Partition)
  pop_expired_sectors until p = do
    ensure (is_empty p.unproven) partition_cannot_pop_unproven_sectors
    (popped, expirations) ← pop_until bounded until p.expirations
    let expired = Set.union popped.on_time_sectors popped.early_sectors
    ensure (is_empty p.recoveries) partition_unexpected_recoveries
    ensure (length (Set.intersection p.terminated expired) == 0)
        partition_expired_sectors_already_terminated
    terminated ← expect (bounded.set_try_from max_sectors (Set.union p.terminated expired))
    p' ← record_early_terminations until popped.early_sectors (record p {
      expirations = expirations;
      terminated = terminated;
      faults = Set.remove_all expired p.faults;
    })
    ok (popped, p')
