-- ===== src/StorageProvider/Deadline/Expiry.antt =====
-- Early terminations and expirations of a deadline's partitions
-- (pallets/storage-provider/src/deadline.rs).
use polka_storage.Base.{
  ℕ, ◌+◌, Bool, not, none, some, List, [], ◌∷◌, ◌++◌, is_empty, length, map, filter, if◌then◌else◌,
  leb,
}
use polka_storage.Base.Words.{sub_u64}
use polka_storage.Btree.Set.{BtreeSet}
use polka_storage.Btree.Set
use polka_storage.Btree.Map.{BtreeMap}
use polka_storage.Btree.Map
use polka_storage.Btree.Bounded.{Bounded}
use polka_storage.StorageProvider.Outcome.{
  Outcome, ok, ◌>>=◌, expect, ok_or, deadline_partition_not_found,
}
use polka_storage.StorageProvider.Sector.{max_sectors, max_partitions_per_deadline}
use polka_storage.StorageProvider.ExpirationSet.{ExpirationSet, empty_set}
use polka_storage.StorageProvider.Partition.{Partition}
use polka_storage.StorageProvider.Partition.Termination.{
  TerminationResult, no_terminations, add_assign, below_limit,
}
use polka_storage.StorageProvider.Partition.Termination
use polka_storage.StorageProvider.Deadline.{Deadline}

-- What the loop of `pop_early_terminations` carries.
pub record PopPartitions : Type 0 where
  pub partitions : BtreeMap Partition
  pub finished : List ℕ
  pub result : TerminationResult

module _ (bounded : Bounded) where
  unfoldable pub pop_partition : ℕ → ℕ → Partition → PopPartitions → Outcome PopPartitions
  pop_partition limit n partition s = do
    ((result, more), partition') ←
        Termination.pop_early_terminations bounded (sub_u64 limit s.result.sectors_processed)
          partition
    partitions ←
        expect
          (bounded.map_try_insert Partition max_partitions_per_deadline n partition' s.partitions)
    ok (record {
      partitions = partitions;
      finished = (if more then s.finished else s.finished ++ n ∷ []);
      result = add_assign s.result result;
    })

  -- A partition that is not there is finished; the loop ends once a limit is reached.
  unfoldable pub pop_partitions : ℕ → ℕ → List ℕ → PopPartitions → Outcome PopPartitions
  pop_partitions max_partitions limit [] s = ok s
  pop_partitions max_partitions limit (n ∷ ns) s =
      let missing =
        pop_partitions max_partitions limit ns (record s { finished = s.finished ++ n ∷ [] }) in
      elim (Map.get n s.partitions) [
        | none ↦ missing
        | some partition ↦ pop_partition limit n partition s >>= λ s'.
            let further = pop_partitions max_partitions limit ns s' in
            if not (below_limit s'.result max_partitions limit) then ok s' else further
      ]

  unfoldable pub pop_early_terminations :
      ℕ → ℕ → Deadline → Outcome ((TerminationResult × Bool) × Deadline)
  pop_early_terminations max_partitions limit d = do
    s ←
        pop_partitions max_partitions limit d.early_terminations
          (record { partitions = d.partitions; finished = []; result = no_terminations })
    let early = Set.remove_all s.finished d.early_terminations
    ok (
      (s.result, not (is_empty early)),
      record d { partitions = s.partitions; early_terminations = early },
    )

-- The expired partitions, by the blocks up to `until`, and the queue without them.
unfoldable pub pop_expired_partitions : ℕ → Deadline → List ℕ × Deadline
pop_expired_partitions until d =
    let due = filter (λ e. leb e.0 until) d.expirations_blocks in
    (
      map (λ e. e.1) due,
      record d { expirations_blocks = Map.remove_all (map (λ e. e.0) due) d.expirations_blocks },
    )

-- What the loop of `pop_expired_sectors` carries.
pub record PopSectors : Type 0 where
  pub partitions : BtreeMap Partition
  pub with_early : BtreeSet
  pub on_time : BtreeSet
  pub early : BtreeSet

module _ (bounded : Bounded) where
  unfoldable pub expire_partitions : ℕ → List ℕ → PopSectors → Outcome PopSectors
  expire_partitions until [] s = ok s
  expire_partitions until (n ∷ ns) s = do
    partition ← ok_or (Map.get n s.partitions) deadline_partition_not_found
    (expired, partition') ← Termination.pop_expired_sectors bounded until partition
    expire_partitions until ns (record {
      partitions = Map.insert n partition' s.partitions;
      with_early =
          (if is_empty expired.early_sectors then s.with_early else Set.insert n s.with_early);
      on_time = Set.union s.on_time expired.on_time_sectors;
      early = Set.union s.early expired.early_sectors;
    })

  unfoldable pub pop_expired_sectors : ℕ → Deadline → Outcome (ExpirationSet × Deadline)
  pop_expired_sectors until d =
      let (expired, d') = pop_expired_partitions until d in
      if is_empty expired then ok (empty_set, d') else (do
        s ←
            expire_partitions until expired
              (record { partitions = d'.partitions; with_early = []; on_time = []; early = [] })
        early ← expect (
            bounded.set_try_from max_partitions_per_deadline
              (Set.union d'.early_terminations s.with_early))
        on_time_sectors ← expect (bounded.set_try_from max_sectors s.on_time)
        early_sectors ← expect (bounded.set_try_from max_sectors s.early)
        ok (
          record { on_time_sectors = on_time_sectors; early_sectors = early_sectors },
          record d' {
            partitions = s.partitions;
            early_terminations = early;
            live_sectors = sub_u64 d'.live_sectors (length s.on_time + length s.early);
          },
        ))
