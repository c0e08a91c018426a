-- ===== src/StorageProvider/State/EarlyTerminations.antt =====
-- `pop_early_terminations` of a provider (pallets/storage-provider/src/storage_provider.rs).
use polka_storage.Base.{ℕ, not, List, [], ◌∷◌, ◌++◌, is_empty, if◌then◌else◌}
use polka_storage.Base.Words.{sub_u64}
use polka_storage.Btree.Set
use polka_storage.Btree.Bounded.{Bounded}
use polka_storage.StorageProvider.Outcome.{Outcome, ok, ◌>>=◌}
use polka_storage.StorageProvider.Partition.Termination.{
  TerminationResult, no_terminations, add_assign, below_limit,
}
use polka_storage.StorageProvider.Deadline.Expiry
use polka_storage.StorageProvider.Deadlines.{Deadlines, load_deadline, store_deadline}
use polka_storage.StorageProvider.State.{StorageProviderState}

-- What the loop over the deadlines carries.
pub record PopDeadlines : Type 0 where
  pub deadlines : Deadlines
  pub result : TerminationResult
  pub to_unset : List ℕ

module _ (bounded : Bounded) where
  unfoldable pub pop_deadline : ℕ → ℕ → ℕ → PopDeadlines → Outcome PopDeadlines
  pop_deadline max_partitions limit dl_idx s = do
    deadline ← load_deadline dl_idx s.deadlines
    ((deadline_result, more), deadline') ←
        Expiry.pop_early_terminations bounded (sub_u64 max_partitions s.result.partitions_processed)
          (sub_u64 limit s.result.sectors_processed) deadline
    ok (record {
      deadlines = store_deadline dl_idx deadline' s.deadlines;
      result = add_assign s.result deadline_result;
      to_unset = (if more then s.to_unset else s.to_unset ++ dl_idx ∷ []);
    })

  -- The loop ends once a limit is reached.
  unfoldable pub pop_deadlines : ℕ → ℕ → List ℕ → PopDeadlines → Outcome PopDeadlines
  pop_deadlines max_partitions limit [] s = ok s
  pop_deadlines max_partitions limit (dl_idx ∷ rest) s =
      pop_deadline max_partitions limit dl_idx s >>= λ s'.
      let further = pop_deadlines max_partitions limit rest s' in
      if not (below_limit s'.result max_partitions limit) then ok s' else further

  unfoldable pub pop_early_terminations :
      {PeerId : Type 0}
      → ℕ
      → ℕ
      → StorageProviderState PeerId
      → Outcome (TerminationResult × StorageProviderState PeerId)
  pop_early_terminations max_partitions limit sp =
      if is_empty sp.early_terminations then ok (no_terminations, sp) else (do
        s ←
            pop_deadlines max_partitions limit sp.early_terminations
              (record { deadlines = sp.deadlines; result = no_terminations; to_unset = [] })
        ok (
          s.result,
          record sp {
            deadlines = s.deadlines;
            early_terminations = Set.remove_all s.to_unset sp.early_terminations;
          },
        ))
