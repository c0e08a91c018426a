-- ===== src/StorageProvider/State/Budget.antt =====
-- `pop_early_terminations` of a provider keeps to its limit.
use polka_storage.Base.{
  ℕ, ◌≤◌, ◌<◌, ◌≡◌, ap, not, List, [], ◌∷◌, is_empty, arith, Bool-cases, inl, inr,
}
use polka_storage.Base.Words.{u64_mod, sub_u64, sub_u64-eq}
use polka_storage.Btree.Bounded.{Bounded}
use polka_storage.StorageProvider.Outcome.{ok}
use polka_storage.StorageProvider.Outcome.Inversion.{bind_inverts, ok_inverts}
use polka_storage.StorageProvider.Partition.Termination.{
  TerminationResult, no_terminations, below_limit,
}
use polka_storage.StorageProvider.Deadline.Expiry
use polka_storage.StorageProvider.Deadline.Budget
use polka_storage.Btree.Map.Sizes.{size}
use polka_storage.StorageProvider.Partition.Budget.{
  IsWithin, no_terminations-IsWithin, add_assign-IsWithin,
}
use polka_storage.StorageProvider.Deadlines.{load_deadline}
use polka_storage.StorageProvider.State.{StorageProviderState}
use polka_storage.StorageProvider.State.EarlyTerminations.{
  PopDeadlines, pop_deadline, pop_deadlines, pop_early_terminations,
}

module _ (bounded : Bounded) (max_partitions limit : ℕ) (small : limit < u64_mod) where
  pop_deadline-IsWithin :
      (dl_idx : ℕ) (s s' : PopDeadlines)
      → pop_deadline bounded max_partitions limit dl_idx s ≡ ok s'
      → IsWithin limit s.result
      → IsWithin limit s'.result
  unfolding pop_deadline
  pop_deadline-IsWithin dl_idx s s' h k =
      let done = s.result.sectors_processed in
      let (deadline, _, h1) = bind_inverts (load_deadline dl_idx s.deadlines) _ s' h in
      let parts = sub_u64 max_partitions s.result.partitions_processed in
      let (((result, more), deadline'), e1, h2) =
        bind_inverts (Expiry.pop_early_terminations bounded parts (sub_u64 limit done) deadline) _
          s' h1 in
      let here =
        Budget.pop_early_terminations-IsWithin bounded (sub_u64 limit done)
          (omega (arith, sub_u64-eq limit done k.counted small)) parts deadline deadline' result
          more e1 in
      let same = ap (λ (r : PopDeadlines). r.result) (ok_inverts _ s' h2) in
      rw (← same) (add_assign-IsWithin limit s.result result small k here)

  pop_deadlines-IsWithin :
      (indices : List ℕ) (s s' : PopDeadlines)
      → pop_deadlines bounded max_partitions limit indices s ≡ ok s'
      → IsWithin limit s.result
      → IsWithin limit s'.result
  unfolding pop_deadlines
  pop_deadlines-IsWithin [] s s' h k = rw (← ok_inverts s s' h) k
  pop_deadlines-IsWithin (dl_idx ∷ indices) s s' h k =
      let (s1, e1, h1) = bind_inverts (pop_deadline bounded max_partitions limit dl_idx s) _ s' h in
      let here = pop_deadline-IsWithin dl_idx s s1 e1 k in
      elim (Bool-cases (not (below_limit s1.result max_partitions limit))) [
        | inl c ↦ rw (← ok_inverts s1 s' (rw c at h1)) here
        | inr c ↦ pop_deadlines-IsWithin indices s1 s' (rw c at h1) here
      ]

  all-IsWithin :
      {PeerId : Type 0} (sp sp' : StorageProviderState PeerId) (result : TerminationResult)
      → pop_early_terminations bounded max_partitions limit sp ≡ ok (result, sp')
      → IsWithin limit result
  unfolding pop_early_terminations
  all-IsWithin {PeerId} sp sp' result h =
      let out : TerminationResult × StorageProviderState PeerId = (result, sp') in
      let start : PopDeadlines = record {
        deadlines = sp.deadlines;
        result = no_terminations;
        to_unset = [];
      } in
      elim (Bool-cases (is_empty sp.early_terminations)) [
        | inl e ↦
            let same =
              ap (λ (r : TerminationResult × StorageProviderState PeerId). r.0)
                (ok_inverts (no_terminations, sp) out (rw (e, pop_early_terminations) at h)) in
            rw (← same) (no_terminations-IsWithin limit 0)
        | inr e ↦
            let (s, e1, h1) =
              bind_inverts (pop_deadlines bounded max_partitions limit sp.early_terminations start)
                _ out (rw (e, pop_early_terminations) at h) in
            let same =
              ap (λ (r : TerminationResult × StorageProviderState PeerId). r.0)
                (ok_inverts _ out h1) in
            rw (← same) (
              pop_deadlines-IsWithin sp.early_terminations start s e1
                (no_terminations-IsWithin limit 0))
      ]

  -- Where it succeeds with a limit that is a `u64`, a provider hands out no more early terminated
  -- sectors, over all its deadlines, than it counts, and counts no more than the limit.
  pub pop_early_terminations-le :
      {PeerId : Type 0} (sp sp' : StorageProviderState PeerId) (result : TerminationResult)
      → pop_early_terminations bounded max_partitions limit sp ≡ ok (result, sp')
      → (size result.sectors ≤ result.sectors_processed) × (result.sectors_processed ≤ limit)
  pop_early_terminations-le sp sp' result h =
      let w = all-IsWithin sp sp' result h in (w.handed_out, w.counted)
