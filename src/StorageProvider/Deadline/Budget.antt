-- ===== src/StorageProvider/Deadline/Budget.antt =====
-- `Deadline::pop_early_terminations` keeps to its limit of sectors.
use polka_storage.Base.{
  ℕ, ◌≤◌, ◌<◌, ◌≡◌, ap, Bool, not, List, [], ◌∷◌, ◌++◌, arith, Bool-cases, Option-cases, inl, inr,
}
use polka_storage.Base.Words.{u64_mod, sub_u64, sub_u64-eq}
use polka_storage.Btree.Map.{BtreeMap}
use polka_storage.Btree.Map
use polka_storage.Btree.Map.Sizes.{size}
use polka_storage.Btree.Bounded.{Bounded}
use polka_storage.StorageProvider.Outcome.{ok, expect}
use polka_storage.StorageProvider.Outcome.Inversion.{bind_inverts, ok_inverts}
use polka_storage.StorageProvider.Sector.{max_partitions_per_deadline}
use polka_storage.StorageProvider.Partition.{Partition}
use polka_storage.StorageProvider.Partition.Termination.{
  TerminationResult, no_terminations, add_assign, below_limit,
}
use polka_storage.StorageProvider.Partition.Termination
use polka_storage.StorageProvider.Partition.Budget.{
  IsWithin, no_terminations-IsWithin, add_assign-IsWithin,
}
use polka_storage.StorageProvider.Partition.Budget
use polka_storage.StorageProvider.Deadline.{Deadline}
use polka_storage.StorageProvider.Deadline.Expiry.{
  PopPartitions, pop_partition, pop_partitions, pop_early_terminations,
}

module _ (bounded : Bounded) (limit : ℕ) (small : limit < u64_mod) where
  pop_partition-IsWithin :
      (n : ℕ) (p : Partition) (s s' : PopPartitions)
      → pop_partition bounded limit n p s ≡ ok s'
      → IsWithin limit s.result
      → IsWithin limit s'.result
  unfolding pop_partition
  pop_partition-IsWithin n p s s' h k =
      let done = s.result.sectors_processed in
      let (((result, more), p'), e1, h1) =
        bind_inverts (Termination.pop_early_terminations bounded (sub_u64 limit done) p) _ s' h in
      let (partitions, _, h2) =
        bind_inverts
          (expect (bounded.map_try_insert Partition max_partitions_per_deadline n p' s.partitions))
          _ s' h1 in
      let here =
        Budget.pop_early_terminations-IsWithin bounded (sub_u64 limit done) p p' result more e1
          (omega (arith, sub_u64-eq limit done k.counted small)) in
      let same = ap (λ (r : PopPartitions). r.result) (ok_inverts _ s' h2) in
      rw (← same) (add_assign-IsWithin limit s.result result small k here)

  pop_partitions-IsWithin :
      (max_partitions : ℕ) (ns : List ℕ) (s s' : PopPartitions)
      → pop_partitions bounded max_partitions limit ns s ≡ ok s'
      → IsWithin limit s.result
      → IsWithin limit s'.result
  unfolding pop_partitions
  pop_partitions-IsWithin max_partitions [] s s' h k = rw (← ok_inverts s s' h) k
  pop_partitions-IsWithin max_partitions (n ∷ ns) s s' h k =
      elim (Option-cases (Map.get n s.partitions)) [
        | inl e ↦
            pop_partitions-IsWithin max_partitions ns (record s { finished = s.finished ++ n ∷ [] })
              s' (rw (e, pop_partitions) at h) k
        | inr (p, e) ↦
            let (s1, e1, h1) =
              bind_inverts (pop_partition bounded limit n p s) _ s' (rw (e, pop_partitions) at h) in
            let here = pop_partition-IsWithin n p s s1 e1 k in
            elim (Bool-cases (not (below_limit s1.result max_partitions limit))) [
              | inl c ↦ rw (← ok_inverts s1 s' (rw c at h1)) here
              | inr c ↦ pop_partitions-IsWithin max_partitions ns s1 s' (rw c at h1) here
            ]
      ]

  pub pop_early_terminations-IsWithin :
      (max_partitions : ℕ) (d d' : Deadline) (result : TerminationResult) (more : Bool)
      → pop_early_terminations bounded max_partitions limit d ≡ ok ((result, more), d')
      → IsWithin limit result
  unfolding pop_early_terminations
  pop_early_terminations-IsWithin max_partitions d d' result more h =
      let out : (TerminationResult × Bool) × Deadline = ((result, more), d') in
      let start : PopPartitions = record {
        partitions = d.partitions;
        finished = [];
        result = no_terminations;
      } in
      let (s, e, h1) =
        bind_inverts (pop_partitions bounded max_partitions limit d.early_terminations start) _ out
          h in
      let same = ap (λ (r : (TerminationResult × Bool) × Deadline). r.0.0) (ok_inverts _ out h1) in
      rw (← same) (
        pop_partitions-IsWithin max_partitions d.early_terminations start s e
          (no_terminations-IsWithin limit 0))

  -- Where it succeeds with a limit that is a `u64`, a deadline hands out no more early terminated
  -- sectors, over all its partitions, than it counts, and counts no more than the limit.
  pub pop_early_terminations_bounded :
      (max_partitions : ℕ) (d d' : Deadline) (result : TerminationResult) (more : Bool)
      → pop_early_terminations bounded max_partitions limit d ≡ ok ((result, more), d')
      → (size result.sectors ≤ result.sectors_processed) × (result.sectors_processed ≤ limit)
  pop_early_terminations_bounded max_partitions d d' result more h =
      let w = pop_early_terminations-IsWithin max_partitions d d' result more h in
      (w.handed_out, w.counted)
