-- ===== src/StorageProvider/Pallet/Deposits/Hooks.antt =====
-- The hook keeps the deposits in their totals.
use polka_storage.Base.{
  ℕ, ◌≡◌, refl, ◌==◌, Bool-cases, Option-cases, inl, inr, not, none, some, Option, List, [], ◌∷◌,
  is_empty, ltb, le→leb, if◌then◌else◌,
}
use polka_storage.Base.Storage
use polka_storage.Btree.Set.{BtreeSet}
use polka_storage.Btree.Set
use polka_storage.Btree.Map.{BtreeMap}
use polka_storage.Market.Types.{checked_sub}
use polka_storage.StorageProvider.Outcome
use polka_storage.StorageProvider.Outcome.Inversion.{bind_inverts, ok_inverts, not_panic}
use polka_storage.StorageProvider.Sector.{SectorOnChainInfo}
use polka_storage.StorageProvider.Partition.{Partition}
use polka_storage.StorageProvider.Deadline.{Deadline}
use polka_storage.StorageProvider.DeadlineInfo.{DeadlineInfo, period_started, has_elapsed, last}
use polka_storage.StorageProvider.Deadlines.{load_deadline, store_deadline}
use polka_storage.StorageProvider.Deadline.Expiry.{pop_expired_sectors}
use polka_storage.StorageProvider.State.{
  StorageProviderState, deadline_info, next_deadline, expire_deadline, advance_deadline,
}
use polka_storage.StorageProvider.Pallet.{
  Config, Pallet, insert_provider, deposit_event, sectors_slashed,
}
use polka_storage.StorageProvider.Pallet.Monad.{expected, gets, pure, ◌>>◌}
use polka_storage.StorageProvider.Pallet.Monad.Holds.{
  Holds, Any, IfOk, Holds-bind, Holds-expect, Holds-pure, Holds-lift, Holds-gets, Holds-if,
  Holds-attempt, Holds-returns,
}
use polka_storage.StorageProvider.Pallet.Hooks.{
  detect_expired_precommit_sectors, remove_expired, slash_expired, check_precommits,
  check_precommited_sectors, check_unproven, check_partitions, close_deadline, close_loaded,
  check_provider, check_providers, check_deadlines, on_finalize, Checked,
}
use polka_storage.StorageProvider.Pallet.Deposits.{IsFunded}
use polka_storage.StorageProvider.Pallet.Deposits.Checks.{Holds-slash_and_burn}
use polka_storage.StorageProvider.Pallet.Deposits.Expired.{expired_IsFunded}
use polka_storage.StorageProvider.Pallet.Deposits.Terminations.{Holds-process_early_terminations}
use polka_storage.StorageProvider.Pallet.Deposits.Storage.{
  AllFunded, Holds-insert_provider, Holds-deposit_event,
}

expected-IfOk :
    {A : Type 0} (Q : A → Type 0) (o : Outcome.Outcome A)
    → ((a : A) → o ≡ Outcome.ok a → Q a)
    → IfOk Q (expected o)
expected-IfOk Q (Outcome.ok a) q = q a refl
expected-IfOk Q (Outcome.err e) q = tt
expected-IfOk Q Outcome.panic q = tt
expected-IfOk Q Outcome.out_of_fuel q = tt

module _ (c : Config) where
  Holds-provider :
      (owner : ℕ)
      → Holds
          (AllFunded c)
          (λ entry. (sp : StorageProviderState c.PeerId) → entry ≡ some sp → IsFunded sp)
          (gets (λ (p : Pallet c). Storage.get owner p.storage_providers))
  Holds-provider owner = Holds-gets _ (λ p k. k.each owner)

  -- What follows the attempt to slash.
  Holds-store_slashed :
      (owner : ℕ) (removed : List ℕ) (sp : StorageProviderState c.PeerId)
      (slashed : Option (Unit {0}))
      → IsFunded sp
      → Holds (AllFunded c) Any (elim slashed [
        | none ↦ pure tt
        | some _ ↦ insert_provider c owner sp >> deposit_event c (sectors_slashed owner removed)
      ])
  Holds-store_slashed owner removed sp none h = Holds-pure tt tt
  Holds-store_slashed owner removed sp (some _) h =
      Holds-bind _ _ (Holds-insert_provider c owner sp h) (λ _ _. Holds-deposit_event c _)

  Holds-slash_expired :
      (owner block : ℕ) (sp : StorageProviderState c.PeerId)
      → IsFunded sp
      → let found = detect_expired_precommit_sectors c block sp in
        Holds (AllFunded c) Any (slash_expired c owner found.0 found.1 sp)
  unfolding slash_expired checked_sub
  Holds-slash_expired owner block sp h =
      let found = detect_expired_precommit_sectors c block sp in
      let (fits, left) = expired_IsFunded c block sp h in
      rw
        (
          le→leb found.1 (remove_expired c found.0 [] sp).1.pre_commit_deposits fits,
          slash_expired,
          checked_sub,
        )
        (Holds-bind _ _ (Holds-attempt _ (Holds-slash_and_burn c owner found.1))
          (λ slashed _. Holds-store_slashed owner _ _ slashed left))

  Holds-check_precommits :
      (block : ℕ) (owners : List ℕ) → Holds (AllFunded c) Any (check_precommits c block owners)
  unfolding check_precommits
  Holds-check_precommits block [] = Holds-pure tt tt
  Holds-check_precommits block (owner ∷ owners) = Holds-bind _ _ (Holds-provider owner) (λ entry h.
      elim (Option-cases entry) [
        | inl e ↦ rw e (Holds-check_precommits block owners)
        | inr (sp, e) ↦ rw e (
            Holds-if _ _ _ (Holds-pure tt tt) (
              Holds-bind _ _ (Holds-slash_expired owner block sp (h sp e))
                (λ _ _. Holds-check_precommits block owners)))
      ])

  Holds-check_unproven :
      (block owner expiration : ℕ) (sectors : BtreeMap SectorOnChainInfo) (n : ℕ) (p : Partition)
      (s : Checked c)
      → Holds (AllFunded c) Any (check_unproven c block owner expiration sectors n p s)
  unfolding check_unproven
  Holds-check_unproven block owner expiration sectors n p (ps, faulty) =
      Holds-bind _ _ (Holds-attempt _ (Holds-lift {Q = Any} _ (λ _ _. tt))) (λ recorded _.
        elim (Option-cases recorded) [
          | inl e ↦ rw e (Holds-pure _ tt)
          | inr ((new_faults, p'), e) ↦ rw e (
              Holds-bind _ _ (Holds-attempt _ (Holds-process_early_terminations c block owner))
                (λ processed _. elim (Option-cases processed) [
                  | inl e2 ↦ rw e2 (Holds-pure _ tt)
                  | inr (_, e2) ↦ rw e2 (
                      Holds-if _ _ _ (Holds-pure _ tt) (
                        Holds-bind _ _ (Holds-expect {Q = Any} _ (λ _ _. tt))
                          (λ faults _. Holds-pure _ tt)))
                ]))
        ])

  Holds-check_partitions :
      (block owner expiration : ℕ) (sectors : BtreeMap SectorOnChainInfo) (posted : BtreeSet)
      (rest : BtreeMap Partition) (s : Checked c)
      → Holds (AllFunded c) Any (check_partitions c block owner expiration sectors posted rest s)
  unfolding check_partitions
  Holds-check_partitions block owner expiration sectors posted [] s = Holds-pure s tt
  Holds-check_partitions block owner expiration sectors posted ((n, p) ∷ rest) s =
      Holds-bind {Q = Any} _ _
        (Holds-if _ _ _ (Holds-pure s tt) (
          Holds-if _ _ _ (Holds-pure s tt)
            (Holds-check_unproven block owner expiration sectors n p s)))
        (λ s' _. Holds-check_partitions block owner expiration sectors posted rest s')

  expire_deadline-IsFunded :
      (d : DeadlineInfo) (sp sp' : StorageProviderState c.PeerId)
      → expire_deadline c.bounded d sp ≡ Outcome.ok sp'
      → IsFunded sp
      → IsFunded sp'
  unfolding expire_deadline
  expire_deadline-IsFunded d sp sp' e h =
      let (deadline, _, e1) = bind_inverts (load_deadline d.idx sp.deadlines) _ sp' e in
      let ((expired, deadline'), _, e2) =
        bind_inverts (pop_expired_sectors c.bounded (last d) deadline) _ sp' e1 in
      let after : StorageProviderState c.PeerId = record sp {
        deadlines = store_deadline d.idx deadline' sp.deadlines;
        early_terminations =
            (if is_empty expired.early_sectors
              then sp.early_terminations
              else Set.insert d.idx sp.early_terminations);
      } in
      rw (← ok_inverts after sp' e2) (record { funded = h.funded })

  next_deadline-IsFunded :
      (sp : StorageProviderState c.PeerId) → IsFunded sp → IsFunded (next_deadline c.post sp)
  unfolding next_deadline
  next_deadline-IsFunded sp h = record { funded = h.funded }

  advance_deadline-IsFunded :
      (block : ℕ) (sp sp' : StorageProviderState c.PeerId)
      → advance_deadline c.bounded c.post block sp ≡ Outcome.ok sp'
      → IsFunded sp
      → IsFunded sp'
  unfolding advance_deadline
  advance_deadline-IsFunded block sp sp' e h =
      let dl_info = deadline_info c.post block sp in
      elim (Bool-cases (not (period_started dl_info))) [
        | inl early ↦ rw (ok_inverts sp sp' (rw (early, advance_deadline) at e)) at h
        | inr started ↦ elim (Bool-cases (c.post.period_deadlines == 0)) [
          | inl zero ↦ not_panic _ sp' (rw (started, zero, advance_deadline) at e)
          | inr more ↦
              expire_deadline-IsFunded dl_info (next_deadline c.post sp) sp'
                (rw (started, more, advance_deadline) at e) (next_deadline-IsFunded sp h)
        ]
      ]

  advanced-IsFunded :
      (block : ℕ) (sp : StorageProviderState c.PeerId)
      → IsFunded sp
      → IfOk IsFunded (expected (advance_deadline c.bounded c.post block sp))
  advanced-IsFunded block sp h =
      expected-IfOk IsFunded (advance_deadline c.bounded c.post block sp)
        (λ sp' e. advance_deadline-IsFunded block sp sp' e h)

  Holds-close_deadline :
      (block owner : ℕ) (current : DeadlineInfo) (d : Deadline) (sp : StorageProviderState c.PeerId)
      → IsFunded sp
      → Holds (AllFunded c) Any (close_deadline c block owner current d sp)
  unfolding close_deadline
  Holds-close_deadline block owner current d sp h =
      Holds-bind _ _ (Holds-check_partitions block owner _ sp.sectors _ _ _)
        (λ (partitions, faulty) _.
          Holds-bind {Q = Any} _ _
            (Holds-if _ _ _ (Holds-pure tt tt) (
              Holds-bind _ _ (Holds-expect {Q = Any} _ (λ _ _. tt))
                (λ faulty' _. Holds-deposit_event c _)))
            (λ _ _.
              Holds-bind _ _
                (Holds-returns _ (advanced-IsFunded block _ (record { funded = h.funded })))
                (λ advanced k. Holds-insert_provider c owner advanced k)))

  Holds-close_loaded :
      (block owner : ℕ) (current : DeadlineInfo) (loaded : Option Deadline)
      (sp : StorageProviderState c.PeerId)
      → IsFunded sp
      → Holds (AllFunded c) Any (close_loaded c block owner current sp loaded)
  unfolding close_loaded
  Holds-close_loaded block owner current none sp h = Holds-pure tt tt
  Holds-close_loaded block owner current (some d) sp h =
      Holds-close_deadline block owner current d sp h

  Holds-check_provider :
      (block owner : ℕ) (sp : StorageProviderState c.PeerId)
      → IsFunded sp
      → Holds (AllFunded c) Any (check_provider c block owner sp)
  unfolding check_provider
  Holds-check_provider block owner sp h =
      let current = deadline_info c.post block sp in
      Holds-if (ltb block sp.proving_period_start) _ _ (Holds-pure tt tt) (
        Holds-if (not (period_started current)) _ _ (Holds-pure tt tt) (
          Holds-if (not (has_elapsed current)) _ _ (Holds-pure tt tt) (
            Holds-bind _ _ (Holds-attempt _ (Holds-lift {Q = Any} _ (λ _ _. tt)))
              (λ loaded _. Holds-close_loaded block owner current loaded sp h))))

  Holds-check_providers :
      (block : ℕ) (owners : List ℕ) → Holds (AllFunded c) Any (check_providers c block owners)
  unfolding check_providers
  Holds-check_providers block [] = Holds-pure tt tt
  Holds-check_providers block (owner ∷ owners) = Holds-bind _ _ (Holds-provider owner) (λ entry h.
      Holds-bind {Q = Any} _ _
        (elim (Option-cases entry) [
          | inl e ↦ rw e (Holds-pure tt tt)
          | inr (sp, e) ↦ rw e (Holds-check_provider block owner sp (h sp e))
        ])
        (λ _ _. Holds-check_providers block owners))

  pub Holds-on_finalize : (block : ℕ) → Holds (AllFunded c) Any (on_finalize c block)
  unfolding on_finalize check_precommited_sectors check_deadlines
  Holds-on_finalize block =
      Holds-bind {Q = Any} _ _
        (Holds-bind _ _ (Holds-gets {Q = Any} _ (λ _ _. tt))
          (λ owners _. Holds-check_precommits block owners))
        (λ _ _.
          Holds-bind _ _ (Holds-gets {Q = Any} _ (λ _ _. tt))
            (λ owners _. Holds-check_providers block owners))
