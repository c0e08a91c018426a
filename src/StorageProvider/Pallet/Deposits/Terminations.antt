-- ===== src/StorageProvider/Pallet/Deposits/Terminations.antt =====
-- Terminations keep the deposits in their totals.
use polka_storage.Base.{ℕ, ◌≡◌, ap, Bool-cases, inl, inr, List, [], ◌∷◌, is_empty}
use polka_storage.Btree.Set
use polka_storage.StorageProvider.Outcome
use polka_storage.StorageProvider.Outcome.Inversion.{bind_inverts, ok_inverts}
use polka_storage.StorageProvider.Sector.{SectorOnChainInfo}
use polka_storage.StorageProvider.SectorMap.{DeadlineSectorMap, new_sector_map}
use polka_storage.StorageProvider.State.{StorageProviderState}
use polka_storage.StorageProvider.State.EarlyTerminations.{pop_deadlines, pop_early_terminations}
use polka_storage.StorageProvider.Partition.Termination.{TerminationResult, no_terminations}
use polka_storage.StorageProvider.Pallet.{Config, Declaration}
use polka_storage.StorageProvider.Pallet.Monad.Holds.{
  Holds, Any, Holds-bind, Holds-expect, Holds-pure, Holds-ensure, Holds-lift, Holds-if,
  Holds-map_err,
}
use polka_storage.StorageProvider.Pallet.Terminate.{
  terminated_data, process_early_terminations, group_terminations, terminate_deadline,
  terminate_all, terminate_sectors,
}
use polka_storage.StorageProvider.Pallet.Deposits.{IsFunded}
use polka_storage.StorageProvider.Pallet.Deposits.Storage.{
  AllFunded, Holds-try_get, Holds-insert_provider, Holds-deposit_event, Holds-on_chain,
}

module _ (c : Config) where
  pop_early_terminations-IsFunded :
      (max limit : ℕ) (sp sp' : StorageProviderState c.PeerId) (r : TerminationResult)
      → pop_early_terminations c.bounded max limit sp ≡ Outcome.ok (r, sp')
      → IsFunded sp
      → IsFunded sp'
  unfolding pop_early_terminations
  pop_early_terminations-IsFunded max limit sp sp' r e h =
      elim (Bool-cases (is_empty sp.early_terminations)) [
        | inl none_left ↦
            rw
              (ap (λ (o : TerminationResult × StorageProviderState c.PeerId). o.1)
                (ok_inverts _ (r, sp') (rw (none_left, pop_early_terminations) at e)))
              at h
        | inr some_left ↦
            let (s, _, e2) =
              bind_inverts
                (pop_deadlines c.bounded max limit sp.early_terminations
                  (record { deadlines = sp.deadlines; result = no_terminations; to_unset = [] }))
                _ (r, sp') (rw (some_left, pop_early_terminations) at e) in
            let after : StorageProviderState c.PeerId = record sp {
              deadlines = s.deadlines;
              early_terminations = Set.remove_all s.to_unset sp.early_terminations;
            } in
            let same : after ≡ sp' =
              ap (λ (o : TerminationResult × StorageProviderState c.PeerId). o.1)
                (ok_inverts _ (r, sp') e2) in
            rw (← same) (record { funded = h.funded })
      ]

  pub Holds-process_early_terminations :
      (block owner : ℕ) → Holds (AllFunded c) Any (process_early_terminations c block owner)
  unfolding process_early_terminations terminated_data
  Holds-process_early_terminations block owner = Holds-bind _ _ (Holds-try_get c owner) (λ sp h.
      Holds-bind _ _
        (Holds-lift {Q = λ out. IsFunded out.1} _
          (λ (r, sp') e. pop_early_terminations-IsFunded _ _ sp sp' r e h))
        (λ (r, sp') h'. Holds-if _ _ _ (Holds-pure tt tt) (
          Holds-bind _ _ (Holds-expect {Q = Any} _ (λ _ _. tt)) (λ sectors _.
            Holds-bind _ _ (Holds-map_err _ _ (Holds-on_chain c _))
              (λ _ _. Holds-insert_provider c owner sp' h')))))

  Holds-group_terminations :
      (terms : List Declaration) (m : DeadlineSectorMap)
      → Holds (AllFunded c) Any (group_terminations c terms m)
  unfolding group_terminations
  Holds-group_terminations [] m = Holds-pure m tt
  Holds-group_terminations (term ∷ terms) m =
      Holds-bind _ _ (Holds-lift {Q = Any} _ (λ _ _. tt))
        (λ m' _. Holds-group_terminations terms m')

  Holds-terminate_all :
      (block : ℕ) (sectors : List SectorOnChainInfo) (m : DeadlineSectorMap)
      (sp : StorageProviderState c.PeerId)
      → IsFunded sp
      → Holds (AllFunded c) IsFunded (terminate_all c block sectors m sp)
  unfolding terminate_all terminate_deadline
  Holds-terminate_all block sectors [] sp h = Holds-pure sp h
  Holds-terminate_all block sectors ((i, partitions) ∷ rest) sp h =
      Holds-bind {Q = IsFunded} _ _
        (Holds-bind _ _ (Holds-lift {Q = Any} _ (λ _ _. tt)) (λ mutable _.
          Holds-bind _ _ (Holds-ensure _ _) (λ _ _.
            Holds-bind _ _ (Holds-lift {Q = Any} _ (λ _ _. tt)) (λ d _.
              Holds-bind _ _ (Holds-lift {Q = Any} _ (λ _ _. tt))
                (λ d' _. Holds-pure _ (record { funded = h.funded }))))))
        (λ sp' h'. Holds-terminate_all block sectors rest sp' h')

  pub Holds-terminate_sectors :
      (owner block : ℕ) (terminations : List Declaration)
      → Holds (AllFunded c) Any (terminate_sectors c owner block terminations)
  unfolding terminate_sectors
  Holds-terminate_sectors owner block terminations = Holds-bind _ _ (Holds-try_get c owner) (λ sp h.
      Holds-bind _ _ (Holds-group_terminations terminations new_sector_map) (λ m _.
        Holds-bind _ _ (Holds-terminate_all block _ m sp h) (λ sp' h'.
          Holds-bind _ _ (Holds-insert_provider c owner sp' h') (λ _ _.
            Holds-bind _ _ (Holds-process_early_terminations block owner)
              (λ _ _. Holds-deposit_event c _)))))
