-- ===== src/StorageProvider/Pallet/Deposits/Calls.antt =====
-- The other extrinsics keep the deposits in their totals.
use polka_storage.Base.{ℕ, ◌≡◌, none, List, [], ◌∷◌, replicate, arith}
use polka_storage.Btree.Map.{BtreeMap}
use polka_storage.Btree.Map
use polka_storage.StorageProvider.Outcome.{
  ok_or, ensure, storage_provider_sector_number_in_use, storage_provider_sector_not_found,
}
use polka_storage.StorageProvider.Outcome
use polka_storage.StorageProvider.Assignment.{assign_deadlines}
use polka_storage.StorageProvider.Outcome.Inversion.{bind_inverts, ok_inverts}
use polka_storage.StorageProvider.Sector.{SectorOnChainInfo, max_sectors, ProveCommitSector}
use polka_storage.StorageProvider.Deadline.{Deadline}
use polka_storage.StorageProvider.State.{
  StorageProviderState, activate_sector, remove_pre_committed_sector,
}
use polka_storage.StorageProvider.State.Assign.{
  offer_deadlines, sort_by_number, place, assign_sectors_to_deadlines,
}
use polka_storage.StorageProvider.Pallet.{Config}
use polka_storage.StorageProvider.Pallet.Monad.Holds.{
  Holds, Any, Holds-bind, Holds-expect, Holds-pure, Holds-ensure, Holds-lift,
}
use polka_storage.StorageProvider.Pallet.Prove.{
  Proven, prove_sector, prove_sectors, activate_sectors, placements, prove_commit_sectors,
}
use polka_storage.StorageProvider.Pallet.Deposits.{deposited-remove-le, IsFunded}
use polka_storage.StorageProvider.Pallet.Deposits.Checks.{Holds-validate_seal_proof}
use polka_storage.StorageProvider.Pallet.Deposits.PreCommit.{Holds-push}
use polka_storage.StorageProvider.Pallet.Deposits.Storage.{
  AllFunded, Holds-try_get, Holds-insert_provider, Holds-deposit_event, Holds-on_chain,
}

module _ (c : Config) where
  activate_sector-IsFunded :
      (n : ℕ) (info : SectorOnChainInfo) (sp sp' : StorageProviderState c.PeerId)
      → activate_sector c.bounded n info sp ≡ Outcome.ok sp'
      → IsFunded sp
      → IsFunded sp'
  unfolding activate_sector
  activate_sector-IsFunded n info sp sp' e h =
      let (sectors, _, e2) =
        bind_inverts
          (ok_or (c.bounded.map_try_insert SectorOnChainInfo max_sectors n info sp.sectors)
            storage_provider_sector_number_in_use)
          _ sp' e in
      let after : StorageProviderState c.PeerId = record sp { sectors = sectors } in
      rw (← ok_inverts after sp' e2) (record { funded = h.funded })

  remove_pre_committed_sector-IsFunded :
      (n : ℕ) (sp sp' : StorageProviderState c.PeerId)
      → remove_pre_committed_sector n sp ≡ Outcome.ok sp'
      → IsFunded sp
      → IsFunded sp'
  unfolding remove_pre_committed_sector
  remove_pre_committed_sector-IsFunded n sp sp' e h =
      let (_, _, e2) =
        bind_inverts
          (ensure (Map.contains_key n sp.pre_committed_sectors) storage_provider_sector_not_found) _
          sp' e in
      let fewer = deposited-remove-le n sp.pre_committed_sectors in
      let after : StorageProviderState c.PeerId = record sp {
        pre_committed_sectors = Map.remove n sp.pre_committed_sectors;
      } in
      rw (← ok_inverts after sp' e2) (record { funded = omega (arith, fewer, h.funded) })

  assign_sectors_to_deadlines-IsFunded :
      (block : ℕ) (sectors : List SectorOnChainInfo) (size max : ℕ)
      (sp sp' : StorageProviderState c.PeerId)
      → assign_sectors_to_deadlines c.bounded c.post block sectors size max sp ≡ Outcome.ok sp'
      → IsFunded sp
      → IsFunded sp'
  unfolding assign_sectors_to_deadlines
  assign_sectors_to_deadlines-IsFunded block sectors size max sp sp' e h =
      let (deadline_vec, _, e1) =
        bind_inverts
          (offer_deadlines c.post sp.proving_period_start block 0 sp.deadlines.due
            (replicate c.post.period_deadlines none))
          _ sp' e in
      let (buckets, _, e2) =
        bind_inverts
          (assign_deadlines max size deadline_vec (sort_by_number sectors) c.post.period_deadlines)
          _ sp' e1 in
      let (due, _, e3) =
        bind_inverts (place c.bounded size 0 buckets deadline_vec sp.deadlines.due) _ sp' e2 in
      let after : StorageProviderState c.PeerId = record sp { deadlines = record { due = due } } in
      rw (← ok_inverts after sp' e3) (record { funded = h.funded })

  Holds-prove_sectors :
      (owner block : ℕ) (sp : StorageProviderState c.PeerId) (sectors : List ProveCommitSector)
      (b : Proven)
      → Holds (AllFunded c) Any (prove_sectors c owner block sp sectors b)
  unfolding prove_sectors prove_sector
  Holds-prove_sectors owner block sp [] b = Holds-pure b tt
  Holds-prove_sectors owner block sp (sector ∷ sectors) b =
      Holds-bind {Q = Any} _ _
        (Holds-bind _ _ (Holds-lift {Q = Any} _ (λ _ _. tt)) (λ precommit _.
          Holds-bind _ _ (Holds-ensure _ _) (λ _ _.
            Holds-bind _ _ (Holds-validate_seal_proof c block owner precommit sector.proof) (λ _ _.
              Holds-bind _ _ (Holds-push c _ _) (λ deals _.
                Holds-bind _ _ (Holds-push c _ _) (λ numbers _.
                  Holds-bind _ _ (Holds-expect {Q = Any} _ (λ _ _. tt))
                    (λ new _. Holds-pure _ tt)))))))
        (λ b' _. Holds-prove_sectors owner block sp sectors b')

  Holds-activate_sectors :
      (numbers : List ℕ) (new_sectors : List SectorOnChainInfo) (sp : StorageProviderState c.PeerId)
      → IsFunded sp
      → Holds (AllFunded c) IsFunded (activate_sectors c numbers new_sectors sp)
  unfolding activate_sectors
  Holds-activate_sectors [] new_sectors sp h = Holds-pure sp h
  Holds-activate_sectors (n ∷ numbers) [] sp h = Holds-pure sp h
  Holds-activate_sectors (n ∷ numbers) (s ∷ new_sectors) sp h =
      Holds-bind _ _ (Holds-lift _ (λ sp1 e. activate_sector-IsFunded n s sp sp1 e h)) (λ sp1 h1.
        Holds-bind _ _ (Holds-lift _ (λ sp2 e. remove_pre_committed_sector-IsFunded n sp1 sp2 e h1))
          (λ sp2 h2. Holds-activate_sectors numbers new_sectors sp2 h2))

  Holds-placements :
      (numbers : List ℕ) (due : List Deadline) → Holds (AllFunded c) Any (placements c numbers due)
  unfolding placements
  Holds-placements [] due = Holds-pure [] tt
  Holds-placements (n ∷ numbers) due =
      Holds-bind _ _ (Holds-expect {Q = Any} _ (λ _ _. tt))
        (λ (i, p) _. Holds-bind _ _ (Holds-placements numbers due) (λ rest _. Holds-pure _ tt))

  pub Holds-prove_commit_sectors :
      (owner block : ℕ) (sectors : List ProveCommitSector)
      → Holds (AllFunded c) Any (prove_commit_sectors c owner block sectors)
  unfolding prove_commit_sectors
  Holds-prove_commit_sectors owner block sectors = Holds-bind _ _ (Holds-try_get c owner) (λ sp h.
      Holds-bind _ _ (Holds-prove_sectors owner block sp sectors _) (λ b _.
        Holds-bind _ _ (Holds-on_chain c _) (λ _ _.
          Holds-bind _ _ (Holds-activate_sectors b.sector_numbers b.new_sectors sp h) (λ sp1 h1.
            Holds-bind _ _
              (Holds-lift _ (λ sp2 e.
                assign_sectors_to_deadlines-IsFunded block b.new_sectors _ _ sp1 sp2 e h1))
              (λ sp2 h2.
                Holds-bind _ _ (Holds-placements b.sector_numbers sp2.deadlines.due) (λ proven _.
                  Holds-bind _ _ (Holds-insert_provider c owner sp2 h2)
                    (λ _ _. Holds-deposit_event c _)))))))
