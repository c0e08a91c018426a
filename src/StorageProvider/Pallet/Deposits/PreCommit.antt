-- ===== src/StorageProvider/Pallet/Deposits/PreCommit.antt =====
-- `pre_commit_sectors` and `register_storage_provider` keep the deposits in their totals.
use polka_storage.Base.{
  ℕ, ◌+◌, ◌≤◌, ◌≡◌, some, List, [], ◌∷◌, ◌++◌, length, arith, some_inverts, none_inverts, if_some,
  Option-cases, inl, inr,
}
use polka_storage.Btree.Bounded.{vec_try_push_inverts, map_try_insert_inverts}
use polka_storage.Market.Types.{checked_add, max_sectors_per_call}
use polka_storage.StorageProvider.Outcome
use polka_storage.StorageProvider.Outcome.Inversion.{bind_inverts, ok_inverts, ok_or_inverts}
use polka_storage.StorageProvider.Sector.{
  SectorPreCommitInfo, SectorPreCommitOnChainInfo, RegisteredPostProof, max_sectors, to_sector_deal,
}
use polka_storage.StorageProvider.State.{
  StorageProviderState, new_state, add_pre_commit_deposit, put_pre_committed_sector,
}
use polka_storage.StorageProvider.Pallet.{Config}
use polka_storage.StorageProvider.Pallet.Monad.Holds.{
  Holds, Any, Holds-bind, Holds-expect, Holds-pure, Holds-ensure, Holds-ok_or, Holds-lift,
  Holds-gets,
}
use polka_storage.StorageProvider.Pallet.Register.{register_storage_provider}
use polka_storage.StorageProvider.Pallet.PreCommit.{
  Batch, empty_batch, push, add_to_batch, check_sector, check_sectors, put_sectors,
  record_pre_commits, pre_commit_sectors,
}
use polka_storage.StorageProvider.Pallet.Deposits.{deposited, deposited-insert-le, IsFunded}
use polka_storage.StorageProvider.Pallet.Deposits.Checks.{
  Holds-validate_sector_for_pre_commit, Holds-validate_expiration, Holds-check_commd_for_pre_commit,
  Holds-assign_proving_period_offset,
}
use polka_storage.StorageProvider.Pallet.Deposits.Storage.{
  AllFunded, Holds-try_get, Holds-insert_provider, Holds-deposit_event, Holds-on_chain,
}

-- The deposits that a batch will put in.
unfoldable sum_of : List SectorPreCommitOnChainInfo → ℕ
sum_of [] = 0
sum_of (sector ∷ sectors) = sector.pre_commit_deposit + sum_of sectors

sum_of-snoc :
    (s : SectorPreCommitOnChainInfo) (xs : List SectorPreCommitOnChainInfo)
    → sum_of (xs ++ s ∷ []) ≡ sum_of xs + s.pre_commit_deposit
unfolding sum_of
sum_of-snoc s [] = omega arith
sum_of-snoc s (x ∷ xs) = omega (arith, sum_of-snoc s xs)

record IsCovered (b : Batch) : Type 0 where
  covered : sum_of b.on_chain_sectors ≤ b.total_deposit

-- What a provider is left with, once the sectors are put in.
record IsReady {PeerId : Type 0} (sectors : List SectorPreCommitOnChainInfo)
    (sp : StorageProviderState PeerId) : Type 0 where
  ready : deposited sp.pre_committed_sectors + sum_of sectors ≤ sp.pre_commit_deposits

checked_add_inverts : (a b r : ℕ) → checked_add a b ≡ some r → r ≡ a + b
unfolding checked_add
checked_add_inverts a b r h = if_some _ (a + b) r h

module _ (c : Config) where
  pub Holds-push :
      {A : Type 0} (x : A) (xs : List A)
      → Holds (AllFunded c) (λ ys. ys ≡ xs ++ x ∷ []) (push c x xs)
  unfolding push
  Holds-push x xs =
      Holds-expect _ (λ ys e. vec_try_push_inverts c.bounded max_sectors_per_call x xs ys e)

  Holds-add_to_batch :
      (sector : SectorPreCommitInfo) (s : SectorPreCommitOnChainInfo) (commd : List ℕ) (b : Batch)
      → IsCovered b
      → Holds (AllFunded c) IsCovered (add_to_batch c sector s commd b)
  unfolding add_to_batch
  Holds-add_to_batch sector s commd b h =
      Holds-bind _ _ (Holds-push (length s.info.deal_ids) b.deal_amounts) (λ amounts _.
        Holds-bind _ _ (Holds-push commd b.unsealed_cids) (λ cids _.
          Holds-bind _ _ (Holds-push (to_sector_deal s) b.all_sector_deals) (λ deals _.
            Holds-bind _ _
              (Holds-expect _ (checked_add_inverts b.total_deposit s.pre_commit_deposit))
              (λ total e. Holds-bind _ _ (Holds-push s b.on_chain_sectors) (λ put f.
                Holds-bind _ _ (Holds-push sector b.pre_committed_sectors) (λ sectors _.
                  Holds-pure _ (record {
                    covered =
                        rw (e, f, sum_of-snoc s b.on_chain_sectors) (omega (arith, h.covered));
                  })))))))

  Holds-check_sector :
      (current_block : ℕ) (sp : StorageProviderState c.PeerId) (sector : SectorPreCommitInfo)
      (b : Batch)
      → IsCovered b
      → Holds (AllFunded c) IsCovered (check_sector c current_block sp sector b)
  unfolding check_sector
  Holds-check_sector current_block sp sector b h =
      Holds-bind _ _ (Holds-validate_sector_for_pre_commit c sp sector) (λ _ _.
        Holds-bind _ _ (Holds-validate_expiration c current_block _ sector.expiration) (λ _ _.
          Holds-bind _ _ (Holds-ok_or {Q = Any} _ _ (λ _ _. tt)) (λ commd _.
            Holds-bind _ _ (Holds-ok_or {Q = Any} _ _ (λ _ _. tt))
              (λ _ _. Holds-add_to_batch sector _ commd.cid b h))))

  Holds-check_sectors :
      (current_block : ℕ) (sp : StorageProviderState c.PeerId) (sectors : List SectorPreCommitInfo)
      (b : Batch)
      → IsCovered b
      → Holds (AllFunded c) IsCovered (check_sectors c current_block sp sectors b)
  unfolding check_sectors
  Holds-check_sectors current_block sp [] b h = Holds-pure b h
  Holds-check_sectors current_block sp (sector ∷ sectors) b h =
      Holds-bind _ _ (Holds-check_sector current_block sp sector b h)
        (λ b' h'. Holds-check_sectors current_block sp sectors b' h')

  put_pre_committed_sector-IsReady :
      (s : SectorPreCommitOnChainInfo) (sectors : List SectorPreCommitOnChainInfo)
      (sp sp' : StorageProviderState c.PeerId)
      → put_pre_committed_sector c.bounded s sp ≡ Outcome.ok sp'
      → IsReady (s ∷ sectors) sp
      → IsReady sectors sp'
  unfolding put_pre_committed_sector sum_of
  put_pre_committed_sector-IsReady s sectors sp sp' e h =
      let (m, e1, e2) = bind_inverts _ _ sp' e in
      let put =
        map_try_insert_inverts c.bounded max_sectors s.info.sector_number s sp.pre_committed_sectors
          m (ok_or_inverts _ _ m e1) in
      let fits = deposited-insert-le s.info.sector_number s sp.pre_committed_sectors in
      rw (← ok_inverts _ sp' e2) (record { ready = rw put (omega (arith, fits, h.ready)) })

  Holds-put_sectors :
      (sectors : List SectorPreCommitOnChainInfo) (sp : StorageProviderState c.PeerId)
      → IsReady sectors sp
      → Holds (AllFunded c) IsFunded (put_sectors c sectors sp)
  unfolding put_sectors
  Holds-put_sectors [] sp h = Holds-pure sp (record { funded = omega (arith, h.ready) })
  Holds-put_sectors (s ∷ sectors) sp h =
      Holds-bind _ _ (Holds-lift _ (λ sp' e. put_pre_committed_sector-IsReady s sectors sp sp' e h))
        (λ sp' h'. Holds-put_sectors sectors sp' h')

  add_pre_commit_deposit-IsReady :
      (b : Batch) (sp sp' : StorageProviderState c.PeerId)
      → add_pre_commit_deposit b.total_deposit sp ≡ some sp'
      → IsCovered b
      → IsFunded sp
      → IsReady b.on_chain_sectors sp'
  unfolding add_pre_commit_deposit
  add_pre_commit_deposit-IsReady b sp sp' e h k =
      elim (Option-cases (checked_add sp.pre_commit_deposits b.total_deposit)) [
        | inl none_ ↦ none_inverts _ sp' (rw (none_, add_pre_commit_deposit) at e)
        | inr (total, some_) ↦
            let sum = checked_add_inverts sp.pre_commit_deposits b.total_deposit total some_ in
            rw (← some_inverts _ sp' (rw (some_, add_pre_commit_deposit) at e))
              (record { ready = omega (arith, sum, h.covered, k.funded) })
      ]

  Holds-record_pre_commits :
      (owner : ℕ) (b : Batch) → IsCovered b → Holds (AllFunded c) Any (record_pre_commits c owner b)
  unfolding record_pre_commits
  Holds-record_pre_commits owner b h = Holds-bind _ _ (Holds-try_get c owner) (λ sp k.
      Holds-bind _ _ (Holds-ok_or _ _ (λ sp1 e. add_pre_commit_deposit-IsReady b sp sp1 e h k))
        (λ sp1 k1.
          Holds-bind _ _ (Holds-put_sectors b.on_chain_sectors sp1 k1)
            (λ sp2 k2. Holds-insert_provider c owner sp2 k2)))

  pub Holds-pre_commit_sectors :
      (owner current_block : ℕ) (sectors : List SectorPreCommitInfo)
      → Holds (AllFunded c) Any (pre_commit_sectors c owner current_block sectors)
  unfolding pre_commit_sectors sum_of
  Holds-pre_commit_sectors owner current_block sectors =
      Holds-bind _ _ (Holds-try_get c owner) (λ sp _.
        Holds-bind _ _
          (Holds-check_sectors current_block sp sectors empty_batch
            (record { covered = omega arith }))
          (λ b h. Holds-bind _ _ (Holds-on_chain c _) (λ calculated _.
            Holds-bind _ _ (Holds-check_commd_for_pre_commit c _ _ _ _) (λ _ _.
              Holds-bind _ _ (Holds-gets {Q = Any} _ (λ _ _. tt)) (λ balance _.
                Holds-bind _ _ (Holds-ensure _ _) (λ _ _.
                  Holds-bind _ _ (Holds-on_chain c _) (λ _ _.
                    Holds-bind _ _ (Holds-record_pre_commits owner b h)
                      (λ _ _. Holds-deposit_event c _))))))))

  pub Holds-register_storage_provider :
      (owner current_block : ℕ) (peer_id : c.PeerId) (proof : RegisteredPostProof)
      → Holds (AllFunded c) Any (register_storage_provider c owner current_block peer_id proof)
  unfolding register_storage_provider new_state deposited
  Holds-register_storage_provider owner current_block peer_id proof =
      Holds-bind _ _ (Holds-gets {Q = Any} _ (λ _ _. tt)) (λ registered _.
        Holds-bind _ _ (Holds-ensure _ _) (λ _ _.
          Holds-bind _ _ (Holds-assign_proving_period_offset c owner current_block) (λ offset _.
            Holds-bind _ _ (Holds-insert_provider c owner _ (record { funded = omega arith }))
              (λ _ _. Holds-deposit_event c _))))
