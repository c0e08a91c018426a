-- ===== src/StorageProvider/Pallet/Deposits/Checks.antt =====
-- The checks and the calls of other pallets do not touch the providers.
use polka_storage.Base.{ℕ, ◌+◌, Option, List, [], ◌∷◌}
use polka_storage.Primitives.Randomness.{DomainSeparationTag}
use polka_storage.StorageProvider.Sector.{SectorPreCommitInfo, SectorPreCommitOnChainInfo}
use polka_storage.StorageProvider.DeadlineInfo.{DeadlineInfo}
use polka_storage.StorageProvider.State.{StorageProviderState}
use polka_storage.StorageProvider.Pallet.{Config}
use polka_storage.StorageProvider.Pallet.Monad.Holds.{
  Holds, Any, Holds-bind, Holds-expect, Holds-pure, Holds-ensure, Holds-ok_or, Holds-gets,
  Holds-Any, Holds-if, Holds-map_err,
}
use polka_storage.StorageProvider.Pallet.Checks.{
  SubmitWindowedPostParams, validate_sector_for_pre_commit, validate_expiration, validate_deadline,
  check_commds, check_commd_for_pre_commit, slash_and_burn, get_randomness, validate_seal_proof,
  assign_proving_period_offset,
}
use polka_storage.StorageProvider.Pallet.Deposits.Storage.{AllFunded, Holds-on_chain}

module _ (c : Config) where
  pub Holds-assign_proving_period_offset :
      (addr current_block : ℕ)
      → Holds (AllFunded c) Any (assign_proving_period_offset c addr current_block)
  unfolding assign_proving_period_offset
  Holds-assign_proving_period_offset addr current_block =
      Holds-if _ _ _ (Holds-expect _ (λ _ _. tt)) (Holds-pure _ tt)

  pub Holds-validate_sector_for_pre_commit :
      (sp : StorageProviderState c.PeerId) (sector : SectorPreCommitInfo)
      → Holds (AllFunded c) Any (validate_sector_for_pre_commit c sp sector)
  unfolding validate_sector_for_pre_commit
  Holds-validate_sector_for_pre_commit sp sector =
      Holds-bind _ _ (Holds-ensure _ _) (λ _ _. Holds-Any _ (Holds-ensure _ _))

  pub Holds-validate_expiration :
      (curr_block activation expiration : ℕ)
      → Holds (AllFunded c) Any (validate_expiration c curr_block activation expiration)
  unfolding validate_expiration
  Holds-validate_expiration curr_block activation expiration =
      Holds-bind _ _ (Holds-ensure _ _) (λ _ _.
        Holds-bind _ _ (Holds-ensure _ _)
          (λ _ _. Holds-bind _ _ (Holds-ensure _ _) (λ _ _. Holds-Any _ (Holds-ensure _ _))))

  pub Holds-validate_deadline :
      (d : DeadlineInfo) (params : SubmitWindowedPostParams)
      → Holds (AllFunded c) Any (validate_deadline c d params)
  unfolding validate_deadline
  Holds-validate_deadline d params =
      Holds-bind _ _ (Holds-ensure _ _) (λ _ _. Holds-Any _ (Holds-ensure _ _))

  Holds-check_commds :
      (calculated : List (Option (List ℕ))) (amounts : List ℕ) (i : ℕ) (cids : List (List ℕ))
      → Holds (AllFunded c) Any (check_commds c calculated amounts i cids)
  unfolding check_commds
  Holds-check_commds calculated amounts i [] = Holds-pure tt tt
  Holds-check_commds calculated amounts i (cid ∷ cids) =
      Holds-bind _ _ (Holds-expect {Q = Any} _ (λ _ _. tt)) (λ amount _.
        Holds-bind _ _
          (Holds-if _ _ _
            (Holds-bind _ _ (Holds-expect {Q = Any} _ (λ _ _. tt)) (λ entry _.
              Holds-bind _ _ (Holds-ok_or {Q = Any} _ _ (λ _ _. tt))
                (λ _ _. Holds-Any _ (Holds-ensure _ _))))
            (Holds-pure tt tt))
          (λ _ _. Holds-check_commds calculated amounts (i + 1) cids))

  pub Holds-check_commd_for_pre_commit :
      (calculated : List (Option (List ℕ))) (n : ℕ) (cids : List (List ℕ)) (amounts : List ℕ)
      → Holds (AllFunded c) Any (check_commd_for_pre_commit c calculated n cids amounts)
  unfolding check_commd_for_pre_commit
  Holds-check_commd_for_pre_commit calculated n cids amounts =
      Holds-bind _ _ (Holds-ensure _ _) (λ _ _. Holds-check_commds calculated amounts 0 cids)

  pub Holds-slash_and_burn :
      (account amount : ℕ) → Holds (AllFunded c) Any (slash_and_burn c account amount)
  unfolding slash_and_burn
  Holds-slash_and_burn account amount =
      Holds-bind _ _ (Holds-on_chain c _) (λ (imbalance, balance) _.
        Holds-bind _ _ (Holds-ensure _ _) (λ _ _.
          Holds-bind _ _ (Holds-on_chain c _) (λ burnt _. Holds-map_err _ _ (Holds-on_chain c _))))

  pub Holds-get_randomness :
      (tag : DomainSeparationTag) (block : ℕ) (entropy : List ℕ)
      → Holds (AllFunded c) Any (get_randomness c tag block entropy)
  unfolding get_randomness
  Holds-get_randomness tag block entropy =
      Holds-bind _ _ (Holds-gets {Q = Any} _ (λ _ _. tt)) (λ history _.
        Holds-bind _ _ (Holds-ok_or {Q = Any} _ _ (λ _ _. tt)) (λ _ _. Holds-pure _ tt))

  pub Holds-validate_seal_proof :
      (current_block owner : ℕ) (precommit : SectorPreCommitOnChainInfo) (proof : List ℕ)
      → Holds (AllFunded c) Any (validate_seal_proof c current_block owner precommit proof)
  unfolding validate_seal_proof
  Holds-validate_seal_proof current_block owner precommit proof =
      Holds-bind _ _ (Holds-ensure _ _) (λ _ _. Holds-bind _ _ (Holds-ensure _ _) (λ _ _.
        Holds-bind _ _ (Holds-ok_or {Q = Any} _ _ (λ _ _. tt)) (λ commd _.
          Holds-bind _ _ (Holds-ok_or {Q = Any} _ _ (λ _ _. tt)) (λ commr _.
            Holds-bind _ _ (Holds-get_randomness _ _ _)
              (λ r _. Holds-bind _ _ (Holds-get_randomness _ _ _) (λ ir _. Holds-on_chain c _))))))
