-- ===== src/StorageProvider/Pallet/Checks.antt =====
-- The checks and the helpers of the extrinsics (pallets/storage-provider/src/lib.rs), and
-- `assign_proving_period_offset` (pallets/storage-provider/src/proofs.rs). The hash that randomness is
-- read from has 32 bytes, so its copy into an array succeeds.
use polka_storage.Base.{
  ℕ, ◌+◌, ◌%◌, Bool, true, false, not, ◌&&◌, Option, none, List, [], ◌∷◌, ◌++◌, length, get_elem?,
  ltb, leb, ◌==◌, if◌then◌else◌,
}
use polka_storage.Base.Words.{add_u64, sub_u64}
use polka_storage.Btree.Map
use polka_storage.Primitives.Randomness.{
  DomainSeparationTag, seal_randomness, interactive_seal_challenge_seed, draw_randomness,
  derive_prover_id, from_be_bytes,
}
use polka_storage.StorageProvider.Sector.{
  SectorPreCommitInfo, SectorPreCommitOnChainInfo, RegisteredPostProof, proof_size,
  registered_window_post_proof, same_post_proof,
}
use polka_storage.StorageProvider.DeadlineInfo.{DeadlineInfo, is_open}
use polka_storage.StorageProvider.State.{StorageProviderState}
use polka_storage.StorageProvider.Pallet.{Config, Pallet, on_chain}
use polka_storage.StorageProvider.Pallet.Monad.{
  Call, ok, map_err, ◌>>=◌, ◌>>◌, pure, gets, ensure, ok_or, expect, expiration_before_activation,
  expiration_too_soon, expiration_too_long, max_sector_lifetime_exceeded,
  invalid_deadline_submission, could_not_verify_sector_for_pre_commit,
  invalid_unsealed_cid_for_sector, invalid_proof_type, sector_number_already_used, slashing_failed,
  invalid_proof, invalid_cid, missing_author_vrf,
}

pub record PostProof : Type 0 where
  pub post_proof : RegisteredPostProof
  pub proof_bytes : List ℕ

pub record SubmitWindowedPostParams : Type 0 where
  pub deadline : ℕ
  pub partitions : List ℕ
  pub proof : PostProof

-- Lists of bytes are the same.
unfoldable pub same_bytes : List ℕ → List ℕ → Bool
same_bytes [] [] = true
same_bytes [] (y ∷ ys) = false
same_bytes (x ∷ xs) [] = false
same_bytes (x ∷ xs) (y ∷ ys) = x == y && same_bytes xs ys

module _ (c : Config) where
  -- The remainder by `0` panics.
  unfoldable pub assign_proving_period_offset : ℕ → ℕ → Call (Pallet c) ℕ
  assign_proving_period_offset addr current_block =
      if c.post.proving_period == 0
      then expect none
      else pure (
          from_be_bytes 0 (c.blake2_64 (c.encode addr ++ c.encode_block current_block))
          % c.post.proving_period)

  -- `calculate_pre_commit_deposit`
  abbrev pub calculate_pre_commit_deposit : ℕ
  calculate_pre_commit_deposit = 1

  unfoldable pub validate_expiration : ℕ → ℕ → ℕ → Call (Pallet c) (Unit {0})
  validate_expiration curr_block activation expiration = do
    ensure (leb activation expiration) expiration_before_activation
    ensure (leb c.min_sector_expiration (sub_u64 expiration activation)) expiration_too_soon
    ensure (ltb expiration (add_u64 curr_block c.max_sector_expiration)) expiration_too_long
    ensure (ltb (sub_u64 expiration activation) c.sector_maximum_lifetime)
        max_sector_lifetime_exceeded

  unfoldable pub validate_deadline :
      DeadlineInfo → SubmitWindowedPostParams → Call (Pallet c) (Unit {0})
  validate_deadline current_deadline post_params = do
    ensure (is_open current_deadline) invalid_deadline_submission
    ensure (post_params.deadline == current_deadline.idx) invalid_deadline_submission

  -- The loop over the CIDs that the provider gave; an index out of range panics.
  unfoldable pub check_commds :
      List (Option (List ℕ)) → List ℕ → ℕ → List (List ℕ) → Call (Pallet c) (Unit {0})
  check_commds calculated deal_amounts i [] = pure tt
  check_commds calculated deal_amounts i (unsealed_cid ∷ rest) =
      expect (get_elem? deal_amounts i) >>= λ amount.
      (if ltb 0 amount
        then (do
          entry ← expect (get_elem? calculated i)
          calculated_commd ← ok_or entry could_not_verify_sector_for_pre_commit
          ensure (same_bytes calculated_commd unsealed_cid) invalid_unsealed_cid_for_sector)
        else pure tt)
      >>= λ _. check_commds calculated deal_amounts (i + 1) rest

  unfoldable pub check_commd_for_pre_commit :
      List (Option (List ℕ)) → ℕ → List (List ℕ) → List ℕ → Call (Pallet c) (Unit {0})
  check_commd_for_pre_commit calculated sector_amount unsealed_cids deal_amounts = do
    ensure (length calculated == sector_amount) could_not_verify_sector_for_pre_commit
    check_commds calculated deal_amounts 0 unsealed_cids

  unfoldable pub validate_sector_for_pre_commit :
      StorageProviderState c.PeerId → SectorPreCommitInfo → Call (Pallet c) (Unit {0})
  validate_sector_for_pre_commit sp sector = do
    ensure
        (same_post_proof sp.info.window_post_proof_type
          (registered_window_post_proof sector.seal_proof))
        invalid_proof_type
    ensure
        (not (Map.contains_key sector.sector_number sp.pre_committed_sectors)
          && not (Map.contains_key sector.sector_number sp.sectors))
        sector_number_already_used

  unfoldable pub slash_and_burn : ℕ → ℕ → Call (Pallet c) (Unit {0})
  slash_and_burn account slash_amount = do
    (imbalance, balance) ←
        on_chain
          (λ chain. let (r, chain') = c.slash_reserved account slash_amount chain in (ok r, chain'))
    ensure (balance == 0) slashing_failed
    burnt ← on_chain (λ chain. let (r, chain') = c.burn imbalance chain in (ok r, chain'))
    map_err (on_chain (c.settle account burnt)) slashing_failed

  unfoldable pub get_randomness : DomainSeparationTag → ℕ → List ℕ → Call (Pallet c) (List ℕ)
  get_randomness personalization block_number entropy = do
    history ← gets (λ p. c.author_vrf_history p.chain block_number)
    randomness ← ok_or history missing_author_vrf
    pure (draw_randomness c.blake2_256 randomness personalization block_number entropy)

  unfoldable pub validate_seal_proof :
      ℕ → ℕ → SectorPreCommitOnChainInfo → List ℕ → Call (Pallet c) (Unit {0})
  validate_seal_proof current_block owner precommit proof = do
    ensure (leb (length proof) (proof_size precommit.info.seal_proof)) invalid_proof
    let interactive = add_u64 precommit.pre_commit_block_number c.pre_commit_challenge_delay
    ensure (leb interactive current_block) invalid_proof
    commd ← ok_or (c.comm_d_from_cid_bytes precommit.info.unsealed_cid) invalid_cid
    commr ← ok_or (c.comm_r_from_cid_bytes precommit.info.sealed_cid) invalid_cid
    randomness ←
        get_randomness seal_randomness precommit.info.seal_randomness_height (c.encode owner)
    interactive_randomness ←
        get_randomness interactive_seal_challenge_seed interactive (c.encode owner)
    on_chain (
        c.verify_porep (derive_prover_id c.blake2_256 (c.encode owner)) precommit.info.seal_proof
          commr.raw commd.raw precommit.info.sector_number randomness interactive_randomness proof)
