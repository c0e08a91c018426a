-- ===== src/StorageProvider/Pallet/Post.antt =====
-- `submit_windowed_post` (pallets/storage-provider/src/lib.rs).
use polka_storage.Base.{ℕ, List, [], ◌∷◌, length, get_elem?, leb}
use polka_storage.Btree.Set.{BtreeSet}
use polka_storage.Btree.Map.{BtreeMap}
use polka_storage.Btree.Map
use polka_storage.Primitives.Randomness.{windowed_post_challenge_seed}
use polka_storage.StorageProvider.Sector.{SectorOnChainInfo, same_post_proof}
use polka_storage.StorageProvider.Deadline.{Deadline}
use polka_storage.StorageProvider.Deadlines
use polka_storage.StorageProvider.State.{StorageProviderState, deadline_info}
use polka_storage.StorageProvider.Pallet.{
  Config, Pallet, valid_post_submitted, try_get, insert_provider, deposit_event, on_chain,
}
use polka_storage.StorageProvider.Pallet.Monad.{
  Call, ◌>>=◌, ◌>>◌, pure, ensure, ok_or, expect, lift, invalid_proof_type, post_proof_invalid,
  invalid_deadline_submission, invalid_partition, too_many_replicas,
}
use polka_storage.StorageProvider.Pallet.Checks.{
  SubmitWindowedPostParams, validate_deadline, get_randomness,
}

abbrev pub max_post_proof_bytes : ℕ
max_post_proof_bytes = 192

abbrev pub max_sectors_per_proof : ℕ
max_sectors_per_proof = 2349

module _ (c : Config) where
  -- The replicas of the sectors of one partition, by sector number. A sector that is not there and
  -- a CID that is not a commitment panic.
  unfoldable pub add_replicas :
      BtreeMap SectorOnChainInfo
      → BtreeSet
      → BtreeMap (List ℕ)
      → Call (Pallet c) (BtreeMap (List ℕ))
  add_replicas sectors [] replicas = pure replicas
  add_replicas sectors (n ∷ numbers) replicas = do
    sector_info ← expect (Map.get n sectors)
    comm_r ← expect (c.comm_r_from_cid_bytes sector_info.sealed_cid)
    replicas' ←
        ok_or (c.bounded.map_try_insert (List ℕ) max_sectors_per_proof n comm_r.raw replicas)
          too_many_replicas
    add_replicas sectors numbers replicas'

  -- The replicas of all partitions of the proof.
  unfoldable pub replicas_of :
      BtreeMap SectorOnChainInfo
      → Deadline
      → List ℕ
      → BtreeMap (List ℕ)
      → Call (Pallet c) (BtreeMap (List ℕ))
  replicas_of sectors deadline [] replicas = pure replicas
  replicas_of sectors deadline (n ∷ partitions) replicas = do
    partition ← ok_or (Map.get n deadline.partitions) invalid_partition
    replicas' ← add_replicas sectors partition.sectors replicas
    replicas_of sectors deadline partitions replicas'

  -- `deadlines.due[..]` is looked up for each partition: with none, it is not.
  unfoldable pub collect_replicas :
      StorageProviderState c.PeerId → ℕ → List ℕ → Call (Pallet c) (BtreeMap (List ℕ))
  collect_replicas sp deadline_idx [] = pure []
  collect_replicas sp deadline_idx (n ∷ partitions) = do
    deadline ← expect (get_elem? sp.deadlines.due deadline_idx)
    replicas_of sp.sectors deadline (n ∷ partitions) []

  -- The checks before anything is recorded.
  unfoldable pub check_submission :
      ℕ → StorageProviderState c.PeerId → SubmitWindowedPostParams → Call (Pallet c) (Unit {0})
  check_submission current_block sp windowed_post = do
    ensure (same_post_proof windowed_post.proof.post_proof sp.info.window_post_proof_type)
        invalid_proof_type
    ensure (leb (length windowed_post.proof.proof_bytes) max_post_proof_bytes) post_proof_invalid
    ensure (leb sp.proving_period_start current_block) invalid_deadline_submission
    validate_deadline c (deadline_info c.post current_block sp) windowed_post

  unfoldable pub submit_windowed_post :
      ℕ → ℕ → SubmitWindowedPostParams → Call (Pallet c) (Unit {0})
  submit_windowed_post owner current_block windowed_post = do
    sp ← try_get c owner
    check_submission current_block sp windowed_post
    deadlines ← lift (
        Deadlines.record_proven c.bounded windowed_post.deadline sp.sectors windowed_post.partitions
          sp.deadlines)
    let sp' : StorageProviderState c.PeerId = record sp { deadlines = deadlines }
    replicas ← collect_replicas sp' windowed_post.deadline windowed_post.partitions
    randomness ←
        get_randomness c windowed_post_challenge_seed
          (deadline_info c.post current_block sp).challenge (c.encode owner)
    on_chain (
        c.verify_post windowed_post.proof.post_proof randomness replicas
          windowed_post.proof.proof_bytes)
    insert_provider c owner sp'
    deposit_event c (valid_post_submitted owner)
