-- ===== src/StorageProvider/Pallet/Register.antt =====
-- `register_storage_provider` (pallets/storage-provider/src/lib.rs).
use polka_storage.Base.{ℕ, Bool, true, false, not, none, some}
use polka_storage.Base.Storage
use polka_storage.StorageProvider.Sector.{RegisteredPostProof}
use polka_storage.StorageProvider.State.{new_info, new_state, calculate_first_proving_period_start}
use polka_storage.StorageProvider.Pallet.{
  Config, Pallet, storage_provider_registered, insert_provider, deposit_event,
}
use polka_storage.StorageProvider.Pallet.Monad.{
  Call, ◌>>=◌, ◌>>◌, gets, ensure, storage_provider_exists,
}
use polka_storage.StorageProvider.Pallet.Checks.{assign_proving_period_offset}

module _ (c : Config) where
  -- `StorageProviders::contains_key`, which is also `is_registered_storage_provider`
  unfoldable pub is_registered_storage_provider : ℕ → Pallet c → Bool
  is_registered_storage_provider owner p = elim (Storage.get owner p.storage_providers) [
    | some sp ↦ true
    | none ↦ false
  ]

  unfoldable pub register_storage_provider :
      ℕ → ℕ → c.PeerId → RegisteredPostProof → Call (Pallet c) (Unit {0})
  register_storage_provider owner current_block peer_id window_post_proof_type = do
    registered ← gets (is_registered_storage_provider owner)
    ensure (not registered) storage_provider_exists
    offset ← assign_proving_period_offset c owner current_block
    let local_proving_start =
        calculate_first_proving_period_start current_block offset c.post.proving_period
    let info = new_info peer_id window_post_proof_type
    insert_provider c owner (new_state c.bounded info local_proving_start 0 c.post.period_deadlines)
    deposit_event c (storage_provider_registered owner info local_proving_start)
