-- ===== src/StorageProvider/Pallet/Access.antt =====
-- The calls of accounts that are not registered, and second registrations
-- (pallets/storage-provider/src/lib.rs).
use polka_storage.Base.{
  ℕ, ◌≡◌, refl, Bool, true, not, Option, none, some, Option-cases, some_inverts, none_inverts, inl,
  inr,
}
use polka_storage.Base.Storage
use polka_storage.StorageProvider.Sector.{RegisteredPostProof}
use polka_storage.StorageProvider.State.{StorageProviderState}
use polka_storage.StorageProvider.Pallet.{Config, Pallet, try_get}
use polka_storage.StorageProvider.Pallet.Monad.{
  DispatchError, Call, err, gets, ensure, ◌>>=◌, ◌>>◌, storage_provider_not_found,
  storage_provider_exists,
}
use polka_storage.StorageProvider.Pallet.Register.{
  register_storage_provider, is_registered_storage_provider,
}
use polka_storage.StorageProvider.Pallet.PreCommit.{pre_commit_sectors}
use polka_storage.StorageProvider.Pallet.Prove.{prove_commit_sectors}
use polka_storage.StorageProvider.Pallet.Post.{submit_windowed_post}
use polka_storage.StorageProvider.Pallet.Declare.{declare_faults, declare_faults_recovered}
use polka_storage.StorageProvider.Pallet.Terminate.{terminate_sectors}
use polka_storage.StorageProvider.Pallet.Deposits.History.{
  Transaction, register, pre_commit, prove_commit, submit_post, report_faults, report_recoveries,
  terminate, finalize, run,
}

module _ {c : Config} where
  abbrev if_absent : ℕ → Pallet c → Option DispatchError
  if_absent owner p = elim (Storage.get owner p.storage_providers) [
    | some sp ↦ none
    | none ↦ some storage_provider_not_found
  ]

  -- The error that a call must fail with because its caller is not registered, or is already.
  unfoldable pub refusal : Transaction c → Pallet c → Option DispatchError
  refusal (register owner peer_id proof) p = elim (Storage.get owner p.storage_providers) [
    | some sp ↦ some storage_provider_exists
    | none ↦ none
  ]
  refusal (pre_commit owner sectors) p = if_absent owner p
  refusal (prove_commit owner sectors) p = if_absent owner p
  refusal (submit_post owner params) p = if_absent owner p
  refusal (report_faults owner faults) p = if_absent owner p
  refusal (report_recoveries owner recoveries) p = if_absent owner p
  refusal (terminate owner terminations) p = if_absent owner p
  refusal finalize p = none

  try_get_absent :
      {A : Type 0} (owner : ℕ) (f : StorageProviderState c.PeerId → Call (Pallet c) A)
      (p : Pallet c) (e : DispatchError)
      → if_absent owner p ≡ some e
      → (try_get c owner >>= f) p ≡ (err e, p)
  unfolding try_get ◌>>=◌
  try_get_absent {A} owner f p e h = elim (Option-cases (Storage.get owner p.storage_providers)) [
    | inl absent ↦ rw (absent, some_inverts _ e (rw (absent, if_absent) at h)) refl
    | inr (sp, present) ↦ none_inverts _ e (rw (present, if_absent) at h)
  ]

  refused_if :
      {A : Type 0} (test : Pallet c → Bool) (e : DispatchError) (m : Call (Pallet c) A)
      (p : Pallet c)
      → test p ≡ true
      → (gets test >>= λ b. (ensure (not b) e >> m)) p ≡ (err e, p)
  unfolding ◌>>=◌
  refused_if test e m p h = rw h refl

  is_registered_present :
      (owner : ℕ) (p : Pallet c) (sp : StorageProviderState c.PeerId)
      → Storage.get owner p.storage_providers ≡ some sp
      → is_registered_storage_provider c owner p ≡ true
  unfolding is_registered_storage_provider
  is_registered_present owner p sp h = rw (h, is_registered_storage_provider) refl

  register_present :
      (owner block : ℕ) (peer_id : c.PeerId) (proof : RegisteredPostProof) (p : Pallet c)
      (e : DispatchError)
      → refusal (register owner peer_id proof) p ≡ some e
      → register_storage_provider c owner block peer_id proof p ≡ (err e, p)
  unfolding refusal register_storage_provider
  register_present owner block peer_id proof p e h =
      elim (Option-cases (Storage.get owner p.storage_providers)) [
        | inl absent ↦ none_inverts _ e (rw (absent, refusal) at h)
        | inr (sp, present) ↦
            let refused =
              refused_if (is_registered_storage_provider c owner) storage_provider_exists _ p
                (is_registered_present owner p sp present) in
            rw (← some_inverts _ e (rw (present, refusal) at h)) refused
      ]

  -- A call of an account that is not registered, other than a registration, and a registration of
  -- an account that is, fail with the error that says so and change nothing.
  pub run_refused :
      (t : Transaction c) (block : ℕ) (p : Pallet c) (e : DispatchError)
      → refusal t p ≡ some e
      → run t block p ≡ (err e, p)
  unfolding run refusal pre_commit_sectors prove_commit_sectors submit_windowed_post declare_faults
      declare_faults_recovered terminate_sectors
  run_refused (register owner peer_id proof) block p e h =
      register_present owner block peer_id proof p e h
  run_refused (pre_commit owner sectors) block p e h = try_get_absent owner _ p e h
  run_refused (prove_commit owner sectors) block p e h = try_get_absent owner _ p e h
  run_refused (submit_post owner params) block p e h = try_get_absent owner _ p e h
  run_refused (report_faults owner faults) block p e h = try_get_absent owner _ p e h
  run_refused (report_recoveries owner recoveries) block p e h = try_get_absent owner _ p e h
  run_refused (terminate owner terminations) block p e h = try_get_absent owner _ p e h
  run_refused finalize block p e h = none_inverts _ e h
