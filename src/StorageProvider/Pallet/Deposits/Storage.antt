-- ===== src/StorageProvider/Pallet/Deposits/Storage.antt =====
-- Every extrinsic and every hook keeps the deposits of all providers in their totals.
use polka_storage.Base.{ℕ, ◌≡◌, some, [], ◌∷◌, ◌==◌, ◌++◌, some_inverts, Bool-cases, inl, inr}
use polka_storage.Base.Storage
use polka_storage.StorageProvider.State.{StorageProviderState}
use polka_storage.StorageProvider.Pallet.{
  Config, Pallet, Event, try_get, insert_provider, deposit_event, on_chain,
}
use polka_storage.StorageProvider.Pallet.Monad.{Call, storage_provider_not_found}
use polka_storage.StorageProvider.Pallet.Monad.Holds.{
  Holds, Any, IfOk-Any, Holds-modify, Holds-ok_or,
}
use polka_storage.StorageProvider.Pallet.Deposits.{IsFunded}

module _ (c : Config) where
  pub record AllFunded (p : Pallet c) : Type 0 where
    pub each :
        (owner : ℕ) (sp : StorageProviderState c.PeerId)
        → Storage.get owner p.storage_providers ≡ some sp
        → IsFunded sp

  pub Holds-try_get : (owner : ℕ) → Holds AllFunded IsFunded (try_get c owner)
  unfolding try_get
  Holds-try_get owner = record {
    at = λ p h.
        (Holds-ok_or {P = AllFunded} (Storage.get owner p.storage_providers)
            storage_provider_not_found (h.each owner)).at
          p h;
  }

  AllFunded-insert :
      (owner : ℕ) (sp : StorageProviderState c.PeerId) (p : Pallet c)
      → IsFunded sp
      → AllFunded p
      → AllFunded (record p { storage_providers = Storage.insert owner sp p.storage_providers })
  AllFunded-insert owner sp p h k = record { each = each_one }
    where
      each_one :
          (owner' : ℕ) (sp' : StorageProviderState c.PeerId)
          → Storage.get owner' (Storage.insert owner sp p.storage_providers) ≡ some sp'
          → IsFunded sp'
      each_one owner' sp' e = elim (Bool-cases (owner' == owner)) [
        | inl same ↦
            rw
              (← some_inverts sp sp'
                (rw (Storage.get-insert owner owner' sp p.storage_providers, same) at e))
              h
        | inr other ↦
            k.each owner' sp'
              (rw (Storage.get-insert owner owner' sp p.storage_providers, other) at e)
      ]

  pub Holds-insert_provider :
      (owner : ℕ) (sp : StorageProviderState c.PeerId)
      → IsFunded sp
      → Holds AllFunded Any (insert_provider c owner sp)
  unfolding insert_provider
  Holds-insert_provider owner sp h =
      Holds-modify
        (λ p. record p { storage_providers = Storage.insert owner sp p.storage_providers })
        (λ p k. AllFunded-insert owner sp p h k)

  pub Holds-deposit_event : (e : Event c.PeerId) → Holds AllFunded Any (deposit_event c e)
  unfolding deposit_event
  Holds-deposit_event e =
      Holds-modify (λ p. record p { events = p.events ++ e ∷ [] }) (λ p k. record { each = k.each })

  pub Holds-on_chain : {A : Type 0} (m : Call c.Chain A) → Holds AllFunded Any (on_chain m)
  unfolding on_chain
  Holds-on_chain m = record { at = λ p k. (record { each = k.each }, IfOk-Any (on_chain m p).0) }
