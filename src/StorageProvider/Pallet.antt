-- ===== src/StorageProvider/Pallet.antt =====
-- The storage provider pallet (pallets/storage-provider/src/lib.rs): its configuration, which stands
-- for what it calls, and its storage.
pub mod Monad
pub mod Checks
pub mod Register
pub mod PreCommit
pub mod Prove
pub mod Post
pub mod Declare
pub mod Grouping
pub mod Expiration
pub mod Terminate
pub mod Hooks
pub mod Views
pub mod Deposits
pub mod Access
mod Examples
use polka_storage.Base.{ℕ, Bool, Option, List, [], ◌∷◌, ◌++◌}
use polka_storage.Base.Storage.{StorageMap}
use polka_storage.Base.Storage
use polka_storage.Btree.Set.{BtreeSet}
use polka_storage.Btree.Map.{BtreeMap}
use polka_storage.Btree.Bounded.{Bounded}
use polka_storage.Market.Types.{SectorDeal}
use polka_storage.StorageProvider.Sector.{
  SectorPreCommitInfo, RegisteredSealProof, RegisteredPostProof, ProveCommitResult,
}
use polka_storage.StorageProvider.DeadlineInfo.{PostConfig}
use polka_storage.StorageProvider.State.{StorageProviderInfo, StorageProviderState}
use Monad.{DispatchError, Result, Call, modify, ok_or, storage_provider_not_found}

-- `FaultDeclaration`, `RecoveryDeclaration` and `TerminationDeclaration`
pub record Declaration : Type 0 where
  pub deadline : ℕ
  pub partition : ℕ
  pub sectors : BtreeSet

-- `Commitment`, as its CID and its 32 bytes
pub record Commitment : Type 0 where
  pub cid : List ℕ
  pub raw : List ℕ

-- What the pallet calls: the currency and the market, on their own state `Chain`, the verification
-- of proofs, hashes and encodings; and its constants. `slash_reserved` gives the value of the
-- imbalance and what could not be slashed, `burn` the value of its imbalance.
pub record Config : Type 1 where
  pub Chain : Type 0
  pub PeerId : Type 0
  pub bounded : Bounded
  pub encode : ℕ → List ℕ
  pub encode_block : ℕ → List ℕ
  pub blake2_64 : List ℕ → List ℕ
  pub blake2_256 : List ℕ → List ℕ
  pub total_balance : Chain → ℕ → ℕ
  pub reserve : ℕ → ℕ → Call Chain (Unit {0})
  pub slash_reserved : ℕ → ℕ → Chain → (ℕ × ℕ) × Chain
  pub burn : ℕ → Chain → ℕ × Chain
  pub settle : ℕ → ℕ → Call Chain (Unit {0})
  pub verify_deals_for_activation : ℕ → List SectorDeal → Call Chain (List (Option (List ℕ)))
  pub activate_deals : ℕ → List SectorDeal → Bool → Call Chain (Unit {0})
  pub on_sectors_terminate : ℕ → List ℕ → Call Chain (Unit {0})
  pub comm_d_from_cid_bytes : List ℕ → Option Commitment
  pub comm_r_from_cid_bytes : List ℕ → Option Commitment
  pub author_vrf_history : Chain → ℕ → Option (List ℕ)
  pub verify_porep :
      List ℕ
      → RegisteredSealProof
      → List ℕ
      → List ℕ
      → ℕ
      → List ℕ
      → List ℕ
      → List ℕ
      → Call Chain (Unit {0})
  pub verify_post :
      RegisteredPostProof → List ℕ → BtreeMap (List ℕ) → List ℕ → Call Chain (Unit {0})
  pub post : PostConfig
  pub min_sector_expiration : ℕ
  pub max_sector_expiration : ℕ
  pub sector_maximum_lifetime : ℕ
  pub max_prove_commit_duration : ℕ
  pub max_partitions_per_deadline : ℕ
  pub fault_max_age : ℕ
  pub pre_commit_challenge_delay : ℕ
  pub addressed_partitions_max : ℕ
  pub addressed_sectors_max : ℕ

pub data Event (PeerId : Type 0) : Type 0 where
  storage_provider_registered : ℕ → StorageProviderInfo PeerId → ℕ → Event PeerId
  sectors_pre_committed : ℕ → ℕ → List SectorPreCommitInfo → Event PeerId
  sectors_proven : ℕ → List ProveCommitResult → Event PeerId
  sectors_slashed : ℕ → List ℕ → Event PeerId
  valid_post_submitted : ℕ → Event PeerId
  faults_declared : ℕ → List Declaration → Event PeerId
  faults_recovered : ℕ → List Declaration → Event PeerId
  partitions_faulty : ℕ → BtreeMap BtreeSet → Event PeerId
  sectors_terminated : ℕ → List Declaration → Event PeerId

-- The storage of the pallet, the state of what it calls, and the events so far.
pub record Pallet (c : Config) : Type 0 where
  pub storage_providers : StorageMap (StorageProviderState c.PeerId)
  pub chain : c.Chain
  pub events : List (Event c.PeerId)

-- A provider's entry in the storage is replaced.
unfoldable pub insert_provider :
    (c : Config) → ℕ → StorageProviderState c.PeerId → Call (Pallet c) (Unit {0})
unfolding modify
insert_provider c owner sp =
    modify (λ p. record p { storage_providers = Storage.insert owner sp p.storage_providers })

-- `try_get(..).map_err(|_| StorageProviderNotFound)`
unfoldable pub try_get : (c : Config) → ℕ → Call (Pallet c) (StorageProviderState c.PeerId)
try_get c owner p = ok_or (Storage.get owner p.storage_providers) storage_provider_not_found p

unfoldable pub deposit_event : (c : Config) → Event c.PeerId → Call (Pallet c) (Unit {0})
unfolding modify
deposit_event c e = modify (λ p. record p { events = p.events ++ e ∷ [] })

-- A call of another pallet.
unfoldable pub on_chain : {c : Config} {A : Type 0} → Call c.Chain A → Call (Pallet c) A
on_chain m p = let (r, chain) = m p.chain in (r, record p { chain = chain })
