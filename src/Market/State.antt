-- ===== src/Market/State.antt =====
-- The pallet's configuration, which stands for what the repository does not implement, and its
-- storage (pallets/market/src/lib.rs).
use polka_storage.Base.{ℕ, Option, Bool, List, [], ◌++◌, ◌∷◌}
use polka_storage.Base.Storage.{StorageMap}
use polka_storage.Base.Storage
use polka_storage.Btree.Set.{BtreeSet}
use polka_storage.Btree.Bounded.{Bounded}
use polka_storage.Market.Types.{BalanceEntry, DealProposal, Event, default_balance}
use polka_storage.Market.Monad.{Action, modify}

pub data ExistenceRequirement : Type 0 where
  keep_alive allow_death : ExistenceRequirement

-- The associated types and constants of `Config`. `transfer`, `burn` and `settle` are those of
-- `T::Currency`, on the currency's own ledger; `settle` takes the amount of the imbalance.
pub record Config : Type 1 where
  pub Ledger : Type 0
  pub Signature : Type 0
  pub transfer : ℕ → ℕ → ℕ → ExistenceRequirement → Ledger → Option Ledger
  pub burn : ℕ → Ledger → Ledger
  pub settle : ℕ → ℕ → ExistenceRequirement → Ledger → Option Ledger
  pub account_id : ℕ
  pub verify : List ℕ → Signature → ℕ → Bool
  pub encode : DealProposal → List ℕ
  pub hash : List ℕ → ℕ
  pub is_registered_storage_provider : ℕ → Bool
  -- `Commitment::from_cid_bytes`, as the CID of the commitment
  pub from_cid_bytes : List ℕ → Option (List ℕ)
  -- `compute_commd`, of the deals of one sector
  pub compute_commd : List DealProposal → Option (List ℕ)
  pub max_deals : ℕ
  pub min_deal_duration : ℕ
  pub max_deal_duration : ℕ
  pub max_deals_per_block : ℕ
  pub bounded : Bounded

-- The storage items. A `SectorDeals` key is a provider and a sector number, in two steps.
pub record Market (c : Config) : Type 0 where
  pub balance_table : StorageMap BalanceEntry
  pub next_deal_id : ℕ
  pub proposals : StorageMap DealProposal
  pub pending_proposals : BtreeSet
  pub deals_for_block : StorageMap BtreeSet
  pub sector_deals : StorageMap (StorageMap (List ℕ))
  pub ledger : c.Ledger
  pub events : List Event

module _ (c : Config) where
  unfoldable pub deposit_event : Event → Action (Market c) (Unit {0})
  unfolding modify
  deposit_event e = modify (λ m. record m { events = m.events ++ e ∷ [] })

  abbrev pub balance_of : Market c → ℕ → BalanceEntry
  balance_of m who = Storage.get_or default_balance who m.balance_table
