-- ===== src/Faucet.antt =====
-- The faucet pallet (pallets/faucet/src/lib.rs), which hands out the same amount to any account, at
-- most once in a number of blocks. The currency is a parameter.
pub mod Rate
mod Examples
use polka_storage.Base.{
  ℕ, Bool, true, false, Option, none, some, List, [], ◌∷◌, ◌++◌, ltb, if◌then◌else◌,
}
use polka_storage.Base.Words.{add_u64}
use polka_storage.Base.Storage
use polka_storage.Base.Storage.{StorageMap}

pub record Config : Type 1 where
  pub Chain : Type 0
  pub issue : ℕ → Chain → ℕ × Chain
  pub resolve_creating : ℕ → ℕ → Chain → Chain
  pub drip_amount : ℕ
  pub drip_delay : ℕ

pub record Event : Type 0 where
  pub who : ℕ
  pub at : ℕ

-- `Drips`, with what the currency keeps and the events so far.
pub record Faucet (c : Config) : Type 0 where
  pub drips : StorageMap ℕ
  pub chain : c.Chain
  pub events : List Event

-- `bad_origin` is the error of `ensure_none` for a signed call.
pub data Result (c : Config) : Type 0 where
  ok : Faucet c → Result c
  bad_origin faucet_used_recently : Result c

module _ (c : Config) where
  unfoldable pub used_recently : ℕ → Option ℕ → Bool
  used_recently current_block none = false
  used_recently current_block (some faucet_block) =
      ltb current_block (add_u64 faucet_block c.drip_delay)

  -- What a drip that is let through does.
  unfoldable pub dripped : ℕ → ℕ → Faucet c → Faucet c
  dripped current_block account s =
      let (imbalance, chain) = c.issue c.drip_amount s.chain in
      record {
        drips = Storage.insert account current_block s.drips;
        chain = c.resolve_creating account imbalance chain;
        events = s.events ++ record { who = account; at = current_block } ∷ [];
      }

  unfoldable pub drip : Bool → ℕ → ℕ → Faucet c → Result c
  drip false current_block account s = bad_origin
  drip true current_block account s =
      if used_recently current_block (Storage.get account s.drips)
      then faucet_used_recently
      else ok (dripped current_block account s)
