-- ===== src/Market/Types.antt =====
-- The data of the market pallet (pallets/market/src/lib.rs, error.rs) and of its interface
-- (primitives/src/pallets.rs). Account ids, deal ids and hashes are numbers; `Balance` is `u128` and
-- `BlockNumber` is `u64`, as the runtime sets them.
pub use polka_storage.Base.Words.{u64_mod}
use polka_storage.Base.{
  ℕ, ◌+◌, ◌-◌, ◌*◌, ◌%◌, ◌^◌, Option, none, some, List, if◌then◌else◌, ltb, leb,
}

abbrev pub u128_mod : ℕ
u128_mod = 2 ^ 128

abbrev pub max_sectors_per_call : ℕ
max_sectors_per_call = 32

abbrev pub max_deals_per_sector : ℕ
max_deals_per_sector = 128

-- `a - b` on block numbers, which wraps in a release build.
unfoldable pub sub_blocks : ℕ → ℕ → ℕ
sub_blocks a b = (a + u64_mod - b) % u64_mod

-- `u128` multiplication, which wraps in a release build.
unfoldable pub mul_u128 : ℕ → ℕ → ℕ
mul_u128 a b = (a * b) % u128_mod

unfoldable pub checked_add : ℕ → ℕ → Option ℕ
checked_add a b = if ltb (a + b) u128_mod then some (a + b) else none

unfoldable pub checked_sub : ℕ → ℕ → Option ℕ
checked_sub a b = if leb b a then some (a - b) else none

pub record BalanceEntry : Type 0 where
  pub free : ℕ
  pub locked : ℕ

abbrev pub default_balance : BalanceEntry
default_balance = record { free = 0; locked = 0 }

pub record ActiveDealState : Type 0 where
  pub sector_number : ℕ
  pub sector_start_block : ℕ
  pub last_updated_block : Option ℕ
  pub slash_block : Option ℕ

pub data DealState : Type 0 where
  published : DealState
  active : ActiveDealState → DealState

-- `ActiveDealState::new`
unfoldable pub new_active : ℕ → ℕ → ActiveDealState
new_active sector_number sector_start_block = record {
  sector_number = sector_number;
  sector_start_block = sector_start_block;
  last_updated_block = none;
  slash_block = none;
}

pub record DealProposal : Type 0 where
  pub piece_cid : List ℕ
  pub piece_size : ℕ
  pub client : ℕ
  pub provider : ℕ
  pub label : List ℕ
  pub start_block : ℕ
  pub end_block : ℕ
  pub storage_price_per_block : ℕ
  pub provider_collateral : ℕ
  pub state : DealState

unfoldable pub duration : DealProposal → ℕ
duration deal = sub_blocks deal.end_block deal.start_block

-- Both conversions to `u128` succeed at the runtime's types.
unfoldable pub total_storage_fee : DealProposal → Option ℕ
total_storage_fee deal = some (mul_u128 deal.storage_price_per_block (duration deal))

pub record ClientDealProposal (Signature : Type 0) : Type 0 where
  pub proposal : DealProposal
  pub client_signature : Signature

pub data DealSettlementError : Type 0 where
  slashed_deal future_last_update deal_not_found early_settlement expired_deal deal_not_active :
      DealSettlementError

pub record SettledDealData : Type 0 where
  pub deal_id : ℕ
  pub client : ℕ
  pub provider : ℕ
  pub amount : ℕ

pub record SectorDeal : Type 0 where
  pub sector_number : ℕ
  pub sector_expiry : ℕ
  pub sector_size : ℕ
  pub deal_ids : List ℕ

pub record ActiveDeal : Type 0 where
  pub client : ℕ
  pub piece_cid : List ℕ
  pub piece_size : ℕ

pub record ActiveSector : Type 0 where
  pub active_deals : List ActiveDeal
  pub unsealed_cid : Option (List ℕ)

pub data Event : Type 0 where
  balance_added balance_withdrawn : ℕ → ℕ → Event
  deal_activated deal_terminated : ℕ → ℕ → ℕ → Event
  deal_slashed : ℕ → ℕ → ℕ → ℕ → Event
  deals_settled : List SettledDealData → List (ℕ × DealSettlementError) → Event
  deals_published : ℕ → List (ℕ × ℕ) → Event

-- The pallet's errors, and the runtime's that it returns. `no_such_deal` is `DealNotFound`, whose name
-- `DealSettlementError` has too.
pub data DispatchError : Type 0 where
  insufficient_free_funds no_proposals_to_be_published
        proposals_published_by_incorrect_storage_provider unexpected_validation_error duplicate_deal
        deal_precondition_failed deals_too_large_to_fit_into_sector too_many_deals_per_block
        storage_provider_not_registered comm_d too_many_pending_deals invalid_provider
        start_block_elapsed sector_expires_before_deal invalid_deal_state deal_not_pending
        no_such_deal invalid_caller deal_is_not_active wrong_client_signature_on_proposal
        deal_end_before_start deal_start_expired deal_not_published deal_duration_out_of_bounds
        invalid_piece_cid :
      DispatchError
  overflow underflow corruption other currency_failed : DispatchError
