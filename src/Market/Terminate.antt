-- ===== src/Market/Terminate.antt =====
-- `on_sectors_terminate` and the block arithmetic that it pays by (pallets/market/src/lib.rs).
pub mod Payment
use polka_storage.Base.{
  ℕ, min, max, not, Option, none, some, List, [], ◌∷◌, leb, ◌==◌, if◌then◌else◌,
}
use polka_storage.Base.Storage
use polka_storage.Btree.Set
use polka_storage.Market.Types.{
  DealProposal, DealState, published, active, ActiveDealState, sub_blocks, mul_u128, no_such_deal,
  invalid_caller, deal_is_not_active, deal_terminated,
}
use polka_storage.Market.Monad.{Action, ◌>>=◌, ◌>>◌, pure, fail, gets, modify}
use polka_storage.Market.State.{Config, Market, deposit_event}
use polka_storage.Market.Funds.{perform_storage_payment, unlock_funds, slash_and_burn}
use polka_storage.Market.Validate.{hash_proposal}

unfoldable pub calculate_start_block : ℕ → Option ℕ → ℕ
calculate_start_block start_block none = start_block
calculate_start_block start_block (some last_updated_block) = max start_block last_updated_block

unfoldable pub calculate_end_block : ℕ → ℕ → ℕ
calculate_end_block current_block end_block = min current_block end_block

unfoldable pub calculate_elapsed_blocks : ℕ → ℕ → ℕ
calculate_elapsed_blocks start_block end_block = max (sub_blocks end_block start_block) 0

-- All conversions succeed at the runtime's types.
unfoldable pub calculate_storage_price : ℕ → ℕ → ℕ
calculate_storage_price n_blocks price_per_block = mul_u128 price_per_block n_blocks

-- What the provider is paid, and what the client gets back.
unfoldable pub termination_payment : ℕ → DealProposal → ActiveDealState → ℕ
unfolding calculate_start_block calculate_end_block calculate_elapsed_blocks calculate_storage_price
termination_payment current_block deal st =
    calculate_storage_price
      (calculate_elapsed_blocks (calculate_start_block deal.start_block st.last_updated_block)
        (calculate_end_block current_block deal.end_block))
      deal.storage_price_per_block

unfoldable pub termination_refund : ℕ → DealProposal → ℕ
unfolding calculate_end_block calculate_storage_price
termination_refund current_block deal =
    calculate_storage_price
      (sub_blocks deal.end_block (calculate_end_block current_block deal.end_block))
      deal.storage_price_per_block

module _ (c : Config) where
  -- A deal that was never settled is taken from the pending proposals.
  unfoldable pub forget_pending : DealProposal → Option ℕ → Action (Market c) (Unit {0})
  forget_pending deal none =
      modify (λ m. record m {
        pending_proposals = Set.remove (hash_proposal c deal) m.pending_proposals;
      })
  forget_pending deal (some _) = pure tt

  unfoldable pub terminate_active :
      ℕ → ℕ → DealProposal → ActiveDealState → Action (Market c) (Unit {0})
  terminate_active current_block deal_id deal st = do
    forget_pending deal st.last_updated_block
    perform_storage_payment c deal.client deal.provider (termination_payment current_block deal st)
    slash_and_burn c deal.provider deal.provider_collateral
    unlock_funds c deal.client (termination_refund current_block deal)
    modify (λ m. record m { proposals = Storage.remove deal_id m.proposals })
    deposit_event c (deal_terminated deal_id deal.client deal.provider)

  unfoldable pub terminate_state : ℕ → ℕ → DealProposal → DealState → Action (Market c) (Unit {0})
  terminate_state current_block deal_id deal published = fail deal_is_not_active
  terminate_state current_block deal_id deal (active st) =
      terminate_active current_block deal_id deal st

  unfoldable pub terminate_found : ℕ → ℕ → ℕ → Option DealProposal → Action (Market c) (Unit {0})
  terminate_found provider current_block deal_id none = fail no_such_deal
  terminate_found provider current_block deal_id (some deal) =
      if not (provider == deal.provider)
      then fail invalid_caller
      else (if leb deal.end_block current_block
          then pure tt
          else terminate_state current_block deal_id deal deal.state)

  unfoldable pub terminate_deal : ℕ → ℕ → ℕ → Action (Market c) (Unit {0})
  terminate_deal provider current_block deal_id = do
    found ← gets (λ m. Storage.get deal_id m.proposals)
    terminate_found provider current_block deal_id found

  unfoldable pub terminate_deals : ℕ → ℕ → List ℕ → Action (Market c) (Unit {0})
  terminate_deals provider current_block [] = pure tt
  terminate_deals provider current_block (deal_id ∷ deal_ids) = do
    terminate_deal provider current_block deal_id
    terminate_deals provider current_block deal_ids

  -- `SectorDeals::take`
  unfoldable pub take_sector_deals : ℕ → ℕ → Action (Market c) (Option (List ℕ))
  take_sector_deals provider sector m =
      let sectors = Storage.get_or [] provider m.sector_deals in
      let m' : Market c = record m {
        sector_deals = Storage.insert provider (Storage.remove sector sectors) m.sector_deals;
      } in
      gets (λ _. Storage.get sector sectors) m'

  unfoldable pub terminate_sector : ℕ → ℕ → Option (List ℕ) → Action (Market c) (Unit {0})
  terminate_sector provider current_block none = pure tt
  terminate_sector provider current_block (some deal_ids) =
      terminate_deals provider current_block deal_ids

  unfoldable pub on_sectors_terminate : ℕ → ℕ → List ℕ → Action (Market c) (Unit {0})
  on_sectors_terminate provider current_block [] = pure tt
  on_sectors_terminate provider current_block (sector ∷ sectors) = do
    deal_ids ← take_sector_deals provider sector
    terminate_sector provider current_block deal_ids
    on_sectors_terminate provider current_block sectors
