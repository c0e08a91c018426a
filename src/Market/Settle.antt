-- ===== src/Market/Settle.antt =====
-- `settle_deal_payments` (pallets/market/src/lib.rs).
use polka_storage.Base.{ℕ, Bool, false, Option, none, some, List, [], ◌∷◌, ltb, leb, if◌then◌else◌}
pub mod Amounts
pub mod Twice
use polka_storage.Base.Storage
use polka_storage.Market.Types.{
  DealProposal, DealState, published, active, ActiveDealState, DealSettlementError, SettledDealData,
  deal_not_found, early_settlement, deal_not_active, future_last_update, corruption, deals_settled,
  sub_blocks, mul_u128,
}
use polka_storage.Market.Monad.{Action, ◌>>=◌, ◌>>◌, pure, fail, gets, modify}
use polka_storage.Market.State.{Config, Market, deposit_event}
use polka_storage.Market.Funds.{perform_storage_payment, unlock_funds}

-- What one round of the loop pushes, to `successful` or to `unsuccessful`.
pub data Settlement : Type 0 where
  settled : SettledDealData → Settlement
  unsettled : DealSettlementError → Settlement

unfoldable pub updated_after : Option ℕ → ℕ → Bool
updated_after none block = false
updated_after (some last) block = ltb block last

unfoldable pub last_settled_block : DealProposal → ActiveDealState → ℕ
last_settled_block deal st = elim st.last_updated_block [ none ↦ deal.start_block | some b ↦ b ]

-- The block up to which a deal is settled.
unfoldable pub block_to_settle : ℕ → DealProposal → ℕ
block_to_settle current_block deal =
    if leb deal.end_block current_block then deal.end_block else current_block

unfoldable pub settlement_amount : ℕ → DealProposal → ActiveDealState → ℕ
unfolding block_to_settle last_settled_block
settlement_amount current_block deal st =
    mul_u128 (sub_blocks (block_to_settle current_block deal) (last_settled_block deal st))
      deal.storage_price_per_block

module _ (c : Config) where
  -- A complete deal is removed and the collateral unlocked; any other is marked as settled up to
  -- now.
  unfoldable pub close_or_update :
      ℕ → ℕ → DealProposal → ActiveDealState → Action (Market c) (Unit {0})
  close_or_update current_block deal_id deal st =
      if leb deal.end_block current_block
      then (do
        unlock_funds c deal.provider deal.provider_collateral
        modify (λ m. record m { proposals = Storage.remove deal_id m.proposals }))
      else modify (λ m. record m {
        proposals =
            Storage.insert deal_id
              (record deal {
                state = active (record st { last_updated_block = some current_block });
              })
              m.proposals;
      })

  unfoldable pub settle_active :
      ℕ → ℕ → DealProposal → ActiveDealState → Action (Market c) Settlement
  settle_active current_block deal_id deal st =
      if updated_after st.last_updated_block current_block
      then pure (unsettled future_last_update)
      else (if ltb deal.end_block (last_settled_block deal st) then fail corruption else (do
        perform_storage_payment c deal.client deal.provider
            (settlement_amount current_block deal st)
        close_or_update current_block deal_id deal st
        pure (
            settled (record {
              deal_id = deal_id;
              client = deal.client;
              provider = deal.provider;
              amount = settlement_amount current_block deal st;
            }))))

  unfoldable pub settle_state : ℕ → ℕ → DealProposal → DealState → Action (Market c) Settlement
  settle_state current_block deal_id deal published = pure (unsettled deal_not_active)
  settle_state current_block deal_id deal (active st) = settle_active current_block deal_id deal st

  unfoldable pub settle_found : ℕ → ℕ → Option DealProposal → Action (Market c) Settlement
  settle_found current_block deal_id none = pure (unsettled deal_not_found)
  settle_found current_block deal_id (some deal) =
      if ltb current_block deal.start_block
      then pure (unsettled early_settlement)
      else settle_state current_block deal_id deal deal.state

  -- One round of the loop.
  unfoldable pub settle_deal : ℕ → ℕ → Action (Market c) Settlement
  settle_deal current_block deal_id = do
    found ← gets (λ m. Storage.get deal_id m.proposals)
    settle_found current_block deal_id found

  abbrev pub Settled : Type 0
  Settled = List SettledDealData × List (ℕ × DealSettlementError)

  unfoldable pub push_settlement : ℕ → Settlement → Settled → Settled
  push_settlement deal_id (settled d) (good, bad) = (d ∷ good, bad)
  push_settlement deal_id (unsettled e) (good, bad) = (good, (deal_id, e) ∷ bad)

  unfoldable pub settle_deals : ℕ → List ℕ → Action (Market c) Settled
  settle_deals current_block [] = pure ([], [])
  settle_deals current_block (deal_id ∷ deal_ids) = do
    r ← settle_deal current_block deal_id
    rest ← settle_deals current_block deal_ids
    pure (push_settlement deal_id r rest)

  unfoldable pub settle_deal_payments : ℕ → List ℕ → Action (Market c) (Unit {0})
  settle_deal_payments current_block deal_ids = do
    done ← settle_deals current_block deal_ids
    deposit_event c (deals_settled done.0 done.1)
