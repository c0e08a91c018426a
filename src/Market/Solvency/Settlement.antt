-- ===== src/Market/Solvency/Settlement.antt =====
-- Settlement and termination keep what covers the debts, whether they return or fail.
use polka_storage.Base.{ℕ, Option, none, some, List, [], ◌∷◌, arith}
use polka_storage.Market.Types.{DealProposal, DealState, published, active, ActiveDealState}
use polka_storage.Market.Monad.{gets}
use polka_storage.Market.Monad.Keeps.{Keeps}
use polka_storage.Market.State.{Config}
use polka_storage.Market.Funds.Worth.{IsCurrency}
use polka_storage.Market.Settle.{
  settle_deal_payments, settle_deals, settle_deal, settle_found, settle_state, settle_active,
  close_or_update,
}
use polka_storage.Market.Terminate.{
  on_sectors_terminate, take_sector_deals, terminate_sector, terminate_deals, terminate_deal,
  terminate_found, terminate_state, terminate_active, forget_pending,
}
use polka_storage.Market.Solvency.{Covers}
use polka_storage.Market.Solvency.Rules.{Covers-bind, covers}

module _ (c : Config) (held : c.Ledger → ℕ) (cur : IsCurrency c held) where
  close_or_update-Covers :
      (now deal_id : ℕ) (deal : DealProposal) (st : ActiveDealState)
      → Keeps (Covers c held) (close_or_update c now deal_id deal st)
  unfolding close_or_update
  close_or_update-Covers now deal_id deal st = search covers

  settle_active-Covers :
      (now deal_id : ℕ) (deal : DealProposal) (st : ActiveDealState)
      → Keeps (Covers c held) (settle_active c now deal_id deal st)
  unfolding settle_active
  settle_active-Covers now deal_id deal st = search (covers, close_or_update-Covers)

  settle_state-Covers :
      (now deal_id : ℕ) (deal : DealProposal) (st : DealState)
      → Keeps (Covers c held) (settle_state c now deal_id deal st)
  unfolding settle_state
  settle_state-Covers now deal_id deal published = search covers
  settle_state-Covers now deal_id deal (active st) = settle_active-Covers now deal_id deal st

  settle_found-Covers :
      (now deal_id : ℕ) (found : Option DealProposal)
      → Keeps (Covers c held) (settle_found c now deal_id found)
  unfolding settle_found
  settle_found-Covers now deal_id none = search covers
  settle_found-Covers now deal_id (some deal) = search (covers, settle_state-Covers)

  settle_deal-Covers : (now deal_id : ℕ) → Keeps (Covers c held) (settle_deal c now deal_id)
  unfolding settle_deal
  settle_deal-Covers now deal_id = search (covers, settle_found-Covers)

  settle_deals-Covers :
      (now : ℕ) (deal_ids : List ℕ) → Keeps (Covers c held) (settle_deals c now deal_ids)
  unfolding settle_deals
  settle_deals-Covers now [] = search covers
  settle_deals-Covers now (deal_id ∷ deal_ids) =
      Covers-bind c held cur (settle_deal c now deal_id) _ (settle_deal-Covers now deal_id)
        (λ r. search (covers, settle_deals-Covers now deal_ids))

  pub settle_deal_payments-Covers :
      (now : ℕ) (deal_ids : List ℕ) → Keeps (Covers c held) (settle_deal_payments c now deal_ids)
  unfolding settle_deal_payments
  settle_deal_payments-Covers now deal_ids = search (covers, settle_deals-Covers)

  forget_pending-Covers :
      (deal : DealProposal) (last : Option ℕ) → Keeps (Covers c held) (forget_pending c deal last)
  unfolding forget_pending
  forget_pending-Covers deal none = search covers
  forget_pending-Covers deal (some _) = search covers

  terminate_active-Covers :
      (now deal_id : ℕ) (deal : DealProposal) (st : ActiveDealState)
      → Keeps (Covers c held) (terminate_active c now deal_id deal st)
  unfolding terminate_active
  terminate_active-Covers now deal_id deal st = search (covers, forget_pending-Covers) depth 12

  terminate_state-Covers :
      (now deal_id : ℕ) (deal : DealProposal) (st : DealState)
      → Keeps (Covers c held) (terminate_state c now deal_id deal st)
  unfolding terminate_state
  terminate_state-Covers now deal_id deal published = search covers
  terminate_state-Covers now deal_id deal (active st) = terminate_active-Covers now deal_id deal st

  terminate_found-Covers :
      (provider now deal_id : ℕ) (found : Option DealProposal)
      → Keeps (Covers c held) (terminate_found c provider now deal_id found)
  unfolding terminate_found
  terminate_found-Covers provider now deal_id none = search covers
  terminate_found-Covers provider now deal_id (some deal) = search (covers, terminate_state-Covers)

  terminate_deal-Covers :
      (provider now deal_id : ℕ) → Keeps (Covers c held) (terminate_deal c provider now deal_id)
  unfolding terminate_deal
  terminate_deal-Covers provider now deal_id = search (covers, terminate_found-Covers)

  terminate_deals-Covers :
      (provider now : ℕ) (deal_ids : List ℕ)
      → Keeps (Covers c held) (terminate_deals c provider now deal_ids)
  unfolding terminate_deals
  terminate_deals-Covers provider now [] = search covers
  terminate_deals-Covers provider now (deal_id ∷ deal_ids) =
      Covers-bind c held cur (terminate_deal c provider now deal_id) _
        (terminate_deal-Covers provider now deal_id)
        (λ _. terminate_deals-Covers provider now deal_ids)

  terminate_sector-Covers :
      (provider now : ℕ) (found : Option (List ℕ))
      → Keeps (Covers c held) (terminate_sector c provider now found)
  unfolding terminate_sector
  terminate_sector-Covers provider now none = search covers
  terminate_sector-Covers provider now (some deal_ids) =
      terminate_deals-Covers provider now deal_ids

  take_sector_deals-Covers :
      (provider sector : ℕ) → Keeps (Covers c held) (take_sector_deals c provider sector)
  unfolding take_sector_deals gets
  take_sector_deals-Covers provider sector = record { at = λ s. omega arith }

  pub on_sectors_terminate-Covers :
      (provider now : ℕ) (sectors : List ℕ)
      → Keeps (Covers c held) (on_sectors_terminate c provider now sectors)
  unfolding on_sectors_terminate
  on_sectors_terminate-Covers provider now [] = search covers
  on_sectors_terminate-Covers provider now (sector ∷ sectors) =
      Covers-bind c held cur (take_sector_deals c provider sector) _
        (take_sector_deals-Covers provider sector)
        (λ found.
          Covers-bind c held cur (terminate_sector c provider now found) _
            (terminate_sector-Covers provider now found)
            (λ _. on_sectors_terminate-Covers provider now sectors))
