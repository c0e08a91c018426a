-- ===== src/Market/Finalize.antt =====
-- `on_finalize` (pallets/market/src/lib.rs): deals that were not activated by their start block.
use polka_storage.Base.{ℕ, Option, none, some, List, [], ◌∷◌, is_empty, if◌then◌else◌}
use polka_storage.Base.Storage
use polka_storage.Btree.Set.{BtreeSet}
use polka_storage.Btree.Set
use polka_storage.Market.Types.{
  DealProposal, DealState, published, active, total_storage_fee, deal_slashed,
}
use polka_storage.Market.Monad.{Result, ok, err, panic, Action, ◌>>◌}
use polka_storage.Market.State.{Config, Market, deposit_event}
use polka_storage.Market.Funds.{unlock_funds, slash_and_burn}
use polka_storage.Market.Validate.{hash_proposal}

module _ (c : Config) where
  -- The client is refunded and the provider slashed. A failure leaves what was done before it.
  unfoldable pub slash_unactivated : ℕ → DealProposal → ℕ → Action (Market c) (Unit {0})
  slash_unactivated deal_id proposal client_fee = do
    unlock_funds c proposal.client client_fee
    slash_and_burn c proposal.provider proposal.provider_collateral
    deposit_event c
        (deal_slashed deal_id proposal.provider_collateral proposal.client proposal.provider)

  -- Where the slashing fails the deal is kept, else it is removed.
  unfoldable pub drop_slashed :
      ℕ → DealProposal → BtreeSet → Result (Unit {0}) × Market c → BtreeSet × Market c
  drop_slashed deal_id proposal pending (ok _, m) = (
    Set.remove (hash_proposal c proposal) pending,
    record m { proposals = Storage.remove deal_id m.proposals },
  )
  drop_slashed deal_id proposal pending (err _, m) = (pending, m)
  drop_slashed deal_id proposal pending (panic, m) = (pending, m)

  unfoldable pub finalize_fee :
      ℕ → DealProposal → Option ℕ → BtreeSet → Market c → BtreeSet × Market c
  finalize_fee deal_id proposal none pending m = (pending, m)
  finalize_fee deal_id proposal (some client_fee) pending m =
      drop_slashed deal_id proposal pending (slash_unactivated deal_id proposal client_fee m)

  unfoldable pub finalize_state :
      ℕ → DealProposal → DealState → BtreeSet → Market c → BtreeSet × Market c
  finalize_state deal_id proposal published pending m =
      finalize_fee deal_id proposal (total_storage_fee proposal) pending m
  finalize_state deal_id proposal (active _) pending m = (pending, m)

  unfoldable pub finalize_deal : ℕ → Option DealProposal → BtreeSet → Market c → BtreeSet × Market c
  finalize_deal deal_id none pending m = (pending, m)
  finalize_deal deal_id (some proposal) pending m =
      finalize_state deal_id proposal proposal.state pending m

  unfoldable pub finalize_deals : List ℕ → BtreeSet → Market c → BtreeSet × Market c
  finalize_deals [] pending m = (pending, m)
  finalize_deals (deal_id ∷ deal_ids) pending m =
      let (pending', m') = finalize_deal deal_id (Storage.get deal_id m.proposals) pending m in
      finalize_deals deal_ids pending' m'

  unfoldable pub on_finalize : ℕ → Market c → Market c
  on_finalize current_block m =
      let deal_ids = Storage.get_or [] current_block m.deals_for_block in
      let (pending, m') = finalize_deals deal_ids m.pending_proposals m in
      if is_empty deal_ids then m else record m' {
        pending_proposals = pending;
        deals_for_block = Storage.remove current_block m'.deals_for_block;
      }
