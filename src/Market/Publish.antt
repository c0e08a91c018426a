-- ===== src/Market/Publish.antt =====
-- `publish_storage_deals` (pallets/market/src/lib.rs).
use polka_storage.Base.{ℕ, ◌+◌, List, [], ◌∷◌, none, some, ltb, if◌then◌else◌}
use polka_storage.Base.Storage
use polka_storage.Market.Types.{
  DealProposal, ClientDealProposal, total_storage_fee, u64_mod, unexpected_validation_error,
  too_many_deals_per_block, storage_provider_not_registered, deals_published,
}
use polka_storage.Market.Monad.{Action, ◌>>=◌, ◌>>◌, pure, ok_or, ensure, unwrap, gets, modify}
use polka_storage.Market.State.{Config, Market, deposit_event}
use polka_storage.Market.Funds.{lock_funds}
use polka_storage.Market.Validate.{validate_deals}

module _ (c : Config) where
  unfoldable pub generate_deal_id : Action (Market c) ℕ
  generate_deal_id = do
    ret ← gets (λ m. m.next_deal_id)
    next ← unwrap (if ltb (ret + 1) u64_mod then some (ret + 1) else none)
    modify (λ m. record m { next_deal_id = next })
    pure ret

  -- One round of the loop: the client and the id of the published deal.
  unfoldable pub publish_deal : DealProposal → Action (Market c) (ℕ × ℕ)
  publish_deal deal = do
    client_fee ← ok_or (total_storage_fee deal) unexpected_validation_error
    lock_funds c deal.client client_fee
    deal_id ← generate_deal_id
    deals ← gets (λ m. Storage.get_or [] deal.start_block m.deals_for_block)
    deals' ←
        ok_or (c.bounded.set_try_insert c.max_deals_per_block deal_id deals)
          too_many_deals_per_block
    modify (λ m. record m {
      deals_for_block = Storage.insert deal.start_block deals' m.deals_for_block;
    })
    modify (λ m. record m { proposals = Storage.insert deal_id deal m.proposals })
    pure (deal.client, deal_id)

  unfoldable pub publish_loop : List DealProposal → Action (Market c) (List (ℕ × ℕ))
  publish_loop [] = pure []
  publish_loop (deal ∷ deals) = do
    entry ← publish_deal deal
    rest ← publish_loop deals
    pure (entry ∷ rest)

  unfoldable pub publish_storage_deals :
      ℕ → ℕ → List (ClientDealProposal c.Signature) → Action (Market c) (Unit {0})
  publish_storage_deals provider current_block deals = do
    ensure (c.is_registered_storage_provider provider) storage_provider_not_registered
    valid ← validate_deals c provider deals current_block
    entries ← publish_loop valid.0
    lock_funds c provider valid.1
    deposit_event c (deals_published provider entries)
