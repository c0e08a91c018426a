-- ===== src/Market/Solvency/Publication.antt =====
-- Publication keeps what covers the debts, whether it returns or fails.
use polka_storage.Base.{ℕ, List, [], ◌∷◌, arith}
use polka_storage.Market.Types.{DealProposal, ClientDealProposal}
use polka_storage.Market.Monad.{ok_or}
use polka_storage.Market.Monad.Keeps.{Keeps}
use polka_storage.Market.State.{Config}
use polka_storage.Market.Funds.Worth.{IsCurrency}
use polka_storage.Market.Publish.{
  publish_storage_deals, publish_loop, publish_deal, generate_deal_id,
}
use polka_storage.Market.Validate.{
  Validation, validate_deals, validate_loop, validate_deal, sanity_check, validate_signature,
}
use polka_storage.Market.Solvency.{Covers}
use polka_storage.Market.Solvency.Rules.{Covers-bind, covers}

module _ (c : Config) (held : c.Ledger → ℕ) (cur : IsCurrency c held) where
  validate_signature-Covers :
      (bytes : List ℕ) (sig : c.Signature) (signer : ℕ)
      → Keeps (Covers c held) (validate_signature c bytes sig signer)
  unfolding validate_signature
  validate_signature-Covers bytes sig signer = search covers

  sanity_check-Covers :
      (deal : ClientDealProposal c.Signature) (provider now : ℕ)
      → Keeps (Covers c held) (sanity_check c deal provider now)
  unfolding sanity_check
  sanity_check-Covers deal provider now = search (covers, validate_signature-Covers) depth 12

  validate_deal-Covers :
      (provider now : ℕ) (v : Validation) (deal : ClientDealProposal c.Signature)
      → Keeps (Covers c held) (validate_deal c provider now v deal)
  unfolding validate_deal
  validate_deal-Covers provider now v deal = search (covers, sanity_check-Covers) depth 20

  validate_loop-Covers :
      (provider now : ℕ) (v : Validation) (deals : List (ClientDealProposal c.Signature))
      → Keeps (Covers c held) (validate_loop c provider now v deals)
  unfolding validate_loop
  validate_loop-Covers provider now v [] = search covers
  validate_loop-Covers provider now v (deal ∷ deals) =
      Covers-bind c held cur (validate_deal c provider now v deal) _
        (validate_deal-Covers provider now v deal)
        (λ v'. validate_loop-Covers provider now v' deals)

  validate_deals-Covers :
      (caller : ℕ) (deals : List (ClientDealProposal c.Signature)) (now : ℕ)
      → Keeps (Covers c held) (validate_deals c caller deals now)
  unfolding validate_deals ok_or
  validate_deals-Covers caller [] now = record { at = λ s. omega arith }
  validate_deals-Covers caller (first ∷ rest) now = search (covers, validate_loop-Covers)

  publish_deal-Covers : (deal : DealProposal) → Keeps (Covers c held) (publish_deal c deal)
  unfolding publish_deal generate_deal_id
  publish_deal-Covers deal = search covers depth 14

  publish_loop-Covers : (deals : List DealProposal) → Keeps (Covers c held) (publish_loop c deals)
  unfolding publish_loop
  publish_loop-Covers [] = search covers
  publish_loop-Covers (deal ∷ deals) =
      Covers-bind c held cur (publish_deal c deal) _ (publish_deal-Covers deal)
        (λ entry. search (covers, publish_loop-Covers deals))

  pub publish_storage_deals-Covers :
      (provider now : ℕ) (deals : List (ClientDealProposal c.Signature))
      → Keeps (Covers c held) (publish_storage_deals c provider now deals)
  unfolding publish_storage_deals
  publish_storage_deals-Covers provider now deals =
      search (covers, validate_deals-Covers, publish_loop-Covers) depth 8
