-- ===== src/Market/Validate.antt =====
-- The checks of deals: `validate_signature`, `sanity_check`, `validate_deals`,
-- `validate_deal_can_activate`, `validate_deals_for_sector` and `proposals_for_deals`
-- (pallets/market/src/lib.rs).
pub mod Proposals
pub mod Accepted
use polka_storage.Base.{
  ℕ, ◌+◌, ◌%◌, Bool, true, false, not, ◌||◌, none, some, List, [], ◌∷◌, ◌++◌, ltb, leb, ◌==◌,
  if◌then◌else◌,
}
use polka_storage.Base.Storage
use polka_storage.Btree.Set.{BtreeSet}
use polka_storage.Btree.Set
use polka_storage.Btree.Map.{BtreeMap}
use polka_storage.Btree.Map
use polka_storage.Market.Types.{
  DealProposal, ClientDealProposal, DealState, published, active, total_storage_fee, duration,
  checked_add, u64_mod, max_sectors_per_call, overflow, other, invalid_piece_cid, duplicate_deal,
  proposals_published_by_incorrect_storage_provider, deal_end_before_start, deal_start_expired,
  deal_not_published, deal_duration_out_of_bounds, wrong_client_signature_on_proposal,
  no_proposals_to_be_published, insufficient_free_funds, too_many_pending_deals, invalid_provider,
  invalid_deal_state, start_block_elapsed, sector_expires_before_deal, deal_not_pending,
  deals_too_large_to_fit_into_sector, deal_precondition_failed, no_such_deal,
}
use polka_storage.Market.Monad.{Action, ◌>>=◌, ◌>>◌, pure, ok_or, ensure, unwrap, gets, modify}
use polka_storage.Market.State.{Config, Market, balance_of}

unfoldable pub is_published : DealState → Bool
is_published published = true
is_published (active _) = false

-- `<Bytes>` and `</Bytes>`
unfoldable pub wrap_bytes : List ℕ → List ℕ
wrap_bytes bytes =
    (b'<' ∷ b'B' ∷ b'y' ∷ b't' ∷ b'e' ∷ b's' ∷ b'>' ∷ [])
    ++ (bytes ++ (b'<' ∷ b'/' ∷ b'B' ∷ b'y' ∷ b't' ∷ b'e' ∷ b's' ∷ b'>' ∷ []))

-- What the loop of `validate_deals` carries.
pub record Validation : Type 0 where
  pub total_client_lockup : BtreeMap ℕ
  pub total_provider_lockup : ℕ
  pub message_proposals : BtreeSet
  pub valid_deals : List DealProposal

abbrev pub no_validation : Validation
no_validation = record {
  total_client_lockup = [];
  total_provider_lockup = 0;
  message_proposals = [];
  valid_deals = [];
}

unfoldable pub lockup_of : BtreeMap ℕ → ℕ → ℕ
lockup_of lockups client = elim (Map.get client lockups) [ some x ↦ x | none ↦ 0 ]

module _ (c : Config) where
  unfoldable pub hash_proposal : DealProposal → ℕ
  hash_proposal proposal = c.hash (c.encode proposal)

  unfoldable pub validate_signature : List ℕ → c.Signature → ℕ → Action (Market c) (Unit {0})
  validate_signature bytes signature signer =
      if c.verify bytes signature signer
      then pure tt
      else ensure (c.verify (wrap_bytes bytes) signature signer) wrong_client_signature_on_proposal

  unfoldable pub sanity_check :
      ClientDealProposal c.Signature → ℕ → ℕ → Action (Market c) (Unit {0})
  sanity_check deal provider current_block = do
    let p = deal.proposal
    validate_signature (c.encode p) deal.client_signature p.client
    commitment ← ok_or (c.from_cid_bytes p.piece_cid) invalid_piece_cid
    ensure (p.provider == provider) proposals_published_by_incorrect_storage_provider
    ensure (ltb p.start_block p.end_block) deal_end_before_start
    ensure (leb current_block p.start_block) deal_start_expired
    ensure (is_published p.state) deal_not_published
    ensure (leb c.min_deal_duration (duration p)) deal_duration_out_of_bounds
    ensure (leb (duration p) c.max_deal_duration) deal_duration_out_of_bounds

  -- One round of the loop of `validate_deals`.
  unfoldable pub validate_deal :
      ℕ → ℕ → Validation → ClientDealProposal c.Signature → Action (Market c) Validation
  validate_deal provider current_block v deal = do
    let p = deal.proposal
    sanity_check deal provider current_block
    client_fees ← unwrap (total_storage_fee p)
    client_lockup ←
        ok_or (checked_add (lockup_of v.total_client_lockup p.client) client_fees) overflow
    client_balance ← gets (λ m. balance_of c m p.client)
    ensure (leb client_lockup client_balance.free) insufficient_free_funds
    provider_lockup ← ok_or (checked_add v.total_provider_lockup p.provider_collateral) overflow
    provider_balance ← gets (λ m. balance_of c m p.provider)
    ensure (leb provider_lockup provider_balance.free) insufficient_free_funds
    let hash = hash_proposal p
    pending ← gets (λ m. m.pending_proposals)
    ensure (not (Set.contains hash pending || Set.contains hash v.message_proposals)) duplicate_deal
    pending' ← ok_or (c.bounded.set_try_insert c.max_deals hash pending) too_many_pending_deals
    modify (λ m. record m { pending_proposals = pending' })
    message ← ok_or (c.bounded.set_try_insert c.max_deals hash v.message_proposals) other
    lockups ←
        ok_or (c.bounded.map_try_insert ℕ c.max_deals p.client client_lockup v.total_client_lockup)
          other
    pure (record {
      total_client_lockup = lockups;
      total_provider_lockup = provider_lockup;
      message_proposals = message;
      valid_deals = v.valid_deals ++ p ∷ [];
    })

  unfoldable pub validate_loop :
      ℕ → ℕ → Validation → List (ClientDealProposal c.Signature) → Action (Market c) Validation
  validate_loop provider current_block v [] = pure v
  validate_loop provider current_block v (deal ∷ deals) = do
    v' ← validate_deal provider current_block v deal
    validate_loop provider current_block v' deals

  unfoldable pub validate_deals :
      ℕ → List (ClientDealProposal c.Signature) → ℕ → Action (Market c) (List DealProposal × ℕ)
  validate_deals caller [] current_block = λ m. (ok_or none no_proposals_to_be_published) m
  validate_deals caller (first ∷ rest) current_block = do
    let provider = first.proposal.provider
    ensure (caller == provider) proposals_published_by_incorrect_storage_provider
    v ← validate_loop provider current_block no_validation (first ∷ rest)
    pure (v.valid_deals, v.total_provider_lockup)

  unfoldable pub validate_deal_can_activate :
      DealProposal → ℕ → ℕ → ℕ → Action (Market c) (Unit {0})
  validate_deal_can_activate deal provider sector_expiry sector_activation = do
    ensure (provider == deal.provider) invalid_provider
    ensure (is_published deal.state) invalid_deal_state
    ensure (leb sector_activation deal.start_block) start_block_elapsed
    ensure (leb deal.end_block sector_expiry) sector_expires_before_deal
    pending ← gets (λ m. m.pending_proposals)
    ensure (Set.contains (hash_proposal deal) pending) deal_not_pending

  -- The loop of `validate_deals_for_sector`: the space of the deals, added up in `u64`.
  unfoldable pub deal_space : List (ℕ × DealProposal) → ℕ → ℕ → ℕ → ℕ → Action (Market c) ℕ
  deal_space [] provider sector_expiry sector_activation space = pure space
  deal_space ((deal_id, deal) ∷ deals) provider sector_expiry sector_activation space = do
    validate_deal_can_activate deal provider sector_expiry sector_activation
    deal_space deals provider sector_expiry sector_activation ((space + deal.piece_size) % u64_mod)

  unfoldable pub validate_deals_for_sector :
      List (ℕ × DealProposal) → ℕ → ℕ → ℕ → ℕ → Action (Market c) (Unit {0})
  validate_deals_for_sector deals provider sector_expiry sector_activation sector_size = do
    space ← deal_space deals provider sector_expiry sector_activation 0
    ensure (leb space sector_size) deals_too_large_to_fit_into_sector

  -- The loop of `proposals_for_deals`, with the deals seen and the proposals found.
  unfoldable pub collect_proposals :
      List ℕ → BtreeSet → List (ℕ × DealProposal) → Action (Market c) (List (ℕ × DealProposal))
  collect_proposals [] unique_deals proposals = pure proposals
  collect_proposals (deal_id ∷ deal_ids) unique_deals proposals = do
    ensure (not (Set.contains deal_id unique_deals)) duplicate_deal
    unique ←
        ok_or (c.bounded.set_try_insert max_sectors_per_call deal_id unique_deals)
          deal_precondition_failed
    found ← gets (λ m. Storage.get deal_id m.proposals)
    proposal ← ok_or found no_such_deal
    more ←
        ok_or
          (c.bounded.vec_try_push (ℕ × DealProposal) max_sectors_per_call (deal_id, proposal)
            proposals)
          deal_precondition_failed
    collect_proposals deal_ids unique more

  unfoldable pub proposals_for_deals : List ℕ → Action (Market c) (List (ℕ × DealProposal))
  proposals_for_deals deal_ids = collect_proposals deal_ids [] []
