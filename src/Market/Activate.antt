-- ===== src/Market/Activate.antt =====
-- `verify_deals_for_activation` and `activate_deals` (pallets/market/src/lib.rs).
use polka_storage.Base.{
  ℕ, Bool, not, ◌&&◌, Option, none, some, List, [], ◌∷◌, map, is_empty, if◌then◌else◌,
}
use polka_storage.Base.Storage
use polka_storage.Btree.Set.{BtreeSet}
use polka_storage.Btree.Set
use polka_storage.Market.Types.{
  DealProposal, active, new_active, SectorDeal, ActiveDeal, ActiveSector, deal_activated,
  deal_precondition_failed, comm_d, other, max_deals_per_sector, max_sectors_per_call,
}
use polka_storage.Market.Monad.{ok, err, panic, Action, ◌>>=◌, ◌>>◌, pure, ok_or, gets, modify}
use polka_storage.Market.State.{Config, Market, deposit_event}
use polka_storage.Market.Validate.{proposals_for_deals, validate_deals_for_sector, hash_proposal}

-- What the loop over the deals of one sector carries.
pub record Activation : Type 0 where
  pub pending : BtreeSet
  pub deals : List ActiveDeal
  pub deal_ids : List ℕ

module _ (c : Config) where
  unfoldable pub commd_of : List (ℕ × DealProposal) → Action (Market c) (List ℕ)
  commd_of proposals = ok_or (c.compute_commd (map (λ e. e.1) proposals)) comm_d

  unfoldable pub verify_sector : ℕ → ℕ → SectorDeal → Action (Market c) (Option (List ℕ))
  verify_sector storage_provider curr_block sector = do
    proposals ← proposals_for_deals c sector.deal_ids
    validate_deals_for_sector c proposals storage_provider sector.sector_expiry curr_block
        sector.sector_size
    if is_empty proposals then pure none else (do cid ← commd_of proposals; pure (some cid))

  unfoldable pub verify_deals_for_activation :
      ℕ → ℕ → List SectorDeal → List (Option (List ℕ)) → Action (Market c) (List (Option (List ℕ)))
  verify_deals_for_activation storage_provider curr_block [] unsealed_cids = pure unsealed_cids
  verify_deals_for_activation storage_provider curr_block (sector ∷ sectors) unsealed_cids = do
    commd ← verify_sector storage_provider curr_block sector
    more ←
        ok_or (c.bounded.vec_try_push (Option (List ℕ)) max_sectors_per_call commd unsealed_cids)
          other
    verify_deals_for_activation storage_provider curr_block sectors more

  -- One round of the loop over a sector's deals.
  unfoldable pub activate_deal :
      ℕ → ℕ → Activation → ℕ → DealProposal → Action (Market c) Activation
  activate_deal sector_number curr_block a deal_id proposal = do
    cid ← ok_or (c.from_cid_bytes proposal.piece_cid) deal_precondition_failed
    deals ←
        ok_or
          (c.bounded.vec_try_push ActiveDeal max_deals_per_sector
            (record { client = proposal.client; piece_cid = cid; piece_size = proposal.piece_size })
            a.deals)
          deal_precondition_failed
    ids ←
        ok_or (c.bounded.vec_try_push ℕ max_deals_per_sector deal_id a.deal_ids)
          deal_precondition_failed
    deposit_event c (deal_activated deal_id proposal.client proposal.provider)
    modify (λ m. record m {
      proposals =
          Storage.insert deal_id
            (record proposal { state = active (new_active sector_number curr_block) }) m.proposals;
    })
    pure (record {
      pending = Set.remove (hash_proposal c proposal) a.pending;
      deals = deals;
      deal_ids = ids;
    })

  unfoldable pub activate_loop :
      ℕ → ℕ → Activation → List (ℕ × DealProposal) → Action (Market c) Activation
  activate_loop sector_number curr_block a [] = pure a
  activate_loop sector_number curr_block a ((deal_id, proposal) ∷ rest) = do
    a' ← activate_deal sector_number curr_block a deal_id proposal
    activate_loop sector_number curr_block a' rest

  unfoldable pub insert_sector_deals : ℕ → ℕ → List ℕ → Action (Market c) (Unit {0})
  insert_sector_deals provider sector deal_ids = modify (λ m. record m {
    sector_deals =
        Storage.insert provider
          (Storage.insert sector deal_ids (Storage.get_or [] provider m.sector_deals))
          m.sector_deals;
  })

  -- A sector that passed its checks.
  unfoldable pub activate_checked :
      ℕ
      → ℕ
      → Bool
      → SectorDeal
      → List (ℕ × DealProposal)
      → BtreeSet
      → Action (Market c) (BtreeSet × ActiveSector)
  activate_checked storage_provider curr_block compute_cid sector proposals pending = do
    commitment ←
        (if compute_cid && not (is_empty proposals)
          then (do cid ← commd_of proposals; pure (some cid))
          else pure none)
    a ←
        activate_loop sector.sector_number curr_block
          (record { pending = pending; deals = []; deal_ids = [] }) proposals
    insert_sector_deals storage_provider sector.sector_number a.deal_ids
    pure (a.pending, record { active_deals = a.deals; unsealed_cid = commitment })

  -- The checks of one sector; a sector that fails them is skipped.
  unfoldable pub check_sector : ℕ → ℕ → SectorDeal → Action (Market c) (List (ℕ × DealProposal))
  check_sector storage_provider curr_block sector = do
    proposals ← proposals_for_deals c sector.deal_ids
    validate_deals_for_sector c proposals storage_provider sector.sector_expiry curr_block
        sector.sector_size
    pure proposals

  unfoldable pub activate_sectors :
      ℕ
      → ℕ
      → Bool
      → List SectorDeal
      → BtreeSet
      → List ActiveSector
      → Action (Market c) (BtreeSet × List ActiveSector)
  activate_sectors storage_provider curr_block compute_cid [] pending activations m =
      pure (pending, activations) m
  activate_sectors storage_provider curr_block compute_cid (sector ∷ sectors) pending activations
        m =
      elim (check_sector storage_provider curr_block sector m).0 [
        | err _ ↦
            activate_sectors storage_provider curr_block compute_cid sectors pending activations m
        | panic ↦ (panic, m)
        | ok proposals ↦
            (do
              (pending', activation) ←
                  activate_checked storage_provider curr_block compute_cid sector proposals pending
              more ←
                  ok_or
                    (c.bounded.vec_try_push ActiveSector max_sectors_per_call activation
                      activations)
                    deal_precondition_failed
              activate_sectors storage_provider curr_block compute_cid sectors pending' more)
              m
      ]

  unfoldable pub activate_deals :
      ℕ → ℕ → List SectorDeal → Bool → Action (Market c) (List ActiveSector)
  activate_deals storage_provider curr_block sectors compute_cid = do
    pending ← gets (λ m. m.pending_proposals)
    (pending', activations) ←
        activate_sectors storage_provider curr_block compute_cid sectors pending []
    modify (λ m. record m { pending_proposals = pending' })
    pure activations
