-- ===== src/Market/Validate/Accepted.antt =====
-- What `validate_deals` guarantees of the deals that it lets through.
use polka_storage.Base.{
  ℕ, ◌+◌, ◌≤◌, ◌<◌, ◌≡◌, ◌≢◌, none, ap, ◌∙◌, true, false, ◌||◌, List, [], ◌∷◌, ◌++◌, map, inl, inr,
  arith, ◌==◌, All, Bool-cases, ==_iff, if◌then◌else◌,
}
use mathlib.Core.List.{append-nil, append_assoc}
use native.Mathlib.Nat.{zero-add}
use polka_storage.Base.Storage
use polka_storage.Btree.Set.{BtreeSet}
use polka_storage.Btree.Set
use polka_storage.Btree.Map
use polka_storage.Market.Types.{
  DealProposal, ClientDealProposal, published, duration, total_storage_fee, mul_u128, checked_add,
  default_balance,
}
use polka_storage.Market.Monad.{ok, pure, ok_or, ensure, ◌>>=◌}
use polka_storage.Market.Monad.Inversion.{bind_inverts, ensure_inverts, pure_inverts}
use polka_storage.Market.State.{Config, Market, balance_of}
use polka_storage.Market.Validate.{
  Validation, no_validation, lockup_of, is_published, wrap_bytes, validate_signature, sanity_check,
  validate_deal, validate_loop, validate_deals, hash_proposal,
}

-- The fee that the client of a deal locks.
pub fee_of : DealProposal → ℕ
fee_of p = mul_u128 p.storage_price_per_block (duration p)

lockup_of-insert :
    (client x : ℕ) (m : Map.BtreeMap ℕ) (who : ℕ)
    → lockup_of (Map.insert client x m) who ≡ (if who == client then x else lockup_of m who)
unfolding lockup_of
lockup_of-insert client x m who = ground (arith, Map.get-insert client who x m)

module _ (c : Config) where
  -- What a single deal satisfies.
  pub record IsAccepted (provider now : ℕ) (deal : ClientDealProposal c.Signature) : Type 0 where
    pub signed :
        (c.verify (c.encode deal.proposal) deal.client_signature deal.proposal.client
          || c.verify
              (wrap_bytes (c.encode deal.proposal))
              deal.client_signature
              deal.proposal.client)
        ≡ true
    pub known_piece : c.from_cid_bytes deal.proposal.piece_cid ≢ none
    pub by_provider : deal.proposal.provider ≡ provider
    pub ordered : deal.proposal.start_block < deal.proposal.end_block
    pub not_expired : now ≤ deal.proposal.start_block
    pub unpublished : deal.proposal.state ≡ published
    pub long_enough : c.min_deal_duration ≤ duration deal.proposal
    pub short_enough : duration deal.proposal ≤ c.max_deal_duration

  sanity_check-IsAccepted :
      (deal : ClientDealProposal c.Signature) (provider now : ℕ) (m m' : Market c)
      → sanity_check c deal provider now m ≡ (ok tt, m')
      → IsAccepted provider now deal × (m' ≡ m)
  unfolding sanity_check validate_signature is_published ◌>>=◌
  sanity_check-IsAccepted deal provider now m m' h = (
    record {
      signed = ground arith;
      known_piece = λ absent. ground (arith, absent);
      by_provider = ground arith;
      ordered = ground arith;
      not_expired = ground arith;
      unpublished = ground arith;
      long_enough = ground arith;
      short_enough = ground arith;
    },
    ground arith,
  )

  -- What the client accounts of the deals pay, and the providers put up.
  pub fees_of : ℕ → List (ClientDealProposal c.Signature) → ℕ
  fees_of who [] = 0
  fees_of who (deal ∷ deals) =
      (if who == deal.proposal.client then fee_of deal.proposal else 0) + fees_of who deals

  pub collateral_of : List (ClientDealProposal c.Signature) → ℕ
  collateral_of [] = 0
  collateral_of (deal ∷ deals) = deal.proposal.provider_collateral + collateral_of deals

  abbrev pub hashes : List (ClientDealProposal c.Signature) → List ℕ
  hashes deals = map (λ d. hash_proposal c d.proposal) deals

  -- None of the hashes is in the set, and none occurs twice.
  abbrev pub AllNew : List ℕ → BtreeSet → Type 0
  AllNew [] pending = Unit
  AllNew (h ∷ hs) pending = (Set.contains h pending ≡ false) × AllNew hs (Set.insert h pending)

  -- One round: the deal is accepted, counted, and its hash is new and pending from now on.
  record Counts (provider now : ℕ) (v v' : Validation) (deal : ClientDealProposal c.Signature)
      (m m' : Market c) : Type 0 where
    accepted : IsAccepted provider now deal
    valid : v'.valid_deals ≡ v.valid_deals ++ deal.proposal ∷ []
    collateral :
        v'.total_provider_lockup ≡ v.total_provider_lockup + deal.proposal.provider_collateral
    collateral_held : v'.total_provider_lockup ≤ (balance_of c m provider).free
    lockup :
        (who : ℕ)
        → lockup_of v'.total_client_lockup who
          ≡ lockup_of v.total_client_lockup who
            + (if who == deal.proposal.client then fee_of deal.proposal else 0)
    fee_held :
        lockup_of v'.total_client_lockup deal.proposal.client
        ≤ (balance_of c m deal.proposal.client).free
    balances : m'.balance_table ≡ m.balance_table
    new : Set.contains (hash_proposal c deal.proposal) m.pending_proposals ≡ false
    pending : m'.pending_proposals ≡ Set.insert (hash_proposal c deal.proposal) m.pending_proposals

  validate_deal-Counts :
      (provider now : ℕ) (v v' : Validation) (deal : ClientDealProposal c.Signature)
      (m m' : Market c)
      → validate_deal c provider now v deal m ≡ (ok v', m')
      → Counts provider now v v' deal m m'
  unfolding validate_deal ◌>>=◌ fee_of total_storage_fee checked_add
  validate_deal-Counts provider now v v' deal m m' h =
      let r = bind_inverts (sanity_check c deal provider now) _ m v' m' h in
      let (accepted, same) = sanity_check-IsAccepted deal provider now m r.middle r.first in
      let p = deal.proposal in
      let rest = rw same at r.rest in
      let paid = lockup_of v.total_client_lockup p.client + fee_of p in
      let l1 = c.bounded.set_try_insert_law c.max_deals (hash_proposal c p) m.pending_proposals in
      let l2 = c.bounded.set_try_insert_law c.max_deals (hash_proposal c p) v.message_proposals in
      let l3 = c.bounded.map_try_insert_law ℕ c.max_deals p.client paid v.total_client_lockup in
      record {
        accepted = accepted;
        valid = ground (arith, rest, l1, l2, l3);
        collateral = ground (arith, rest, l1, l2, l3);
        collateral_held = ground (arith, rest, l1, l2, l3, accepted.by_provider);
        lockup = λ who.
            ground
              (arith, rest, l1, l2, l3, lockup_of-insert p.client paid v.total_client_lockup who);
        fee_held = ground (
          arith,
          rest,
          l1,
          l2,
          l3,
          lockup_of-insert p.client paid v.total_client_lockup p.client,
        );
        balances = ground (arith, rest, l1, l2, l3);
        new = ground (arith, rest, l1, l2, l3);
        pending = ground (arith, rest, l1, l2, l3);
      }

  -- What the whole loop establishes, of the deals that are left.
  record Validates (provider now : ℕ) (v v' : Validation)
      (deals : List (ClientDealProposal c.Signature)) (m m' : Market c) : Type 0 where
    accepted : All (IsAccepted provider now) deals
    valid : v'.valid_deals ≡ v.valid_deals ++ map (λ d. d.proposal) deals
    collateral : v'.total_provider_lockup ≡ v.total_provider_lockup + collateral_of deals
    collateral_held :
        v.total_provider_lockup ≤ (balance_of c m provider).free
        → v'.total_provider_lockup ≤ (balance_of c m provider).free
    lockup :
        (who : ℕ)
        → lockup_of v'.total_client_lockup who
          ≡ lockup_of v.total_client_lockup who + fees_of who deals
    fees_held :
        (who : ℕ)
        → lockup_of v.total_client_lockup who ≤ (balance_of c m who).free
        → lockup_of v'.total_client_lockup who ≤ (balance_of c m who).free
    balances : m'.balance_table ≡ m.balance_table
    new : AllNew (hashes deals) m.pending_proposals
    pending : m'.pending_proposals ≡ Set.insert_all (hashes deals) m.pending_proposals

  one_fee_held :
      (provider now : ℕ) (v v' : Validation) (deal : ClientDealProposal c.Signature)
      (m m' : Market c)
      → Counts provider now v v' deal m m'
      → (who : ℕ) → lockup_of v.total_client_lockup who ≤ (balance_of c m who).free
      → lockup_of v'.total_client_lockup who ≤ (balance_of c m who).free
  one_fee_held provider now v v' deal m m' one who h =
      elim (Bool-cases (who == deal.proposal.client)) [
        | inl e ↦ rw ((==_iff who deal.proposal.client).0 e) one.fee_held
        | inr e ↦ ground (arith, one.lockup who)
      ]

  validate_loop-Validates :
      (provider now : ℕ) (v v' : Validation) (deals : List (ClientDealProposal c.Signature))
      (m m' : Market c)
      → validate_loop c provider now v deals m ≡ (ok v', m')
      → Validates provider now v v' deals m m'
  unfolding validate_loop fees_of collateral_of pure Set.insert_all
  validate_loop-Validates provider now v v' [] m m' h =
      let same : v' ≡ v = cc in
      record {
        accepted = tt;
        valid = rw (same, append-nil);
        collateral = rw same (omega arith);
        collateral_held = λ k. rw same k;
        lockup = λ who. rw same (omega arith);
        fees_held = λ who k. rw same k;
        balances = ground arith;
        new = tt;
        pending = ground arith;
      }
  validate_loop-Validates provider now v v' (deal ∷ deals) m m' h =
      let r = bind_inverts (validate_deal c provider now v deal) _ m v' m' h in
      let one = validate_deal-Counts provider now v r.value deal m r.middle r.first in
      let more = validate_loop-Validates provider now r.value v' deals r.middle m' r.rest in
      let same_at : (who : ℕ) → (balance_of c r.middle who).free ≡ (balance_of c m who).free =
        λ who. ap (λ t. (Storage.get_or default_balance who t).free) one.balances in
      record {
        accepted = (one.accepted, more.accepted);
        valid =
            more.valid
            ∙ rw one.valid
                (append_assoc v.valid_deals (deal.proposal ∷ []) (map (λ d. d.proposal) deals));
        collateral = omega (arith, more.collateral, one.collateral);
        collateral_held = λ k.
            let held =
              more.collateral_held (omega (arith, same_at provider, one.collateral_held)) in
            omega (arith, held, same_at provider);
        lockup = λ who. omega (arith, more.lockup who, one.lockup who);
        fees_held = λ who k.
            let paid = one_fee_held provider now v r.value deal m r.middle one who k in
            let held = more.fees_held who (omega (arith, same_at who, paid)) in
            omega (arith, held, same_at who);
        balances = more.balances ∙ one.balances;
        new = (one.new, rw one.pending at more.new);
        pending = rw one.pending at more.pending;
      }

  -- Deals that pass `validate_deals` are the given ones, in order. Each is signed by its client, has a
  -- valid piece CID, is the caller's, ends after it starts, does not start in the past, is
  -- unpublished and lasts as long as the bounds allow. No deal's hash was pending before or occurs
  -- twice, and all of them are pending afterwards. The lock-up that is returned is the sum of the collaterals; the caller's
  -- free balance covers it, and the free balance of every account covers the fees of all deals in
  -- which it is the client. No balance changes.
  pub validate_deals_sound :
      (caller now : ℕ) (deals : List (ClientDealProposal c.Signature)) (valid : List DealProposal)
      (total : ℕ) (m m' : Market c)
      → validate_deals c caller deals now m ≡ (ok (valid, total), m')
      → (valid ≡ map (λ d. d.proposal) deals)
        × All (IsAccepted caller now) deals
        × (total ≡ collateral_of deals)
        × (total ≤ (balance_of c m caller).free)
        × ((who : ℕ) → fees_of who deals ≤ (balance_of c m who).free)
        × (m'.balance_table ≡ m.balance_table)
        × AllNew (hashes deals) m.pending_proposals
        × (m'.pending_proposals ≡ Set.insert_all (hashes deals) m.pending_proposals)
  unfolding validate_deals pure ensure ok_or lockup_of Map.get
  validate_deals_sound caller now [] valid total m m' h = absurd (cc)
  validate_deals_sound caller now (first ∷ rest) valid total m m' h =
      let deals = first ∷ rest in
      let guard =
        bind_inverts (ensure (caller == first.proposal.provider) _) _ m (valid, total) m' h in
      let (own, same) =
        ensure_inverts (caller == first.proposal.provider) _ m guard.middle guard.first in
      let caller_is = (==_iff caller first.proposal.provider).0 own in
      let run =
        bind_inverts (validate_loop c first.proposal.provider now no_validation deals) _
          guard.middle (valid, total) m' guard.rest in
      let (result, last) = pure_inverts _ (valid, total) run.middle m' run.rest in
      let all =
        validate_loop-Validates caller now no_validation run.value deals m run.middle
          (rw (caller_is, ← same) run.first) in
      (
        ap (λ r. r.0) result ∙ all.valid,
        all.accepted,
        ap (λ r. r.1) result ∙ all.collateral ∙ zero-add _,
        rw (ap (λ r. r.1) result) (all.collateral_held (omega arith)),
        λ who. omega (arith, all.lockup who, all.fees_held who (omega arith)),
        rw last all.balances,
        all.new,
        rw last all.pending,
      )
