-- ===== src/Market/Validate/Proposals.antt =====
-- `proposals_for_deals`: what it returns, and how many deals it takes.
use polka_storage.Base.{
  ℕ, ◌+◌, ◌≤◌, ◌<◌, ◌≡◌, refl, ap, ◌∙◌, true, false, some, List, [], ◌∷◌, ◌++◌, map, inl, inr,
  arith, leb, length, length-append, All, Option-cases, Bool-cases, leb→le, lt→ltb, ltb,
}
use mathlib.Core.List.{append-nil, append_assoc}
use polka_storage.Base.Storage
use polka_storage.Btree.Set.{BtreeSet}
use polka_storage.Btree.Set
use polka_storage.Btree.Set.Order.{length-insert_new}
use polka_storage.Market.Types.{DealProposal, deal_precondition_failed, max_sectors_per_call}
use polka_storage.Market.Monad.{ok, err, ◌>>=◌}
use polka_storage.Market.State.{Config, Market}
use polka_storage.Market.Validate.{collect_proposals, proposals_for_deals}

-- Every id is new: not in `seen`, nor among those before it.
abbrev pub Fresh : BtreeSet → List ℕ → Type 0
Fresh seen [] = Unit
Fresh seen (id ∷ ids) = (Set.contains id seen ≡ false) × Fresh (Set.insert id seen) ids

module _ (c : Config) (m : Market c) where
  -- The proposals, with their ids, are those that the storage holds.
  abbrev pub AreStored : List (ℕ × DealProposal) → Type 0
  AreStored = All (λ e. Storage.get e.0 m.proposals ≡ some e.1)

  step_inverts :
      (id : ℕ) (ids : List ℕ) (seen : BtreeSet) (acc ps : List (ℕ × DealProposal)) (m' : Market c)
      → collect_proposals c (id ∷ ids) seen acc m ≡ (ok ps, m')
      → (p : DealProposal) × (Storage.get id m.proposals ≡ some p)
        × (Set.contains id seen ≡ false)
        × (length acc < max_sectors_per_call)
        × (collect_proposals c ids (Set.insert id seen) (acc ++ (id, p) ∷ []) m ≡ (ok ps, m'))
  unfolding collect_proposals ◌>>=◌
  step_inverts id ids seen acc ps m' h = elim (Option-cases (Storage.get id m.proposals)) [
    | inl e ↦ absurd (ground (arith, c.bounded.set_try_insert_law max_sectors_per_call id seen))
    | inr (p, e) ↦ (
      p,
      e,
      ground (arith, c.bounded.set_try_insert_law max_sectors_per_call id seen),
      ground (
        arith,
        c.bounded.set_try_insert_law max_sectors_per_call id seen,
        c.bounded.vec_try_push_law (ℕ × DealProposal) max_sectors_per_call (id, p) acc,
      ),
      ground (
        arith,
        c.bounded.set_try_insert_law max_sectors_per_call id seen,
        c.bounded.vec_try_push_law (ℕ × DealProposal) max_sectors_per_call (id, p) acc,
      ),
    )
  ]

  -- What the loop adds to the proposals found so far.
  record Collects (ids : List ℕ) (seen : BtreeSet) (acc ps : List (ℕ × DealProposal))
      (m' : Market c) : Type 0 where
    added : List (ℕ × DealProposal)
    appended : ps ≡ acc ++ added
    ids_of : map (λ e. e.0) added ≡ ids
    stored : AreStored added
    fresh : Fresh seen ids
    kept : m' ≡ m

  collect_proposals-Collects :
      (ids : List ℕ) (seen : BtreeSet) (acc ps : List (ℕ × DealProposal)) (m' : Market c)
      → collect_proposals c ids seen acc m ≡ (ok ps, m')
      → Collects ids seen acc ps m'
  unfolding collect_proposals ◌>>=◌
  collect_proposals-Collects [] seen acc ps m' h = record {
    added = [];
    appended = ground (arith, append-nil acc);
    ids_of = refl;
    stored = tt;
    fresh = tt;
    kept = ground arith;
  }
  collect_proposals-Collects (id ∷ ids) seen acc ps m' h =
      let (p, found, new, room, rest) = step_inverts id ids seen acc ps m' h in
      let r =
        collect_proposals-Collects ids (Set.insert id seen) (acc ++ (id, p) ∷ []) ps m' rest in
      record {
        added = (id, p) ∷ r.added;
        appended = r.appended ∙ append_assoc acc ((id, p) ∷ []) r.added;
        ids_of = ap (◌∷◌ id) r.ids_of;
        stored = (found, r.stored);
        fresh = (new, r.fresh);
        kept = r.kept;
      }

  -- Where it returns, `proposals_for_deals` returns one stored proposal for each id, in order, the
  -- ids are distinct, and the storage is as it was.
  pub proposals_for_deals_sound :
      (ids : List ℕ) (ps : List (ℕ × DealProposal)) (m' : Market c)
      → proposals_for_deals c ids m ≡ (ok ps, m')
      → (map (λ e. e.0) ps ≡ ids) × AreStored ps × Fresh [] ids × (m' ≡ m)
  unfolding proposals_for_deals
  proposals_for_deals_sound ids ps m' h =
      let r = collect_proposals-Collects ids [] [] ps m' h in
      (rw (r.appended, r.ids_of), rw r.appended r.stored, r.fresh, r.kept)

  -- Distinct deals that are all stored.
  abbrev pub AreKnown : List ℕ → Type 0
  AreKnown = All (λ id. (p : DealProposal) × (Storage.get id m.proposals ≡ some p))

  step_runs :
      (id : ℕ) (p : DealProposal) (ids : List ℕ) (seen : BtreeSet) (acc : List (ℕ × DealProposal))
      → Set.contains id seen ≡ false
      → Storage.get id m.proposals ≡ some p
      → leb (length (Set.insert id seen)) max_sectors_per_call ≡ true
      → ltb (length acc) max_sectors_per_call ≡ true
      → collect_proposals c (id ∷ ids) seen acc m
        ≡ collect_proposals c ids (Set.insert id seen) (acc ++ (id, p) ∷ []) m
  unfolding collect_proposals ◌>>=◌
  step_runs id p ids seen acc new found small room = rw (
    new,
    c.bounded.set_try_insert_law max_sectors_per_call id seen,
    small,
    found,
    c.bounded.vec_try_push_law (ℕ × DealProposal) max_sectors_per_call (id, p) acc,
    room,
  )

  step_refuses :
      (id : ℕ) (ids : List ℕ) (seen : BtreeSet) (acc : List (ℕ × DealProposal))
      → Set.contains id seen ≡ false
      → leb (length (Set.insert id seen)) max_sectors_per_call ≡ false
      → (collect_proposals c (id ∷ ids) seen acc m).0 ≡ err deal_precondition_failed
  unfolding collect_proposals ◌>>=◌
  step_refuses id ids seen acc new large =
      rw (new, c.bounded.set_try_insert_law max_sectors_per_call id seen, large)

  too_many :
      (ids : List ℕ) (seen : BtreeSet) (acc : List (ℕ × DealProposal))
      → Fresh seen ids
      → AreKnown ids
      → length acc ≡ length seen
      → length seen ≤ max_sectors_per_call
      → max_sectors_per_call < length seen + length ids
      → (collect_proposals c ids seen acc m).0 ≡ err deal_precondition_failed
  too_many [] seen acc f k e l h = absurd (omega arith)
  too_many (id ∷ ids) seen acc f k e l h =
      let one = length-insert_new id seen f.0 in
      let more = length-append acc ((id, k.0.0) ∷ []) in
      elim (Bool-cases (leb (length (Set.insert id seen)) max_sectors_per_call)) [
        | inl small ↦
            let fits = leb→le (length (Set.insert id seen)) max_sectors_per_call small in
            rw (step_runs id k.0.0 ids seen acc f.0 k.0.1 small (lt→ltb _ _ (omega arith))) (
              too_many ids (Set.insert id seen) (acc ++ (id, k.0.0) ∷ []) f.1 k.1 (omega arith) fits
                (omega arith))
        | inr large ↦ step_refuses id ids seen acc f.0 large
      ]

  -- More than 32 distinct stored deals are refused with `DealPreconditionFailed`, though a sector
  -- may name 128.
  pub proposals_for_deals_limit :
      (ids : List ℕ)
      → Fresh [] ids
      → AreKnown ids
      → max_sectors_per_call < length ids
      → (proposals_for_deals c ids m).0 ≡ err deal_precondition_failed
  unfolding proposals_for_deals
  proposals_for_deals_limit ids f k h = too_many ids [] [] f k refl (omega arith) (omega arith)
