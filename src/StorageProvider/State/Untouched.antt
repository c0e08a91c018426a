-- ===== src/StorageProvider/State/Untouched.antt =====
-- Deadlines that may not take sectors are left as they are.
use polka_storage.Base.{
  ℕ, zero, suc, ◌+◌, ◌*◌, ◌<◌, ◌≡◌, ◌≢◌, ◌∙◌, refl, ap, sym, Bool, true, false, Option, none, some,
  List, [], ◌∷◌, is_empty, length, get_elem?, set, replicate, ltb, arith, Bool-cases, inl, inr,
}
use polka_storage.Base.Words.{u64_mod}
use polka_storage.Btree.Bounded.{Bounded}
use polka_storage.StorageProvider.Outcome.{
  ok, expect, ok_or, deadline_could_not_assign_sectors_to_deadlines,
}
use polka_storage.StorageProvider.Outcome.Inversion.{bind_inverts, ok_inverts, not_panic}
use polka_storage.StorageProvider.Sector.{SectorOnChainInfo}
use polka_storage.StorageProvider.DeadlineInfo.{PostConfig}
use polka_storage.StorageProvider.Deadline.{Deadline}
use polka_storage.StorageProvider.Deadline.Filling.{add_sectors}
use polka_storage.StorageProvider.Assignment.{Buckets, assign_deadlines}
use polka_storage.StorageProvider.Assignment.Heap.{bucket_at}
use polka_storage.StorageProvider.Assignment.Capacity.{assign_deadlines_fits}
use polka_storage.StorageProvider.State.{StorageProviderState}
use polka_storage.StorageProvider.State.Assign.{
  can_take, offer_deadlines, place, sort_by_number, assign_sectors_to_deadlines,
}

get_elem?-set_other :
    {A : Type 0} (i j : ℕ) (x : A) (xs : List A) → j ≢ i → get_elem? (set xs i x) j ≡ get_elem? xs j
get_elem?-set_other i j x [] h = refl
get_elem?-set_other zero zero x (y ∷ xs) h = absurd (h refl)
get_elem?-set_other zero (suc j) x (y ∷ xs) h = refl
get_elem?-set_other (suc i) zero x (y ∷ xs) h = refl
get_elem?-set_other (suc i) (suc j) x (y ∷ xs) h = get_elem?-set_other i j x xs (λ e. h (ap suc e))

not_taken : (taken : Bool) → ok false ≡ ok taken → taken ≢ true
not_taken taken h e = cc

not_filled : (sectors : List SectorOnChainInfo) → sectors ≡ [] → is_empty sectors ≢ false
not_filled [] h e = cc
not_filled (s ∷ sectors) h e = cc

-- No deadline is offered at `j`.
NotOffered : ℕ → List (Option Deadline) → Type 0
NotOffered j deadline_vec = (d : Deadline) → get_elem? deadline_vec j ≢ some (some d)

NotOffered-replicate : (n j : ℕ) → NotOffered j (replicate n none)
unfolding NotOffered
NotOffered-replicate zero j d e = cc
NotOffered-replicate (suc n) zero d e = cc
NotOffered-replicate (suc n) (suc j) d e = NotOffered-replicate n j d e

offer_deadlines-NotOffered :
    (w : PostConfig) (start block k j : ℕ) (due : List Deadline) (v v' : List (Option Deadline))
    → can_take w start block j ≡ ok false
    → offer_deadlines w start block k due v ≡ ok v'
    → NotOffered j v
    → NotOffered j v'
unfolding offer_deadlines NotOffered
offer_deadlines-NotOffered w start block k j [] v v' c h n = rw (ok_inverts v v' h) at n
offer_deadlines-NotOffered w start block k j (d ∷ due) v v' c h n =
    let (taken, h1, h2) = bind_inverts (can_take w start block k) _ v' h in
    elim (Bool-cases taken) [
      | inr e ↦ offer_deadlines-NotOffered w start block (k + 1) j due v v' c (rw e at h2) n
      | inl e ↦ elim (Bool-cases (ltb k (length v))) [
        | inr e2 ↦ not_panic _ v' (rw (e, e2) at h2)
        | inl e2 ↦
            let other : j ≢ k =
              λ same. not_taken taken (sym c ∙ ap (λ i. can_take w start block i) same ∙ h1) e in
            offer_deadlines-NotOffered w start block (k + 1) j due (set v k (some d)) v' c
              (rw (e, e2) at h2)
              (λ d' e3. n d' (sym (get_elem?-set_other k j (some d) v other) ∙ e3))
      ]
    ]

place_untouched :
    (bounded : Bounded) (size k j : ℕ) (buckets : Buckets) (v : List (Option Deadline))
    (due due' : List Deadline)
    → place bounded size k buckets v due ≡ ok due'
    → ((i : ℕ) → j ≡ k + i → bucket_at i buckets ≡ [])
    → get_elem? due' j ≡ get_elem? due j
unfolding place bucket_at
place_untouched bounded size k j [] v due due' h empty =
    ap (λ l. get_elem? l j) (sym (ok_inverts due due' h))
place_untouched bounded size k j (sectors ∷ buckets) v due due' h empty =
    elim (Bool-cases (is_empty sectors)) [
      | inl e ↦
          place_untouched bounded size (k + 1) j buckets v due due' (rw (e, place) at h)
            (λ i same. empty (suc i) (omega (arith, same)))
      | inr e ↦
          let h0 = (rw (e, place) at h) in
          let (slot, _, h1) = bind_inverts (expect (get_elem? v k)) _ due' h0 in
          let (deadline, _, h2) =
            bind_inverts (ok_or slot deadline_could_not_assign_sectors_to_deadlines) _ due' h1 in
          let (deadline', _, h3) =
            bind_inverts (add_sectors bounded size sectors deadline) _ due' h2 in
          let (old, _, h4) = bind_inverts (expect (get_elem? due k)) _ due' h3 in
          let other : j ≢ k = λ same. not_filled sectors (empty 0 (omega (arith, same))) e in
          place_untouched bounded size (k + 1) j buckets v (set due k deadline') due' h4
            (λ i same. empty (suc i) (omega (arith, same)))
          ∙ get_elem?-set_other k j deadline' due other
    ]

-- Where sectors are assigned successfully and the capacity of a deadline is a `u64`, a deadline that
-- may not take sectors stays as it is.
pub assign_sectors_to_deadlines_untouched :
    {PeerId : Type 0} (bounded : Bounded) (w : PostConfig) (block : ℕ)
    (sectors : List SectorOnChainInfo) (size max j : ℕ) (sp sp' : StorageProviderState PeerId)
    → assign_sectors_to_deadlines bounded w block sectors size max sp ≡ ok sp'
    → size * max < u64_mod
    → can_take w sp.proving_period_start block j ≡ ok false
    → get_elem? sp'.deadlines.due j ≡ get_elem? sp.deadlines.due j
unfolding assign_sectors_to_deadlines NotOffered
assign_sectors_to_deadlines_untouched {PeerId} bounded w block sectors size max j sp sp' h small c =
    let start = sp.proving_period_start in
    let (v, h1, k1) =
      bind_inverts
        (offer_deadlines w start block 0 sp.deadlines.due (replicate w.period_deadlines none)) _ sp'
        h in
    let (buckets, h2, k2) =
      bind_inverts (assign_deadlines max size v (sort_by_number sectors) w.period_deadlines) _ sp'
        k1 in
    let (due, h3, k3) = bind_inverts (place bounded size 0 buckets v sp.deadlines.due) _ sp' k2 in
    let after : StorageProviderState PeerId = record sp { deadlines = record { due = due } } in
    let kept =
      offer_deadlines-NotOffered w start block 0 j sp.deadlines.due _ v c h1
        (NotOffered-replicate w.period_deadlines j) in
    let empty : bucket_at j buckets ≡ [] =
      elim (assign_deadlines_fits max size w.period_deadlines v (sort_by_number sectors) buckets j
        h2 small) [ inl e ↦ e | inr (d, there, _) ↦ absurd (kept d there) ] in
    rw (← ok_inverts after sp' k3) (
      place_untouched bounded size 0 j buckets v sp.deadlines.due due h3
        (λ i same. let e : i ≡ j = omega (arith, same) in rw e empty))
