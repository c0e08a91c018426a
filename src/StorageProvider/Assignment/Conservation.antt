-- ===== src/StorageProvider/Assignment/Conservation.antt =====
-- No sector is lost or assigned twice.
use polka_storage.Base.{
  ℕ, zero, suc, ◌+◌, ◌≡◌, ◌∙◌, ap, refl, Bool, true, false, Option, some, List, [], ◌∷◌, ◌++◌,
  is_empty, length, get_elem?, set, replicate, if◌then◌else◌, arith, some_inverts, Bool-cases, inl,
  inr, length-set, length-replicate,
}
use polka_storage.StorageProvider.Outcome.{
  ok, ok_or, expect, deadline_could_not_construct_deadline_info, deadline_max_partitions_reached,
}
use polka_storage.StorageProvider.Outcome.Inversion.{
  not_panic, not_error, bind_inverts, ok_inverts, ok_or_inverts, expect_inverts,
}
use polka_storage.StorageProvider.Sector.{SectorOnChainInfo}
use polka_storage.StorageProvider.Deadline.{Deadline}
use polka_storage.StorageProvider.Assignment.{
  DeadlineAssignmentInfo, Buckets, peek, put, with_sector, entries, assign, assign_deadlines,
  max_partitions_reached,
}

-- How many sectors pass a test, in a list and in all buckets.
unfoldable pub count : (SectorOnChainInfo → Bool) → List SectorOnChainInfo → ℕ
count p [] = 0
count p (s ∷ sectors) = (if p s then 1 else 0) + count p sectors

unfoldable pub count_all : (SectorOnChainInfo → Bool) → Buckets → ℕ
count_all p [] = 0
count_all p (bucket ∷ buckets) = count p bucket + count_all p buckets

-- A round that succeeded: the deadline that was chosen, its bucket, and the rest of the loop.
pub record Assigned (max size : ℕ) (s : SectorOnChainInfo) (sectors : List SectorOnChainInfo)
    (heap : List DeadlineAssignmentInfo) (buckets : Buckets)
    (out : List DeadlineAssignmentInfo × Buckets) : Type 0 where
  pub info : DeadlineAssignmentInfo
  pub bucket : List SectorOnChainInfo
  pub chosen : peek size heap ≡ some info
  pub room : max_partitions_reached size max info ≡ false
  pub found : get_elem? buckets info.index ≡ some bucket
  pub rest :
      assign max size sectors
        (put (with_sector info) heap)
        (set buckets info.index (bucket ++ s ∷ []))
      ≡ ok out

pub assign_inverts :
    (max size : ℕ) (s : SectorOnChainInfo) (sectors : List SectorOnChainInfo)
    (heap : List DeadlineAssignmentInfo) (buckets : Buckets)
    (out : List DeadlineAssignmentInfo × Buckets)
    → assign max size (s ∷ sectors) heap buckets ≡ ok out
    → Assigned max size s sectors heap buckets out
unfolding assign
assign_inverts max size s sectors heap buckets out h =
    let (info, h1, h2) =
      bind_inverts (ok_or (peek size heap) deadline_could_not_construct_deadline_info) _ out h in
    elim (Bool-cases (max_partitions_reached size max info)) [
      | inl e ↦ not_error _ deadline_max_partitions_reached out (rw e at h2)
      | inr e ↦
          let (bucket, h3, h4) =
            bind_inverts (expect (get_elem? buckets info.index)) _ out (rw e at h2) in
          record {
            info = info;
            bucket = bucket;
            chosen = ok_or_inverts (peek size heap) _ info h1;
            room = e;
            found = expect_inverts _ bucket h3;
            rest = h4;
          }
    ]

pub assign_deadlines_inverts :
    (max size w : ℕ) (deadlines : List (Option Deadline)) (sectors : List SectorOnChainInfo)
    (buckets : Buckets)
    → assign_deadlines max size deadlines sectors w ≡ ok buckets
    → (heap : List DeadlineAssignmentInfo) × (assign max size sectors
          (entries 0 deadlines)
          (replicate w [])
        ≡ ok (heap, buckets))
unfolding assign_deadlines
assign_deadlines_inverts max size w deadlines sectors buckets h =
    elim (Bool-cases (is_empty (entries 0 deadlines))) [
      | inl e ↦ not_panic _ buckets (rw (e, assign_deadlines) at h)
      | inr e ↦
          let (out, h1, h2) =
            bind_inverts (assign max size sectors (entries 0 deadlines) (replicate w [])) _ buckets
              (rw (e, assign_deadlines) at h) in
          (out.0, h1 ∙ ap (λ b. ok (out.0, b)) (ok_inverts out.1 buckets h2))
    ]

count-snoc :
    (p : SectorOnChainInfo → Bool) (s : SectorOnChainInfo) (xs : List SectorOnChainInfo)
    → count p (xs ++ s ∷ []) ≡ count p xs + (if p s then 1 else 0)
unfolding count
count-snoc p s [] = omega arith
count-snoc p s (x ∷ xs) = omega (arith, count-snoc p s xs)

count_all-set :
    (p : SectorOnChainInfo → Bool) (s : SectorOnChainInfo) (i : ℕ) (bucket : List SectorOnChainInfo)
    (buckets : Buckets)
    → get_elem? buckets i ≡ some bucket
    → count_all p (set buckets i (bucket ++ s ∷ [])) ≡ count_all p buckets + (if p s then 1 else 0)
unfolding count_all
count_all-set p s i bucket [] h = absurd (cc)
count_all-set p s zero bucket (b ∷ buckets) h =
    let same = some_inverts b bucket h in rw same (omega (arith, count-snoc p s bucket))
count_all-set p s (suc i) bucket (b ∷ buckets) h =
    omega (arith, count_all-set p s i bucket buckets h)

count_all-replicate : (p : SectorOnChainInfo → Bool) (n : ℕ) → count_all p (replicate n []) ≡ 0
unfolding count_all count
count_all-replicate p zero = refl
count_all-replicate p (suc n) = omega (arith, count_all-replicate p n)

assign-count :
    (max size : ℕ) (p : SectorOnChainInfo → Bool) (sectors : List SectorOnChainInfo)
    (heap : List DeadlineAssignmentInfo) (buckets : Buckets)
    (out : List DeadlineAssignmentInfo × Buckets)
    → assign max size sectors heap buckets ≡ ok out
    → (count_all p out.1 ≡ count_all p buckets + count p sectors) × (length out.1 ≡ length buckets)
unfolding assign count
assign-count max size p [] heap buckets out h =
    let same = ok_inverts (heap, buckets) out h in rw (← same) (omega arith, refl)
assign-count max size p (s ∷ sectors) heap buckets out h =
    let a = assign_inverts max size s sectors heap buckets out h in
    let put = count_all-set p s a.info.index a.bucket buckets a.found in
    let (all, len) = assign-count max size p sectors _ _ out a.rest in
    (omega (arith, put, all), len ∙ length-set buckets a.info.index (a.bucket ++ s ∷ []))

-- Where the assignment succeeds, every deadline has a bucket and every sector is in exactly one of
-- them: whatever the test, as many sectors pass it in all buckets as among the given ones.
pub assign_deadlines_conserves :
    (max size w : ℕ) (deadlines : List (Option Deadline)) (sectors : List SectorOnChainInfo)
    (buckets : Buckets)
    → assign_deadlines max size deadlines sectors w ≡ ok buckets
    → (length buckets ≡ w)
      × ((p : SectorOnChainInfo → Bool) → count_all p buckets ≡ count p sectors)
assign_deadlines_conserves max size w deadlines sectors buckets h =
    let (heap', e) = assign_deadlines_inverts max size w deadlines sectors buckets h in
    (
      (assign-count max size (λ s. true) sectors _ _ (heap', buckets) e).1 ∙ length-replicate w [],
      λ p.
          let all = (assign-count max size p sectors _ _ (heap', buckets) e).0 in
          omega (arith, all, count_all-replicate p w),
    )
