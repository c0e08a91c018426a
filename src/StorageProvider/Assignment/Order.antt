-- ===== src/StorageProvider/Assignment/Order.antt =====
-- `cmp` is a linear order on the deadlines, by which the heap is ordered.
use Prim.Native.Nat.{compare, Ordering}
use native.Mathlib.Omega.{compare-eq}
use polka_storage.Base.{ℕ, ◌≡◌, ◌≢◌, refl, Bool, true, false, ◌&&◌, not, if◌then◌else◌, arith}
use polka_storage.StorageProvider.Assignment.{
  DeadlineAssignmentInfo, then_with, reverse, compare_bool, cmp, is_full_now,
  partitions_after_assignment, compact_partitions_after_assignment,
}

-- How a comparison of `a` and `c` follows from those with a `b` between.
abbrev Composes : Ordering → Ordering → Ordering → Type 0
Composes Ordering.eq o p = o ≡ p
Composes Ordering.lt Ordering.gt p = Unit
Composes Ordering.lt o p = p ≡ Ordering.lt
Composes Ordering.gt Ordering.lt p = Unit
Composes Ordering.gt o p = p ≡ Ordering.gt

compare-Composes : (a b c : ℕ) → Composes (compare a b) (compare b c) (compare a c)
compare-Composes a b c = ground arith

then_with-Composes :
    (ab bc ac ab' bc' ac' : Ordering)
    → Composes ab bc ac
    → Composes ab' bc' ac'
    → Composes (then_with ab ab') (then_with bc bc') (then_with ac ac')
then_with-Composes Ordering.eq Ordering.eq ac ab' bc' ac' h k = rw (← h) k
then_with-Composes Ordering.eq Ordering.lt ac Ordering.eq bc' ac' h k = rw (← h) refl
then_with-Composes Ordering.eq Ordering.lt ac Ordering.lt bc' ac' h k = rw (← h) refl
then_with-Composes Ordering.eq Ordering.lt ac Ordering.gt bc' ac' h k = tt
then_with-Composes Ordering.eq Ordering.gt ac Ordering.eq bc' ac' h k = rw (← h) refl
then_with-Composes Ordering.eq Ordering.gt ac Ordering.lt bc' ac' h k = tt
then_with-Composes Ordering.eq Ordering.gt ac Ordering.gt bc' ac' h k = rw (← h) refl
then_with-Composes Ordering.lt Ordering.eq ac ab' Ordering.eq ac' h k = rw h refl
then_with-Composes Ordering.lt Ordering.eq ac ab' Ordering.lt ac' h k = rw h refl
then_with-Composes Ordering.lt Ordering.eq ac ab' Ordering.gt ac' h k = tt
then_with-Composes Ordering.lt Ordering.lt ac ab' bc' ac' h k = rw h refl
then_with-Composes Ordering.lt Ordering.gt ac ab' bc' ac' h k = tt
then_with-Composes Ordering.gt Ordering.eq ac ab' Ordering.eq ac' h k = rw h refl
then_with-Composes Ordering.gt Ordering.eq ac ab' Ordering.gt ac' h k = rw h refl
then_with-Composes Ordering.gt Ordering.eq ac ab' Ordering.lt ac' h k = tt
then_with-Composes Ordering.gt Ordering.gt ac ab' bc' ac' h k = rw h refl
then_with-Composes Ordering.gt Ordering.lt ac ab' bc' ac' h k = tt

then_with_assoc : (o p q : Ordering) → then_with (then_with o p) q ≡ then_with o (then_with p q)
then_with_assoc Ordering.lt p q = refl
then_with_assoc Ordering.eq p q = refl
then_with_assoc Ordering.gt p q = refl

-- The two comparisons on full partitions, as one.
compare_fill : Bool → Bool → ℕ → ℕ → Ordering
compare_fill fa fb ta tb =
    then_with (compare_bool fa fb)
      (if not fa && not fb then reverse (compare ta tb) else Ordering.eq)

reverse-compare-Composes :
    (a b c : ℕ) → Composes (reverse (compare a b)) (reverse (compare b c)) (reverse (compare a c))
reverse-compare-Composes a b c = ground arith

compare_fill-Composes :
    (fa fb fc : Bool) (a b c : ℕ)
    → Composes (compare_fill fa fb a b) (compare_fill fb fc b c) (compare_fill fa fc a c)
unfolding compare_fill
compare_fill-Composes true true true a b c = refl
compare_fill-Composes true true false a b c = refl
compare_fill-Composes true false true a b c = tt
compare_fill-Composes true false false a b c = ground arith
compare_fill-Composes false true true a b c = refl
compare_fill-Composes false true false a b c = tt
compare_fill-Composes false false true a b c = ground arith
compare_fill-Composes false false false a b c = reverse-compare-Composes a b c

cmp-fill :
    (size : ℕ) (a b : DeadlineAssignmentInfo)
    → cmp size a b
      ≡ then_with
          (compare
            (compact_partitions_after_assignment size a)
            (compact_partitions_after_assignment size b))
          (then_with
            (compare (partitions_after_assignment size a) (partitions_after_assignment size b))
            (then_with
              (compare_fill
                (is_full_now size a)
                (is_full_now size b)
                a.total_sectors
                b.total_sectors)
              (then_with (compare a.live_sectors b.live_sectors) (compare a.index b.index))))
unfolding cmp compare_fill
cmp-fill size a b = rw (then_with_assoc _ _ _) refl

-- The order is transitive.
cmp-Composes :
    (size : ℕ) (a b c : DeadlineAssignmentInfo)
    → Composes (cmp size a b) (cmp size b c) (cmp size a c)
cmp-Composes size a b c =
    let compact = λ (x : DeadlineAssignmentInfo) (y : DeadlineAssignmentInfo).
      compare (compact_partitions_after_assignment size x)
        (compact_partitions_after_assignment size y) in
    let partitions = λ (x : DeadlineAssignmentInfo) (y : DeadlineAssignmentInfo).
      compare (partitions_after_assignment size x) (partitions_after_assignment size y) in
    let fill = λ (x : DeadlineAssignmentInfo) (y : DeadlineAssignmentInfo).
      compare_fill (is_full_now size x) (is_full_now size y) x.total_sectors y.total_sectors in
    let live = λ (x : DeadlineAssignmentInfo) (y : DeadlineAssignmentInfo).
      compare x.live_sectors y.live_sectors in
    let index =
      λ (x : DeadlineAssignmentInfo) (y : DeadlineAssignmentInfo). compare x.index y.index in
    let last = λ (x : DeadlineAssignmentInfo) (y : DeadlineAssignmentInfo).
      then_with (live x y) (index x y) in
    let third = λ (x : DeadlineAssignmentInfo) (y : DeadlineAssignmentInfo).
      then_with (fill x y) (last x y) in
    let second = λ (x : DeadlineAssignmentInfo) (y : DeadlineAssignmentInfo).
      then_with (partitions x y) (third x y) in
    rw (cmp-fill size a b, cmp-fill size b c, cmp-fill size a c)
      (then_with-Composes (compact a b) (compact b c) (compact a c) (second a b) (second b c)
        (second a c)
        (compare-Composes (compact_partitions_after_assignment size a)
          (compact_partitions_after_assignment size b) (compact_partitions_after_assignment size c))
        (then_with-Composes (partitions a b) (partitions b c) (partitions a c) (third a b)
          (third b c) (third a c)
          (compare-Composes (partitions_after_assignment size a)
            (partitions_after_assignment size b) (partitions_after_assignment size c))
          (then_with-Composes (fill a b) (fill b c) (fill a c) (last a b) (last b c) (last a c)
            (compare_fill-Composes (is_full_now size a) (is_full_now size b) (is_full_now size c)
              a.total_sectors b.total_sectors c.total_sectors)
            (then_with-Composes (live a b) (live b c) (live a c) (index a b) (index b c) (index a c)
              (compare-Composes a.live_sectors b.live_sectors c.live_sectors)
              (compare-Composes a.index b.index c.index)))))

compare-reverse : (a b : ℕ) → compare b a ≡ reverse (compare a b)
compare-reverse a b = ground arith

reverse-chain :
    (o p q r t : Ordering)
    → then_with
        (reverse o)
        (then_with (reverse p) (then_with (reverse q) (then_with (reverse r) (reverse t))))
      ≡ reverse (then_with o (then_with p (then_with q (then_with r t))))
reverse-chain Ordering.lt p q r t = refl
reverse-chain Ordering.gt p q r t = refl
reverse-chain Ordering.eq Ordering.lt q r t = refl
reverse-chain Ordering.eq Ordering.gt q r t = refl
reverse-chain Ordering.eq Ordering.eq Ordering.lt r t = refl
reverse-chain Ordering.eq Ordering.eq Ordering.gt r t = refl
reverse-chain Ordering.eq Ordering.eq Ordering.eq Ordering.lt t = refl
reverse-chain Ordering.eq Ordering.eq Ordering.eq Ordering.gt t = refl
reverse-chain Ordering.eq Ordering.eq Ordering.eq Ordering.eq t = refl

compare_fill-reverse :
    (fa fb : Bool) (a b : ℕ) → compare_fill fb fa b a ≡ reverse (compare_fill fa fb a b)
unfolding compare_fill
compare_fill-reverse true true a b = refl
compare_fill-reverse true false a b = refl
compare_fill-reverse false true a b = refl
compare_fill-reverse false false a b = rw (compare-reverse a b) refl

-- Comparing the other way round reverses the answer.
pub cmp-reverse : (size : ℕ) (a b : DeadlineAssignmentInfo) → cmp size b a ≡ reverse (cmp size a b)
cmp-reverse size a b =
    rw
      (
        cmp-fill size a b,
        cmp-fill size b a,
        compare-reverse (compact_partitions_after_assignment size a)
            (compact_partitions_after_assignment size b),
        compare-reverse (partitions_after_assignment size a) (partitions_after_assignment size b),
        compare_fill-reverse (is_full_now size a) (is_full_now size b) a.total_sectors
            b.total_sectors,
        compare-reverse a.live_sectors b.live_sectors,
        compare-reverse a.index b.index,
      )
      (reverse-chain
        (compare (compact_partitions_after_assignment size a)
          (compact_partitions_after_assignment size b))
        (compare (partitions_after_assignment size a) (partitions_after_assignment size b))
        (compare_fill (is_full_now size a) (is_full_now size b) a.total_sectors b.total_sectors)
        (compare a.live_sectors b.live_sectors) (compare a.index b.index))

chain-eq :
    (o p q r t : Ordering)
    → then_with o (then_with p (then_with q (then_with r t))) ≡ Ordering.eq
    → t ≡ Ordering.eq
chain-eq Ordering.lt p q r t h = absurd (cc)
chain-eq Ordering.gt p q r t h = absurd (cc)
chain-eq Ordering.eq Ordering.lt q r t h = absurd (cc)
chain-eq Ordering.eq Ordering.gt q r t h = absurd (cc)
chain-eq Ordering.eq Ordering.eq Ordering.lt r t h = absurd (cc)
chain-eq Ordering.eq Ordering.eq Ordering.gt r t h = absurd (cc)
chain-eq Ordering.eq Ordering.eq Ordering.eq Ordering.lt t h = absurd (cc)
chain-eq Ordering.eq Ordering.eq Ordering.eq Ordering.gt t h = absurd (cc)
chain-eq Ordering.eq Ordering.eq Ordering.eq Ordering.eq t h = h

abbrev pub NotAfter : ℕ → DeadlineAssignmentInfo → DeadlineAssignmentInfo → Type 0
NotAfter size a b = cmp size a b ≢ Ordering.gt

not_gt-Composes :
    (ab bc ac : Ordering)
    → Composes ab bc ac
    → ab ≢ Ordering.gt
    → bc ≢ Ordering.gt
    → ac ≢ Ordering.gt
not_gt-Composes Ordering.eq bc ac h p q = rw h at q
not_gt-Composes Ordering.lt Ordering.eq ac h p q = λ e. cc
not_gt-Composes Ordering.lt Ordering.lt ac h p q = λ e. cc
not_gt-Composes Ordering.lt Ordering.gt ac h p q = absurd (q refl)
not_gt-Composes Ordering.gt bc ac h p q = absurd (p refl)

pub reverse-not_gt : (o p : Ordering) → p ≡ reverse o → o ≢ Ordering.lt → p ≢ Ordering.gt
reverse-not_gt Ordering.lt p h k = absurd (k refl)
reverse-not_gt Ordering.eq p h k = λ e. cc
reverse-not_gt Ordering.gt p h k = λ e. cc

pub self-not_gt : (o : Ordering) → o ≡ reverse o → o ≢ Ordering.gt
self-not_gt Ordering.lt h = λ e. cc
self-not_gt Ordering.eq h = λ e. cc
self-not_gt Ordering.gt h = λ e. cc

pub NotAfter-trans :
    (size : ℕ) (a b c : DeadlineAssignmentInfo)
    → NotAfter size a b
    → NotAfter size b c
    → NotAfter size a c
NotAfter-trans size a b c =
    not_gt-Composes (cmp size a b) (cmp size b c) (cmp size a c) (cmp-Composes size a b c)

-- `cmp` is a linear order on the deadlines, for any partition size: the other way round it gives the
-- reverse, only a deadline and itself compare as equal, and it is transitive.
pub cmp_linear :
    (size : ℕ) (a b c : DeadlineAssignmentInfo)
    → (cmp size b a ≡ reverse (cmp size a b))
      × (cmp size a b ≡ Ordering.eq → a.index ≡ b.index)
      × (cmp size a b ≢ Ordering.gt → cmp size b c ≢ Ordering.gt → cmp size a c ≢ Ordering.gt)
cmp_linear size a b c = (
  cmp-reverse size a b,
  λ h. compare-eq a.index b.index (
      chain-eq
        (compare (compact_partitions_after_assignment size a)
          (compact_partitions_after_assignment size b))
        (compare (partitions_after_assignment size a) (partitions_after_assignment size b))
        (compare_fill (is_full_now size a) (is_full_now size b) a.total_sectors b.total_sectors)
        (compare a.live_sectors b.live_sectors) (compare a.index b.index)
        (rw (cmp-fill size a b) at h)),
  NotAfter-trans size a b c,
)
