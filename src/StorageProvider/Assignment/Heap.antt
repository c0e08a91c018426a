-- ===== src/StorageProvider/Assignment/Heap.antt =====
-- What holds of every entry of the heap, and the buckets of the deadlines.
use polka_storage.Base.{
  some_inverts, ℕ, zero, suc, ◌+◌, ◌≤◌, ◌<◌, ◌≡◌, ◌≢◌, ◌⊎◌, refl, sym, false, Option, none, some,
  List, [], ◌∷◌, length, get_elem?, set, replicate, ◌==◌, if◌then◌else◌, arith, ==_iff, Bool-cases,
  inl, inr, All, All-imp,
}
use polka_storage.StorageProvider.Sector.{SectorOnChainInfo}
use polka_storage.StorageProvider.Deadline.{Deadline}
use polka_storage.StorageProvider.Assignment.{
  DeadlineAssignmentInfo, Buckets, peek, least, smaller, cmp, put,
}
use Prim.Native.Nat.{Ordering}

==-suc-zero : (j : ℕ) → (suc j == zero) ≡ false
==-suc-zero j = ground arith

==-zero-suc : (j : ℕ) → (zero == suc j) ≡ false
==-zero-suc j = ground arith

==-suc : (j i : ℕ) → (suc j == suc i) ≡ (j == i)
==-suc j i = ground arith

pub ==_ne : (j i : ℕ) → j ≢ i → (j == i) ≡ false
==_ne j i h = elim (Bool-cases (j == i)) [ inl e ↦ absurd (h ((==_iff j i).0 e)) | inr e ↦ e ]

-- The bucket of a deadline.
unfoldable pub bucket_at : ℕ → Buckets → List SectorOnChainInfo
bucket_at i buckets = elim (get_elem? buckets i) [ some b ↦ b | none ↦ [] ]

-- What has been given to a deadline fits.
abbrev pub FitsAt : ℕ → List (Option Deadline) → Buckets → ℕ → Type 0
FitsAt capacity deadlines buckets i =
    (bucket_at i buckets ≡ [])
    ⊎ ((d : Deadline) × (get_elem? deadlines i ≡ some (some d))
        × (d.total_sectors + length (bucket_at i buckets) ≤ capacity))

-- An entry of the heap counts the sectors of its deadline, with those given to it.
pub record Counts (deadlines : List (Option Deadline)) (buckets : Buckets)
    (a : DeadlineAssignmentInfo) : Type 0 where
  pub deadline : Deadline
  pub there : get_elem? deadlines a.index ≡ some (some deadline)
  pub counted : a.total_sectors ≡ deadline.total_sectors + length (bucket_at a.index buckets)

-- The indices of the heap are ascending.
abbrev pub Ascending : List DeadlineAssignmentInfo → Type 0
Ascending [] = Unit
Ascending (a ∷ heap) = All (λ b. a.index < b.index) heap × Ascending heap

module _ (P : DeadlineAssignmentInfo → Type 0) (size : ℕ) where
  pick :
      (o : Ordering) (a b : DeadlineAssignmentInfo)
      → P a
      → P b
      → P (elim o [ Ordering.lt ↦ b | _ ↦ a ])
  pick Ordering.lt a b pa pb = pb
  pick Ordering.eq a b pa pb = pa
  pick Ordering.gt a b pa pb = pa

  least-All :
      (a : DeadlineAssignmentInfo) (heap : List DeadlineAssignmentInfo)
      → P a
      → All P heap
      → P (least size a heap)
  unfolding least
  least-All a [] pa ps = pa
  least-All a (b ∷ heap) pa (pb, ps) =
      least-All (smaller size a b) heap (pick (cmp size b a) a b pa pb) ps

  pub peek-All :
      (heap : List DeadlineAssignmentInfo) (a : DeadlineAssignmentInfo)
      → peek size heap ≡ some a
      → All P heap
      → P a
  unfolding peek
  peek-All [] a h ps = absurd (cc)
  peek-All (b ∷ heap) a h (pb, ps) =
      rw (some_inverts (least size b heap) a h) at (least-All b heap pb ps)

module _ (P Q : DeadlineAssignmentInfo → Type 0) (a : DeadlineAssignmentInfo) where
  All-later :
      (n : ℕ) (heap : List DeadlineAssignmentInfo)
      → a.index ≡ n
      → ((b : DeadlineAssignmentInfo) → P b → b.index ≢ a.index → Q b)
      → All (λ b. n < b.index) heap
      → All P heap
      → All Q heap
  All-later n [] e other above ps = tt
  All-later n (b ∷ heap) e other (m, above) (pb, ps) =
      (other b pb (λ same. omega arith), All-later n heap e other above ps)

  pub put-All :
      (heap : List DeadlineAssignmentInfo)
      → ((b : DeadlineAssignmentInfo) → P b → b.index ≢ a.index → Q b)
      → ((b : DeadlineAssignmentInfo) → P b → b.index ≡ a.index → Q a)
      → Ascending heap
      → All P heap
      → All Q (put a heap)
  unfolding put
  put-All [] other new asc ps = tt
  put-All (b ∷ heap) other new (above, asc) (pb, ps) = elim (Bool-cases (a.index == b.index)) [
    | inl e ↦
        let same = (==_iff a.index b.index).0 e in
        rw e (new b pb (sym same), All-later b.index heap same other above ps)
    | inr e ↦ rw e (other b pb (λ same. ground arith), put-All heap other new asc ps)
  ]

pub put-Ascending :
    (a : DeadlineAssignmentInfo) (heap : List DeadlineAssignmentInfo)
    → Ascending heap
    → Ascending (put a heap)
unfolding put
put-Ascending a [] asc = tt
put-Ascending a (b ∷ heap) (above, asc) = elim (Bool-cases (a.index == b.index)) [
  | inl e ↦
      let same = (==_iff a.index b.index).0 e in rw e (All-imp (λ c h. omega arith) heap above, asc)
  | inr e ↦ rw e (
    put-All (λ c. b.index < c.index) (λ c. b.index < c.index) a heap (λ c h _. h)
        (λ c h e2. omega arith) asc above,
    put-Ascending a heap asc,
  )
]

pub bucket_at-set :
    (i j : ℕ) (b0 b : List SectorOnChainInfo) (buckets : Buckets)
    → get_elem? buckets i ≡ some b0
    → bucket_at j (set buckets i b) ≡ (if j == i then b else bucket_at j buckets)
unfolding bucket_at
bucket_at-set i j b0 b [] h = absurd (cc)
bucket_at-set zero zero b0 b (c ∷ buckets) h = refl
bucket_at-set zero (suc j) b0 b (c ∷ buckets) h = rw (==-suc-zero j) refl
bucket_at-set (suc i) zero b0 b (c ∷ buckets) h = rw (==-zero-suc i) refl
bucket_at-set (suc i) (suc j) b0 b (c ∷ buckets) h =
    rw (==-suc j i) (bucket_at-set i j b0 b buckets h)

pub bucket_at-found :
    (i : ℕ) (b : List SectorOnChainInfo) (buckets : Buckets)
    → get_elem? buckets i ≡ some b
    → bucket_at i buckets ≡ b
unfolding bucket_at
bucket_at-found i b buckets h = rw (h, bucket_at) refl

pub bucket_at-replicate : (n i : ℕ) → bucket_at i (replicate n []) ≡ []
unfolding bucket_at
bucket_at-replicate zero i = refl
bucket_at-replicate (suc n) zero = refl
bucket_at-replicate (suc n) (suc i) = bucket_at-replicate n i
