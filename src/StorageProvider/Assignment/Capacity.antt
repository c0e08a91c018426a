-- ===== src/StorageProvider/Assignment/Capacity.antt =====
-- No deadline is given more than fits.
use polka_storage.Base.{
  ℕ, suc, ◌+◌, ◌*◌, ◌≤◌, ◌<◌, ◌≡◌, ◌⊎◌, subst, refl, false, Option, none, some, List, [], ◌∷◌, ◌++◌,
  length, get_elem?, set, replicate, ◌==◌, arith, ==_iff, ==_refl, Bool-cases, inl, inr, All,
  All-imp, length-append,
}
use polka_storage.Base.Words.{u64_mod, add_u64-eq, mul_u64-eq}
use polka_storage.StorageProvider.Outcome.{ok}
use polka_storage.StorageProvider.Outcome.Inversion.{ok_inverts}
use polka_storage.StorageProvider.Sector.{SectorOnChainInfo}
use polka_storage.StorageProvider.Deadline.{Deadline}
use polka_storage.StorageProvider.Assignment.{
  DeadlineAssignmentInfo, Buckets, put, with_sector, entries, assign, assign_deadlines,
  max_partitions_reached,
}
use polka_storage.StorageProvider.Assignment.Conservation.{
  Assigned, assign_inverts, assign_deadlines_inverts,
}
use polka_storage.StorageProvider.Assignment.Heap.{
  ==_ne, bucket_at, FitsAt, Counts, Ascending, peek-All, put-All, put-Ascending, bucket_at-set,
  bucket_at-found, bucket_at-replicate,
}

pub not_reached :
    (max size : ℕ) (a : DeadlineAssignmentInfo)
    → size * max < u64_mod
    → max_partitions_reached size max a ≡ false
    → a.total_sectors < size * max
unfolding max_partitions_reached
not_reached max size a small h = let e = mul_u64-eq size max small in ground (arith, (rw e at h))

module _ (max size : ℕ) (deadlines : List (Option Deadline)) where
  -- A round keeps what the entries count, and what is given fits.
  record Loop (heap : List DeadlineAssignmentInfo) (buckets : Buckets) : Type 0 where
    ascending : Ascending heap
    counts : All (Counts deadlines buckets) heap
    fits : (i : ℕ) → FitsAt (size * max) deadlines buckets i

  round :
      (small : size * max < u64_mod) (s : SectorOnChainInfo) (sectors : List SectorOnChainInfo)
      (heap : List DeadlineAssignmentInfo) (buckets : Buckets)
      (out : List DeadlineAssignmentInfo × Buckets)
      (a : Assigned max size s sectors heap buckets out)
      → Loop heap buckets
      → Loop (put (with_sector a.info) heap) (set buckets a.info.index (a.bucket ++ s ∷ []))
  unfolding with_sector
  round small s sectors heap buckets out a l =
      let i = a.info.index in
      let new = a.bucket ++ s ∷ [] in
      let chosen = peek-All (Counts deadlines buckets) size heap a.info a.chosen l.counts in
      let before = bucket_at-found i a.bucket buckets a.found in
      let room = not_reached max size a.info small a.room in
      let counted = (rw before at chosen.counted) in
      let longer = length-append a.bucket (s ∷ []) in
      record {
        ascending = put-Ascending (with_sector a.info) heap l.ascending;
        counts =
            put-All (Counts deadlines buckets) (Counts deadlines (set buckets i new))
              (with_sector a.info) heap
              (λ b k other. record {
                deadline = k.deadline;
                there = k.there;
                counted =
                    rw (bucket_at-set i b.index a.bucket new buckets a.found, ==_ne b.index i other)
                      k.counted;
              })
              (λ b k same. record {
                deadline = chosen.deadline;
                there = chosen.there;
                counted =
                    rw
                      (
                        bucket_at-set i i a.bucket new buckets a.found,
                        ==_refl i,
                        longer,
                        add_u64-eq a.info.total_sectors 1 (omega arith),
                      )
                      (omega (arith, counted));
              })
              l.ascending l.counts;
        fits = λ j. elim (Bool-cases (j == i)) [
          | inl e ↦ inr (
            chosen.deadline,
            rw ((==_iff j i).0 e) chosen.there,
            rw (bucket_at-set i j a.bucket new buckets a.found, e, longer)
                (omega (arith, counted, room)),
          )
          | inr e ↦ rw (bucket_at-set i j a.bucket new buckets a.found, e) (l.fits j)
        ];
      }

  assign-Loop :
      (small : size * max < u64_mod) (sectors : List SectorOnChainInfo)
      (heap : List DeadlineAssignmentInfo) (buckets : Buckets)
      (out : List DeadlineAssignmentInfo × Buckets)
      → assign max size sectors heap buckets ≡ ok out
      → Loop heap buckets
      → Loop out.0 out.1
  unfolding assign
  assign-Loop small [] heap buckets out h l =
      let same = ok_inverts (heap, buckets) out h in
      subst (λ (o : List DeadlineAssignmentInfo × Buckets). Loop o.0 o.1) same l
  assign-Loop small (s ∷ sectors) heap buckets out h l =
      let a = assign_inverts max size s sectors heap buckets out h in
      assign-Loop small sectors _ _ out a.rest (round small s sectors heap buckets out a l)

zero_plus : (n m : ℕ) → m ≡ 0 + n → m ≡ n
zero_plus n m h = omega arith

-- An entry of a part of the deadlines.
record Listed (k : ℕ) (ds : List (Option Deadline)) (a : DeadlineAssignmentInfo) : Type 0 where
  position : ℕ
  placed : a.index ≡ k + position
  deadline : Deadline
  there : get_elem? ds position ≡ some (some deadline)
  total : a.total_sectors ≡ deadline.total_sectors

Listed-later :
    (k : ℕ) (o : Option Deadline) (ds : List (Option Deadline)) (a : DeadlineAssignmentInfo)
    → Listed (k + 1) ds a
    → Listed k (o ∷ ds) a
Listed-later k o ds a l = record {
  position = suc l.position;
  placed = omega (arith, l.placed);
  deadline = l.deadline;
  there = l.there;
  total = l.total;
}

entries-Listed : (k : ℕ) (ds : List (Option Deadline)) → All (Listed k ds) (entries k ds)
unfolding entries
entries-Listed k [] = tt
entries-Listed k (none ∷ ds) =
    All-imp (λ a l. Listed-later k none ds a l) (entries (k + 1) ds) (entries-Listed (k + 1) ds)
entries-Listed k (some d ∷ ds) = (
  record { position = 0; placed = omega arith; deadline = d; there = refl; total = refl },
  All-imp (λ a l. Listed-later k (some d) ds a l) (entries (k + 1) ds) (entries-Listed (k + 1) ds),
)

entries-Ascending : (k : ℕ) (ds : List (Option Deadline)) → Ascending (entries k ds)
unfolding entries
entries-Ascending k [] = tt
entries-Ascending k (none ∷ ds) = entries-Ascending (k + 1) ds
entries-Ascending k (some d ∷ ds) = (
  All-imp (λ a l. omega (arith, l.placed)) (entries (k + 1) ds) (entries-Listed (k + 1) ds),
  entries-Ascending (k + 1) ds,
)

-- Where the assignment succeeds and the capacity of a deadline is a `u64`, sectors are assigned only
-- to deadlines that are there, and with what they have already, they hold no more than their
-- capacity: the sectors of a partition times the partitions of a deadline.
pub assign_deadlines_fits :
    (max size w : ℕ) (deadlines : List (Option Deadline)) (sectors : List SectorOnChainInfo)
    (buckets : Buckets) (i : ℕ)
    → assign_deadlines max size deadlines sectors w ≡ ok buckets
    → size * max < u64_mod
    → (bucket_at i buckets ≡ [])
      ⊎ ((d : Deadline) × (get_elem? deadlines i ≡ some (some d))
          × (d.total_sectors + length (bucket_at i buckets) ≤ size * max))
assign_deadlines_fits max size w deadlines sectors buckets i h small =
    let (heap', e) = assign_deadlines_inverts max size w deadlines sectors buckets h in
    let start : Loop max size deadlines (entries 0 deadlines) (replicate w []) = record {
      ascending = entries-Ascending 0 deadlines;
      counts =
          All-imp
            (λ a l. record {
              deadline = l.deadline;
              there = rw (zero_plus l.position a.index l.placed) l.there;
              counted = rw (bucket_at-replicate w a.index) (omega (arith, l.total));
            })
            (entries 0 deadlines) (entries-Listed 0 deadlines);
      fits = λ j. inl (bucket_at-replicate w j);
    } in
    (assign-Loop max size deadlines small sectors _ _ (heap', buckets) e start).fits i
