-- ===== src/StorageProvider/Partition/Budget.antt =====
-- `pop_early_terminations` keeps to its limit.
use polka_storage.Base.{
  ℕ, zero, suc, ◌+◌, ◌≤◌, ◌<◌, ◌≡◌, ap, Bool, not, none, Option-cases, List, [], ◌∷◌, length,
  filter, take, arith, Bool-cases, inl, inr, leb, ltb,
}
use polka_storage.Base.Words.{u64_mod, add_u64, sub_u64, add_u64-eq, sub_u64-eq}
use polka_storage.Btree.Set.{BtreeSet}
use polka_storage.Btree.Set
use polka_storage.Btree.Map.{BtreeMap}
use polka_storage.Btree.Map
use polka_storage.Btree.Map.Sizes.{
  IsAscending, insert-IsAscending, size, size-insert-le, size-insert_present, length-union-le,
}
use polka_storage.Btree.Bounded.{Bounded}
use polka_storage.StorageProvider.Outcome.{ok, expect}
use polka_storage.StorageProvider.Outcome.Inversion.{bind_inverts, ok_inverts}
use polka_storage.StorageProvider.Sector.{max_sectors}
use polka_storage.StorageProvider.Partition.{Partition}
use polka_storage.StorageProvider.Partition.Termination.{
  TerminationResult, no_terminations, Pop, pop_block, pop_blocks, keep_remaining, add_assign,
  join_sectors, pop_early_terminations, listed,
}

-- A result hands out no more sectors than it counts, and counts no more than the limit.
pub record IsWithin (limit : ℕ) (r : TerminationResult) : Type 0 where
  pub ascending : IsAscending r.sectors
  pub handed_out : size r.sectors ≤ r.sectors_processed
  pub counted : r.sectors_processed ≤ limit

length-take-le : (n : ℕ) (s : BtreeSet) → length (take n s) ≤ n
length-take-le zero s = omega arith
length-take-le (suc n) [] = omega arith
length-take-le (suc n) (x ∷ s) = omega (arith, length-take-le n s)

pub no_terminations-IsWithin :
    (limit n : ℕ) → IsWithin limit (record no_terminations { partitions_processed = n })
unfolding size
no_terminations-IsWithin limit n = record {
  ascending = tt;
  handed_out = omega arith;
  counted = omega arith;
}

-- More sectors of a block, at most `n`.
insert-IsWithin :
    (limit block n : ℕ) (sectors : BtreeSet) (r : TerminationResult)
    → IsWithin limit r
    → length sectors ≤ n
    → r.sectors_processed + n ≤ limit
    → limit < u64_mod
    → IsWithin limit (record r {
      sectors_processed = add_u64 r.sectors_processed n;
      sectors = Map.insert block sectors r.sectors;
    })
insert-IsWithin limit block n sectors r h few fits small =
    let sum = add_u64-eq r.sectors_processed n (omega arith) in
    record {
      ascending = insert-IsAscending block sectors r.sectors h.ascending;
      handed_out = omega (arith, sum, size-insert-le block sectors r.sectors, h.handed_out);
      counted = omega (arith, sum);
    }

pop_block-IsWithin :
    (budget block : ℕ) (sectors : BtreeSet) (s : Pop)
    → budget < u64_mod
    → IsWithin budget s.result
    → IsWithin budget (pop_block budget block sectors s).result
unfolding pop_block
pop_block-IsWithin budget block sectors s small h =
    let n = s.result.sectors_processed in
    let left = sub_u64-eq budget n h.counted small in
    elim (Bool-cases (ltb (sub_u64 budget n) (length sectors))) [
      | inl c ↦ rw c (
          insert-IsWithin budget block (sub_u64 budget n) (take (sub_u64 budget n) sectors) s.result
            h (length-take-le _ sectors) (omega (arith, left, h.counted)) small)
      | inr c ↦ rw c (
          insert-IsWithin budget block (length sectors) sectors s.result h (omega arith)
            (ground (arith, left, h.counted)) small)
    ]

pop_blocks-IsWithin :
    (budget : ℕ) (blocks : List (ℕ × BtreeSet)) (s : Pop)
    → budget < u64_mod
    → IsWithin budget s.result
    → IsWithin budget (pop_blocks budget blocks s).result
unfolding pop_blocks
pop_blocks-IsWithin budget [] s small h = h
pop_blocks-IsWithin budget ((block, sectors) ∷ blocks) s small h =
    let next = pop_block budget block sectors s in
    let here = pop_block-IsWithin budget block sectors s small h in
    elim (Bool-cases (leb budget next.result.sectors_processed)) [
      | inl c ↦ rw c here
      | inr c ↦ rw c (pop_blocks-IsWithin budget blocks next small here)
    ]

pub pop_early_terminations-IsWithin :
    (bounded : Bounded) (limit : ℕ) (p p' : Partition) (result : TerminationResult) (more : Bool)
    → pop_early_terminations bounded limit p ≡ ok ((result, more), p')
    → limit < u64_mod
    → IsWithin limit result
unfolding pop_early_terminations
pop_early_terminations-IsWithin bounded limit p p' result more h small =
    let out : (TerminationResult × Bool) × Partition = ((result, more), p') in
    let start : Pop = record {
      processed = [];
      remaining = none;
      result = record no_terminations { partitions_processed = 1 };
    } in
    let s = pop_blocks limit p.early_terminations start in
    let (early, _, h1) =
      bind_inverts (keep_remaining bounded s.remaining p.early_terminations) _ out h in
    let (left, _, h2) =
      bind_inverts
        (expect (
          bounded.map_try_from BtreeSet max_sectors
            (filter (λ e. not (listed e.0 s.processed)) early)))
        _ out h1 in
    let same : s.result ≡ result =
      ap (λ (r : (TerminationResult × Bool) × Partition). r.0.0) (ok_inverts _ out h2) in
    rw (← same) (
      pop_blocks-IsWithin limit p.early_terminations start small (no_terminations-IsWithin limit 1))

-- Where it succeeds with a limit that is a `u64`, a partition hands out no more early terminated
-- sectors, over all blocks, than it counts, and counts no more than the limit.
pub pop_early_terminations-within :
    (bounded : Bounded) (limit : ℕ) (p p' : Partition) (result : TerminationResult) (more : Bool)
    → pop_early_terminations bounded limit p ≡ ok ((result, more), p')
    → limit < u64_mod
    → (size result.sectors ≤ result.sectors_processed) × (result.sectors_processed ≤ limit)
pop_early_terminations-within bounded limit p p' result more h small =
    let w = pop_early_terminations-IsWithin bounded limit p p' result more h small in
    (w.handed_out, w.counted)

-- Joining results.
join_sectors-size :
    (more m : BtreeMap BtreeSet)
    → IsAscending m
    → IsAscending (join_sectors more m) × (size (join_sectors more m) ≤ size m + size more)
unfolding join_sectors size
join_sectors-size [] m h = (h, omega arith)
join_sectors-size ((block, new) ∷ more) m h = elim (Option-cases (Map.get block m)) [
  | inl absent ↦
      let (a, b) =
        join_sectors-size more (Map.insert block new m) (insert-IsAscending block new m h) in
      rw (absent, join_sectors) (a, omega (arith, b, size-insert-le block new m))
  | inr (old, present) ↦
      let joined = Set.union old new in
      let (a, b) =
        join_sectors-size more (Map.insert block joined m) (insert-IsAscending block joined m h) in
      rw (present, join_sectors)
        (
          a,
          omega
              (arith, b, size-insert_present block joined old m h present, length-union-le old new),
        )
]

-- A result within what is left of the limit.
pub add_assign-IsWithin :
    (limit : ℕ) (r rhs : TerminationResult)
    → limit < u64_mod
    → IsWithin limit r
    → IsWithin (sub_u64 limit r.sectors_processed) rhs
    → IsWithin limit (add_assign r rhs)
unfolding add_assign
add_assign-IsWithin limit r rhs small h k =
    let left = sub_u64-eq limit r.sectors_processed h.counted small in
    let sum =
      add_u64-eq r.sectors_processed rhs.sectors_processed
        (omega (arith, left, h.counted, k.counted)) in
    let (a, b) = join_sectors-size rhs.sectors r.sectors h.ascending in
    record {
      ascending = a;
      handed_out = omega (arith, b, sum, h.handed_out, k.handed_out);
      counted = omega (arith, sum, left, h.counted, k.counted);
    }
