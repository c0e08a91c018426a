-- ===== src/StorageProvider/Assignment.antt =====
-- Assignment of sectors to deadlines (pallets/storage-provider/src/deadline/assignment.rs). The
-- partition size is a constant of the proof type and not zero, so no division panics. The
-- `BinaryHeap` is a list; since two deadlines never compare as equal, its greatest entry is the only
-- one that `peek_mut` can give, and the list's order does not matter.
pub mod Order
pub mod Heap
pub mod Conservation
pub mod Capacity
use Prim.Native.Nat.{compare, Ordering}
use polka_storage.Base.{
  ℕ, ◌+◌, ◌-◌, ◌/◌, ◌%◌, Bool, true, false, ◌&&◌, not, Option, none, some, List, [], ◌∷◌, ◌++◌,
  is_empty, get_elem?, set, replicate, leb, ◌==◌, if◌then◌else◌,
}
use polka_storage.Base.Words.{add_u64, sub_u64, mul_u64}
use polka_storage.StorageProvider.Outcome.{
  Outcome, ok, err, panic, ◌>>=◌, expect, ok_or, deadline_could_not_construct_deadline_info,
  deadline_max_partitions_reached,
}
use polka_storage.StorageProvider.Sector.{SectorOnChainInfo}
use polka_storage.StorageProvider.Deadline.{Deadline}

pub record DeadlineAssignmentInfo : Type 0 where
  pub index : ℕ
  pub live_sectors : ℕ
  pub total_sectors : ℕ

-- `u64::div_ceil`
unfoldable pub div_ceil : ℕ → ℕ → ℕ
div_ceil n d = if n % d == 0 then n / d else n / d + 1

unfoldable pub partitions_after_assignment : ℕ → DeadlineAssignmentInfo → ℕ
partitions_after_assignment partition_size a = div_ceil (add_u64 a.total_sectors 1) partition_size

unfoldable pub compact_partitions_after_assignment : ℕ → DeadlineAssignmentInfo → ℕ
compact_partitions_after_assignment partition_size a =
    div_ceil (add_u64 a.live_sectors 1) partition_size

unfoldable pub is_full_now : ℕ → DeadlineAssignmentInfo → Bool
is_full_now partition_size a = a.total_sectors % partition_size == 0

unfoldable pub max_partitions_reached : ℕ → ℕ → DeadlineAssignmentInfo → Bool
max_partitions_reached partition_size max_partitions a =
    leb (mul_u64 partition_size max_partitions) a.total_sectors

-- `Ordering::then_with`, `Ordering::reverse` and `bool::cmp`
abbrev pub then_with : Ordering → Ordering → Ordering
then_with Ordering.lt o = Ordering.lt
then_with Ordering.eq o = o
then_with Ordering.gt o = Ordering.gt

abbrev pub reverse : Ordering → Ordering
reverse Ordering.lt = Ordering.gt
reverse Ordering.eq = Ordering.eq
reverse Ordering.gt = Ordering.lt

abbrev pub compare_bool : Bool → Bool → Ordering
compare_bool false true = Ordering.lt
compare_bool true false = Ordering.gt
compare_bool false false = Ordering.eq
compare_bool true true = Ordering.eq

unfoldable pub cmp : ℕ → DeadlineAssignmentInfo → DeadlineAssignmentInfo → Ordering
cmp partition_size a b =
    then_with
      (compare (compact_partitions_after_assignment partition_size a)
        (compact_partitions_after_assignment partition_size b))
      (then_with
        (compare (partitions_after_assignment partition_size a)
          (partitions_after_assignment partition_size b))
        (then_with (compare_bool (is_full_now partition_size a) (is_full_now partition_size b)) (
          then_with
            (if not (is_full_now partition_size a) && not (is_full_now partition_size b)
              then reverse (compare a.total_sectors b.total_sectors)
              else Ordering.eq)
            (then_with (compare a.live_sectors b.live_sectors) (compare a.index b.index)))))

-- The heap's entries: the deadlines that are there, with their indices.
unfoldable pub entries : ℕ → List (Option Deadline) → List DeadlineAssignmentInfo
entries index [] = []
entries index (none ∷ deadlines) = entries (index + 1) deadlines
entries index (some d ∷ deadlines) =
    (record { index = index; live_sectors = d.live_sectors; total_sectors = d.total_sectors })
    ∷ entries (index + 1) deadlines

abbrev pub smaller : ℕ → DeadlineAssignmentInfo → DeadlineAssignmentInfo → DeadlineAssignmentInfo
smaller partition_size a b = elim (cmp partition_size b a) [ Ordering.lt ↦ b | _ ↦ a ]

unfoldable pub least :
    ℕ → DeadlineAssignmentInfo → List DeadlineAssignmentInfo → DeadlineAssignmentInfo
least partition_size a [] = a
least partition_size a (b ∷ heap) = least partition_size (smaller partition_size a b) heap

-- `peek_mut`: the greatest entry of the heap, which reverses the order.
unfoldable pub peek : ℕ → List DeadlineAssignmentInfo → Option DeadlineAssignmentInfo
peek partition_size [] = none
peek partition_size (a ∷ heap) = some (least partition_size a heap)

-- What is written through `peek_mut`: the entry of this index.
unfoldable pub put :
    DeadlineAssignmentInfo → List DeadlineAssignmentInfo → List DeadlineAssignmentInfo
put a [] = []
put a (b ∷ heap) = if a.index == b.index then a ∷ heap else b ∷ put a heap

-- The entry after a sector was assigned.
unfoldable pub with_sector : DeadlineAssignmentInfo → DeadlineAssignmentInfo
with_sector a = record {
  index = a.index;
  live_sectors = add_u64 a.live_sectors 1;
  total_sectors = add_u64 a.total_sectors 1;
}

abbrev pub Buckets : Type 0
Buckets = List (List SectorOnChainInfo)

-- The loop over the sectors. An index out of range panics.
unfoldable pub assign :
    ℕ
    → ℕ
    → List SectorOnChainInfo
    → List DeadlineAssignmentInfo
    → Buckets
    → Outcome (List DeadlineAssignmentInfo × Buckets)
assign max_partitions partition_size [] heap deadlines = ok (heap, deadlines)
assign max_partitions partition_size (sector ∷ sectors) heap deadlines =
    ok_or (peek partition_size heap) deadline_could_not_construct_deadline_info >>= λ info.
    let pushed = expect (get_elem? deadlines info.index) >>= λ bucket.
    assign max_partitions partition_size sectors (put (with_sector info) heap)
      (set deadlines info.index (bucket ++ sector ∷ [])) in
    if max_partitions_reached partition_size max_partitions info
    then err deadline_max_partitions_reached
    else pushed

-- `assert!(!heap.is_empty())`, and the loop.
unfoldable pub assign_deadlines :
    ℕ → ℕ → List (Option Deadline) → List SectorOnChainInfo → ℕ → Outcome Buckets
assign_deadlines max_partitions partition_size deadlines sectors w_post_period_deadlines =
    let heap = entries 0 deadlines in
    let assigned =
      assign max_partitions partition_size sectors heap (replicate w_post_period_deadlines []) in
    if is_empty heap then panic else assigned >>= λ out. ok out.1
