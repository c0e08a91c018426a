-- ===== src/StorageProvider/State/Examples.antt =====
-- The theorems on the assignment of sectors and on a provider's state at concrete inputs.
use polka_storage.Btree.Map.Sizes.{size}
use polka_storage.Btree.Set
use polka_storage.Btree.Map
use polka_storage.StorageProvider.Deadline.Filling
use polka_storage.StorageProvider.Deadline.Expiry
use polka_storage.StorageProvider.Partition
use polka_storage.StorageProvider.Partition.Termination
use polka_storage.StorageProvider.ExpirationQueue
use polka_storage.StorageProvider.ExpirationSet
use polka_storage.StorageProvider.State.Assign
use polka_storage.StorageProvider.State.EarlyTerminations
use polka_storage.StorageProvider.Deadlines.{load_deadline, store_deadline, len}
use Prim.Native.Nat.{Ordering}
use polka_storage.Base.{
  ℕ, ◌+◌, ◌*◌, ◌≤◌, ◌<◌, ◌≡◌, ◌≢◌, ◌⊎◌, refl, Bool, false, Option, none, some, List, [], ◌∷◌,
  length, get_elem?, arith,
}
use polka_storage.Base.Words.{add_u64, sub_u64, mul_u64}
use polka_storage.Btree.Set.{BtreeSet}
use polka_storage.Btree.Map.{BtreeMap}
use polka_storage.Btree.Bounded.{reference_bounded}
use polka_storage.StorageProvider.Outcome.{ok}
use polka_storage.StorageProvider.Sector.{
  SectorOnChainInfo, stacked_drg_2kib_v1p1, stacked_drg_window_2kib_v1p1,
}
use polka_storage.StorageProvider.DeadlineInfo.{
  PostConfig, deadline_is_mutable, next_not_elapsed, has_elapsed, new_deadline_info, next,
  period_started, last,
}
use polka_storage.StorageProvider.Deadline.{Deadline, new_deadline}
use polka_storage.StorageProvider.Assignment.{
  DeadlineAssignmentInfo, Buckets, assign_deadlines, cmp, reverse, peek, entries, assign,
  max_partitions_reached, least, compact_partitions_after_assignment, div_ceil,
  partitions_after_assignment, is_full_now, put, with_sector,
}
use polka_storage.StorageProvider.Assignment.Conservation.{
  count, count_all, assign_deadlines_conserves,
}
use polka_storage.StorageProvider.Assignment.Heap.{bucket_at}
use polka_storage.StorageProvider.Assignment.Capacity.{assign_deadlines_fits}
use polka_storage.StorageProvider.Assignment.Order.{cmp_linear}
use polka_storage.StorageProvider.State.{
  StorageProviderState, new_info, calculate_first_proving_period_start, next_deadline,
  expire_deadline, advance_deadline, deadline_info,
}
use polka_storage.StorageProvider.State.Advance.{
  calculate_first_proving_period_start_future, advance_deadline_cycles, Moves,
}
use polka_storage.StorageProvider.State.Assign.{
  can_take, offer_deadlines, assign_sectors_to_deadlines,
}
use polka_storage.StorageProvider.State.Untouched.{assign_sectors_to_deadlines_untouched}
use polka_storage.StorageProvider.State.Budget.{pop_early_terminations-le}
use polka_storage.StorageProvider.Partition.{new_partition}
use polka_storage.StorageProvider.Partition.Termination.{TerminationResult, no_terminations}
use polka_storage.StorageProvider.State.EarlyTerminations.{pop_early_terminations}

abbrev sector : ℕ → SectorOnChainInfo
sector n = record {
  sector_number = n;
  seal_proof = stacked_drg_2kib_v1p1;
  sealed_cid = [];
  activation = 0;
  expiration = 1000;
  unsealed_cid = [];
}

abbrev info : ℕ → ℕ → DeadlineAssignmentInfo
info index total = record { index = index; live_sectors = total; total_sectors = total }

-- Deadlines of 20 blocks, two in a period.
abbrev two_deadlines : PostConfig
two_deadlines = record {
  period_deadlines = 2;
  proving_period = 40;
  challenge_window = 20;
  challenge_lookback = 5;
  fault_cutoff = 5;
}

abbrev offered : List (Option Deadline)
offered = some new_deadline ∷ none ∷ some new_deadline ∷ []

abbrev three_sectors : List SectorOnChainInfo
three_sectors = sector 1 ∷ sector 2 ∷ sector 3 ∷ []

abbrev three_buckets : Buckets
three_buckets = (sector 1 ∷ sector 2 ∷ []) ∷ [] ∷ (sector 3 ∷ []) ∷ []

assigns : assign_deadlines 3 2 offered three_sectors 3 ≡ ok three_buckets
unfolding assign_deadlines entries assign peek max_partitions_reached mul_u64 least cmp
    compact_partitions_after_assignment div_ceil add_u64 partitions_after_assignment is_full_now put
    with_sector
assigns = refl

assign_deadlines_conserves_example :
    (length three_buckets ≡ 3)
    × ((p : SectorOnChainInfo → Bool) → count_all p three_buckets ≡ count p three_sectors)
assign_deadlines_conserves_example =
    assign_deadlines_conserves 3 2 3 offered three_sectors three_buckets assigns

assign_deadlines_fits_example :
    (bucket_at 0 three_buckets ≡ [])
    ⊎ ((d : Deadline) × (get_elem? offered 0 ≡ some (some d))
        × (d.total_sectors + length (bucket_at 0 three_buckets) ≤ 2 * 3))
assign_deadlines_fits_example =
    assign_deadlines_fits 3 2 3 offered three_sectors three_buckets 0 assigns (omega arith)

cmp_linear_example :
    (cmp 2 (info 1 4) (info 0 3) ≡ reverse (cmp 2 (info 0 3) (info 1 4)))
    × (cmp 2 (info 0 3) (info 1 4) ≡ Ordering.eq → (info 0 3).index ≡ (info 1 4).index)
    × (cmp 2 (info 0 3) (info 1 4) ≢ Ordering.gt
        → cmp 2 (info 1 4) (info 2 9) ≢ Ordering.gt
        → cmp 2 (info 0 3) (info 2 9) ≢ Ordering.gt)
cmp_linear_example = cmp_linear 2 (info 0 3) (info 1 4) (info 2 9)

calculate_first_proving_period_start_future_example :
    (100 < calculate_first_proving_period_start 100 7 40)
    × (calculate_first_proving_period_start 100 7 40 < 100 + 2 * 40)
calculate_first_proving_period_start_future_example =
    calculate_first_proving_period_start_future 100 7 40 (omega arith) (omega arith)

-- In the last deadline of the period that starts at 127.
abbrev provider : StorageProviderState ℕ
provider = record {
  info = new_info 5 stacked_drg_window_2kib_v1p1;
  sectors = [];
  pre_commit_deposits = 0;
  pre_committed_sectors = [];
  proving_period_start = 127;
  current_deadline = 1;
  deadlines = record { due = new_deadline ∷ new_deadline ∷ [] };
  early_terminations = [];
}

abbrev advanced : StorageProviderState ℕ
advanced = record provider { proving_period_start = 167; current_deadline = 0 }

advances : advance_deadline reference_bounded two_deadlines 167 provider ≡ ok advanced
unfolding advance_deadline deadline_info new_deadline_info period_started next_deadline
    expire_deadline add_u64 sub_u64 mul_u64 load_deadline len store_deadline last
    Expiry.pop_expired_sectors Expiry.pop_expired_partitions Map.remove_all
advances = refl

advance_deadline_cycles_example :
    (167 < 127 → advanced ≡ provider)
    × (127 ≤ 167 → Moves two_deadlines provider advanced × (advanced.sectors ≡ provider.sectors))
advance_deadline_cycles_example =
    advance_deadline_cycles reference_bounded two_deadlines 167 provider advanced advances
      (omega arith) (omega arith) (omega arith)

-- Sectors 7 and 9 terminated, with sector 4 left in its partition.
abbrev terminated_at : BtreeMap BtreeSet → Deadline
terminated_at early = record new_deadline {
  partitions =
      (
        0,
        record new_partition {
          sectors = 4 ∷ 7 ∷ 9 ∷ [];
          terminated = 7 ∷ 9 ∷ [];
          early_terminations = early;
        },
      )
      ∷ [];
  early_terminations = 0 ∷ [];
  live_sectors = 1;
  total_sectors = 2;
}

abbrev with_terminated : BtreeMap BtreeSet → StorageProviderState ℕ
with_terminated early = record provider {
  deadlines = record { due = new_deadline ∷ terminated_at early ∷ [] };
  early_terminations = 1 ∷ [];
}

abbrev popped : TerminationResult
popped = record { sectors = (50, 7 ∷ []) ∷ []; partitions_processed = 1; sectors_processed = 1 }

pops :
    pop_early_terminations reference_bounded 10 1 (with_terminated ((50, 7 ∷ 9 ∷ []) ∷ []))
    ≡ ok (popped, with_terminated ((50, 9 ∷ []) ∷ []))
unfolding pop_early_terminations EarlyTerminations.pop_deadline EarlyTerminations.pop_deadlines
    load_deadline store_deadline Expiry.pop_early_terminations Expiry.pop_partition
    Expiry.pop_partitions Termination.add_assign Termination.join_sectors Termination.below_limit
    Termination.pop_early_terminations Termination.pop_blocks Termination.pop_block
    Termination.keep_remaining Termination.listed add_u64 sub_u64 Set.contains Set.remove_all
    Set.remove Set.union Set.insert_all Set.insert Map.insert Map.get len
pops = refl

pop_early_terminations-le_example :
    (size popped.sectors ≤ popped.sectors_processed) × (popped.sectors_processed ≤ 1)
pop_early_terminations-le_example =
    pop_early_terminations-le reference_bounded 10 1 (omega arith)
      (with_terminated ((50, 7 ∷ 9 ∷ []) ∷ [])) (with_terminated ((50, 9 ∷ []) ∷ [])) popped pops

abbrev three_deadlines : PostConfig
three_deadlines = record two_deadlines { period_deadlines = 3; proving_period = 60 }

abbrev fresh : StorageProviderState ℕ
fresh = record provider {
  deadlines = record { due = new_deadline ∷ new_deadline ∷ new_deadline ∷ [] };
}

-- Both sectors in a partition of the last deadline.
abbrev filled : Deadline
filled = record {
  partitions =
      (
        0,
        record new_partition {
          sectors = 1 ∷ 2 ∷ [];
          unproven = 1 ∷ 2 ∷ [];
          expirations = (1000, record { on_time_sectors = 1 ∷ 2 ∷ []; early_sectors = [] }) ∷ [];
        },
      )
      ∷ [];
  expirations_blocks = (1000, 0) ∷ [];
  partitions_posted = [];
  early_terminations = [];
  live_sectors = 2;
  total_sectors = 2;
}

abbrev assigned : StorageProviderState ℕ
assigned = record fresh { deadlines = record { due = new_deadline ∷ new_deadline ∷ filled ∷ [] } }

fills :
    assign_sectors_to_deadlines reference_bounded three_deadlines 130
      (sector 2 ∷ sector 1 ∷ [])
      2
      3
      fresh
    ≡ ok assigned
unfolding assign_sectors_to_deadlines offer_deadlines Assign.place Assign.sort_by_number
    Assign.insert_by_number can_take deadline_is_mutable next_not_elapsed has_elapsed
    new_deadline_info add_u64 mul_u64 next sub_u64 assign_deadlines entries assign peek
    max_partitions_reached least cmp compact_partitions_after_assignment div_ceil
    partitions_after_assignment is_full_now put with_sector Filling.partition_at Filling.fill_fuel
    Filling.fill_loop Filling.record_expirations Filling.add_sectors Partition.add_loop
    Partition.add_sectors ExpirationQueue.set_at ExpirationQueue.put
    ExpirationQueue.add_to_expiration_set ExpirationQueue.add_active_sectors
    ExpirationSet.try_insert_each ExpirationSet.add Set.contains Set.insert Set.insert_all Map.get
    Map.insert Map.contains_key
fills = refl

immutable : can_take three_deadlines 127 130 0 ≡ ok false
unfolding can_take deadline_is_mutable next_not_elapsed has_elapsed new_deadline_info add_u64
    mul_u64 sub_u64
immutable = refl

assign_sectors_to_deadlines_untouched_example :
    get_elem? assigned.deadlines.due 0 ≡ get_elem? fresh.deadlines.due 0
assign_sectors_to_deadlines_untouched_example =
    assign_sectors_to_deadlines_untouched reference_bounded three_deadlines 130
      (sector 2 ∷ sector 1 ∷ []) 2 3 0 fresh assigned fills (omega arith) immutable
