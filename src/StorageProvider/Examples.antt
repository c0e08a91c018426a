-- ===== src/StorageProvider/Examples.antt =====
-- The storage provider pallet's theorems at concrete inputs.
use polka_storage.Btree.Map.Sizes.{size}
use polka_storage.StorageProvider.ExpirationQueue.Removal.Origin.{in_set}
use polka_storage.StorageProvider.ExpirationQueue.Removal.Kept.{queued_at, remove_sectors-keeps}
use polka_storage.StorageProvider.Partition.Upkeep.Early.{terminate_sectors_replaces}
use polka_storage.Base.{
  ◌||◌, map, ◌≢◌, ◌-◌, ◌/◌, ◌+◌, ◌*◌, ◌<◌, none, some, filter, leb, if◌then◌else◌, ℕ, ◌≤◌, ◌≡◌,
  refl, true, List, [], ◌∷◌, arith,
}
use polka_storage.Btree.Set.{BtreeSet}
use polka_storage.Btree.Set
use polka_storage.Btree.Map.{BtreeMap}
use polka_storage.Btree.Map
use polka_storage.Btree.Bounded.{reference_bounded}
use polka_storage.Base.Words.{add_u64, sub_u64, mul_u64}
use polka_storage.StorageProvider.Sector.{SectorOnChainInfo, stacked_drg_2kib_v1p1}
use polka_storage.StorageProvider.ExpirationSet.{ExpirationSet, try_insert_each, is_empty_set, len}
use polka_storage.StorageProvider.ExpirationSet
use polka_storage.StorageProvider.ExpirationQueue.{
  pop_until, pop_loop, due_until, ExpirationQueue, set_at, put, add_to_expiration_set,
  add_active_sectors, must_update_or_delete,
}
use polka_storage.StorageProvider.ExpirationQueue.Find.{
  take_included, group_expiration_set, find_declared, find_rescheduled, find_sectors_by_expiration,
}
use polka_storage.StorageProvider.ExpirationQueue.Removal.{
  remove_groups, remove_active_sectors, remove_faulty_sector, remove_faulty_sectors,
  remove_faulty_loop, remove_sectors,
}
use polka_storage.StorageProvider.ExpirationQueue.Reschedule.{reschedule_as_faults, unschedule}
use polka_storage.StorageProvider.Partition.{
  Partition, new_partition, live_sectors, add_loop, add_sectors, activate_unproven, record_faults,
  add_faults, new_faults, retracted_recoveries, infos_in, numbers_in,
}
use polka_storage.StorageProvider.Partition.Consistency.{IsConsistent}
use polka_storage.StorageProvider.Partition.Termination.{
  TerminationResult, pop_block, pop_blocks, listed, keep_remaining, record_early_terminations,
  clear_terminated, terminate_sectors, pop_expired_sectors, pop_early_terminations, add_assign,
  join_sectors, below_limit,
}
use polka_storage.StorageProvider.Partition.Upkeep.{Terminates, terminate_sectors-Terminates}
use polka_storage.StorageProvider.Partition.Budget.{pop_early_terminations-within}
use polka_storage.StorageProvider.Partition.History.{
  Step, Reached-IsConsistent, starts, goes_on, adds, activates, terminates, faults, expires,
}
use polka_storage.StorageProvider.Deadline.{Deadline, new_deadline}
use polka_storage.StorageProvider.Deadline.Expiry.{pop_partition, pop_partitions}
use polka_storage.StorageProvider.Deadline.Expiry
use polka_storage.StorageProvider.Deadline.Filling
use polka_storage.StorageProvider.Deadline.Filling.Updates.{last_update, record_expirations_last}
use polka_storage.StorageProvider.ExpirationQueue.Due.{on_time_in, early_in, pop_until_exact}
use polka_storage.StorageProvider.Deadline.Filling.Rounds.{add_sectors-Ends}
use polka_storage.StorageProvider.Outcome.{ok}
use polka_storage.StorageProvider.Outcome.Rounds.{Ends}
use polka_storage.StorageProvider.DeadlineInfo.{
  DeadlineInfo, PostConfig, new_deadline_info, next, next_not_elapsed, has_elapsed,
}
use polka_storage.StorageProvider.DeadlineInfo.Windows.{
  IsWindow, next_not_elapsed-new_deadline_info,
}
use polka_storage.StorageProvider.Deadline.Budget.{pop_early_terminations_bounded}

abbrev sample_sector : ℕ → ℕ → SectorOnChainInfo
sample_sector n expiration = record {
  sector_number = n;
  seal_proof = stacked_drg_2kib_v1p1;
  sealed_cid = [];
  activation = 1;
  expiration = expiration;
  unsealed_cid = [];
}

abbrev three_sectors : List SectorOnChainInfo
three_sectors = sample_sector 4 90 ∷ sample_sector 7 60 ∷ sample_sector 9 60 ∷ []

-- A partition with sectors 4, 7 and 9, of which 9 is faulty.
abbrev sample_queue : ExpirationQueue
sample_queue =
    (60, record { on_time_sectors = 7 ∷ []; early_sectors = 9 ∷ [] })
    ∷ (90, record { on_time_sectors = 4 ∷ []; early_sectors = [] })
    ∷ []

abbrev sample_partition : Partition
sample_partition = record new_partition {
  sectors = 4 ∷ 7 ∷ 9 ∷ [];
  faults = 9 ∷ [];
  expirations = sample_queue;
}

-- What terminating sectors 7 and 9 leaves.
abbrev terminated_partition : Partition
terminated_partition = record new_partition {
  sectors = 4 ∷ 7 ∷ 9 ∷ [];
  terminated = 7 ∷ 9 ∷ [];
  expirations =
      (60, record { on_time_sectors = []; early_sectors = [] })
      ∷ (90, record { on_time_sectors = 4 ∷ []; early_sectors = [] })
      ∷ [];
  early_terminations = (50, 7 ∷ 9 ∷ []) ∷ [];
}

abbrev both_removed : ExpirationSet
both_removed = record { on_time_sectors = 7 ∷ []; early_sectors = 9 ∷ [] }

terminate_sectors-Terminates_example :
    Terminates reference_bounded (7 ∷ 9 ∷ []) both_removed sample_partition terminated_partition
unfolding terminate_sectors clear_terminated record_early_terminations live_sectors remove_sectors
    remove_faulty_loop remove_faulty_sectors remove_faulty_sector remove_active_sectors
    remove_groups find_sectors_by_expiration find_rescheduled find_declared group_expiration_set
    take_included must_update_or_delete put is_empty_set ExpirationSet.remove Set.contains
    Set.insert Set.remove Set.insert_all Set.remove_all Set.union Set.difference Set.intersection
    Map.get Map.insert Map.remove
terminate_sectors-Terminates_example =
    terminate_sectors-Terminates reference_bounded 50 three_sectors (7 ∷ 9 ∷ []) both_removed
      sample_partition terminated_partition refl

-- Sector 4, which was terminated in the same block before, is lost.
terminate_sectors_replaces_example :
    (gone : BtreeSet) × (Map.get 50 terminated_partition.early_terminations ≡ some gone)
    × ((x : ℕ) → Set.contains x gone ≡ in_set x both_removed)
    × ((other : ℕ)
        → other ≢ 50
        → Map.get other terminated_partition.early_terminations ≡ Map.get other ((50, 4 ∷ []) ∷ []))
unfolding terminate_sectors clear_terminated record_early_terminations live_sectors remove_sectors
    remove_faulty_loop remove_faulty_sectors remove_faulty_sector remove_active_sectors
    remove_groups find_sectors_by_expiration find_rescheduled find_declared group_expiration_set
    take_included must_update_or_delete put is_empty_set ExpirationSet.remove Set.contains
    Set.insert Set.remove Set.insert_all Set.remove_all Set.union Set.difference Set.intersection
    Map.get Map.insert Map.remove
terminate_sectors_replaces_example =
    terminate_sectors_replaces reference_bounded 50 three_sectors (7 ∷ 9 ∷ []) both_removed
      (record sample_partition { early_terminations = (50, 4 ∷ []) ∷ [] }) terminated_partition refl

-- A new partition that gets three sectors, has them proven, and then loses sector 7.
abbrev filled_partition : Partition
filled_partition = record new_partition {
  sectors = 4 ∷ 7 ∷ 9 ∷ [];
  unproven = 4 ∷ 7 ∷ 9 ∷ [];
  expirations =
      (60, record { on_time_sectors = 7 ∷ 9 ∷ []; early_sectors = [] })
      ∷ (90, record { on_time_sectors = 4 ∷ []; early_sectors = [] })
      ∷ [];
}

abbrev proven_partition : Partition
proven_partition = record filled_partition { unproven = [] }

abbrev smaller_partition : Partition
smaller_partition = record proven_partition {
  terminated = 7 ∷ [];
  expirations =
      (60, record { on_time_sectors = 9 ∷ []; early_sectors = [] })
      ∷ (90, record { on_time_sectors = 4 ∷ []; early_sectors = [] })
      ∷ [];
  early_terminations = (50, 7 ∷ []) ∷ [];
}

fills : Step reference_bounded new_partition filled_partition
unfolding add_sectors add_loop add_active_sectors add_to_expiration_set put set_at ExpirationSet.add
    try_insert_each Set.contains Set.insert Map.get Map.insert
fills = adds three_sectors refl

proves : Step reference_bounded filled_partition proven_partition
unfolding activate_unproven
proves = activates refl

loses : Step reference_bounded proven_partition smaller_partition
unfolding terminate_sectors clear_terminated record_early_terminations live_sectors remove_sectors
    remove_faulty_loop remove_faulty_sectors remove_faulty_sector remove_active_sectors
    remove_groups find_sectors_by_expiration find_rescheduled find_declared group_expiration_set
    take_included must_update_or_delete put is_empty_set ExpirationSet.remove Set.contains
    Set.insert Set.remove Set.insert_all Set.remove_all Set.union Set.difference Set.intersection
    Map.get Map.insert Map.remove
loses =
    terminates 50 three_sectors (7 ∷ []) (record { on_time_sectors = 7 ∷ []; early_sectors = [] })
      refl

-- Then sector 9 is faulty, and expires early.
abbrev faulty_partition : Partition
faulty_partition = record smaller_partition {
  faults = 9 ∷ [];
  expirations =
      (50, record { on_time_sectors = []; early_sectors = 9 ∷ [] })
      ∷ (90, record { on_time_sectors = 4 ∷ []; early_sectors = [] })
      ∷ [];
}

abbrev expired_partition : Partition
expired_partition = record faulty_partition {
  faults = [];
  terminated = 7 ∷ 9 ∷ [];
  expirations = (90, record { on_time_sectors = 4 ∷ []; early_sectors = [] }) ∷ [];
  early_terminations = (50, 7 ∷ []) ∷ (55, 9 ∷ []) ∷ [];
}

fails : Step reference_bounded smaller_partition faulty_partition
unfolding record_faults add_faults new_faults retracted_recoveries infos_in numbers_in
    reschedule_as_faults unschedule add_to_expiration_set set_at put must_update_or_delete
    find_sectors_by_expiration find_rescheduled find_declared group_expiration_set take_included
    is_empty_set ExpirationSet.add ExpirationSet.remove try_insert_each Set.contains Set.insert
    Set.remove Set.insert_all Set.remove_all Set.union Set.difference Set.intersection Map.get
    Map.insert Map.remove
fails =
    faults ((4, sample_sector 4 90) ∷ (7, sample_sector 7 60) ∷ (9, sample_sector 9 60) ∷ [])
      (9 ∷ []) 50 (9 ∷ []) (refl, (refl, (refl, tt))) refl

ends_early : Step reference_bounded faulty_partition expired_partition
unfolding pop_expired_sectors pop_until pop_loop due_until record_early_terminations is_empty_set
    ExpirationSet.add ExpirationSet.remove try_insert_each Set.contains Set.insert Set.remove
    Set.insert_all Set.remove_all Set.union Set.difference Set.intersection Map.get Map.insert
    Map.remove Map.remove_all
ends_early = expires 55 (record { on_time_sectors = []; early_sectors = 9 ∷ [] }) refl

Reached-IsConsistent_example : IsConsistent expired_partition
Reached-IsConsistent_example =
    Reached-IsConsistent reference_bounded expired_partition
      (goes_on (goes_on (goes_on (goes_on (goes_on starts fills) proves) loses) fails) ends_early)

-- Sector 9 is faulty: it is returned early, and the others stay.
abbrev remaining_queue : ExpirationQueue
remaining_queue =
    (60, record { on_time_sectors = 7 ∷ []; early_sectors = [] })
    ∷ (90, record { on_time_sectors = 4 ∷ []; early_sectors = [] })
    ∷ []

abbrev nine_removed : ExpirationSet
nine_removed = record { on_time_sectors = []; early_sectors = 9 ∷ [] }

remove_sectors-keeps_example :
    (in_set 9 nine_removed ≡ true
      → Set.contains 9 (map (λ s. s.sector_number) (sample_sector 9 60 ∷ [])) ≡ true)
    × ((block : ℕ)
        → queued_at 9 block sample_queue ≡ true
        → (queued_at 9 block remaining_queue || in_set 9 nine_removed) ≡ true)
unfolding remove_sectors remove_faulty_loop remove_faulty_sectors remove_faulty_sector
    remove_active_sectors remove_groups find_sectors_by_expiration find_rescheduled find_declared
    group_expiration_set take_included Set.contains Set.insert Set.remove Set.insert_all
    Set.remove_all
remove_sectors-keeps_example =
    remove_sectors-keeps reference_bounded 9 (sample_sector 9 60 ∷ []) (9 ∷ []) sample_queue
      remaining_queue nine_removed refl

-- Sectors 7 and 9 are reported one at a time.
abbrev one_reported : TerminationResult
one_reported = record {
  sectors = (50, 7 ∷ []) ∷ [];
  partitions_processed = 1;
  sectors_processed = 1;
}

pop_early_terminations-within_example :
    (size one_reported.sectors ≤ one_reported.sectors_processed)
    × (one_reported.sectors_processed ≤ 1)
unfolding pop_early_terminations pop_blocks pop_block keep_remaining listed add_u64 sub_u64
    Set.contains Map.insert
pop_early_terminations-within_example =
    pop_early_terminations-within reference_bounded 1 terminated_partition
      (record terminated_partition { early_terminations = (50, 9 ∷ []) ∷ [] }) one_reported true
      refl (omega arith)

abbrev sample_deadline : Deadline
sample_deadline = record new_deadline {
  partitions = (0, terminated_partition) ∷ [];
  early_terminations = 0 ∷ [];
  live_sectors = 1;
  total_sectors = 3;
}

pop_early_terminations_bounded_example :
    (size one_reported.sectors ≤ one_reported.sectors_processed)
    × (one_reported.sectors_processed ≤ 1)
unfolding Expiry.pop_early_terminations pop_partitions pop_partition add_assign join_sectors
    below_limit pop_early_terminations pop_blocks pop_block keep_remaining listed add_u64 sub_u64
    Set.contains Set.remove_all Set.union Map.insert Map.get
pop_early_terminations_bounded_example =
    pop_early_terminations_bounded reference_bounded 1 (omega arith) 5 sample_deadline
      (record sample_deadline {
        partitions =
            (0, record terminated_partition { early_terminations = (50, 9 ∷ []) ∷ [] }) ∷ [];
      })
      one_reported true refl

add_sectors-Ends_example :
    Ends (Filling.add_sectors reference_bounded 2 three_sectors sample_deadline)
add_sectors-Ends_example =
    add_sectors-Ends reference_bounded 2 (omega arith) three_sectors sample_deadline

pop_until_exact_example :
    ((x : ℕ)
      → (Set.contains x (7 ∷ []) ≡ on_time_in x (filter (λ e. leb e.0 75) sample_queue))
        × (Set.contains x (9 ∷ []) ≡ early_in x (filter (λ e. leb e.0 75) sample_queue)))
    × ((block : ℕ)
        → Map.get block ((90, record { on_time_sectors = 4 ∷ []; early_sectors = [] }) ∷ [])
          ≡ (if leb block 75 then none else Map.get block sample_queue))
unfolding pop_until pop_loop due_until ExpirationSet.add try_insert_each Set.insert Map.remove_all
    Map.remove
pop_until_exact_example =
    pop_until_exact reference_bounded 75 sample_queue
      ((90, record { on_time_sectors = 4 ∷ []; early_sectors = [] }) ∷ [])
      (record { on_time_sectors = 7 ∷ []; early_sectors = 9 ∷ [] }) refl

-- Sectors of partitions 3, 4 and 5 expire at block 60.
abbrev updates : List (ℕ × ℕ)
updates = (60, 4) ∷ (90, 4) ∷ (60, 5) ∷ []

record_expirations_last_example :
    Map.get 60 ((60, 5) ∷ (90, 4) ∷ []) ≡ last_update 60 updates (Map.get 60 ((60, 3) ∷ []))
unfolding Filling.record_expirations Map.insert
record_expirations_last_example =
    record_expirations_last reference_bounded updates ((60, 3) ∷ []) ((60, 5) ∷ (90, 4) ∷ []) 60
      refl

-- Sector 4 is terminated in the block in which 7 and 9 were.
abbrev sample_post : PostConfig
sample_post = record {
  period_deadlines = 3;
  proving_period = 60;
  challenge_window = 20;
  challenge_lookback = 5;
  fault_cutoff = 2;
}

sample_post-IsWindow : IsWindow sample_post 1
sample_post-IsWindow = record {
  known = omega arith;
  in_period = omega arith;
  positive = omega arith;
}

-- The window of deadline 1 is 70 to 89; at block 100 the next one is 130 to 149.
next_not_elapsed-new_deadline_info_example :
    (r : DeadlineInfo) × (k : ℕ) × (next_not_elapsed (new_deadline_info sample_post 100 50 1)
      ≡ ok r)
    × (k ≡ (if leb (50 + 1 * 20 + 20) 100 then 1 + (100 - 50) / 60 else 0))
    × (r.open_at ≡ 50 + 60 * k + 1 * 20)
    × (r.close_at ≡ r.open_at + 20)
    × (100 < r.close_at)
    × (r.close_at ≤ 100 + 60 + 60)
next_not_elapsed-new_deadline_info_example =
    next_not_elapsed-new_deadline_info sample_post 100 50 1 sample_post-IsWindow (omega arith)
      (omega arith)

next_window :
    (next_not_elapsed (new_deadline_info sample_post 100 50 1)
      ≡ ok (new_deadline_info sample_post 100 110 1))
    × ((new_deadline_info sample_post 100 110 1).open_at ≡ 130)
unfolding next_not_elapsed has_elapsed next new_deadline_info add_u64 sub_u64 mul_u64
next_window = (refl, refl)
