-- ===== src/StorageProvider/State/Assign.antt =====
-- `assign_sectors_to_deadlines` (pallets/storage-provider/src/storage_provider.rs).
use polka_storage.Base.{
  ℕ, ◌+◌, Bool, true, Option, none, some, List, [], ◌∷◌, is_empty, length, get_elem?, set,
  replicate, ltb, leb, if◌then◌else◌,
}
use polka_storage.Btree.Bounded.{Bounded}
use polka_storage.StorageProvider.Outcome.{
  Outcome, ok, panic, ◌>>=◌, expect, ok_or, deadline_could_not_assign_sectors_to_deadlines,
}
use polka_storage.StorageProvider.Sector.{SectorOnChainInfo}
use polka_storage.StorageProvider.DeadlineInfo.{PostConfig, deadline_is_mutable}
use polka_storage.StorageProvider.Deadline.{Deadline}
use polka_storage.StorageProvider.Deadline.Filling.{add_sectors}
use polka_storage.StorageProvider.Assignment.{Buckets, assign_deadlines}
use polka_storage.StorageProvider.State.{StorageProviderState}

-- `sort_by_key(|info| info.sector_number)`, which is stable.
unfoldable pub insert_by_number :
    SectorOnChainInfo → List SectorOnChainInfo → List SectorOnChainInfo
insert_by_number s [] = s ∷ []
insert_by_number s (t ∷ sectors) =
    if leb s.sector_number t.sector_number then s ∷ t ∷ sectors else t ∷ insert_by_number s sectors

unfoldable pub sort_by_number : List SectorOnChainInfo → List SectorOnChainInfo
sort_by_number [] = []
sort_by_number (s ∷ sectors) = insert_by_number s (sort_by_number sectors)

-- Before the provider's first period every deadline may take sectors.
unfoldable pub can_take : PostConfig → ℕ → ℕ → ℕ → Outcome Bool
can_take w proving_period_start current_block idx =
    if ltb current_block proving_period_start
    then ok true
    else deadline_is_mutable w proving_period_start idx current_block

-- The loop that fills `deadline_vec`. An index out of its range panics.
unfoldable pub offer_deadlines :
    PostConfig
    → ℕ
    → ℕ
    → ℕ
    → List Deadline
    → List (Option Deadline)
    → Outcome (List (Option Deadline))
offer_deadlines w proving_period_start current_block idx [] deadline_vec = ok deadline_vec
offer_deadlines w proving_period_start current_block idx (d ∷ due) deadline_vec =
    can_take w proving_period_start current_block idx >>= λ taken.
    let skipped = offer_deadlines w proving_period_start current_block (idx + 1) due deadline_vec in
    let offered =
      offer_deadlines w proving_period_start current_block (idx + 1) due
        (set deadline_vec idx (some d)) in
    if taken then (if ltb idx (length deadline_vec) then offered else panic) else skipped

-- The loop over the sectors that each deadline was given.
unfoldable pub place :
    Bounded → ℕ → ℕ → Buckets → List (Option Deadline) → List Deadline → Outcome (List Deadline)
place bounded partition_size idx [] deadline_vec due = ok due
place bounded partition_size idx (sectors ∷ buckets) deadline_vec due =
    let skipped = place bounded partition_size (idx + 1) buckets deadline_vec due in
    let placed = expect (get_elem? deadline_vec idx) >>= λ slot.
    ok_or slot deadline_could_not_assign_sectors_to_deadlines >>= λ deadline.
    add_sectors bounded partition_size sectors deadline >>= λ deadline'.
    expect (get_elem? due idx) >>= λ old.
    place bounded partition_size (idx + 1) buckets deadline_vec (set due idx deadline') in
    if is_empty sectors then skipped else placed

unfoldable pub assign_sectors_to_deadlines :
    {PeerId : Type 0}
    → Bounded
    → PostConfig
    → ℕ
    → List SectorOnChainInfo
    → ℕ
    → ℕ
    → StorageProviderState PeerId
    → Outcome (StorageProviderState PeerId)
assign_sectors_to_deadlines bounded w current_block sectors partition_size
      max_partitions_per_deadline sp =
    do
      deadline_vec ←
          offer_deadlines w sp.proving_period_start current_block 0 sp.deadlines.due
            (replicate w.period_deadlines none)
      deadline_to_sectors ←
          assign_deadlines max_partitions_per_deadline partition_size deadline_vec
            (sort_by_number sectors) w.period_deadlines
      due ← place bounded partition_size 0 deadline_to_sectors deadline_vec sp.deadlines.due
      ok (record sp { deadlines = record { due = due } })
