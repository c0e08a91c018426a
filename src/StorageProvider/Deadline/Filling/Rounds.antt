-- ===== src/StorageProvider/Deadline/Filling/Rounds.antt =====
-- The loop of `Deadline::add_sectors` ends within the rounds that `fill_fuel` gives it.
use polka_storage.Base.{
  ℕ, zero, suc, ◌+◌, ◌-◌, ◌*◌, ◌≤◌, ◌<◌, ◌≡◌, min, true, false, some, List, [], ◌∷◌, ◌++◌, length,
  is_empty, take, drop, map, arith, if◌then◌else◌, Bool-cases, Option-cases, inl, inr, leb,
}
use polka_storage.Btree.Map.{BtreeMap}
use polka_storage.Btree.Map
use polka_storage.Btree.Bounded.{Bounded}
use polka_storage.StorageProvider.Outcome.{deadline_could_not_add_sectors, ok_or}
use polka_storage.StorageProvider.Sector.{SectorOnChainInfo, max_partitions_per_deadline}
use polka_storage.StorageProvider.Partition.{Partition, new_partition, add_loop}
use polka_storage.StorageProvider.Partition
use polka_storage.StorageProvider.Deadline.{Deadline}
use polka_storage.StorageProvider.Deadline.Filling.{
  partition_at, fill_loop, fill_fuel, record_expirations, add_sectors,
}
use polka_storage.StorageProvider.Outcome.Rounds.{Ends, bind-Ends, ok_or-Ends}
use polka_storage.StorageProvider.Partition.Rounds

-- The partitions from an index on.
keys_from : ℕ → BtreeMap Partition → ℕ
keys_from idx [] = 0
keys_from idx ((k, p) ∷ m) = (if leb idx k then 1 else 0) + keys_from idx m

keys_from-insert_next :
    (idx : ℕ) (p : Partition) (m : BtreeMap Partition)
    → keys_from (idx + 1) (Map.insert idx p m) ≡ keys_from (idx + 1) m
unfolding keys_from Map.insert
keys_from-insert_next idx p [] = ground arith
keys_from-insert_next idx p ((k, q) ∷ m) = ground (arith, keys_from-insert_next idx p m)

keys_from-insert :
    (idx : ℕ) (p : Partition) (m : BtreeMap Partition)
    → keys_from idx (Map.insert idx p m) ≤ keys_from idx m + 1
unfolding keys_from Map.insert
keys_from-insert idx p [] = ground arith
keys_from-insert idx p ((k, q) ∷ m) = ground (arith, keys_from-insert idx p m)

keys_from-le : (idx : ℕ) (m : BtreeMap Partition) → keys_from (idx + 1) m ≤ keys_from idx m
unfolding keys_from
keys_from-le idx [] = omega arith
keys_from-le idx ((k, q) ∷ m) = ground (arith, keys_from-le idx m)

keys_from-next :
    (idx : ℕ) (p : Partition) (m : BtreeMap Partition)
    → Map.get idx m ≡ some p
    → keys_from (idx + 1) m + 1 ≤ keys_from idx m
unfolding keys_from Map.get
keys_from-next idx p [] h = absurd (cc)
keys_from-next idx p ((k, q) ∷ m) h = ground (arith, keys_from-le idx m, keys_from-next idx p m)

keys_from-length : (idx : ℕ) (m : BtreeMap Partition) → keys_from idx m ≤ length m
unfolding keys_from
keys_from-length idx [] = omega arith
keys_from-length idx ((k, q) ∷ m) = ground (arith, keys_from-length idx m)

length-drop : (n : ℕ) (xs : List SectorOnChainInfo) → length (drop n xs) ≡ length xs - n
length-drop zero xs = omega arith
length-drop (suc n) [] = omega arith
length-drop (suc n) (x ∷ xs) = omega (arith, length-drop n xs)

is_empty-length : (xs : List SectorOnChainInfo) → is_empty xs ≡ false → 0 < length xs
is_empty-length [] h = absurd (cc)
is_empty-length (x ∷ xs) h = omega arith

-- A round that adds sectors leaves fewer rounds to go.
fewer :
    (fuel keys keys' partition_size count : ℕ) (sectors : List SectorOnChainInfo)
    → 0 < length sectors
    → leb partition_size count ≡ false
    → keys' ≤ keys + 1
    → keys + 2 * length sectors < suc fuel
    → keys' + 2 * length (drop (min (partition_size - count) (length sectors)) sectors) < fuel
fewer fuel keys keys' partition_size count sectors some_left open_yet k h =
    let room : count < partition_size = ground (arith, open_yet) in
    omega (arith, length-drop (min (partition_size - count) (length sectors)) sectors)

-- A full partition is one that the map has.
full_known :
    (partition_size idx : ℕ) (m : BtreeMap Partition)
    → 0 < partition_size
    → leb partition_size (length (partition_at idx m).sectors) ≡ true
    → (p : Partition) × (Map.get idx m ≡ some p)
unfolding partition_at
full_known partition_size idx m pos h = elim (Option-cases (Map.get idx m)) [
  | inl e ↦ absurd (ground (arith, e))
  | inr k ↦ k
]

module _ (bounded : Bounded) (partition_size : ℕ) (pos : 0 < partition_size) where
  fill_loop-Ends :
      (fuel idx : ℕ) (sectors : List SectorOnChainInfo) (partitions : BtreeMap Partition)
      (updates : List (ℕ × ℕ))
      → 0 < length sectors
      → keys_from idx partitions + 2 * length sectors < fuel
      → Ends (fill_loop bounded fuel partition_size idx sectors (partitions, updates))
  unfolding fill_loop
  fill_loop-Ends zero idx sectors partitions updates some_left h = absurd (omega arith)
  fill_loop-Ends (suc fuel) idx sectors partitions updates some_left h =
      let p = partition_at idx partitions in
      let size = min (partition_size - length p.sectors) (length sectors) in
      elim (Bool-cases (leb partition_size (length p.sectors))) [
        | inl full ↦
            let (q, known) = full_known partition_size idx partitions pos full in
            rw full (
              fill_loop-Ends fuel (idx + 1) sectors (Map.insert idx p partitions) updates some_left
                (omega (
                  arith,
                  keys_from-insert_next idx p partitions,
                  keys_from-next idx q partitions known,
                )))
        | inr open_yet ↦ rw open_yet (
            bind-Ends (Partition.add_sectors bounded (take size sectors) p) _
              (Rounds.add_sectors-Ends bounded (take size sectors) p)
              (λ p'.
                let rest = drop size sectors in
                elim (Bool-cases (is_empty rest)) [
                  | inl done ↦ rw done tt
                  | inr more ↦ rw more (
                      fill_loop-Ends fuel idx rest (Map.insert idx p' partitions)
                        (updates ++ map (λ s. (s.expiration, idx)) (take size sectors))
                        (is_empty-length rest more)
                        (fewer fuel (keys_from idx partitions)
                          (keys_from idx (Map.insert idx p' partitions)) partition_size
                          (length p.sectors) sectors some_left open_yet
                          (keys_from-insert idx p' partitions) h))
                ]))
      ]

  fill_loop_fueled :
      (idx : ℕ) (sectors : List SectorOnChainInfo) (partitions : BtreeMap Partition)
      (updates : List (ℕ × ℕ))
      → 0 < length sectors
      → Ends (
          fill_loop bounded
            (fill_fuel sectors partitions)
            partition_size
            idx
            sectors
            (partitions, updates))
  unfolding fill_fuel
  fill_loop_fueled idx sectors partitions updates some_left =
      fill_loop-Ends (fill_fuel sectors partitions) idx sectors partitions updates some_left
        (omega (arith, keys_from-length idx partitions))

  record_expirations-Ends :
      (updates : List (ℕ × ℕ)) (blocks : BtreeMap ℕ)
      → Ends (record_expirations bounded updates blocks)
  unfolding record_expirations
  record_expirations-Ends [] blocks = tt
  record_expirations-Ends ((block, n) ∷ updates) blocks =
      bind-Ends (ok_or (bounded.map_try_insert ℕ max_partitions_per_deadline block n blocks) _) _
        (ok_or-Ends (bounded.map_try_insert ℕ max_partitions_per_deadline block n blocks)
          deadline_could_not_add_sectors)
        (λ blocks'. record_expirations-Ends updates blocks')

  -- With room for at least one sector in a partition, adding sectors to a deadline never runs
  -- out of the model's rounds: the loop needs no more than there are partitions, twice the
  -- sectors, and one.
  pub add_sectors-Ends :
      (sectors : List SectorOnChainInfo) (d : Deadline)
      → Ends (add_sectors bounded partition_size sectors d)
  unfolding add_sectors
  add_sectors-Ends sectors d = elim (Bool-cases (is_empty sectors)) [
    | inl e ↦ rw e tt
    | inr e ↦ rw e (
        bind-Ends
          (fill_loop bounded (fill_fuel sectors d.partitions) partition_size
            (length d.partitions - 1) sectors (d.partitions, []))
          _
          (fill_loop_fueled (length d.partitions - 1) sectors d.partitions []
            (is_empty-length sectors e))
          (λ (filled, updates).
            bind-Ends (ok_or (bounded.map_try_from Partition max_partitions_per_deadline filled) _)
              _
              (ok_or-Ends (bounded.map_try_from Partition max_partitions_per_deadline filled)
                deadline_could_not_add_sectors)
              (λ partitions.
                bind-Ends (record_expirations bounded updates d.expirations_blocks) _
                  (record_expirations-Ends updates d.expirations_blocks) (λ blocks. tt))))
  ]
