-- ===== src/StorageProvider/Partition/Consistency.antt =====
-- A partition's sets stay consistent with one another.
use polka_storage.Base.{
  Bool-cases, inl, inr, ==_iff, ◌==◌, ℕ, ◌≡◌, true, false, ◌&&◌, ◌||◌, List, [], ◌∷◌, map, arith,
}
use polka_storage.Btree.Set.{
  BtreeSet, contains-insert, contains-union, contains-difference, contains-intersection,
  contains-insert_all, contains-remove_all,
}
use polka_storage.Btree.Set
use polka_storage.Btree.Map.{BtreeMap}
use polka_storage.Btree.Bounded.{Bounded}
use polka_storage.StorageProvider.Outcome.{ok, map_err}
use polka_storage.StorageProvider.Outcome.Inversion.{bind_inverts}
use polka_storage.StorageProvider.ExpirationQueue.Reschedule.{reschedule_recovered}
use polka_storage.StorageProvider.Sector.{SectorOnChainInfo, max_sectors}
use polka_storage.StorageProvider.ExpirationQueue.{add_active_sectors}
use polka_storage.StorageProvider.Partition.{
  Partition, add_loop, add_sectors, declare_faults_recovered, recover_all_declared_recoveries,
}

-- At one sector number: faulty sectors are not terminated, only faulty sectors recover, and unproven
-- sectors are sectors of the partition.
abbrev pub IsConsistentAt : ℕ → Partition → Type 0
IsConsistentAt x p =
    (Set.contains x p.faults ≡ true → Set.contains x p.terminated ≡ false)
    × (Set.contains x p.recoveries ≡ true → Set.contains x p.faults ≡ true)
    × (Set.contains x p.unproven ≡ true → Set.contains x p.sectors ≡ true)

abbrev pub IsConsistent : Partition → Type 0
IsConsistent p = (x : ℕ) → IsConsistentAt x p

-- The sectors' numbers.
abbrev pub numbers : List SectorOnChainInfo → List ℕ
numbers sectors = map (λ s. s.sector_number) sectors

module _ (bounded : Bounded) where
  add_loop_inverts :
      (sector : SectorOnChainInfo) (sectors : List SectorOnChainInfo)
      (all_sectors unproven all' unproven' : BtreeSet)
      → add_loop bounded (sector ∷ sectors) all_sectors unproven ≡ ok (all', unproven')
      → (Set.contains sector.sector_number all_sectors ≡ false)
        × (add_loop bounded sectors
              (Set.insert sector.sector_number all_sectors)
              (Set.insert sector.sector_number unproven)
            ≡ ok (all', unproven'))
  unfolding add_loop
  add_loop_inverts sector sectors all_sectors unproven all' unproven' h =
      let n = sector.sector_number in
      ground (
        arith,
        bounded.set_try_insert_law max_sectors n all_sectors,
        bounded.set_try_insert_law max_sectors n unproven,
      )

  pub add_loop-contains :
      (sectors : List SectorOnChainInfo) (all_sectors unproven all' unproven' : BtreeSet)
      → add_loop bounded sectors all_sectors unproven ≡ ok (all', unproven')
      → (x : ℕ)
      → (Set.contains x all' ≡ (Set.contains x (numbers sectors) || Set.contains x all_sectors))
        × (Set.contains x unproven' ≡ (Set.contains x (numbers sectors) || Set.contains x unproven))
        × ((Set.contains x (numbers sectors) && Set.contains x all_sectors) ≡ false)
  unfolding add_loop Set.contains
  add_loop-contains [] all_sectors unproven all' unproven' h x = ground arith
  add_loop-contains (sector ∷ sectors) all_sectors unproven all' unproven' h x =
      let n = sector.sector_number in
      let (new, rest) = add_loop_inverts sector sectors all_sectors unproven all' unproven' h in
      let more =
        add_loop-contains sectors (Set.insert n all_sectors) (Set.insert n unproven) all' unproven'
          rest x in
      elim (Bool-cases (x == n)) [
        | inl e ↦
            let new_x : Set.contains x all_sectors ≡ false = rw ((==_iff x n).0 e) new in
            ground (arith, contains-insert n x all_sectors, contains-insert n x unproven)
        | inr e ↦ ground (arith, contains-insert n x all_sectors, contains-insert n x unproven)
      ]

  pub add_sectors-IsConsistent :
      (sectors : List SectorOnChainInfo) (p p' : Partition)
      → add_sectors bounded sectors p ≡ ok p'
      → IsConsistent p
      → IsConsistent p'
  unfolding add_sectors
  add_sectors-IsConsistent sectors p p' h k x =
      let (q, _, rest) = bind_inverts (add_active_sectors bounded sectors p.expirations) _ p' h in
      let (sets, loop, last) =
        bind_inverts (add_loop bounded sectors p.sectors p.unproven) _ p' rest in
      let same : p' ≡ record p { expirations = q; sectors = sets.0; unproven = sets.1 } = cc in
      rw same
        (ground (arith, k x, add_loop-contains sectors p.sectors p.unproven sets.0 sets.1 loop x))

  pub recover_all_declared_recoveries-IsConsistent :
      (all_sectors : BtreeMap SectorOnChainInfo) (p p' : Partition)
      → recover_all_declared_recoveries bounded all_sectors p ≡ ok p'
      → IsConsistent p
      → IsConsistent p'
  unfolding recover_all_declared_recoveries Set.contains
  recover_all_declared_recoveries-IsConsistent all_sectors p p' h k x =
      let (q, _, rest) =
        bind_inverts
          (map_err (reschedule_recovered bounded all_sectors p.recoveries p.expirations) _) _ p'
          h in
      ground (
        arith,
        k x,
        rest,
        bounded.set_try_from_law max_sectors (Set.difference p.faults p.recoveries),
        contains-difference x p.faults p.recoveries,
      )

  pub declare_faults_recovered-IsConsistent :
      (declared : BtreeSet) (p p' : Partition)
      → declare_faults_recovered bounded declared p ≡ ok p'
      → IsConsistent p
      → IsConsistent p'
  unfolding declare_faults_recovered
  declare_faults_recovered-IsConsistent declared p p' h k x =
      let new_recoveries = Set.intersection declared p.faults in
      ground (
        arith,
        k x,
        bounded.set_try_from_law max_sectors (Set.union p.recoveries new_recoveries),
        contains-union x p.recoveries new_recoveries,
        contains-intersection x declared p.faults,
      )
