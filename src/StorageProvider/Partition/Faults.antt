-- ===== src/StorageProvider/Partition/Faults.antt =====
-- Recording faults keeps a partition's sets consistent.
use polka_storage.Base.{
  ℕ, ◌≡◌, Bool, true, false, ◌&&◌, not, ◌==◌, List, [], ◌∷◌, is_empty, All, arith, if◌then◌else◌,
  Bool-cases, inl, inr, ==_iff,
}
use polka_storage.Btree.Set.{
  BtreeSet, contains-union, contains-difference, contains-intersection, contains-insert_all,
  contains-remove_all, contains-filter,
}
use polka_storage.Btree.Set
use polka_storage.Btree.Map.{BtreeMap}
use polka_storage.Btree.Bounded.{Bounded}
use polka_storage.StorageProvider.Outcome.{Outcome, ok, map_err}
use polka_storage.StorageProvider.Outcome.Inversion.{bind_inverts}
use polka_storage.StorageProvider.Sector.{SectorOnChainInfo, max_sectors}
use polka_storage.StorageProvider.ExpirationQueue.Reschedule.{reschedule_as_faults}
use polka_storage.StorageProvider.Partition.{
  Partition, add_faults, remove_recoveries, retracted_recoveries, new_faults, infos_in, numbers_in,
  record_faults,
}
use polka_storage.StorageProvider.Partition.Consistency.{IsConsistent, numbers}

-- The sector map has every sector under its own number.
abbrev pub IsKeyed : BtreeMap SectorOnChainInfo → Type 0
IsKeyed sectors = All (λ e. e.1.sector_number ≡ e.0) sectors

infos_in-contains :
    (chosen : BtreeSet) (sectors : BtreeMap SectorOnChainInfo) (x : ℕ)
    → IsKeyed sectors
    → Set.contains x (numbers (infos_in chosen sectors)) ≡ true
    → Set.contains x chosen ≡ true
unfolding infos_in Set.contains
infos_in-contains chosen [] x k h = absurd (cc)
infos_in-contains chosen ((n, s) ∷ sectors) x k h =
    let more = infos_in-contains chosen sectors x k.1 in
    elim (Bool-cases (Set.contains n chosen)) [
      | inl c ↦ elim (Bool-cases (x == s.sector_number)) [
        | inl e ↦ rw ((==_iff x s.sector_number).0 e, k.0) c
        | inr e ↦ ground (arith, more)
      ]
      | inr c ↦ ground (arith, more)
    ]

if_IsConsistent :
    (b : Bool) (p p' : Partition) (o : Outcome Partition)
    → (if b then ok p else o) ≡ ok p'
    → IsConsistent p
    → (o ≡ ok p' → IsConsistent p')
    → IsConsistent p'
if_IsConsistent true p p' o h k f = let same : p' ≡ p = cc in rw same k
if_IsConsistent false p p' o h k f = f h

last_IsConsistent :
    (s s' : BtreeSet) (p p' : Partition)
    → ◌≡◌ {A = Outcome (BtreeSet × Partition)} (ok (s, p)) (ok (s', p'))
    → IsConsistent p
    → IsConsistent p'
last_IsConsistent s s' p p' h k = let same : p' ≡ p = cc in rw same k

module _ (bounded : Bounded) where
  add_faults-IsConsistent :
      (sectors : List SectorOnChainInfo) (fault_expiration : ℕ) (p p' : Partition)
      → add_faults bounded sectors fault_expiration p ≡ ok p'
      → ((x : ℕ) → Set.contains x (numbers sectors) ≡ true → Set.contains x p.terminated ≡ false)
      → IsConsistent p
      → IsConsistent p'
  unfolding add_faults Set.contains
  add_faults-IsConsistent sectors fault_expiration p p' h live k x =
      let names = Set.insert_all (numbers sectors) [] in
      let (q, _, rest) =
        bind_inverts
          (map_err (reschedule_as_faults bounded fault_expiration sectors p.expirations) _) _ p'
          h in
      ground (
        arith,
        k x,
        live x,
        rest,
        bounded.set_try_from_law max_sectors (Set.union p.faults names),
        contains-union x p.faults names,
        contains-insert_all (numbers sectors) x [],
        contains-remove_all names x p.unproven,
      )

  remove_recoveries-IsConsistent :
      (gone : BtreeSet) (p p' : Partition)
      → remove_recoveries bounded gone p ≡ ok p'
      → IsConsistent p
      → IsConsistent p'
  unfolding remove_recoveries
  remove_recoveries-IsConsistent gone p p' h k x = ground (
    arith,
    k x,
    bounded.set_try_from_law max_sectors (Set.difference p.recoveries gone),
    contains-difference x p.recoveries gone,
  )

  new_faults-live :
      (chosen : BtreeSet) (p : Partition) (x : ℕ)
      → Set.contains x (new_faults chosen p) ≡ true
      → Set.contains x p.terminated ≡ false
  unfolding new_faults
  new_faults-live chosen p x h =
      let both =
        contains-filter
          (λ n.
            not (Set.contains n (retracted_recoveries chosen p))
            && not (Set.contains n p.terminated)
            && not (Set.contains n p.faults))
          x chosen in
      ground (arith, both)

  -- Recording faults keeps a partition consistent, if the sector map has each sector under its
  -- number.
  pub record_faults-IsConsistent :
      (sectors : BtreeMap SectorOnChainInfo) (chosen : BtreeSet) (fault_expiration : ℕ)
      (faulty : BtreeSet) (p p' : Partition)
      → record_faults bounded sectors chosen fault_expiration p ≡ ok (faulty, p')
      → IsKeyed sectors
      → IsConsistent p
      → IsConsistent p'
  unfolding record_faults
  record_faults-IsConsistent sectors chosen fault_expiration faulty p p' h keyed k =
      let out : BtreeSet × Partition = (faulty, p') in
      let infos = infos_in (new_faults chosen p) sectors in
      let retracted = numbers_in (retracted_recoveries chosen p) sectors in
      let (p1, e1, h1) =
        bind_inverts (if is_empty infos then ok p else add_faults bounded infos fault_expiration p)
          _ out h in
      let (p2, e2, h2) =
        bind_inverts (if is_empty retracted then ok p1 else remove_recoveries bounded retracted p1)
          _ out h1 in
      let one : IsConsistent p1 = if_IsConsistent (is_empty infos) p p1 _ e1 k (λ e.
        add_faults-IsConsistent infos fault_expiration p p1 e
          (λ x c.
            new_faults-live chosen p x (infos_in-contains (new_faults chosen p) sectors x keyed c))
          k) in
      let two : IsConsistent p2 =
        if_IsConsistent (is_empty retracted) p1 p2 _ e2 one
          (λ e. remove_recoveries-IsConsistent retracted p1 p2 e one) in
      last_IsConsistent (new_faults chosen p) faulty p2 p' h2 two
