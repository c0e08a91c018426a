-- ===== src/StorageProvider/SectorMap/Declared.antt =====
-- What a sector map holds after an insertion.
use polka_storage.Base.{
  ℕ, ◌≡◌, ap, sym, refl, true, ◌&&◌, ◌||◌, none, some, List, [], ◌∷◌, ◌==◌, if◌then◌else◌, arith,
  Bool-cases, Option-cases, inl, inr, ==_iff,
}
use polka_storage.Btree.Set.{BtreeSet, contains-insert}
use polka_storage.Btree.Set
use polka_storage.Btree.Map.{BtreeMap, get-insert}
use polka_storage.Btree.Map
use polka_storage.Btree.Bounded.{Bounded, set_try_insert_inverts, map_try_insert_inverts}
use polka_storage.StorageProvider.Outcome.{
  GeneralPalletError, ok, ok_or, sector_map_failed_to_insert_sector,
}
use polka_storage.StorageProvider.Outcome.Inversion.{
  bind_inverts, ok_inverts, ok_or_inverts, map_err_inverts,
}
use polka_storage.StorageProvider.Sector.{max_sectors}
use polka_storage.StorageProvider.ExpirationSet.{try_insert_each}
use polka_storage.StorageProvider.Deadline.{PartitionMap}
use polka_storage.StorageProvider.SectorMap.{
  DeadlineSectorMap, max_terminations_per_call, insert_sectors_into_new_partition,
  try_insert_sectors, try_insert,
}

-- The sectors of a partition, and of a partition of a deadline: none where there is no entry.
unfoldable pub sectors_in : ℕ → PartitionMap → BtreeSet
sectors_in partition m = elim (Map.get partition m) [ some s ↦ s | none ↦ [] ]

unfoldable pub partitions_of : ℕ → DeadlineSectorMap → PartitionMap
partitions_of deadline m = elim (Map.get deadline m) [ some p ↦ p | none ↦ [] ]

unfoldable pub sectors_at : ℕ → ℕ → DeadlineSectorMap → BtreeSet
sectors_at deadline partition m = sectors_in partition (partitions_of deadline m)

sectors_in-insert :
    (n n' : ℕ) (s : BtreeSet) (m : PartitionMap)
    → sectors_in n' (Map.insert n s m) ≡ (if n' == n then s else sectors_in n' m)
unfolding sectors_in
sectors_in-insert n n' s m =
    rw (get-insert n n' s m, sectors_in)
      (elim (Bool-cases (n' == n)) [ inl e ↦ rw e refl | inr e ↦ rw e refl ])

partitions_of-insert :
    (d d' : ℕ) (p : PartitionMap) (m : DeadlineSectorMap)
    → partitions_of d' (Map.insert d p m) ≡ (if d' == d then p else partitions_of d' m)
unfolding partitions_of
partitions_of-insert d d' p m =
    rw (get-insert d d' p m, partitions_of)
      (elim (Bool-cases (d' == d)) [ inl e ↦ rw e refl | inr e ↦ rw e refl ])

-- A set that replaces another, at one number of all.
contains-replaced :
    (n n' x : ℕ) (ss s s' old : BtreeSet)
    → ((n' == n) ≡ true → old ≡ s)
    → Set.contains x s' ≡ (Set.contains x ss || Set.contains x s)
    → Set.contains x (if n' == n then s' else old)
      ≡ (n' == n && Set.contains x ss || Set.contains x old)
contains-replaced n n' x ss s s' old same new = elim (Bool-cases (n' == n)) [
  | inl e ↦ rw (e, same e) new
  | inr e ↦ rw e refl
]

sectors_in-some :
    (n n' : ℕ) (m : PartitionMap) (s : BtreeSet)
    → Map.get n m ≡ some s
    → (n' == n) ≡ true
    → sectors_in n' m ≡ s
unfolding sectors_in
sectors_in-some n n' m s h e = rw ((==_iff n' n).0 e, h, sectors_in) refl

sectors_in-none :
    (n n' : ℕ) (m : PartitionMap) → Map.get n m ≡ none → (n' == n) ≡ true → sectors_in n' m ≡ []
unfolding sectors_in
sectors_in-none n n' m h e = rw ((==_iff n' n).0 e, h, sectors_in) refl

partitions_of-some :
    (n n' : ℕ) (m : DeadlineSectorMap) (s : PartitionMap)
    → Map.get n m ≡ some s
    → (n' == n) ≡ true
    → partitions_of n' m ≡ s
unfolding partitions_of
partitions_of-some n n' m s h e = rw ((==_iff n' n).0 e, h, partitions_of) refl

partitions_of-none :
    (n n' : ℕ) (m : DeadlineSectorMap)
    → Map.get n m ≡ none
    → (n' == n) ≡ true
    → partitions_of n' m ≡ []
unfolding partitions_of
partitions_of-none n n' m h e = rw ((==_iff n' n).0 e, h, partitions_of) refl

module _ (bounded : Bounded) where
  contains-try_insert_each :
      (e : GeneralPalletError) (xs : List ℕ) (s s' : BtreeSet) (y : ℕ)
      → try_insert_each bounded e xs s ≡ ok s'
      → Set.contains y s' ≡ (Set.contains y xs || Set.contains y s)
  unfolding try_insert_each Set.contains
  contains-try_insert_each e [] s s' y h = ap (λ t. Set.contains y t) (sym (ok_inverts s s' h))
  contains-try_insert_each e (x ∷ xs) s s' y h =
      let (t, h1, h2) = bind_inverts (ok_or (bounded.set_try_insert max_sectors x s) e) _ s' h in
      let got = ok_or_inverts (bounded.set_try_insert max_sectors x s) e t h1 in
      let same = set_try_insert_inverts bounded max_sectors x s t got in
      let rest = contains-try_insert_each e xs t s' y h2 in
      rw (rest, same, contains-insert x y s) (ground arith)

  try_insert_sectors-contains :
      (n : ℕ) (ss : BtreeSet) (m m' : PartitionMap) (n' x : ℕ)
      → try_insert_sectors bounded n ss m ≡ ok m'
      → Set.contains x (sectors_in n' m')
        ≡ (n' == n && Set.contains x ss || Set.contains x (sectors_in n' m))
  unfolding try_insert_sectors insert_sectors_into_new_partition
  try_insert_sectors-contains n ss m m' n' x h = elim (Option-cases (Map.get n m)) [
    | inr (s, e) ↦
        let (s', h1, h2) =
          bind_inverts (try_insert_each bounded sector_map_failed_to_insert_sector ss s) _ m'
            (rw (e, try_insert_sectors) at h) in
        let new = contains-try_insert_each sector_map_failed_to_insert_sector ss s s' x h1 in
        rw (← ok_inverts _ m' h2, sectors_in-insert n n' s' m)
          (contains-replaced n n' x ss s s' (sectors_in n' m) (sectors_in-some n n' m s e) new)
    | inl e ↦
        let h0 = map_err_inverts _ _ m' (rw (e, try_insert_sectors) at h) in
        let (s', h1, h2) =
          bind_inverts (try_insert_each bounded sector_map_failed_to_insert_sector ss []) _ m' h0 in
        let new = contains-try_insert_each sector_map_failed_to_insert_sector ss [] s' x h1 in
        let same =
          map_try_insert_inverts bounded max_terminations_per_call n s' m m'
            (ok_or_inverts _ _ m' h2) in
        rw (same, sectors_in-insert n n' s' m)
          (contains-replaced n n' x ss [] s' (sectors_in n' m) (sectors_in-none n n' m e) new)
  ]

  -- Partitions that replace others, at one deadline of all.
  contains-replaced_partitions :
      (d d' n n' x : ℕ) (ss : BtreeSet) (p p' old : PartitionMap)
      → ((d' == d) ≡ true → old ≡ p)
      → Set.contains x (sectors_in n' p')
        ≡ (n' == n && Set.contains x ss || Set.contains x (sectors_in n' p))
      → Set.contains x (sectors_in n' (if d' == d then p' else old))
        ≡ (d' == d && (n' == n && Set.contains x ss) || Set.contains x (sectors_in n' old))
  contains-replaced_partitions d d' n n' x ss p p' old same new = elim (Bool-cases (d' == d)) [
    | inl e ↦ rw (e, same e) new
    | inr e ↦ rw e refl
  ]

  -- A successful insertion adds its sectors to its partition of its deadline, and nothing else.
  pub try_insert-contains :
      (d n : ℕ) (ss : BtreeSet) (m m' : DeadlineSectorMap) (d' n' x : ℕ)
      → try_insert bounded d n ss m ≡ ok m'
      → Set.contains x (sectors_at d' n' m')
        ≡ (d' == d && (n' == n && Set.contains x ss) || Set.contains x (sectors_at d' n' m))
  unfolding try_insert sectors_at
  try_insert-contains d n ss m m' d' n' x h = elim (Option-cases (Map.get d m)) [
    | inr (p, e) ↦
        let (p', h1, h2) =
          bind_inverts (try_insert_sectors bounded n ss p) _ m' (rw (e, try_insert) at h) in
        rw (← ok_inverts _ m' h2, partitions_of-insert d d' p' m)
          (contains-replaced_partitions d d' n n' x ss p p' (partitions_of d' m)
            (partitions_of-some d d' m p e) (try_insert_sectors-contains n ss p p' n' x h1))
    | inl e ↦
        let (p', h1, h2) =
          bind_inverts (try_insert_sectors bounded n ss []) _ m' (rw (e, try_insert) at h) in
        let same =
          map_try_insert_inverts bounded max_terminations_per_call d p' m m'
            (ok_or_inverts _ _ m' h2) in
        rw (same, partitions_of-insert d d' p' m)
          (contains-replaced_partitions d d' n n' x ss [] p' (partitions_of d' m)
            (partitions_of-none d d' m e) (try_insert_sectors-contains n ss [] p' n' x h1))
  ]
