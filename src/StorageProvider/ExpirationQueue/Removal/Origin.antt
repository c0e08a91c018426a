-- ===== src/StorageProvider/ExpirationQueue/Removal/Origin.antt =====
-- The sectors that the queue finds or removes are among those that were asked for.
use polka_storage.Base.{
  ℕ, ◌≡◌, Bool, true, false, ◌||◌, not, List, [], ◌∷◌, map, filter, is_empty, arith, Bool-cases,
  inl, inr, ==_iff, ◌==◌,
}
use polka_storage.Btree.Set.{
  BtreeSet, contains-insert, contains-remove, contains-insert_all, contains-remove_all,
}
use polka_storage.Btree.Set
use polka_storage.Btree.Map.{BtreeMap}
use polka_storage.Btree.Map
use polka_storage.Btree.Bounded.{Bounded}
use polka_storage.StorageProvider.Outcome.{ok, ensure, ok_or, expect}
use polka_storage.StorageProvider.Outcome.Inversion.{bind_inverts}
use polka_storage.StorageProvider.Sector.{SectorOnChainInfo, max_sectors}
use polka_storage.StorageProvider.ExpirationSet.{ExpirationSet}
use polka_storage.StorageProvider.ExpirationSet
use polka_storage.StorageProvider.ExpirationQueue.{ExpirationQueue, must_update_or_delete}
use polka_storage.StorageProvider.ExpirationQueue.Find.{
  SectorExpirationSet, take_included, Search, group_expiration_set, find_declared, find_rescheduled,
  find_sectors_by_expiration,
}
use polka_storage.StorageProvider.ExpirationQueue.Removal.{
  remove_groups, remove_active_sectors, remove_faulty_sector, remove_faulty_sectors,
  remove_faulty_loop, remove_sectors,
}

-- Some group has the sector.
abbrev pub grouped : ℕ → List (ℕ × SectorExpirationSet) → Bool
grouped x [] = false
grouped x ((_, g) ∷ groups) = Set.contains x g.sectors || grouped x groups

grouped-insert :
    (x block : ℕ) (g : SectorExpirationSet) (groups : BtreeMap SectorExpirationSet)
    → grouped x (Map.insert block g groups) ≡ true
    → (Set.contains x g.sectors || grouped x groups) ≡ true
unfolding Map.insert
grouped-insert x block g [] h = h
grouped-insert x block g ((b, g') ∷ groups) h = ground (arith, grouped-insert x block g groups)

take_included-within :
    (x : ℕ) (us include : List ℕ)
    → ((Set.contains x (take_included us include).0 || Set.contains x (take_included us include).1)
        ≡ true)
    → Set.contains x include ≡ true
unfolding take_included Set.contains
take_included-within x [] include h = ground arith
take_included-within x (u ∷ us) include h =
    let more = take_included-within x us (Set.remove u include) in
    elim (Bool-cases (x == u)) [
      | inl e ↦ let same = (==_iff x u).0 e in ground (arith, more, contains-remove u x include)
      | inr e ↦ ground (arith, more, contains-remove u x include)
    ]

-- What is left to find or was found is in a set.
abbrev pub IsWithin : BtreeSet → ℕ → Search → Type 0
IsWithin all_sectors x (remaining, groups) =
    (Set.contains x remaining || grouped x groups) ≡ true → Set.contains x all_sectors ≡ true

module _ (all_sectors : BtreeSet) (x : ℕ) where
  group_expiration_set-IsWithin :
      (block : ℕ) (s : ExpirationSet) (found : Search)
      → IsWithin all_sectors x found
      → IsWithin all_sectors x (group_expiration_set block s found)
  unfolding group_expiration_set
  group_expiration_set-IsWithin block s (remaining, groups) k h =
      let (sectors, left) = take_included s.on_time_sectors remaining in
      ground (
        arith,
        take_included-within x s.on_time_sectors remaining,
        grouped-insert x block (record { sectors = sectors; expiration_set = s }) groups,
      )

  find_declared-IsWithin :
      (expirations : List ℕ) (q : BtreeMap ExpirationSet) (found found' : Search)
      → find_declared expirations q found ≡ ok found'
      → IsWithin all_sectors x found
      → IsWithin all_sectors x found'
  unfolding find_declared
  find_declared-IsWithin [] q found found' h k = let same : found' ≡ found = cc in rw same k
  find_declared-IsWithin (e ∷ expirations) q found found' h k =
      let (s, _, rest) = bind_inverts (ok_or (Map.get e q) _) _ found' h in
      find_declared-IsWithin expirations q (group_expiration_set e s found) found' rest
        (group_expiration_set-IsWithin e s found k)

  find_rescheduled-IsWithin :
      (declared : BtreeSet) (q : List (ℕ × ExpirationSet)) (found : Search)
      → IsWithin all_sectors x found
      → IsWithin all_sectors x (find_rescheduled declared q found)
  unfolding find_rescheduled
  find_rescheduled-IsWithin declared [] found k = k
  find_rescheduled-IsWithin declared ((e, s) ∷ q) found k =
      let next = group_expiration_set e s found in
      let at_next = group_expiration_set-IsWithin e s found k in
      elim (Bool-cases (Set.contains e declared)) [
        | inl c ↦ rw c (find_rescheduled-IsWithin declared q found k)
        | inr c ↦ elim (Bool-cases (is_empty next.0)) [
          | inl d ↦ rw (c, d) at_next
          | inr d ↦ rw (c, d) (find_rescheduled-IsWithin declared q next at_next)
        ]
      ]

pub find_sectors_by_expiration-within :
    (sectors : List SectorOnChainInfo) (q : BtreeMap ExpirationSet)
    (groups : BtreeMap SectorExpirationSet) (x : ℕ)
    → find_sectors_by_expiration sectors q ≡ ok groups
    → grouped x groups ≡ true
    → Set.contains x (map (λ s. s.sector_number) sectors) ≡ true
unfolding find_sectors_by_expiration Set.contains
find_sectors_by_expiration-within sectors q groups x h g =
    let numbers = map (λ s. s.sector_number) sectors in
    let declared = Set.insert_all (map (λ s. s.expiration) sectors) [] in
    let all_remaining = Set.insert_all numbers [] in
    let (found, e, rest) = bind_inverts (find_declared declared q (all_remaining, [])) _ groups h in
    let (_, _, last) =
      bind_inverts (ensure (is_empty (find_rescheduled declared q found).0) _) _ groups rest in
    let within = find_rescheduled-IsWithin all_remaining x declared q found (
      find_declared-IsWithin all_remaining x declared q (all_remaining, []) found e
        (λ g. ground (arith, g))) in
    ground (arith, within, last, contains-insert_all numbers x [])

contains-map-filter :
    (p : SectorOnChainInfo → Bool) (x : ℕ) (sectors : List SectorOnChainInfo)
    → Set.contains x (map (λ s. s.sector_number) (filter p sectors)) ≡ true
    → Set.contains x (map (λ s. s.sector_number) sectors) ≡ true
unfolding Set.contains
contains-map-filter p x [] h = h
contains-map-filter p x (s ∷ sectors) h = ground (arith, contains-map-filter p x sectors)

-- A sector of an expiration set, on time or early.
abbrev pub in_set : ℕ → ExpirationSet → Bool
in_set x s = Set.contains x s.on_time_sectors || Set.contains x s.early_sectors

module _ (bounded : Bounded) (x : ℕ) where
  remove_groups-within :
      (groups : List (ℕ × SectorExpirationSet)) (removed removed' : BtreeSet)
      (q q' : ExpirationQueue)
      → remove_groups bounded groups removed q ≡ ok (removed', q')
      → Set.contains x removed' ≡ true
      → (grouped x groups || Set.contains x removed) ≡ true
  unfolding remove_groups
  remove_groups-within [] removed removed' q q' h k = ground arith
  remove_groups-within ((height, g) ∷ groups) removed removed' q q' h k =
      let (s, _, rest) = bind_inverts (ok_or (Map.get height q) _) _ (removed', q') h in
      let (q1, _, last) =
        bind_inverts (must_update_or_delete bounded height (ExpirationSet.remove g.sectors [] s) q)
          _ (removed', q') rest in
      let more =
        remove_groups-within groups (Set.insert_all g.sectors removed) removed' q1 q' last k in
      ground (arith, more, contains-insert_all g.sectors x removed)

  remove_faulty_sector-within :
      (n : ℕ) (s s' : ExpirationSet) (removed removed' : ExpirationSet) (left left' : BtreeSet)
      → remove_faulty_sector bounded n s (removed, left) ≡ ok (s', (removed', left'))
      → in_set x removed' ≡ true
      → (x == n || in_set x removed) ≡ true
  unfolding remove_faulty_sector
  remove_faulty_sector-within n s s' removed removed' left left' h k = ground (
    arith,
    bounded.set_try_insert_law max_sectors n removed.on_time_sectors,
    bounded.set_try_insert_law max_sectors n removed.early_sectors,
    contains-insert n x removed.on_time_sectors,
    contains-insert n x removed.early_sectors,
  )

  remove_faulty_sectors-within :
      (faulty : List SectorOnChainInfo) (s s' : ExpirationSet) (removed removed' : ExpirationSet)
      (left left' : BtreeSet)
      → remove_faulty_sectors bounded faulty s (removed, left) ≡ ok (s', (removed', left'))
      → in_set x removed' ≡ true
      → (Set.contains x (map (λ f. f.sector_number) faulty) || in_set x removed) ≡ true
  unfolding remove_faulty_sectors Set.contains
  remove_faulty_sectors-within [] s s' removed removed' left left' h k = ground arith
  remove_faulty_sectors-within (f ∷ faulty) s s' removed removed' left left' h k =
      let ((s1, (removed1, left1)), e, rest) =
        bind_inverts (remove_faulty_sector bounded f.sector_number s (removed, left)) _
          (s', (removed', left')) h in
      let more = remove_faulty_sectors-within faulty s1 s' removed1 removed' left1 left' rest k in
      ground (
        arith,
        more,
        remove_faulty_sector-within f.sector_number s s1 removed removed1 left left1 e,
      )

  remove_faulty_loop-within :
      (faulty : List SectorOnChainInfo) (q q' : List (ℕ × ExpirationSet))
      (removed removed' : ExpirationSet) (left left' : BtreeSet)
      → remove_faulty_loop bounded faulty q (removed, left) ≡ ok (q', (removed', left'))
      → in_set x removed' ≡ true
      → (Set.contains x (map (λ f. f.sector_number) faulty) || in_set x removed) ≡ true
  unfolding remove_faulty_loop
  remove_faulty_loop-within faulty [] q' removed removed' left left' h k = ground arith
  remove_faulty_loop-within faulty ((block, s) ∷ q) q' removed removed' left left' h k =
      let ((s1, (removed1, left1)), e, rest) =
        bind_inverts (remove_faulty_sectors bounded faulty s (removed, left)) _
          (q', (removed', left')) h in
      let ((q2, (removed2, left2)), f, last) =
        bind_inverts (remove_faulty_loop bounded faulty q (removed1, left1)) _
          (q', (removed', left')) rest in
      let same : removed2 ≡ removed' = cc in
      let more =
        remove_faulty_loop-within faulty q q2 removed1 removed2 left1 left2 f (rw same k) in
      ground (arith, more, remove_faulty_sectors-within faulty s s1 removed removed1 left left1 e)

  -- Where it succeeds, `remove_sectors` returns, on time or early, only sectors that it was
  -- given.
  pub remove_sectors-within :
      (sectors : List SectorOnChainInfo) (faults : BtreeSet) (q q' : ExpirationQueue)
      (removed : ExpirationSet)
      → remove_sectors bounded sectors faults q ≡ ok (removed, q')
      → in_set x removed ≡ true
      → Set.contains x (map (λ s. s.sector_number) sectors) ≡ true
  unfolding remove_sectors remove_active_sectors Set.contains
  remove_sectors-within sectors faults q q' removed h k =
      let faulty = filter (λ s. Set.contains s.sector_number faults) sectors in
      let active = filter (λ s. not (Set.contains s.sector_number faults)) sectors in
      let ((taken, q1), e, rest) =
        bind_inverts (remove_active_sectors bounded active q) _ (removed, q') h in
      let (groups, found, loop) =
        bind_inverts (find_sectors_by_expiration active q) _ (taken, q1) e in
      let (on_time, f, rest2) =
        bind_inverts (expect (bounded.set_try_from max_sectors taken)) _ (removed, q') rest in
      let ((q2, (removed2, left2)), g, rest3) =
        bind_inverts (remove_faulty_loop bounded faulty q1 _) _ (removed, q') rest2 in
      let (_, _, last) = bind_inverts (ensure (is_empty left2) _) _ (removed, q') rest3 in
      let same : removed2 ≡ removed = cc in
      let law = bounded.set_try_from_law max_sectors taken in
      let all_taken : on_time ≡ taken = ground arith in
      let faulty_or = remove_faulty_loop-within faulty q1 q2 _ removed2 _ left2 g (rw same k) in
      ground (
        arith,
        faulty_or,
        remove_groups-within groups [] taken q q1 loop,
        find_sectors_by_expiration-within active q groups x found,
        contains-map-filter (λ s. Set.contains s.sector_number faults) x sectors,
        contains-map-filter (λ s. not (Set.contains s.sector_number faults)) x sectors,
      )
