-- ===== src/StorageProvider/ExpirationQueue/Removal/Kept.antt =====
-- What `remove_sectors` leaves in the queue (pallets/storage-provider/src/expiration_queue.rs).
use polka_storage.Base.{
  ℕ, ◌≡◌, refl, Bool, true, false, ◌||◌, not, List, [], ◌∷◌, Option, none, some, map, filter,
  is_empty, arith, Bool-cases, inl, inr, ==_iff, ◌==◌, if◌then◌else◌,
}
use polka_storage.Btree.Set.{
  BtreeSet, contains-insert, contains-remove, contains-insert_all, contains-remove_all,
}
use polka_storage.Btree.Set
use polka_storage.Btree.Map.{BtreeMap, get-insert, get-remove}
use polka_storage.Btree.Map
use polka_storage.Btree.Bounded.{Bounded}
use polka_storage.StorageProvider.Outcome.{ok, ensure, ok_or, expect}
use polka_storage.StorageProvider.Outcome.Inversion.{bind_inverts}
use polka_storage.StorageProvider.Sector.{SectorOnChainInfo, max_sectors}
use polka_storage.StorageProvider.ExpirationSet.{ExpirationSet, is_empty_set}
use polka_storage.StorageProvider.ExpirationSet
use polka_storage.StorageProvider.ExpirationQueue.{ExpirationQueue, must_update_or_delete, put}
use polka_storage.StorageProvider.ExpirationQueue.Find.{
  SectorExpirationSet, find_sectors_by_expiration,
}
use polka_storage.StorageProvider.ExpirationQueue.Removal.{
  remove_groups, remove_active_sectors, remove_faulty_sector, remove_faulty_sectors,
  remove_faulty_loop, remove_sectors,
}
use polka_storage.StorageProvider.ExpirationQueue.Removal.Origin.{in_set, remove_sectors-within}

-- The expiration set that a block has, if any, has the sector.
abbrev found_in : ℕ → Option ExpirationSet → Bool
found_in x none = false
found_in x (some s) = in_set x s

abbrev pub queued_at : ℕ → ℕ → ExpirationQueue → Bool
queued_at x block q = found_in x (Map.get block q)

module _ (bounded : Bounded) (x : ℕ) where
  remove-in_set :
      (gone : BtreeSet) (s : ExpirationSet)
      → in_set x s ≡ true
      → (in_set x (ExpirationSet.remove gone [] s) || Set.contains x gone) ≡ true
  unfolding ExpirationSet.remove Set.contains Set.remove_all
  remove-in_set gone s h = ground (arith, contains-remove_all gone x s.on_time_sectors)

  nothing_in : (s : BtreeSet) → is_empty s ≡ true → Set.contains x s ≡ false
  unfolding Set.contains
  nothing_in [] h = refl
  nothing_in (y ∷ s) h = cc

  is_empty_set-in_set : (s : ExpirationSet) → is_empty_set s ≡ true → in_set x s ≡ false
  unfolding is_empty_set Set.contains
  is_empty_set-in_set s h = ground (arith, nothing_in s.on_time_sectors, nothing_in s.early_sectors)

  -- The set of one block is replaced, or removed if it is empty.
  must_update_or_delete-queued_at :
      (block height : ℕ) (s : ExpirationSet) (q q' : ExpirationQueue)
      → must_update_or_delete bounded height s q ≡ ok q'
      → queued_at x block q' ≡ (if block == height then in_set x s else queued_at x block q)
  unfolding must_update_or_delete put
  must_update_or_delete-queued_at block height s q q' h = ground (
    arith,
    bounded.map_try_insert_law ExpirationSet max_sectors height s q,
    get-insert height block s q,
    get-remove height block q,
    is_empty_set-in_set s,
  )

  remove_groups-keeps :
      (block : ℕ) (groups : List (ℕ × SectorExpirationSet)) (removed removed' : BtreeSet)
      (q q' : ExpirationQueue)
      → remove_groups bounded groups removed q ≡ ok (removed', q')
      → (queued_at x block q || Set.contains x removed) ≡ true
      → (queued_at x block q' || Set.contains x removed') ≡ true
  unfolding remove_groups
  remove_groups-keeps block [] removed removed' q q' h k = ground arith
  remove_groups-keeps block ((height, g) ∷ groups) removed removed' q q' h k =
      let (s, e, rest) = bind_inverts (ok_or (Map.get height q) _) _ (removed', q') h in
      let (q1, f, last) =
        bind_inverts (must_update_or_delete bounded height (ExpirationSet.remove g.sectors [] s) q)
          _ (removed', q') rest in
      let more =
        remove_groups-keeps block groups (Set.insert_all g.sectors removed) removed' q1 q' last in
      let at_height =
        must_update_or_delete-queued_at block height (ExpirationSet.remove g.sectors [] s) q q1 f in
      let held : Map.get height q ≡ some s = ground arith in
      let same : (block == height) ≡ true → Map.get block q ≡ some s =
        λ c. let b : block ≡ height = (==_iff block height).0 c in rw b held in
      ground (
        arith,
        more,
        at_height,
        same,
        remove-in_set g.sectors s,
        contains-insert_all g.sectors x removed,
      )

  remove_faulty_sector-keeps :
      (n : ℕ) (s s' : ExpirationSet) (removed removed' : ExpirationSet) (left left' : BtreeSet)
      → remove_faulty_sector bounded n s (removed, left) ≡ ok (s', (removed', left'))
      → (in_set x s || in_set x removed) ≡ true
      → (in_set x s' || in_set x removed') ≡ true
  unfolding remove_faulty_sector
  remove_faulty_sector-keeps n s s' removed removed' left left' h k = ground (
    arith,
    bounded.set_try_insert_law max_sectors n removed.on_time_sectors,
    bounded.set_try_insert_law max_sectors n removed.early_sectors,
    contains-insert n x removed.on_time_sectors,
    contains-insert n x removed.early_sectors,
    contains-remove n x s.on_time_sectors,
    contains-remove n x s.early_sectors,
  )

  remove_faulty_sectors-keeps :
      (faulty : List SectorOnChainInfo) (s s' : ExpirationSet) (removed removed' : ExpirationSet)
      (left left' : BtreeSet)
      → remove_faulty_sectors bounded faulty s (removed, left) ≡ ok (s', (removed', left'))
      → (in_set x s || in_set x removed) ≡ true
      → (in_set x s' || in_set x removed') ≡ true
  unfolding remove_faulty_sectors
  remove_faulty_sectors-keeps [] s s' removed removed' left left' h k = ground arith
  remove_faulty_sectors-keeps (f ∷ faulty) s s' removed removed' left left' h k =
      let ((s1, (removed1, left1)), e, rest) =
        bind_inverts (remove_faulty_sector bounded f.sector_number s (removed, left)) _
          (s', (removed', left')) h in
      remove_faulty_sectors-keeps faulty s1 s' removed1 removed' left1 left' rest
        (remove_faulty_sector-keeps f.sector_number s s1 removed removed1 left left1 e k)

  remove_faulty_sector-grows :
      (n : ℕ) (s s' : ExpirationSet) (removed removed' : ExpirationSet) (left left' : BtreeSet)
      → remove_faulty_sector bounded n s (removed, left) ≡ ok (s', (removed', left'))
      → in_set x removed ≡ true
      → in_set x removed' ≡ true
  unfolding remove_faulty_sector
  remove_faulty_sector-grows n s s' removed removed' left left' h k = ground (
    arith,
    bounded.set_try_insert_law max_sectors n removed.on_time_sectors,
    bounded.set_try_insert_law max_sectors n removed.early_sectors,
    contains-insert n x removed.on_time_sectors,
    contains-insert n x removed.early_sectors,
  )

  remove_faulty_sectors-grows :
      (faulty : List SectorOnChainInfo) (s s' : ExpirationSet) (removed removed' : ExpirationSet)
      (left left' : BtreeSet)
      → remove_faulty_sectors bounded faulty s (removed, left) ≡ ok (s', (removed', left'))
      → in_set x removed ≡ true
      → in_set x removed' ≡ true
  unfolding remove_faulty_sectors
  remove_faulty_sectors-grows [] s s' removed removed' left left' h k = ground arith
  remove_faulty_sectors-grows (f ∷ faulty) s s' removed removed' left left' h k =
      let ((s1, (removed1, left1)), e, rest) =
        bind_inverts (remove_faulty_sector bounded f.sector_number s (removed, left)) _
          (s', (removed', left')) h in
      remove_faulty_sectors-grows faulty s1 s' removed1 removed' left1 left' rest
        (remove_faulty_sector-grows f.sector_number s s1 removed removed1 left left1 e k)

  -- What the loop over the queue keeps: the removed sectors, and each sector at its block.
  remove_faulty_loop-keeps :
      (block : ℕ) (faulty : List SectorOnChainInfo) (q q' : List (ℕ × ExpirationSet))
      (removed removed' : ExpirationSet) (left left' : BtreeSet)
      → remove_faulty_loop bounded faulty q (removed, left) ≡ ok (q', (removed', left'))
      → (in_set x removed ≡ true → in_set x removed' ≡ true)
        × (queued_at x block q ≡ true → (queued_at x block q' || in_set x removed') ≡ true)
  unfolding remove_faulty_loop Map.get
  remove_faulty_loop-keeps block faulty [] q' removed removed' left left' h =
      (λ k. ground arith, λ k. ground arith)
  remove_faulty_loop-keeps block faulty ((b, s) ∷ q) q' removed removed' left left' h =
      let ((s1, (removed1, left1)), e, rest) =
        bind_inverts (remove_faulty_sectors bounded faulty s (removed, left)) _
          (q', (removed', left')) h in
      let ((q2, (removed2, left2)), f, last) =
        bind_inverts (remove_faulty_loop bounded faulty q (removed1, left1)) _
          (q', (removed', left')) rest in
      let same : removed2 ≡ removed' = cc in
      let same_q : (b, s1) ∷ q2 ≡ q' = cc in
      let (grows, more) =
        remove_faulty_loop-keeps block faulty q q2 removed1 removed2 left1 left2 f in
      let head = remove_faulty_sectors-keeps faulty s s1 removed removed1 left left1 e in
      let first = remove_faulty_sectors-grows faulty s s1 removed removed1 left left1 e in
      (
        λ k. rw (← same) (grows (first k)),
        λ k.
            rw (← same, ← same_q)
              (elim (Bool-cases (block == b)) [
                | inl c ↦ ground (arith, head, grows)
                | inr c ↦ ground (arith, more)
              ]),
      )

  -- Where it succeeds, `remove_sectors` returns, on time or early, only sectors that it was given,
  -- and a sector that the queue had at a block is still there at that block or is returned.
  pub remove_sectors-keeps :
      (sectors : List SectorOnChainInfo) (faults : BtreeSet) (q q' : ExpirationQueue)
      (removed : ExpirationSet)
      → remove_sectors bounded sectors faults q ≡ ok (removed, q')
      → (in_set x removed ≡ true → Set.contains x (map (λ s. s.sector_number) sectors) ≡ true)
        × ((block : ℕ)
            → queued_at x block q ≡ true
            → (queued_at x block q' || in_set x removed) ≡ true)
  unfolding remove_sectors remove_active_sectors
  remove_sectors-keeps sectors faults q q' removed h =
      let active = filter (λ s. not (Set.contains s.sector_number faults)) sectors in
      let faulty = filter (λ s. Set.contains s.sector_number faults) sectors in
      let ((taken, q1), e, rest) =
        bind_inverts (remove_active_sectors bounded active q) _ (removed, q') h in
      let (groups, found, loop) =
        bind_inverts (find_sectors_by_expiration active q) _ (taken, q1) e in
      let (on_time, f, rest2) =
        bind_inverts (expect (bounded.set_try_from max_sectors taken)) _ (removed, q') rest in
      let ((q2, (removed2, left2)), g, rest3) =
        bind_inverts (remove_faulty_loop bounded faulty q1 _) _ (removed, q') rest2 in
      let (_, _, last) = bind_inverts (ensure (is_empty left2) _) _ (removed, q') rest3 in
      let same : removed2 ≡ removed = cc in
      let same_q : q2 ≡ q' = cc in
      let all_taken : on_time ≡ taken =
        ground (arith, bounded.set_try_from_law max_sectors taken) in
      (
        remove_sectors-within bounded x sectors faults q q' removed h,
        λ block k.
            let (grows, more) = remove_faulty_loop-keeps block faulty q1 q2 _ removed2 _ left2 g in
            let groups_keep = remove_groups-keeps block groups [] taken q q1 loop in
            rw (← same, ← same_q) (ground (arith, grows, more, groups_keep, all_taken)),
      )
