-- ===== src/StorageProvider/ExpirationQueue/Removal.antt =====
-- `remove_active_sectors` and `remove_sectors`.
pub mod Origin
pub mod Kept
use polka_storage.Base.{
  ℕ, Bool, not, Option, none, some, List, [], ◌∷◌, ◌++◌, is_empty, if◌then◌else◌, map, filter,
}
use polka_storage.Btree.Set.{BtreeSet}
use polka_storage.Btree.Set
use polka_storage.Btree.Map.{BtreeMap}
use polka_storage.Btree.Map
use polka_storage.Btree.Bounded.{Bounded}
use polka_storage.StorageProvider.Outcome.{
  Outcome, ok, err, ◌>>=◌, ◌>>◌, expect, ensure, ok_or, expiration_queue_sector_not_found,
  expiration_queue_expiration_set_not_found,
}
use polka_storage.StorageProvider.Sector.{SectorOnChainInfo, max_sectors}
use polka_storage.StorageProvider.ExpirationSet.{ExpirationSet, empty_set}
use polka_storage.StorageProvider.ExpirationSet
use polka_storage.StorageProvider.ExpirationQueue.Find.{
  SectorExpirationSet, find_sectors_by_expiration,
}
use polka_storage.StorageProvider.ExpirationQueue.{ExpirationQueue, must_update_or_delete}

module _ (bounded : Bounded) where
  -- The loop of `remove_active_sectors`, with the sectors removed so far.
  unfoldable pub remove_groups :
      List (ℕ × SectorExpirationSet)
      → BtreeSet
      → ExpirationQueue
      → Outcome (BtreeSet × ExpirationQueue)
  remove_groups [] removed q = ok (removed, q)
  remove_groups ((height, group) ∷ groups) removed q = do
    s ← ok_or (Map.get height q) expiration_queue_expiration_set_not_found
    q' ← must_update_or_delete bounded height (ExpirationSet.remove group.sectors [] s) q
    remove_groups groups (Set.insert_all group.sectors removed) q'

  unfoldable pub remove_active_sectors :
      List SectorOnChainInfo → ExpirationQueue → Outcome (BtreeSet × ExpirationQueue)
  remove_active_sectors sectors q = do
    groups ← find_sectors_by_expiration sectors q
    remove_groups groups [] q

  -- What the last loop of `remove_sectors` carries: the sectors removed, and those not found yet.
  abbrev pub Removed : Type 0
  Removed = ExpirationSet × BtreeSet

  -- One faulty sector in one expiration set, on time or else early.
  unfoldable pub remove_faulty_sector :
      ℕ → ExpirationSet → Removed → Outcome (ExpirationSet × Removed)
  remove_faulty_sector n s (removed, remaining) =
      if Set.contains n s.on_time_sectors
      then (do
        on_time ← expect (bounded.set_try_insert max_sectors n removed.on_time_sectors)
        ok (
          record s { on_time_sectors = Set.remove n s.on_time_sectors },
          (record removed { on_time_sectors = on_time }, Set.remove n remaining),
        ))
      else (if Set.contains n s.early_sectors
          then (do
            early ← expect (bounded.set_try_insert max_sectors n removed.early_sectors)
            ok (
              record s { early_sectors = Set.remove n s.early_sectors },
              (record removed { early_sectors = early }, Set.remove n remaining),
            ))
          else ok (s, (removed, remaining)))

  unfoldable pub remove_faulty_sectors :
      List SectorOnChainInfo → ExpirationSet → Removed → Outcome (ExpirationSet × Removed)
  remove_faulty_sectors [] s r = ok (s, r)
  remove_faulty_sectors (sector ∷ sectors) s r = do
    (s', r') ← remove_faulty_sector sector.sector_number s r
    remove_faulty_sectors sectors s' r'

  unfoldable pub remove_faulty_loop :
      List SectorOnChainInfo
      → List (ℕ × ExpirationSet)
      → Removed
      → Outcome (List (ℕ × ExpirationSet) × Removed)
  remove_faulty_loop faulty [] r = ok ([], r)
  remove_faulty_loop faulty ((block, s) ∷ q) r = do
    (s', r') ← remove_faulty_sectors faulty s r
    (q', r'') ← remove_faulty_loop faulty q r'
    ok ((block, s') ∷ q', r'')

  unfoldable pub remove_sectors :
      List SectorOnChainInfo
      → BtreeSet
      → ExpirationQueue
      → Outcome (ExpirationSet × ExpirationQueue)
  remove_sectors sectors faults q = do
    let faulty = filter (λ s. Set.contains s.sector_number faults) sectors
    let non_faulty = filter (λ s. not (Set.contains s.sector_number faults)) sectors
    let remaining =
        Set.remove_all (map (λ s. s.sector_number) non_faulty)
          (Set.insert_all (map (λ s. s.sector_number) sectors) [])
    (removed_numbers, q') ← remove_active_sectors non_faulty q
    on_time ← expect (bounded.set_try_from max_sectors removed_numbers)
    (q'', (removed, left)) ←
        remove_faulty_loop faulty q' (record empty_set { on_time_sectors = on_time }, remaining)
    ensure (is_empty left) expiration_queue_sector_not_found
    ok (removed, q'')
