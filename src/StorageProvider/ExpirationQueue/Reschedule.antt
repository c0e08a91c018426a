-- ===== src/StorageProvider/ExpirationQueue/Reschedule.antt =====
-- `reschedule_as_faults` and `reschedule_recovered`.
use polka_storage.Base.{
  ℕ, not, none, some, List, [], ◌∷◌, ◌++◌, is_empty, if◌then◌else◌, leb, filter,
}
use polka_storage.Btree.Set.{BtreeSet}
use polka_storage.Btree.Map.{BtreeMap}
use polka_storage.Btree.Map
use polka_storage.Btree.Bounded.{Bounded}
use polka_storage.StorageProvider.Outcome.{
  Outcome, ok, ◌>>=◌, ◌>>◌, expect, ensure, expiration_queue_sector_not_found,
}
use polka_storage.StorageProvider.Sector.{SectorOnChainInfo}
use polka_storage.StorageProvider.ExpirationSet.{ExpirationSet, is_empty_set}
use polka_storage.StorageProvider.ExpirationSet
use polka_storage.StorageProvider.ExpirationQueue.Find.{
  SectorExpirationSet, find_sectors_by_expiration,
}
use polka_storage.StorageProvider.ExpirationQueue.{
  ExpirationQueue, must_update_or_delete, add_to_expiration_set, add_active_sectors,
}

module _ (bounded : Bounded) where
  -- The loop over the groups: sectors that expire after the new block leave their sets.
  unfoldable pub unschedule :
      ℕ
      → List (ℕ × SectorExpirationSet)
      → List ℕ
      → ExpirationQueue
      → Outcome (List ℕ × ExpirationQueue)
  unschedule new_expiration [] early_sectors q = ok (early_sectors, q)
  unschedule new_expiration ((height, group) ∷ groups) early_sectors q =
      let skipped = unschedule new_expiration groups early_sectors q in
      let moved =
        must_update_or_delete bounded height
          (ExpirationSet.remove group.sectors [] group.expiration_set) q
        >>= unschedule new_expiration groups (early_sectors ++ group.sectors) in
      if leb height new_expiration then skipped else moved

  unfoldable pub reschedule_as_faults :
      ℕ → List SectorOnChainInfo → ExpirationQueue → Outcome ExpirationQueue
  reschedule_as_faults new_expiration sectors q = do
    groups ← find_sectors_by_expiration sectors q
    (early_sectors, q') ← unschedule new_expiration groups [] q
    add_to_expiration_set bounded new_expiration [] early_sectors q'

  -- `all_sectors.get(s).expect(..)` for each sector to reschedule
  unfoldable pub infos_of :
      List ℕ
      → BtreeMap SectorOnChainInfo
      → BtreeMap SectorOnChainInfo
      → Outcome (BtreeMap SectorOnChainInfo)
  infos_of [] all_sectors infos = ok infos
  infos_of (s ∷ reschedule) all_sectors infos = do
    info ← expect (Map.get s all_sectors)
    infos_of reschedule all_sectors (Map.insert s info infos)

  -- What the traversal carries: the sectors still to find, and those found.
  abbrev pub Recovery : Type 0
  Recovery = BtreeMap SectorOnChainInfo × List SectorOnChainInfo

  -- The early sectors of one set that are to be rescheduled.
  unfoldable pub recover_early : List ℕ → Recovery → List ℕ × Recovery
  recover_early [] r = ([], r)
  recover_early (n ∷ ns) (remaining, found) =
      let info = Map.get n remaining in
      let (unset, r) =
        recover_early ns (
          Map.remove n remaining,
          elim info [ some sector ↦ found ++ sector ∷ [] | none ↦ found ],
        ) in
      (elim info [ some _ ↦ n ∷ unset | none ↦ unset ], r)

  -- The traversal of the queue; it ends once all sectors are found.
  unfoldable pub recover_loop :
      List (ℕ × ExpirationSet) → Recovery → List (ℕ × ExpirationSet) × Recovery
  recover_loop [] r = ([], r)
  recover_loop ((block, s) ∷ q) (remaining, found) =
      let (unset, r) =
        recover_early s.early_sectors (Map.remove_all s.on_time_sectors remaining, found) in
      let s' = ExpirationSet.remove [] unset s in
      let further = recover_loop q r in
      if is_empty r.0 then ((block, s') ∷ q, r) else ((block, s') ∷ further.0, further.1)

  unfoldable pub reschedule_recovered :
      BtreeMap SectorOnChainInfo → BtreeSet → ExpirationQueue → Outcome ExpirationQueue
  reschedule_recovered all_sectors reschedule q = do
    remaining ← infos_of reschedule all_sectors []
    let (q', r) = recover_loop q (remaining, [])
    ensure (is_empty r.0) expiration_queue_sector_not_found
    add_active_sectors bounded r.1 (filter (λ e. not (is_empty_set e.1)) q')
