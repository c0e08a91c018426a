-- ===== src/StorageProvider/ExpirationQueue/Find.antt =====
-- `group_expiration_set` and `find_sectors_by_expiration`.
use polka_storage.Base.{ℕ, List, [], ◌∷◌, is_empty, if◌then◌else◌, map}
use polka_storage.Btree.Set.{BtreeSet}
use polka_storage.Btree.Set
use polka_storage.Btree.Map.{BtreeMap}
use polka_storage.Btree.Map
use polka_storage.StorageProvider.Outcome.{
  Outcome, ok, ◌>>=◌, ◌>>◌, ok_or, ensure, expiration_queue_expiration_set_not_found,
  expiration_queue_sector_not_found,
}
use polka_storage.StorageProvider.Sector.{SectorOnChainInfo}
use polka_storage.StorageProvider.ExpirationSet.{ExpirationSet}

pub record SectorExpirationSet : Type 0 where
  pub sectors : List ℕ
  pub expiration_set : ExpirationSet

-- The sectors that the set to include holds, and that set without them.
unfoldable pub take_included : List ℕ → BtreeSet → List ℕ × BtreeSet
take_included [] include = ([], include)
take_included (u ∷ us) include =
    let (taken, left) = take_included us (Set.remove u include) in
    (if Set.contains u include then u ∷ taken else taken, left)

-- What the two loops carry: the sectors not found yet, and the groups found.
abbrev pub Search : Type 0
Search = BtreeSet × BtreeMap SectorExpirationSet

-- Looks for sectors in one expiration set; a set with none of them makes no group.
unfoldable pub group_expiration_set : ℕ → ExpirationSet → Search → Search
group_expiration_set block s (remaining, groups) =
    let (sectors, left) = take_included s.on_time_sectors remaining in
    (
      left,
      if is_empty sectors
          then groups
          else Map.insert block (record { sectors = sectors; expiration_set = s }) groups,
    )

-- The loop over the declared expirations.
unfoldable pub find_declared : List ℕ → BtreeMap ExpirationSet → Search → Outcome Search
find_declared [] q found = ok found
find_declared (expiration ∷ expirations) q found = do
  s ← ok_or (Map.get expiration q) expiration_queue_expiration_set_not_found
  find_declared expirations q (group_expiration_set expiration s found)

-- The loop over the whole queue, which skips the declared expirations and ends once all sectors are
-- found.
unfoldable pub find_rescheduled : BtreeSet → List (ℕ × ExpirationSet) → Search → Search
find_rescheduled declared [] found = found
find_rescheduled declared ((expiration, s) ∷ q) found =
    let skipped = find_rescheduled declared q found in
    let grouped = group_expiration_set expiration s found in
    let further = find_rescheduled declared q grouped in
    if Set.contains expiration declared
    then skipped
    else (if is_empty grouped.0 then grouped else further)

unfoldable pub find_sectors_by_expiration :
    List SectorOnChainInfo → BtreeMap ExpirationSet → Outcome (BtreeMap SectorExpirationSet)
find_sectors_by_expiration sectors q = do
  let declared = Set.insert_all (map (λ s. s.expiration) sectors) []
  let all_remaining = Set.insert_all (map (λ s. s.sector_number) sectors) []
  found ← find_declared declared q (all_remaining, [])
  let (remaining, groups) = find_rescheduled declared q found
  ensure (is_empty remaining) expiration_queue_sector_not_found
  ok groups
