-- ===== src/StorageProvider/Partition/Rounds.antt =====
-- `Partition::add_sectors` always ends.
use polka_storage.Base.{not, ℕ, ◌&&◌, List, [], ◌∷◌, is_empty}
use polka_storage.Btree.Set
use polka_storage.Btree.Bounded.{Bounded}
use polka_storage.StorageProvider.Outcome.{
  GeneralPalletError, partition_duplicate_sector_number, partition_failed_to_add_sector, ok, ensure,
  ok_or,
}
use polka_storage.StorageProvider.Sector.{SectorOnChainInfo, max_sectors}
use polka_storage.StorageProvider.ExpirationSet.{ExpirationSet, try_insert_each}
use polka_storage.StorageProvider.ExpirationSet
use polka_storage.StorageProvider.ExpirationQueue.{
  ExpirationQueue, set_at, put, add_to_expiration_set, add_active_sectors,
}
use polka_storage.StorageProvider.Partition.{Partition, new_partition, add_loop}
use polka_storage.StorageProvider.Partition
use polka_storage.StorageProvider.Outcome.Rounds.{Ends, bind-Ends, ok_or-Ends, ensure-Ends, if-Ends}

module _ (bounded : Bounded) where
  try_insert_each-Ends :
      (e : GeneralPalletError) (xs s : List ℕ) → Ends (try_insert_each bounded e xs s)
  unfolding try_insert_each
  try_insert_each-Ends e [] s = tt
  try_insert_each-Ends e (x ∷ xs) s =
      bind-Ends (ok_or (bounded.set_try_insert max_sectors x s) e) _ (ok_or-Ends _ e)
        (λ s'. try_insert_each-Ends e xs s')

  add-Ends : (on early : List ℕ) (s : ExpirationSet) → Ends (ExpirationSet.add bounded on early s)
  unfolding ExpirationSet.add
  add-Ends on early s =
      bind-Ends (try_insert_each bounded _ on s.on_time_sectors) _
        (try_insert_each-Ends _ on s.on_time_sectors)
        (λ a.
          bind-Ends (try_insert_each bounded _ early s.early_sectors) _
            (try_insert_each-Ends _ early s.early_sectors) (λ b. tt))

  add_to_expiration_set-Ends :
      (block : ℕ) (on early : List ℕ) (q : ExpirationQueue)
      → Ends (add_to_expiration_set bounded block on early q)
  unfolding add_to_expiration_set put
  add_to_expiration_set-Ends block on early q =
      if-Ends (is_empty on && is_empty early) (ok q) _ tt (
        bind-Ends (ExpirationSet.add bounded on early (set_at block q)) _
          (add-Ends on early (set_at block q)) (λ s. ok_or-Ends _ _))

  add_active_sectors-Ends :
      (sectors : List SectorOnChainInfo) (q : ExpirationQueue)
      → Ends (add_active_sectors bounded sectors q)
  unfolding add_active_sectors
  add_active_sectors-Ends [] q = tt
  add_active_sectors-Ends (s ∷ sectors) q =
      bind-Ends (add_to_expiration_set bounded s.expiration (s.sector_number ∷ []) [] q) _
        (add_to_expiration_set-Ends s.expiration (s.sector_number ∷ []) [] q)
        (λ q'. add_active_sectors-Ends sectors q')

  add_loop-Ends :
      (sectors : List SectorOnChainInfo) (all_sectors unproven : List ℕ)
      → Ends (add_loop bounded sectors all_sectors unproven)
  unfolding add_loop
  add_loop-Ends [] all_sectors unproven = tt
  add_loop-Ends (s ∷ sectors) all_sectors unproven =
      let n = s.sector_number in
      bind-Ends (ensure (not (Set.contains n all_sectors)) _) _
        (ensure-Ends (not (Set.contains n all_sectors)) partition_duplicate_sector_number)
        (λ _.
          bind-Ends (ok_or (bounded.set_try_insert max_sectors n all_sectors) _) _
            (ok_or-Ends (bounded.set_try_insert max_sectors n all_sectors)
              partition_failed_to_add_sector)
            (λ a.
              bind-Ends (ok_or (bounded.set_try_insert max_sectors n unproven) _) _
                (ok_or-Ends (bounded.set_try_insert max_sectors n unproven)
                  partition_failed_to_add_sector)
                (λ b. add_loop-Ends sectors a b)))

  pub add_sectors-Ends :
      (sectors : List SectorOnChainInfo) (p : Partition)
      → Ends (Partition.add_sectors bounded sectors p)
  unfolding Partition.add_sectors
  add_sectors-Ends sectors p =
      bind-Ends (add_active_sectors bounded sectors p.expirations) _
        (add_active_sectors-Ends sectors p.expirations)
        (λ q.
          bind-Ends (add_loop bounded sectors p.sectors p.unproven) _
            (add_loop-Ends sectors p.sectors p.unproven) (λ sets. tt))
