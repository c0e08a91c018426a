-- ===== src/StorageProvider/ExpirationQueue.antt =====
-- `ExpirationQueue` (pallets/storage-provider/src/expiration_queue.rs): expiration sets by block.
pub mod Find
pub mod Due
pub mod Reschedule
pub mod Removal
use polka_storage.Base.{
  ℕ, Bool, ◌&&◌, Option, none, some, List, [], ◌∷◌, is_empty, if◌then◌else◌, leb, map, filter,
}
use polka_storage.Btree.Set.{BtreeSet}
use polka_storage.Btree.Map.{BtreeMap}
use polka_storage.Btree.Map
use polka_storage.Btree.Bounded.{Bounded}
use polka_storage.StorageProvider.Outcome.{
  Outcome, ok, err, panic, ◌>>=◌, ok_or, expiration_queue_insertion_failed,
}
use polka_storage.StorageProvider.Sector.{SectorOnChainInfo, max_sectors}
use polka_storage.StorageProvider.ExpirationSet.{
  ExpirationSet, empty_set, is_empty_set, try_insert_each,
}
use polka_storage.StorageProvider.ExpirationSet

-- The queue is its map.
abbrev pub ExpirationQueue : Type 0
ExpirationQueue = BtreeMap ExpirationSet

-- `get(..).cloned().unwrap_or_else(new)`
unfoldable pub set_at : ℕ → ExpirationQueue → ExpirationSet
set_at block q = elim (Map.get block q) [ some s ↦ s | none ↦ empty_set ]

-- The entries up to a block.
unfoldable pub due_until : ℕ → ExpirationQueue → List (ℕ × ExpirationSet)
due_until until q = filter (λ e. leb e.0 until) q

module _ (bounded : Bounded) where
  -- `self.map.try_insert(..).map_err(..)`
  unfoldable pub put : ℕ → ExpirationSet → ExpirationQueue → Outcome ExpirationQueue
  put block s q =
      ok_or (bounded.map_try_insert ExpirationSet max_sectors block s q)
        expiration_queue_insertion_failed

  unfoldable pub add_to_expiration_set :
      ℕ → List ℕ → List ℕ → ExpirationQueue → Outcome ExpirationQueue
  add_to_expiration_set expiration on_time_sectors early_sectors q =
      if is_empty on_time_sectors && is_empty early_sectors then ok q else (do
        s ← ExpirationSet.add bounded on_time_sectors early_sectors (set_at expiration q)
        put expiration s q)

  unfoldable pub add_active_sectors :
      List SectorOnChainInfo → ExpirationQueue → Outcome ExpirationQueue
  add_active_sectors [] q = ok q
  add_active_sectors (sector ∷ sectors) q = do
    q' ← add_to_expiration_set sector.expiration (sector.sector_number ∷ []) [] q
    add_active_sectors sectors q'

  unfoldable pub must_update_or_delete :
      ℕ → ExpirationSet → ExpirationQueue → Outcome ExpirationQueue
  must_update_or_delete expiration s q =
      if is_empty_set s then ok (Map.remove expiration q) else put expiration s q

  -- The loop of `pop_until` over the sets that are due: their sectors, on time and early.
  unfoldable pub pop_loop : List (ℕ × ExpirationSet) → ExpirationSet → Outcome ExpirationSet
  pop_loop [] popped = ok popped
  pop_loop ((_, s) ∷ due) popped = do
    popped' ← ExpirationSet.add bounded s.on_time_sectors s.early_sectors popped
    pop_loop due popped'

  unfoldable pub pop_until : ℕ → ExpirationQueue → Outcome (ExpirationSet × ExpirationQueue)
  pop_until until q = do
    popped ← pop_loop (due_until until q) empty_set
    ok (popped, Map.remove_all (map (λ e. e.0) (due_until until q)) q)
