-- ===== src/StorageProvider/ExpirationSet.antt =====
-- `ExpirationSet` (pallets/storage-provider/src/expiration_queue.rs): the sectors that expire at one
-- block, on time or early.
use polka_storage.Base.{ℕ, ◌+◌, Bool, ◌&&◌, List, [], ◌∷◌, is_empty, length}
use polka_storage.Btree.Set.{BtreeSet}
use polka_storage.Btree.Set
use polka_storage.Btree.Bounded.{Bounded}
use polka_storage.StorageProvider.Outcome.{
  GeneralPalletError, Outcome, ok, ◌>>=◌, ok_or, expiration_queue_insertion_failed,
}
use polka_storage.StorageProvider.Sector.{max_sectors}

pub record ExpirationSet : Type 0 where
  pub on_time_sectors : BtreeSet
  pub early_sectors : BtreeSet

-- `ExpirationSet::new`
abbrev pub empty_set : ExpirationSet
empty_set = record { on_time_sectors = []; early_sectors = [] }

-- A loop of `try_insert(..).map_err(..)?` over a bounded set.
unfoldable pub try_insert_each : Bounded → GeneralPalletError → List ℕ → BtreeSet → Outcome BtreeSet
try_insert_each bounded e [] s = ok s
try_insert_each bounded e (x ∷ xs) s = do
  s' ← ok_or (bounded.set_try_insert max_sectors x s) e
  try_insert_each bounded e xs s'

unfoldable pub add : Bounded → List ℕ → List ℕ → ExpirationSet → Outcome ExpirationSet
add bounded on_time_sectors early_sectors s = do
  on_time ←
      try_insert_each bounded expiration_queue_insertion_failed on_time_sectors s.on_time_sectors
  early ← try_insert_each bounded expiration_queue_insertion_failed early_sectors s.early_sectors
  ok (record { on_time_sectors = on_time; early_sectors = early })

unfoldable pub remove : List ℕ → List ℕ → ExpirationSet → ExpirationSet
remove on_time_sectors early_sectors s = record {
  on_time_sectors = Set.remove_all on_time_sectors s.on_time_sectors;
  early_sectors = Set.remove_all early_sectors s.early_sectors;
}

unfoldable pub is_empty_set : ExpirationSet → Bool
is_empty_set s = is_empty s.on_time_sectors && is_empty s.early_sectors

unfoldable pub len : ExpirationSet → ℕ
len s = length s.on_time_sectors + length s.early_sectors
