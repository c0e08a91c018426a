-- ===== src/StorageProvider/Deadlines.antt =====
-- `Deadlines` (pallets/storage-provider/src/deadline.rs): the deadlines of a proving period, by
-- index. `usize` has the width of `u64`.
use polka_storage.Base.{ℕ, zero, suc, none, some, List, [], length, get_elem?, set, ltb}
use polka_storage.Btree.Map.{BtreeMap}
use polka_storage.Btree.Bounded.{Bounded}
use polka_storage.StorageProvider.Outcome.{
  Outcome, ok, ◌>>=◌, ◌>>◌, ensure, ok_or, deadline_index_out_of_range, deadline_not_found,
}
use polka_storage.StorageProvider.Sector.{SectorOnChainInfo}
use polka_storage.StorageProvider.Deadline.{Deadline, new_deadline}
use polka_storage.StorageProvider.Deadline

pub record Deadlines : Type 0 where
  pub due : List Deadline

abbrev pub max_deadlines : ℕ
max_deadlines = 48

unfoldable pub len : Deadlines → ℕ
len ds = length ds.due

-- `load_deadline_mut`; a change of the deadline is written back by `store_deadline`.
unfoldable pub load_deadline : ℕ → Deadlines → Outcome Deadline
load_deadline idx ds = do
  ensure (ltb idx (len ds)) deadline_index_out_of_range
  ok_or (get_elem? ds.due idx) deadline_not_found

unfoldable pub store_deadline : ℕ → Deadline → Deadlines → Deadlines
store_deadline idx d ds = record { due = set ds.due idx d }

module _ (bounded : Bounded) where
  -- The loop of `new`: a push that fails changes nothing.
  unfoldable pub push_new : ℕ → List Deadline → List Deadline
  push_new zero due = due
  push_new (suc n) due =
      push_new n (elim (bounded.vec_try_push Deadline max_deadlines new_deadline due) [
        | some due' ↦ due'
        | none ↦ due
      ])

  -- `Deadlines::new`
  unfoldable pub new_deadlines : ℕ → Deadlines
  new_deadlines w_post_period_deadlines = record { due = push_new w_post_period_deadlines [] }

  unfoldable pub record_proven :
      ℕ → BtreeMap SectorOnChainInfo → List ℕ → Deadlines → Outcome Deadlines
  record_proven deadline_idx all_sectors partitions ds = do
    deadline ← load_deadline deadline_idx ds
    deadline' ← Deadline.record_proven bounded all_sectors partitions deadline
    ok (store_deadline deadline_idx deadline' ds)
