-- ===== src/StorageProvider/Pallet/Views.antt =====
-- What the runtime API reads from the pallet (pallets/storage-provider/src/lib.rs), with the types of
-- primitives/src/pallets.rs.
use polka_storage.Base.{ℕ, Bool, Option, none, some, [], ◌∷◌, get_elem?}
use polka_storage.Base.Storage
use polka_storage.Btree.Set.{BtreeSet}
use polka_storage.Btree.Map.{BtreeMap}
use polka_storage.Btree.Bounded.{Bounded}
use polka_storage.StorageProvider.Outcome.{Outcome, ok, ◌>>=◌}
use polka_storage.StorageProvider.Sector.{max_partitions_per_deadline}
use polka_storage.StorageProvider.DeadlineInfo.{
  DeadlineInfo, new_deadline_info, next_not_opened, is_open,
}
use polka_storage.StorageProvider.Partition.{Partition, live_sectors}
use polka_storage.StorageProvider.State
use polka_storage.StorageProvider.Pallet.{Config, Pallet}

-- `DeadlineInfo` of primitives/src/pallets.rs, with `open_now` for `open`.
pub record ExternalDeadlineInfo : Type 0 where
  pub deadline_index : ℕ
  pub open_now : Bool
  pub challenge_block : ℕ
  pub start : ℕ

unfoldable pub external : DeadlineInfo → ExternalDeadlineInfo
external deadline = record {
  deadline_index = deadline.idx;
  open_now = is_open deadline;
  challenge_block = deadline.challenge;
  start = deadline.open_at;
}

-- The sectors of each partition.
pub record DeadlineState : Type 0 where
  pub partitions : BtreeMap BtreeSet

-- The loop over the partitions: `none` where one does not fit.
unfoldable pub partition_states :
    Bounded → BtreeMap Partition → BtreeMap BtreeSet → Outcome (Option (BtreeMap BtreeSet))
partition_states bounded [] partitions = ok (some partitions)
partition_states bounded ((n, partition) ∷ rest) partitions =
    live_sectors bounded partition >>= λ live.
    elim (bounded.map_try_insert BtreeSet max_partitions_per_deadline n live partitions) [
      | none ↦ ok none
      | some partitions' ↦ partition_states bounded rest partitions'
    ]

module _ (c : Config) where
  unfoldable pub current_deadline : ℕ → ℕ → Pallet c → Option ExternalDeadlineInfo
  current_deadline storage_provider current_block p =
      elim (Storage.get storage_provider p.storage_providers) [
        | none ↦ none
        | some sp ↦ some (external (State.deadline_info c.post current_block sp))
      ]

  -- `none` is also the panic of a proving period of no blocks.
  unfoldable pub deadline_info : ℕ → ℕ → ℕ → Pallet c → Option ExternalDeadlineInfo
  deadline_info storage_provider deadline_index current_block p =
      elim (Storage.get storage_provider p.storage_providers) [
        | none ↦ none
        | some sp ↦
            elim (next_not_opened
              (new_deadline_info c.post current_block sp.proving_period_start deadline_index)) [
                | Outcome.ok deadline ↦ some (external deadline)
                | _ ↦ none
              ]
      ]

  unfoldable pub deadline_state : ℕ → ℕ → Pallet c → Outcome (Option DeadlineState)
  deadline_state storage_provider deadline_index p =
      elim (Storage.get storage_provider p.storage_providers) [
        | none ↦ ok none
        | some sp ↦ elim (get_elem? sp.deadlines.due deadline_index) [
          | none ↦ ok none
          | some deadline ↦ partition_states c.bounded deadline.partitions [] >>= λ states.
              elim states [
                | none ↦ ok none
                | some partitions ↦ ok (some (record { partitions = partitions }))
              ]
        ]
      ]
