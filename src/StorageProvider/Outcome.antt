-- ===== src/StorageProvider/Outcome.antt =====
-- `Result<_, GeneralPalletError>` (pallets/storage-provider/src/error.rs), with the panics of
-- `expect`. A failing method's changes are lost: its callers return before they store the state.
pub mod Inversion
pub mod Rounds
use polka_storage.Base.{Bool, true, false, Option, none, some}

pub data GeneralPalletError : Type 0 where
  partition_failed_to_add_sector partition_duplicate_sector_number partition_failed_to_add_faults
        partition_failed_to_remove_recoveries partition_sectors_not_live
        partition_cannot_pop_unproven_sectors partition_unexpected_recoveries
        partition_expired_sectors_already_terminated :
      GeneralPalletError
  deadline_index_out_of_range deadline_not_found deadline_could_not_construct_deadline_info
        deadline_partition_already_proven deadline_partition_not_found deadline_proof_update_failed
        deadline_max_partitions_reached deadline_could_not_add_sectors deadline_sectors_not_found
        deadline_sectors_not_faulty deadline_could_not_assign_sectors_to_deadlines
        deadline_failed_to_update_fault_expiration :
      GeneralPalletError
  storage_provider_max_pre_committed_sector_exceeded storage_provider_sector_not_found
        storage_provider_sector_number_in_use :
      GeneralPalletError
  sector_map_failed_to_insert_sector sector_map_failed_to_insert_partition : GeneralPalletError
  expiration_queue_expiration_set_not_found expiration_queue_sector_not_found
        expiration_queue_insertion_failed :
      GeneralPalletError

pub data Outcome {ℓ} (A : Type ℓ) : Type ℓ where
  ok : A → Outcome A
  err : GeneralPalletError → Outcome A
  panic : Outcome A
  -- a loop of the model that was given too few rounds
  out_of_fuel : Outcome A

infixl 5 ◌>>=◌ ◌>>◌
abbrev pub ◌>>=◌ {ℓ κ} : {A : Type ℓ} {B : Type κ} → Outcome A → (A → Outcome B) → Outcome B
ok a >>= f = f a
err e >>= f = err e
panic >>= f = panic
out_of_fuel >>= f = out_of_fuel

abbrev pub ◌>>◌ {ℓ} : {B : Type ℓ} → Outcome (Unit {0}) → Outcome B → Outcome B
m >> k = m >>= λ _. k

-- `ensure!`
abbrev pub ensure : Bool → GeneralPalletError → Outcome (Unit {0})
ensure true e = ok tt
ensure false e = err e

-- `ok_or`, or `map_err` on an error that carries nothing else
abbrev pub ok_or {ℓ} : {A : Type ℓ} → Option A → GeneralPalletError → Outcome A
ok_or none e = err e
ok_or (some a) e = ok a

-- `expect`
abbrev pub expect {ℓ} : {A : Type ℓ} → Option A → Outcome A
expect none = panic
expect (some a) = ok a

-- `map_err(|_| e)`
abbrev pub map_err {ℓ} : {A : Type ℓ} → Outcome A → GeneralPalletError → Outcome A
map_err (ok a) e = ok a
map_err (err _) e = err e
map_err panic e = panic
map_err out_of_fuel e = out_of_fuel
