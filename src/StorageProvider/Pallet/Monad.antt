-- ===== src/StorageProvider/Pallet/Monad.antt =====
-- Calls of the pallet, which change its storage and may fail. What was written before a failure stays
-- written: an extrinsic is rolled back by its caller, a hook is not.
pub mod Holds
use polka_storage.Base.{Bool, true, false, Option, none, some}
use polka_storage.StorageProvider.Outcome.{GeneralPalletError, Outcome}

-- `Error`, with the errors of what the pallet calls: of its own state, of arithmetic and of other
-- pallets.
pub data DispatchError : Type 0 where
  storage_provider_exists conversion_error storage_provider_not_found invalid_sector
        invalid_partition invalid_proof_type invalid_proof not_enough_funds
        sector_number_already_used expiration_before_activation expiration_too_soon
        expiration_too_long max_sector_lifetime_exceeded invalid_cid prove_commit_after_deadline
        post_proof_invalid invalid_deadline_submission could_not_verify_sector_for_pre_commit
        invalid_unsealed_cid_for_sector fault_declaration_too_late fault_recovery_too_late
        slashing_failed could_not_terminate_deals cannot_terminate_immutable_deadline
        too_many_replicas missing_author_vrf :
      DispatchError
  general_pallet_error : GeneralPalletError → DispatchError
  arithmetic_overflow other : DispatchError

pub data Result (A : Type 0) : Type 0 where
  ok : A → Result A
  err : DispatchError → Result A
  panic : Result A
  -- a loop of the model that was given too few rounds
  out_of_fuel : Result A

abbrev pub Call : Type 0 → Type 0 → Type 0
Call S A = S → Result A × S

-- A method of the provider's state, with its error.
abbrev pub to_result : {A : Type 0} → Outcome A → Result A
to_result (Outcome.ok a) = ok a
to_result (Outcome.err e) = err (general_pallet_error e)
to_result Outcome.panic = panic
to_result Outcome.out_of_fuel = out_of_fuel

-- An error that the caller goes on after.
abbrev pub caught : {A : Type 0} → Result A → Result (Option A)
caught (ok a) = ok (some a)
caught (err e) = ok none
caught panic = panic
caught out_of_fuel = out_of_fuel

-- `expect` on a method of the provider's state
abbrev pub expected : {A : Type 0} → Outcome A → Result A
expected (Outcome.ok a) = ok a
expected (Outcome.err e) = panic
expected Outcome.panic = panic
expected Outcome.out_of_fuel = out_of_fuel

-- `map_err(|_| e)`
abbrev pub with_error : {A : Type 0} → DispatchError → Result A → Result A
with_error e (ok a) = ok a
with_error e (err _) = err e
with_error e panic = panic
with_error e out_of_fuel = out_of_fuel

module _ {S : Type 0} where
  unfoldable pub pure : {A : Type 0} → A → Call S A
  pure a s = (ok a, s)

  unfoldable pub fail : {A : Type 0} → DispatchError → Call S A
  fail e s = (err e, s)

  unfoldable pub gets : {A : Type 0} → (S → A) → Call S A
  gets f s = (ok (f s), s)

  unfoldable pub modify : (S → S) → Call S (Unit {0})
  modify f s = (ok tt, f s)

  -- `ensure!`
  unfoldable pub ensure : Bool → DispatchError → Call S (Unit {0})
  ensure true e s = (ok tt, s)
  ensure false e s = (err e, s)

  -- `ok_or`
  unfoldable pub ok_or : {A : Type 0} → Option A → DispatchError → Call S A
  ok_or (some a) e s = (ok a, s)
  ok_or none e s = (err e, s)

  -- `expect`
  unfoldable pub expect : {A : Type 0} → Option A → Call S A
  expect (some a) s = (ok a, s)
  expect none s = (panic, s)

  unfoldable pub returns : {A : Type 0} → Result A → Call S A
  returns r s = (r, s)

  unfoldable pub lift : {A : Type 0} → Outcome A → Call S A
  unfolding returns
  lift o = returns (to_result o)

  unfoldable pub attempt : {A : Type 0} → Call S A → Call S (Option A)
  attempt m s = let (r, s') = m s in (caught r, s')

  unfoldable pub map_err : {A : Type 0} → Call S A → DispatchError → Call S A
  map_err m e s = let (r, s') = m s in (with_error e r, s')

-- What follows a step that returned, or its failure.
abbrev pub resume : {S A B : Type 0} → Result A → (A → Call S B) → Call S B
resume (ok a) f s = f a s
resume (err e) f s = (err e, s)
resume panic f s = (panic, s)
resume out_of_fuel f s = (out_of_fuel, s)

infixl 5 ◌>>=◌ ◌>>◌
-- Opening this opens the basic calls above too.
unfoldable pub ◌>>=◌ : {S A B : Type 0} → Call S A → (A → Call S B) → Call S B
unfolding pure fail gets modify ensure ok_or expect returns lift attempt map_err
◌>>=◌ m f s = let (r, s') = m s in resume r f s'

abbrev pub ◌>>◌ : {S B : Type 0} → Call S (Unit {0}) → Call S B → Call S B
m >> k = m >>= λ _. k
