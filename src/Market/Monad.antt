-- ===== src/Market/Monad.antt =====
-- Calls that change the state and may fail. What was written before a failure stays written: an
-- extrinsic is rolled back by its caller, a hook is not.
pub mod Keeps
pub mod Inversion
use polka_storage.Base.{Bool, true, false, Option, none, some}
use polka_storage.Market.Types.{DispatchError}

pub data Result (A : Type 0) : Type 0 where
  ok : A → Result A
  err : DispatchError → Result A
  -- `unwrap` or `expect` on a failure
  panic : Result A

abbrev pub Action : Type 0 → Type 0 → Type 0
Action S A = S → Result A × S

module _ {S : Type 0} where
  unfoldable pub pure : {A : Type 0} → A → Action S A
  pure a s = (ok a, s)

  unfoldable pub fail : {A : Type 0} → DispatchError → Action S A
  fail e s = (err e, s)

  unfoldable pub gets : {A : Type 0} → (S → A) → Action S A
  gets f s = (ok (f s), s)

  unfoldable pub modify : (S → S) → Action S (Unit {0})
  modify f s = (ok tt, f s)

  -- `ensure!`
  unfoldable pub ensure : Bool → DispatchError → Action S (Unit {0})
  ensure true e s = (ok tt, s)
  ensure false e s = (err e, s)

  -- `ok_or`
  unfoldable pub ok_or : {A : Type 0} → Option A → DispatchError → Action S A
  ok_or (some a) e s = (ok a, s)
  ok_or none e s = (err e, s)

  -- `unwrap`
  unfoldable pub unwrap : {A : Type 0} → Option A → Action S A
  unwrap (some a) s = (ok a, s)
  unwrap none s = (panic, s)

-- What follows a step that returned, or its failure.
abbrev pub resume : {S A B : Type 0} → Result A → (A → Action S B) → Action S B
resume (ok a) f s = f a s
resume (err e) f s = (err e, s)
resume panic f s = (panic, s)

infixl 5 ◌>>=◌ ◌>>◌
-- Opening this opens the basic actions above too.
unfoldable pub ◌>>=◌ : {S A B : Type 0} → Action S A → (A → Action S B) → Action S B
unfolding pure fail gets modify ensure ok_or unwrap
◌>>=◌ m f s = let (r, s') = m s in resume r f s'

abbrev pub ◌>>◌ : {S B : Type 0} → Action S (Unit {0}) → Action S B → Action S B
m >> k = m >>= λ _. k
