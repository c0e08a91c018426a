-- ===== src/StorageProvider/Outcome/Inversion.antt =====
-- What an outcome that is a success tells of its steps.
use polka_storage.Base.{◌≡◌, refl, Bool, true, false, Option, none, some}
use polka_storage.StorageProvider.Outcome.{
  GeneralPalletError, Outcome, ok, err, panic, out_of_fuel, ◌>>=◌, ensure, ok_or, expect, map_err,
}

module _ {ℓ κ} {A : Type ℓ} {B : Type κ} where
  pub bind_inverts :
      (o : Outcome A) (f : A → Outcome B) (b : B)
      → (o >>= f) ≡ ok b
      → (a : A) × (o ≡ ok a) × (f a ≡ ok b)
  bind_inverts (ok a) f b h = (a, refl, h)
  bind_inverts (err e) f b h = absurd (cc)
  bind_inverts panic f b h = absurd (cc)
  bind_inverts out_of_fuel f b h = absurd (cc)

module _ {ℓ} {A : Type ℓ} where
  pub ok_or_inverts :
      (o : Option A) (e : GeneralPalletError) (a : A) → ok_or o e ≡ ok a → o ≡ some a
  ok_or_inverts none e a h = absurd (cc)
  ok_or_inverts (some b) e a h = cc

  pub expect_inverts : (o : Option A) (a : A) → expect o ≡ ok a → o ≡ some a
  expect_inverts none a h = absurd (cc)
  expect_inverts (some b) a h = cc

  pub map_err_inverts :
      (o : Outcome A) (e : GeneralPalletError) (a : A) → map_err o e ≡ ok a → o ≡ ok a
  map_err_inverts (ok b) e a h = h
  map_err_inverts (err x) e a h = absurd (cc)
  map_err_inverts panic e a h = absurd (cc)
  map_err_inverts out_of_fuel e a h = absurd (cc)

pub ensure_inverts : (b : Bool) (e : GeneralPalletError) → ensure b e ≡ ok tt → b ≡ true
ensure_inverts true e h = refl
ensure_inverts false e h = absurd (cc)

pub ok_inverts {ℓ} : {A : Type ℓ} (a b : A) → ok a ≡ ok b → a ≡ b
ok_inverts a b h = cc

pub not_error : {A : Type 0} (X : Type 0) (e : GeneralPalletError) (a : A) → err e ≡ ok a → X
not_error X e a h = absurd (cc)

pub not_panic : {A : Type 0} (X : Type 0) (a : A) → panic ≡ ok a → X
not_panic X a h = absurd (cc)
