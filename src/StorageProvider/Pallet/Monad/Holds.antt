-- ===== src/StorageProvider/Pallet/Monad/Holds.antt =====
-- Invariants of a state that a call keeps, whether it returns or fails, and what is true of the value
-- that it returns; one rule for each way to build a call.
use polka_storage.Base.{◌≡◌, ap, refl, Bool, true, false, Option, none, some, if◌then◌else◌}
use polka_storage.StorageProvider.Outcome.{Outcome}
use polka_storage.StorageProvider.Pallet.Monad.{
  DispatchError, Result, ok, err, panic, out_of_fuel, Call, with_error, pure, fail, gets, modify,
  ensure, ok_or, expect, returns, lift, attempt, map_err, resume, ◌>>=◌,
}

abbrev pub IfOk : {A : Type 0} → (A → Type 0) → Result A → Type 0
IfOk Q (ok a) = Q a
IfOk Q (err e) = Unit {0}
IfOk Q panic = Unit {0}
IfOk Q out_of_fuel = Unit {0}

abbrev pub Any : {A : Type 0} → A → Type 0
Any a = Unit {0}

pub record Holds {S A : Type 0} (P : S → Type 0) (Q : A → Type 0) (m : Call S A) : Type 0 where
  pub at : (s : S) → P s → P (m s).1 × IfOk Q (m s).0

with_error-IfOk :
    {A : Type 0} (Q : A → Type 0) (e : DispatchError) (r : Result A)
    → IfOk Q r
    → IfOk Q (with_error e r)
with_error-IfOk Q e (ok a) q = q
with_error-IfOk Q e (err x) q = tt
with_error-IfOk Q e panic q = tt
with_error-IfOk Q e out_of_fuel q = tt

pub IfOk-Any : {A : Type 0} (r : Result A) → IfOk Any r
IfOk-Any (ok a) = tt
IfOk-Any (err x) = tt
IfOk-Any panic = tt
IfOk-Any out_of_fuel = tt

IfOk-imp :
    {A : Type 0} (Q R : A → Type 0) (r : Result A) → ((a : A) → Q a → R a) → IfOk Q r → IfOk R r
IfOk-imp Q R (ok a) f q = f a q
IfOk-imp Q R (err x) f q = tt
IfOk-imp Q R panic f q = tt
IfOk-imp Q R out_of_fuel f q = tt

module _ {S : Type 0} {P : S → Type 0} where
  module _ {A : Type 0} {Q : A → Type 0} where
    pub Holds-pure : (a : A) → Q a → Holds P Q (pure a)
    unfolding pure
    Holds-pure a q = record { at = λ s p. (p, q) }

    pub Holds-fail : (e : DispatchError) → Holds P Q (fail e)
    unfolding fail
    Holds-fail e = record { at = λ s p. (p, tt) }

    pub Holds-gets : (f : S → A) → ((s : S) → P s → Q (f s)) → Holds P Q (gets f)
    unfolding gets
    Holds-gets f q = record { at = λ s p. (p, q s p) }

    pub Holds-ok_or :
        (o : Option A) (e : DispatchError) → ((a : A) → o ≡ some a → Q a) → Holds P Q (ok_or o e)
    unfolding ok_or
    Holds-ok_or (some a) e q = record { at = λ s p. (p, q a refl) }
    Holds-ok_or none e q = record { at = λ s p. (p, tt) }

    pub Holds-expect : (o : Option A) → ((a : A) → o ≡ some a → Q a) → Holds P Q (expect o)
    unfolding expect
    Holds-expect (some a) q = record { at = λ s p. (p, q a refl) }
    Holds-expect none q = record { at = λ s p. (p, tt) }

    pub Holds-returns : (r : Result A) → IfOk Q r → Holds P Q (returns r)
    unfolding returns
    Holds-returns r q = record { at = λ s p. (p, q) }

    pub Holds-lift : (o : Outcome A) → ((a : A) → o ≡ Outcome.ok a → Q a) → Holds P Q (lift o)
    unfolding lift returns
    Holds-lift (Outcome.ok a) q = record { at = λ s p. (p, q a refl) }
    Holds-lift (Outcome.err e) q = record { at = λ s p. (p, tt) }
    Holds-lift Outcome.panic q = record { at = λ s p. (p, tt) }
    Holds-lift Outcome.out_of_fuel q = record { at = λ s p. (p, tt) }

    pub Holds-if :
        (b : Bool) (m n : Call S A) → Holds P Q m → Holds P Q n → Holds P Q (if b then m else n)
    Holds-if true m n km kn = km
    Holds-if false m n km kn = kn

    pub Holds-map_err : (m : Call S A) (e : DispatchError) → Holds P Q m → Holds P Q (map_err m e)
    unfolding map_err
    Holds-map_err m e k = record {
      at = λ s p. let (p', q) = k.at s p in (p', with_error-IfOk Q e (m s).0 q);
    }

  pub Holds-Any : {A : Type 0} {Q : A → Type 0} (m : Call S A) → Holds P Q m → Holds P Any m
  Holds-Any m k = record { at = λ s p. ((k.at s p).0, IfOk-Any (m s).0) }

  pub Holds-imp :
      {A : Type 0} {Q R : A → Type 0} (m : Call S A)
      → ((a : A) → Q a → R a)
      → Holds P Q m
      → Holds P R m
  Holds-imp {A} {Q} {R} m f k = record {
    at = λ s p. let (p', q) = k.at s p in (p', IfOk-imp Q R (m s).0 f q);
  }

  pub Holds-attempt :
      {A : Type 0} {Q : A → Type 0} (m : Call S A) → Holds P Q m → Holds P Any (attempt m)
  unfolding attempt
  Holds-attempt m k = record { at = λ s p. ((k.at s p).0, IfOk-Any (attempt m s).0) }

  pub Holds-ensure : (b : Bool) (e : DispatchError) → Holds P (λ _. b ≡ true) (ensure b e)
  unfolding ensure
  Holds-ensure true e = record { at = λ s p. (p, refl) }
  Holds-ensure false e = record { at = λ s p. (p, tt) }

  pub Holds-modify : (f : S → S) → ((s : S) → P s → P (f s)) → Holds P Any (modify f)
  unfolding modify
  Holds-modify f k = record { at = λ s p. (k s p, tt) }

module _ {S A B : Type 0} {P : S → Type 0} {Q : A → Type 0} {R : B → Type 0} where
  resume-Holds :
      (r : Result A) (f : A → Call S B) (s : S)
      → ((a : A) → Q a → Holds P R (f a))
      → P s
      → IfOk Q r
      → P (resume r f s).1 × IfOk R (resume r f s).0
  resume-Holds (ok a) f s kf p q = (kf a q).at s p
  resume-Holds (err e) f s kf p q = (p, tt)
  resume-Holds panic f s kf p q = (p, tt)
  resume-Holds out_of_fuel f s kf p q = (p, tt)

  pub Holds-bind :
      (m : Call S A) (f : A → Call S B)
      → Holds P Q m
      → ((a : A) → Q a → Holds P R (f a))
      → Holds P R (m >>= f)
  unfolding ◌>>=◌
  Holds-bind m f km kf = record {
    at = λ s p. let (p', q) = km.at s p in resume-Holds (m s).0 f (m s).1 kf p' q;
  }

-- What is true of a value that a call returned.
pub Holds-value :
    {S A : Type 0} {P : S → Type 0} {Q : A → Type 0} (m : Call S A) (s s' : S) (a : A)
    → Holds P Q m
    → P s
    → m s ≡ (ok a, s')
    → Q a
Holds-value {S} {A} {P} {Q} m s s' a k p e =
    rw (ap (λ (out : Result A × S). out.0) e) at (k.at s p).1
