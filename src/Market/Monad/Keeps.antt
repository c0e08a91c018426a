-- ===== src/Market/Monad/Keeps.antt =====
-- Relations between the state before an action and after it, whether it returns or fails; one rule
-- for each way to build an action.
use polka_storage.Base.{Bool, true, false, Option, none, some, if◌then◌else◌}
use polka_storage.Market.Types.{DispatchError}
use polka_storage.Market.Monad.{
  Action, Result, ok, err, panic, pure, fail, gets, ensure, ok_or, unwrap, ◌>>=◌, resume,
}

pub record Keeps {S A : Type 0} (R : S → S → Type 0) (m : Action S A) : Type 0 where
  pub at : (s : S) → R s (m s).1

-- A relation that every run of several actions keeps, if each of them does.
pub record IsPreorder {S : Type 0} (R : S → S → Type 0) : Type 0 where
  pub same : (s : S) → R s s
  pub trans : (s t u : S) → R s t → R t u → R s u

module _ {S A : Type 0} {R : S → S → Type 0} (p : IsPreorder R) where
  pub Keeps-pure : (a : A) → Keeps R (pure a)
  unfolding pure
  Keeps-pure a = record { at = p.same }

  pub Keeps-fail : (e : DispatchError) → Keeps R (fail {A = A} e)
  unfolding fail
  Keeps-fail e = record { at = p.same }

  pub Keeps-gets : (f : S → A) → Keeps R (gets f)
  unfolding gets
  Keeps-gets f = record { at = p.same }

  pub Keeps-ok_or : (o : Option A) (e : DispatchError) → Keeps R (ok_or o e)
  unfolding ok_or
  Keeps-ok_or (some a) e = record { at = p.same }
  Keeps-ok_or none e = record { at = p.same }

  pub Keeps-unwrap : (o : Option A) → Keeps R (unwrap o)
  unfolding unwrap
  Keeps-unwrap (some a) = record { at = p.same }
  Keeps-unwrap none = record { at = p.same }

module _ {S : Type 0} {R : S → S → Type 0} (p : IsPreorder R) where
  pub Keeps-ensure : (b : Bool) (e : DispatchError) → Keeps R (ensure b e)
  unfolding ensure
  Keeps-ensure true e = record { at = p.same }
  Keeps-ensure false e = record { at = p.same }

module _ {S A : Type 0} {R : S → S → Type 0} where
  pub Keeps-if :
      (b : Bool) (m n : Action S A) → Keeps R m → Keeps R n → Keeps R (if b then m else n)
  Keeps-if true m n km kn = km
  Keeps-if false m n km kn = kn

module _ {S A B : Type 0} {R : S → S → Type 0} (p : IsPreorder R) where
  pub Keeps-bind :
      (m : Action S A) (f : A → Action S B)
      → Keeps R m
      → ((a : A) → Keeps R (f a))
      → Keeps R (m >>= f)
  unfolding ◌>>=◌
  Keeps-bind m f km kf = record { at = λ s. go s (m s).0 (m s).1 (km.at s) }
    where
      go : (s : S) (r : Result A) (t : S) → R s t → R s (resume r f t).1
      go s (ok a) t h = p.trans s t _ h ((kf a).at t)
      go s (err e) t h = h
      go s panic t h = h
