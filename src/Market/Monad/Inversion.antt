-- ===== src/Market/Monad/Inversion.antt =====
-- What a run that returned tells of its steps.
use polka_storage.Base.{◌≡◌, refl, Bool, true, false}
use polka_storage.Market.Types.{DispatchError}
use polka_storage.Market.Monad.{Result, ok, err, panic, Action, resume, pure, ensure, ◌>>=◌}

module _ {S A B : Type 0} where
  -- A block that returned: its first step returned, and so did the rest from there.
  pub record Returned (m : Action S A) (f : A → Action S B) (s : S) (b : B) (s' : S) : Type 0 where
    pub value : A
    pub middle : S
    pub first : m s ≡ (ok value, middle)
    pub rest : f value middle ≡ (ok b, s')

  resume_inverts :
      (m : Action S A) (r : Result A) (t : S) (f : A → Action S B) (s : S) (b : B) (s' : S)
      → m s ≡ (r, t)
      → resume r f t ≡ (ok b, s')
      → Returned m f s b s'
  resume_inverts m (ok a) t f s b s' e h = record { value = a; middle = t; first = e; rest = h }
  resume_inverts m (err x) t f s b s' e h = absurd (cc)
  resume_inverts m panic t f s b s' e h = absurd (cc)

  pub bind_inverts :
      (m : Action S A) (f : A → Action S B) (s : S) (b : B) (s' : S)
      → (m >>= f) s ≡ (ok b, s')
      → Returned m f s b s'
  unfolding ◌>>=◌
  bind_inverts m f s b s' h = resume_inverts m (m s).0 (m s).1 f s b s' refl h

pub ensure_inverts :
    {S : Type 0} (b : Bool) (e : DispatchError) (s t : S)
    → ensure b e s ≡ (ok tt, t)
    → (b ≡ true) × (t ≡ s)
unfolding ensure
ensure_inverts true e s t h = (refl, cc)
ensure_inverts false e s t h = absurd (cc)

pub pure_inverts : {S A : Type 0} (a b : A) (s t : S) → pure a s ≡ (ok b, t) → (b ≡ a) × (t ≡ s)
unfolding pure
pure_inverts a b s t h = (cc, cc)
