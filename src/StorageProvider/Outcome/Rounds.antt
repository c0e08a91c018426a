-- ===== src/StorageProvider/Outcome/Rounds.antt =====
-- Outcomes of runs that had rounds enough.
use polka_storage.Base.{Bool, true, false, Option, none, some, if◌then◌else◌}
use polka_storage.StorageProvider.Outcome.{
  GeneralPalletError, Outcome, ok, err, panic, out_of_fuel, ◌>>=◌, ensure, ok_or,
}

-- An outcome of a run that had rounds enough.
abbrev pub Ends {ℓ} : {A : Type ℓ} → Outcome A → Type 0
Ends (ok _) = Unit
Ends (err _) = Unit
Ends panic = Unit
Ends out_of_fuel = ⊥

pub bind-Ends :
    {A B : Type 0} (o : Outcome A) (f : A → Outcome B)
    → Ends o
    → ((a : A) → Ends (f a))
    → Ends (o >>= f)
bind-Ends (ok a) f h k = k a
bind-Ends (err e) f h k = tt
bind-Ends panic f h k = tt
bind-Ends out_of_fuel f h k = h

pub ok_or-Ends : {A : Type 0} (o : Option A) (e : GeneralPalletError) → Ends (ok_or o e)
ok_or-Ends none e = tt
ok_or-Ends (some a) e = tt

pub ensure-Ends : (b : Bool) (e : GeneralPalletError) → Ends (ensure b e)
ensure-Ends true e = tt
ensure-Ends false e = tt

pub if-Ends :
    {A : Type 0} (b : Bool) (x y : Outcome A) → Ends x → Ends y → Ends (if b then x else y)
if-Ends true x y h k = h
if-Ends false x y h k = k
