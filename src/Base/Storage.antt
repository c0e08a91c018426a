-- ===== src/Base/Storage.antt =====
-- `StorageMap` of the runtime: a finite map keyed by numbers. A write replaces the entry of its key,
-- or adds one.
use Prim.Native.Nat.{ℕ, ◌+◌}
use mathlib.Core.Path.{◌≡◌, refl}
use mathlib.Core.Bool.{not}
use mathlib.Core.List.{List, [], ◌∷◌}
use mathlib.Core.Option.{Option, none, some}
use native.Mathlib.Omega.{arith}
use polka_storage.Base.Tests.{◌==◌, if◌then◌else◌}
use polka_storage.Base.Lists.{filter}

abbrev pub StorageMap {ℓ} : Type ℓ → Type ℓ
StorageMap V = List (ℕ × V)

module _ {ℓ} {V : Type ℓ} where
  unfoldable pub get : ℕ → StorageMap V → Option V
  get k [] = none
  get k ((j, v) ∷ m) = if k == j then some v else get k m

  -- `ValueQuery`: a missing entry reads as the default.
  unfoldable pub get_or : V → ℕ → StorageMap V → V
  get_or d k [] = d
  get_or d k ((j, v) ∷ m) = if k == j then v else get_or d k m

  unfoldable pub insert : ℕ → V → StorageMap V → StorageMap V
  insert k v [] = (k, v) ∷ []
  insert k v ((j, w) ∷ m) = if k == j then (j, v) ∷ m else (j, w) ∷ insert k v m

  unfoldable pub remove : ℕ → StorageMap V → StorageMap V
  remove k m = filter (λ e. not (e.0 == k)) m

  pub get-insert :
      (k j : ℕ) (v : V) (m : StorageMap V)
      → get j (insert k v m) ≡ (if j == k then some v else get j m)
  unfolding get insert
  get-insert k j v [] = refl
  get-insert k j v ((i, w) ∷ m) = ground (arith, get-insert k j v m)

  pub get-remove :
      (k j : ℕ) (m : StorageMap V) → get j (remove k m) ≡ (if j == k then none else get j m)
  unfolding get remove
  get-remove k j [] = ground arith
  get-remove k j ((i, w) ∷ m) = ground (arith, get-remove k j m)

  pub get_or-insert :
      (d : V) (k j : ℕ) (v : V) (m : StorageMap V)
      → get_or d j (insert k v m) ≡ (if j == k then v else get_or d j m)
  unfolding get_or insert
  get_or-insert d k j v [] = refl
  get_or-insert d k j v ((i, w) ∷ m) = ground (arith, get_or-insert d k j v m)

  -- The sum of a measure over all entries.
  unfoldable pub total : (V → ℕ) → StorageMap V → ℕ
  total f [] = 0
  total f ((j, v) ∷ m) = f v + total f m

  -- A write changes the sum by the difference at its key, if the default counts for nothing.
  pub total-insert :
      (f : V → ℕ) (d : V) (k : ℕ) (v : V) (m : StorageMap V)
      → f d ≡ 0
      → total f (insert k v m) + f (get_or d k m) ≡ total f m + f v
  unfolding total insert get_or
  total-insert f d k v [] z = omega arith
  total-insert f d k v ((i, w) ∷ m) z = ground (arith, total-insert f d k v m z)
