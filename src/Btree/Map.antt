-- ===== src/Btree/Map.antt =====
-- `BTreeMap` keyed by numbers: an association list with ascending keys.
pub mod Sizes
use polka_storage.Base.{
  ℕ, ◌≡◌, refl, Bool, false, ◌||◌, not, List, [], ◌∷◌, Option, none, some, ltb, ◌==◌, if◌then◌else◌,
  filter, arith,
}

abbrev pub BtreeMap {ℓ} : Type ℓ → Type ℓ
BtreeMap V = List (ℕ × V)

module _ {ℓ} {V : Type ℓ} where
  unfoldable pub get : ℕ → BtreeMap V → Option V
  get k [] = none
  get k ((j, v) ∷ m) = if k == j then some v else get k m

  unfoldable pub contains_key : ℕ → BtreeMap V → Bool
  contains_key k [] = false
  contains_key k ((j, v) ∷ m) = k == j || contains_key k m

  unfoldable pub insert : ℕ → V → BtreeMap V → BtreeMap V
  insert k v [] = (k, v) ∷ []
  insert k v ((j, w) ∷ m) =
      if ltb k j
      then (k, v) ∷ (j, w) ∷ m
      else (if k == j then (k, v) ∷ m else (j, w) ∷ insert k v m)

  unfoldable pub remove : ℕ → BtreeMap V → BtreeMap V
  remove k m = filter (λ e. not (e.0 == k)) m

  unfoldable pub remove_all : List ℕ → BtreeMap V → BtreeMap V
  remove_all [] m = m
  remove_all (k ∷ ks) m = remove_all ks (remove k m)

  pub get-insert :
      (k j : ℕ) (v : V) (m : BtreeMap V)
      → get j (insert k v m) ≡ (if j == k then some v else get j m)
  unfolding get insert
  get-insert k j v [] = refl
  get-insert k j v ((i, w) ∷ m) = ground (arith, get-insert k j v m)

  pub get-remove :
      (k j : ℕ) (m : BtreeMap V) → get j (remove k m) ≡ (if j == k then none else get j m)
  unfolding get remove
  get-remove k j [] = ground arith
  get-remove k j ((i, w) ∷ m) = ground (arith, get-remove k j m)
