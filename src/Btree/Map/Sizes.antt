-- ===== src/Btree/Map/Sizes.antt =====
-- How many members the sets of a map have together.
use polka_storage.Base.{
  ℕ, ◌+◌, ◌≤◌, ◌<◌, ◌≡◌, refl, none, some, List, [], ◌∷◌, length, arith, All, All-imp,
}
use polka_storage.Btree.Set.{BtreeSet}
use polka_storage.Btree.Set
use polka_storage.Btree.Map.{BtreeMap, get, insert}

abbrev pub IsAscending {ℓ} : {V : Type ℓ} → BtreeMap V → Type 0
IsAscending [] = Unit
IsAscending ((k, v) ∷ m) = All (λ e. k < e.0) m × IsAscending m

module _ {ℓ} {V : Type ℓ} where
  All-insert :
      (k : ℕ) (j : ℕ) (v : V) (m : BtreeMap V)
      → k < j
      → All (λ e. k < e.0) m
      → All (λ e. k < e.0) (insert j v m)
  unfolding insert
  All-insert k j v [] h a = (h, tt)
  All-insert k j v ((i, w) ∷ m) h a = ground (arith, All-insert k j v m)

  above_trans : (k j : ℕ) (m : BtreeMap V) → k < j → All (λ e. j < e.0) m → All (λ e. k < e.0) m
  above_trans k j m h a = All-imp (λ e q. omega arith) m a

  pub insert-IsAscending :
      (k : ℕ) (v : V) (m : BtreeMap V) → IsAscending m → IsAscending (insert k v m)
  unfolding insert
  insert-IsAscending k v [] h = (tt, tt)
  insert-IsAscending k v ((j, w) ∷ m) h =
      ground (arith, insert-IsAscending k v m, All-insert j k v m, above_trans k j m)

  get_below : (k : ℕ) (m : BtreeMap V) → All (λ e. k < e.0) m → get k m ≡ none
  unfolding get
  get_below k [] h = refl
  get_below k ((j, w) ∷ m) h = ground (arith, get_below k m)

unfoldable pub size : BtreeMap BtreeSet → ℕ
size [] = 0
size ((k, s) ∷ m) = length s + size m

pub size-insert-le :
    (k : ℕ) (s : BtreeSet) (m : BtreeMap BtreeSet) → size (insert k s m) ≤ size m + length s
unfolding insert size
size-insert-le k s [] = omega arith
size-insert-le k s ((j, t) ∷ m) = ground (arith, size-insert-le k s m)

pub size-insert_present :
    (k : ℕ) (s old : BtreeSet) (m : BtreeMap BtreeSet)
    → IsAscending m
    → get k m ≡ some old
    → size (insert k s m) + length old ≡ size m + length s
unfolding insert get size
size-insert_present k s old [] h e = absurd (cc)
size-insert_present k s old ((j, t) ∷ m) h e =
    ground (arith, size-insert_present k s old m, get_below k m, above_trans k j m)

length-insert-le : (x : ℕ) (s : BtreeSet) → length (Set.insert x s) ≤ length s + 1
unfolding Set.insert
length-insert-le x [] = omega arith
length-insert-le x (y ∷ s) = ground (arith, length-insert-le x s)

length-insert_all-le :
    (xs : List ℕ) (s : BtreeSet) → length (Set.insert_all xs s) ≤ length s + length xs
unfolding Set.insert_all
length-insert_all-le [] s = omega arith
length-insert_all-le (x ∷ xs) s =
    omega (arith, length-insert_all-le xs (Set.insert x s), length-insert-le x s)

pub length-union-le : (s t : BtreeSet) → length (Set.union s t) ≤ length s + length t
unfolding Set.union
length-union-le s t = length-insert_all-le t s
