-- ===== src/Btree/Set/Order.antt =====
-- An ascending set is determined by its members, and its operations keep it ascending.
use polka_storage.Base.{
  ℕ, suc, ◌≤◌, ◌<◌, ◌≡◌, refl, Bool, true, false, List, [], ◌∷◌, inl, inr, ◌==◌, not, arith,
  Bool-cases, ==_iff, filter, All, All-imp, length, length-filter-le,
}
use polka_storage.Btree.Set.{
  BtreeSet, contains, insert, remove, insert_all, union, difference, contains-remove,
}

abbrev pub IsSorted : BtreeSet → Type 0
IsSorted [] = Unit
IsSorted (x ∷ xs) = All (λ y. x < y) xs × IsSorted xs

abbrev pub Subset : BtreeSet → BtreeSet → Type 0
Subset s t = (x : ℕ) → contains x s ≡ true → contains x t ≡ true

All-filter {κ} : (P : ℕ → Type κ) (p : ℕ → Bool) (xs : List ℕ) → All P xs → All P (filter p xs)
All-filter P p [] h = tt
All-filter P p (x ∷ xs) h = ground (arith, All-filter P p xs)

pub filter-IsSorted : (p : ℕ → Bool) (s : BtreeSet) → IsSorted s → IsSorted (filter p s)
filter-IsSorted p [] h = tt
filter-IsSorted p (x ∷ xs) h = ground (arith, filter-IsSorted p xs, All-filter (λ y. x < y) p xs)

All-insert {κ} : (P : ℕ → Type κ) (x : ℕ) (s : List ℕ) → P x → All P s → All P (insert x s)
unfolding insert
All-insert P x [] p h = (p, tt)
All-insert P x (y ∷ s) p h = ground (arith, All-insert P x s)

above_trans : (x y : ℕ) (s : List ℕ) → x < y → All (λ z. y < z) s → All (λ z. x < z) s
above_trans x y s h a = All-imp (λ z q. omega arith) s a

pub insert-IsSorted : (x : ℕ) (s : BtreeSet) → IsSorted s → IsSorted (insert x s)
unfolding insert
insert-IsSorted x [] h = (tt, tt)
insert-IsSorted x (y ∷ s) h =
    ground (arith, insert-IsSorted x s, All-insert (λ z. y < z) x s, above_trans x y s)

pub insert_all-IsSorted : (xs : List ℕ) (s : BtreeSet) → IsSorted s → IsSorted (insert_all xs s)
unfolding insert_all
insert_all-IsSorted [] s h = h
insert_all-IsSorted (x ∷ xs) s h = insert_all-IsSorted xs (insert x s) (insert-IsSorted x s h)

pub union-IsSorted : (s t : BtreeSet) → IsSorted s → IsSorted (union s t)
unfolding union
union-IsSorted s t h = insert_all-IsSorted t s h

pub difference-IsSorted : (s t : BtreeSet) → IsSorted s → IsSorted (difference s t)
unfolding difference
difference-IsSorted s t h = filter-IsSorted _ s h

above-not_contains : (x : ℕ) (s : BtreeSet) → All (λ y. x < y) s → contains x s ≡ false
unfolding contains
above-not_contains x [] h = refl
above-not_contains x (y ∷ s) h = ground (arith, above-not_contains x s)

length-remove-lt :
    (x : ℕ) (s : BtreeSet) → contains x s ≡ true → suc (length (remove x s)) ≤ length s
unfolding contains remove
length-remove-lt x [] h = absurd (ground arith)
length-remove-lt x (y ∷ s) h =
    ground (arith, length-remove-lt x s, length-filter-le (λ z. not (z == x)) s)

-- A set with fewer members is no longer.
pub length-Subset : (s t : BtreeSet) → IsSorted s → Subset s t → length s ≤ length t
unfolding contains
length-Subset [] t h sub = omega arith
length-Subset (x ∷ s) t h sub =
    omega
      (arith, length-Subset s (remove x t) h.1 rest, length-remove-lt x t (sub x (ground arith)))
  where
    rest : Subset s (remove x t)
    rest y m = elim (Bool-cases (y == x)) [
      | inl e ↦ absurd (ground (arith, above-not_contains x s h.0, (==_iff y x).0 e))
      | inr e ↦ ground (arith, contains-remove x y t, sub y)
    ]

-- A new member makes a set one longer, an old one leaves it as it is.
pub length-insert_new :
    (x : ℕ) (s : BtreeSet) → contains x s ≡ false → length (insert x s) ≡ suc (length s)
unfolding contains insert
length-insert_new x [] h = refl
length-insert_new x (y ∷ s) h = ground (arith, length-insert_new x s)

pub length-insert-le : (x : ℕ) (s : BtreeSet) → length (insert x s) ≤ suc (length s)
unfolding insert
length-insert-le x [] = omega arith
length-insert-le x (y ∷ s) = ground (arith, length-insert-le x s)
