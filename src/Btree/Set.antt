-- ===== src/Btree/Set.antt =====
-- `BTreeSet` of numbers: an ascending list with no repetition.
pub mod Order
use polka_storage.Base.{
  ℕ, ◌≡◌, refl, Bool, true, false, ◌&&◌, ◌||◌, not, List, [], ◌∷◌, ltb, ◌==◌, if◌then◌else◌, filter,
  arith, ==_iff, inl, inr, Bool-cases,
}

abbrev pub BtreeSet : Type 0
BtreeSet = List ℕ

unfoldable pub contains : ℕ → BtreeSet → Bool
contains x [] = false
contains x (y ∷ ys) = x == y || contains x ys

unfoldable pub insert : ℕ → BtreeSet → BtreeSet
insert x [] = x ∷ []
insert x (y ∷ ys) = if ltb x y then x ∷ y ∷ ys else (if x == y then y ∷ ys else y ∷ insert x ys)

unfoldable pub remove : ℕ → BtreeSet → BtreeSet
remove x s = filter (λ y. not (y == x)) s

-- `iter().collect::<BTreeSet<_>>()`, or `extend` on `s`.
unfoldable pub insert_all : List ℕ → BtreeSet → BtreeSet
insert_all [] s = s
insert_all (x ∷ xs) s = insert_all xs (insert x s)

unfoldable pub remove_all : List ℕ → BtreeSet → BtreeSet
remove_all [] s = s
remove_all (x ∷ xs) s = remove_all xs (remove x s)

unfoldable pub union : BtreeSet → BtreeSet → BtreeSet
union s t = insert_all t s

unfoldable pub difference : BtreeSet → BtreeSet → BtreeSet
difference s t = filter (λ x. not (contains x t)) s

unfoldable pub intersection : BtreeSet → BtreeSet → BtreeSet
intersection s t = filter (λ x. contains x t) s

-- What each operation holds, in terms of its arguments.
pub contains-insert : (x y : ℕ) (s : BtreeSet) → contains y (insert x s) ≡ (y == x || contains y s)
unfolding contains insert
contains-insert x y [] = refl
contains-insert x y (z ∷ s) = ground (arith, contains-insert x y s)

pub contains-filter :
    (p : ℕ → Bool) (y : ℕ) (s : List ℕ) → contains y (filter p s) ≡ (p y && contains y s)
unfolding contains
contains-filter p y [] = ground arith
contains-filter p y (z ∷ s) = elim (Bool-cases (y == z)) [
  | inl e ↦ rw ((==_iff y z).0 e) (ground (arith, contains-filter p z s))
  | inr e ↦ ground (arith, contains-filter p y s)
]

pub contains-remove :
    (x y : ℕ) (s : BtreeSet) → contains y (remove x s) ≡ (not (y == x) && contains y s)
unfolding remove
contains-remove x y s = contains-filter (λ z. not (z == x)) y s

pub contains-insert_all :
    (xs : List ℕ) (y : ℕ) (s : BtreeSet)
    → contains y (insert_all xs s) ≡ (contains y xs || contains y s)
unfolding insert_all contains
contains-insert_all [] y s = refl
contains-insert_all (x ∷ xs) y s =
    ground (arith, contains-insert_all xs y (insert x s), contains-insert x y s)

pub contains-remove_all :
    (xs : List ℕ) (y : ℕ) (s : BtreeSet)
    → contains y (remove_all xs s) ≡ (not (contains y xs) && contains y s)
unfolding remove_all contains
contains-remove_all [] y s = refl
contains-remove_all (x ∷ xs) y s =
    ground (arith, contains-remove_all xs y (remove x s), contains-remove x y s)

pub contains-union :
    (y : ℕ) (s t : BtreeSet) → contains y (union s t) ≡ (contains y t || contains y s)
unfolding union
contains-union y s t = contains-insert_all t y s

pub contains-difference :
    (y : ℕ) (s t : BtreeSet) → contains y (difference s t) ≡ (not (contains y t) && contains y s)
unfolding difference
contains-difference y s t = contains-filter (λ x. not (contains x t)) y s

pub contains-intersection :
    (y : ℕ) (s t : BtreeSet) → contains y (intersection s t) ≡ (contains y t && contains y s)
unfolding intersection
contains-intersection y s t = contains-filter (λ x. contains x t) y s

pub ruleset set_laws = (
  contains-insert, contains-filter, contains-remove, contains-insert_all, contains-remove_all,
  contains-union, contains-difference, contains-intersection,
)
