-- ===== src/Btree/Bounded.antt =====
-- `BoundedBTreeSet`, `BoundedBTreeMap` and `BoundedVec` (of the `bounded-collections` crate), which the pallets
-- store, and what their documentation promises. The crate is not part of the repository, so its
-- fallible operations are an instance argument of what uses them.
use polka_storage.Base.{
  ℕ, ◌≡◌, refl, Option, none, some, List, [], ◌∷◌, ◌++◌, leb, ltb, length, if◌then◌else◌, if_some,
}
use polka_storage.Btree.Set.{BtreeSet}
use polka_storage.Btree.Set
use polka_storage.Btree.Map.{BtreeMap}
use polka_storage.Btree.Map

-- "Exactly the same semantics as `insert`, but returns an `Err` (and is a noop) if the new length of
-- the collection exceeds `S`." `try_from` fails if the collection is longer than `S`.
pub record Bounded : Type 1 where
  pub set_try_insert : ℕ → ℕ → BtreeSet → Option BtreeSet
  pub set_try_from : ℕ → BtreeSet → Option BtreeSet
  pub map_try_insert : (V : Type 0) → ℕ → ℕ → V → BtreeMap V → Option (BtreeMap V)
  pub map_try_from : (V : Type 0) → ℕ → BtreeMap V → Option (BtreeMap V)
  pub vec_try_push : (A : Type 0) → ℕ → A → List A → Option (List A)
  pub set_try_insert_law :
      (b x : ℕ) (s : BtreeSet)
      → set_try_insert b x s
        ≡ (if leb (length (Set.insert x s)) b then some (Set.insert x s) else none)
  pub set_try_from_law :
      (b : ℕ) (s : BtreeSet) → set_try_from b s ≡ (if leb (length s) b then some s else none)
  pub map_try_insert_law :
      (V : Type 0) (b k : ℕ) (v : V) (m : BtreeMap V)
      → map_try_insert V b k v m
        ≡ (if leb (length (Map.insert k v m)) b then some (Map.insert k v m) else none)
  pub map_try_from_law :
      (V : Type 0) (b : ℕ) (m : BtreeMap V)
      → map_try_from V b m ≡ (if leb (length m) b then some m else none)
  pub vec_try_push_law :
      (A : Type 0) (b : ℕ) (x : A) (xs : List A)
      → vec_try_push A b x xs ≡ (if ltb (length xs) b then some (xs ++ x ∷ []) else none)

-- What an operation that succeeded gives.
module _ (bounded : Bounded) where
  pub set_try_insert_inverts :
      (b x : ℕ) (s s' : BtreeSet) → bounded.set_try_insert b x s ≡ some s' → s' ≡ Set.insert x s
  set_try_insert_inverts b x s s' h =
      if_some _ (Set.insert x s) s' (rw (bounded.set_try_insert_law b x s) at h)

  pub map_try_insert_inverts :
      {V : Type 0} (b k : ℕ) (v : V) (m m' : BtreeMap V)
      → bounded.map_try_insert V b k v m ≡ some m'
      → m' ≡ Map.insert k v m
  map_try_insert_inverts {V} b k v m m' h =
      if_some _ (Map.insert k v m) m' (rw (bounded.map_try_insert_law V b k v m) at h)

  pub vec_try_push_inverts :
      {A : Type 0} (b : ℕ) (x : A) (xs ys : List A)
      → bounded.vec_try_push A b x xs ≡ some ys
      → ys ≡ xs ++ x ∷ []
  vec_try_push_inverts {A} b x xs ys h =
      if_some _ (xs ++ x ∷ []) ys (rw (bounded.vec_try_push_law A b x xs) at h)

-- An implementation, at which the properties are exercised.
abbrev pub reference_bounded : Bounded
reference_bounded = record {
  set_try_insert = λ b x s. if leb (length (Set.insert x s)) b then some (Set.insert x s) else none;
  set_try_from = λ b s. if leb (length s) b then some s else none;
  map_try_insert =
      λ V b k v m. if leb (length (Map.insert k v m)) b then some (Map.insert k v m) else none;
  map_try_from = λ V b m. if leb (length m) b then some m else none;
  vec_try_push = λ A b x xs. if ltb (length xs) b then some (xs ++ x ∷ []) else none;
  set_try_insert_law = λ b x s. refl;
  set_try_from_law = λ b s. refl;
  map_try_insert_law = λ V b k v m. refl;
  map_try_from_law = λ V b m. refl;
  vec_try_push_law = λ A b x xs. refl;
}
