-- ===== src/StorageProvider/Pallet/Grouping.antt =====
-- The declarations of a call, grouped by deadline and partition.
use polka_storage.Base.{ℕ, ◌≡◌, refl, Bool, true, false, ◌&&◌, ◌||◌, List, [], ◌∷◌, ◌==◌}
use polka_storage.Btree.Set
use polka_storage.Btree.Map
use polka_storage.StorageProvider.SectorMap.{DeadlineSectorMap, new_sector_map}
use polka_storage.StorageProvider.SectorMap.Declared.{
  sectors_at, sectors_in, partitions_of, try_insert-contains,
}
use polka_storage.StorageProvider.Pallet.{Config, Pallet, Declaration}
use polka_storage.StorageProvider.Pallet.Monad.{ok}
use polka_storage.StorageProvider.Pallet.Monad.Holds.{
  Holds, Holds-bind, Holds-imp, Holds-value, Holds-pure, Holds-ensure, Holds-lift,
}
use polka_storage.StorageProvider.Pallet.Declare.{group_declarations}

-- Whether a sector is declared, for a partition of a deadline.
unfoldable pub is_declared : ℕ → ℕ → ℕ → List Declaration → Bool
is_declared deadline partition sector [] = false
is_declared deadline partition sector (term ∷ terms) =
    deadline == term.deadline && (partition == term.partition && Set.contains sector term.sectors)
    || is_declared deadline partition sector terms

or_turned : (a b x : Bool) → (b || (a || x)) ≡ (a || b || x)
or_turned true true x = refl
or_turned true false x = refl
or_turned false true x = refl
or_turned false false x = refl

or_false : (a : Bool) → (a || false) ≡ a
or_false true = refl
or_false false = refl

module _ (c : Config) (deadline partition sector : ℕ) where
  Groups : List Declaration → DeadlineSectorMap → DeadlineSectorMap → Type 0
  Groups terms m m' = Set.contains sector (sectors_at deadline partition m') ≡ (
      is_declared deadline partition sector terms
      || Set.contains sector (sectors_at deadline partition m))

  Holds-group_declarations :
      (terms : List Declaration) (m : DeadlineSectorMap)
      → Holds (λ (p : Pallet c). Unit {0}) (λ m'. Groups terms m m') (group_declarations c terms m)
  unfolding group_declarations is_declared Groups
  Holds-group_declarations [] m = Holds-pure m refl
  Holds-group_declarations (t ∷ terms) m = Holds-bind _ _ (Holds-ensure _ _) (λ _ _.
      Holds-bind _ _
        (Holds-lift _ (λ m1 e.
          try_insert-contains c.bounded t.deadline t.partition t.sectors m m1 deadline partition
            sector e))
        (λ m1 h.
          Holds-imp {Q = Groups terms m1} _
            (λ m2 k.
              rw (k, h)
                (or_turned
                  (deadline == t.deadline
                    && (partition == t.partition && Set.contains sector t.sectors))
                  (is_declared deadline partition sector terms)
                  (Set.contains sector (sectors_at deadline partition m))))
            (Holds-group_declarations terms m1)))

  -- Where the declarations of a call are grouped without an error, the group of a partition of a
  -- deadline has exactly the sectors that some declaration names for that partition.
  pub group_declarations_sound :
      (terms : List Declaration) (m : DeadlineSectorMap) (p p' : Pallet c)
      → group_declarations c terms new_sector_map p ≡ (ok m, p')
      → Set.contains sector (sectors_at deadline partition m)
        ≡ is_declared deadline partition sector terms
  unfolding Groups sectors_at sectors_in partitions_of Map.get Set.contains
  group_declarations_sound terms m p p' e =
      let grouped = Holds-value _ p p' m (Holds-group_declarations terms new_sector_map) tt e in
      rw grouped (or_false (is_declared deadline partition sector terms))
