-- ===== src/StorageProvider/ExpirationQueue/Due.antt =====
-- `pop_until` takes what is due out of the queue, and nothing else.
use polka_storage.Base.{
  ℕ, ◌≡◌, refl, ap, Bool, false, ◌||◌, ◌&&◌, ◌==◌, leb, none, List, [], ◌∷◌, map, filter, arith,
  if◌then◌else◌, Bool-cases, inl, inr, ==_iff,
}
use polka_storage.Btree.Set.{BtreeSet, contains-insert}
use polka_storage.Btree.Set
use polka_storage.Btree.Map.{BtreeMap, get-remove}
use polka_storage.Btree.Map
use polka_storage.Btree.Bounded.{Bounded}
use polka_storage.StorageProvider.Outcome.{GeneralPalletError, ok, ok_or}
use polka_storage.StorageProvider.Outcome.Inversion.{bind_inverts, ok_inverts}
use polka_storage.StorageProvider.Sector.{max_sectors}
use polka_storage.StorageProvider.ExpirationSet.{ExpirationSet, empty_set, try_insert_each}
use polka_storage.StorageProvider.ExpirationSet
use polka_storage.StorageProvider.ExpirationQueue.{ExpirationQueue, pop_loop, due_until, pop_until}

-- Some set of the entries has the sector, on time or early.
abbrev pub on_time_in : ℕ → List (ℕ × ExpirationSet) → Bool
on_time_in x [] = false
on_time_in x ((_, s) ∷ q) = Set.contains x s.on_time_sectors || on_time_in x q

abbrev pub early_in : ℕ → List (ℕ × ExpirationSet) → Bool
early_in x [] = false
early_in x ((_, s) ∷ q) = Set.contains x s.early_sectors || early_in x q

module _ (bounded : Bounded) where
  pub contains-try_insert_each :
      (e : GeneralPalletError) (xs s t : List ℕ) (x : ℕ)
      → try_insert_each bounded e xs s ≡ ok t
      → Set.contains x t ≡ (Set.contains x xs || Set.contains x s)
  unfolding try_insert_each Set.contains
  contains-try_insert_each e [] s t x h = ground arith
  contains-try_insert_each e (n ∷ xs) s t x h =
      let (s1, e1, rest) = bind_inverts (ok_or (bounded.set_try_insert max_sectors n s) e) _ t h in
      ground (
        arith,
        e1,
        bounded.set_try_insert_law max_sectors n s,
        contains-insert n x s,
        contains-try_insert_each e xs s1 t x rest,
      )

  add-contains :
      (on early : List ℕ) (s t : ExpirationSet) (x : ℕ)
      → ExpirationSet.add bounded on early s ≡ ok t
      → (Set.contains x t.on_time_sectors ≡ (Set.contains x on || Set.contains x s.on_time_sectors))
        × (Set.contains x t.early_sectors
            ≡ (Set.contains x early || Set.contains x s.early_sectors))
  unfolding ExpirationSet.add
  add-contains on early s t x h =
      let (a, e1, h1) = bind_inverts (try_insert_each bounded _ on s.on_time_sectors) _ t h in
      let (b, e2, h2) = bind_inverts (try_insert_each bounded _ early s.early_sectors) _ t h1 in
      let same = ok_inverts _ t h2 in
      rw (← same) (
        contains-try_insert_each _ on s.on_time_sectors a x e1,
        contains-try_insert_each _ early s.early_sectors b x e2,
      )

  pop_loop-contains :
      (due : List (ℕ × ExpirationSet)) (s t : ExpirationSet) (x : ℕ)
      → pop_loop bounded due s ≡ ok t
      → (Set.contains x t.on_time_sectors ≡ (on_time_in x due || Set.contains x s.on_time_sectors))
        × (Set.contains x t.early_sectors ≡ (early_in x due || Set.contains x s.early_sectors))
  unfolding pop_loop
  pop_loop-contains [] s t x h = rw (← ok_inverts s t h) (refl, refl)
  pop_loop-contains ((block, d) ∷ due) s t x h =
      let (s1, e1, rest) =
        bind_inverts (ExpirationSet.add bounded d.on_time_sectors d.early_sectors s) _ t h in
      ground (
        arith,
        add-contains d.on_time_sectors d.early_sectors s s1 x e1,
        pop_loop-contains due s1 t x rest,
      )

get-remove_all :
    (ks : List ℕ) (k : ℕ) (q : ExpirationQueue)
    → Map.get k (Map.remove_all ks q) ≡ (if Set.contains k ks then none else Map.get k q)
unfolding Map.remove_all Set.contains
get-remove_all [] k q = refl
get-remove_all (j ∷ ks) k q = ground (arith, get-remove_all ks k (Map.remove j q), get-remove j k q)

contains-due :
    (until k : ℕ) (q : ExpirationQueue)
    → Set.contains k (map (λ e. e.0) (due_until until q)) ≡ (leb k until && Map.contains_key k q)
unfolding due_until Set.contains Map.contains_key
contains-due until k [] = ground arith
contains-due until k ((j, s) ∷ q) = elim (Bool-cases (k == j)) [
  | inl e ↦ let same = (==_iff k j).0 e in rw same (ground (arith, contains-due until j q))
  | inr e ↦ ground (arith, contains-due until k q)
]

get-contains_key : (k : ℕ) (q : ExpirationQueue) → Map.contains_key k q ≡ false → Map.get k q ≡ none
unfolding Map.get Map.contains_key
get-contains_key k [] h = refl
get-contains_key k ((j, s) ∷ q) h = ground (arith, get-contains_key k q)

-- Where it succeeds, `pop_until` pops the sectors of all sets up to the block, on time and
-- early, and leaves in the queue exactly the sets after it, as they were.
pub pop_until_exact :
    (bounded : Bounded) (until : ℕ) (q q' : ExpirationQueue) (popped : ExpirationSet)
    → pop_until bounded until q ≡ ok (popped, q')
    → ((x : ℕ)
        → (Set.contains x popped.on_time_sectors ≡ on_time_in x (filter (λ e. leb e.0 until) q))
          × (Set.contains x popped.early_sectors ≡ early_in x (filter (λ e. leb e.0 until) q)))
      × ((block : ℕ) → Map.get block q' ≡ (if leb block until then none else Map.get block q))
unfolding pop_until due_until Set.contains
pop_until_exact bounded until q q' popped h =
    let out : ExpirationSet × ExpirationQueue = (popped, q') in
    let due = filter (λ e. leb e.0 until) q in
    let (t, e1, h1) = bind_inverts (pop_loop bounded due empty_set) _ out h in
    let last = ok_inverts _ out h1 in
    let same : t ≡ popped = ap (λ (r : ExpirationSet × ExpirationQueue). r.0) last in
    let rest : Map.remove_all (map (λ e. e.0) due) q ≡ q' =
      ap (λ (r : ExpirationSet × ExpirationQueue). r.1) last in
    (
      λ x. rw (← same) (ground (arith, pop_loop-contains bounded due empty_set t x e1)),
      λ block. rw (← rest) (
          ground (
            arith,
            get-remove_all (map (λ e. e.0) due) block q,
            contains-due until block q,
            get-contains_key block q,
          )),
    )
