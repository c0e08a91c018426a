-- ===== src/StorageProvider/Partition/Upkeep.antt =====
-- Terminations, faults and expirations keep a partition's sets consistent.
pub mod Early
use polka_storage.Base.{
  ℕ, if◌then◌else◌, some, ◌==◌, ◌≡◌, refl, sym, ap, ◌∙◌, Bool, true, false, ◌&&◌, ◌||◌, not, ◌==◌,
  List, [], ◌∷◌, filter, is_empty, arith, Bool-cases, inl, inr, ==_iff,
}
use polka_storage.Btree.Set.{
  BtreeSet, contains-insert, contains-union, contains-difference, contains-intersection,
  contains-insert_all, contains-remove_all, contains-filter,
}
use polka_storage.Btree.Set
use polka_storage.Btree.Map.{BtreeMap, get-insert}
use polka_storage.Btree.Map
use polka_storage.Btree.Bounded.{Bounded}
use polka_storage.StorageProvider.Outcome.{ok, expect, ensure}
use polka_storage.StorageProvider.Outcome.Inversion.{bind_inverts, ensure_inverts, ok_inverts}
use polka_storage.StorageProvider.Sector.{SectorOnChainInfo, max_sectors}
use polka_storage.StorageProvider.ExpirationSet.{ExpirationSet}
use polka_storage.StorageProvider.ExpirationQueue.{ExpirationQueue}
use polka_storage.StorageProvider.ExpirationQueue.Removal.{remove_sectors}
use polka_storage.StorageProvider.ExpirationQueue.Removal.Origin.{in_set, remove_sectors-within}
use polka_storage.StorageProvider.Partition.{Partition, live_sectors}
use polka_storage.StorageProvider.Partition.Consistency.{IsConsistent, numbers}
use polka_storage.StorageProvider.Partition.Termination.{
  record_early_terminations, clear_terminated, terminate_sectors,
}

pub is_empty-contains : (s : List ℕ) → is_empty s ≡ true → (x : ℕ) → Set.contains x s ≡ false
unfolding Set.contains
is_empty-contains [] h x = refl
is_empty-contains (y ∷ s) h x = absurd (cc)

chosen-contains :
    (chosen : BtreeSet) (x : ℕ) (sectors : List SectorOnChainInfo)
    → Set.contains x (numbers (filter (λ s. Set.contains s.sector_number chosen) sectors)) ≡ true
    → Set.contains x chosen ≡ true
unfolding Set.contains
chosen-contains chosen x [] h = absurd (cc)
chosen-contains chosen x (s ∷ sectors) h = elim (Bool-cases (x == s.sector_number)) [
  | inl e ↦
      let same = (==_iff x s.sector_number).0 e in
      rw same (ground (arith, h, same, chosen-contains chosen x sectors))
  | inr e ↦ ground (arith, chosen-contains chosen x sectors)
]

not_both : (a b : Bool) → (not (b && a) && b) ≡ (not a && b)
not_both a b = ground arith

module _ (bounded : Bounded) where
  -- A termination that succeeds: all of `sector_numbers` were live, and what the queue gave up is
  -- now terminated and nothing else.
  pub record Terminates (sector_numbers : BtreeSet) (removed : ExpirationSet) (p p' : Partition)
      : Type 0 where
    pub live :
        (x : ℕ)
        → Set.contains x sector_numbers ≡ true
        → (Set.contains x p.sectors ≡ true) × (Set.contains x p.terminated ≡ false)
    pub chosen : (x : ℕ) → in_set x removed ≡ true → Set.contains x sector_numbers ≡ true
    pub sectors : p'.sectors ≡ p.sectors
    pub terminated :
        (x : ℕ) → Set.contains x p'.terminated ≡ (in_set x removed || Set.contains x p.terminated)
    pub faults :
        (x : ℕ) → Set.contains x p'.faults ≡ (not (in_set x removed) && Set.contains x p.faults)
    pub recoveries :
        (x : ℕ)
        → Set.contains x p'.recoveries ≡ (not (in_set x removed) && Set.contains x p.recoveries)
    pub unproven :
        (x : ℕ) → Set.contains x p'.unproven ≡ (not (in_set x removed) && Set.contains x p.unproven)

  pub try_from_same : (s t : BtreeSet) → expect (bounded.set_try_from max_sectors s) ≡ ok t → t ≡ s
  try_from_same s t h = ground (arith, bounded.set_try_from_law max_sectors s)

  pub record_early_terminations-keeps :
      (block : ℕ) (gone : BtreeSet) (p p' : Partition)
      → record_early_terminations bounded block gone p ≡ ok p'
      → (early : BtreeMap BtreeSet) × (p' ≡ record p { early_terminations = early })
  unfolding record_early_terminations
  record_early_terminations-keeps block gone p p' h =
      let (early, _, last) =
        bind_inverts
          (expect (bounded.map_try_insert BtreeSet max_sectors block gone p.early_terminations)) _
          p' h in
      (early, cc)

  live_of :
      (live sector_numbers : BtreeSet) (p : Partition)
      → expect (bounded.set_try_from max_sectors (Set.difference p.sectors p.terminated)) ≡ ok live
      → is_empty (Set.difference sector_numbers live) ≡ true
      → (x : ℕ) → Set.contains x sector_numbers ≡ true
      → (Set.contains x p.sectors ≡ true) × (Set.contains x p.terminated ≡ false)
  live_of live sector_numbers p h e x k =
      let same = try_from_same _ live h in
      ground (
        arith,
        is_empty-contains (Set.difference sector_numbers live) e x,
        contains-difference x sector_numbers live,
        contains-difference x p.sectors p.terminated,
      )

  -- The sets that `clear_terminated` leaves.
  record Clears (gone : BtreeSet) (p p' : Partition) : Type 0 where
    sectors : p'.sectors ≡ p.sectors
    terminated : p'.terminated ≡ Set.union p.terminated gone
    faults : p'.faults ≡ Set.difference p.faults gone
    recoveries : p'.recoveries ≡ Set.difference p.recoveries gone
    unproven : p'.unproven ≡ Set.difference p.unproven (Set.intersection gone p.unproven)

  clear_terminated-Clears :
      (gone : BtreeSet) (p p' : Partition)
      → clear_terminated bounded gone p ≡ ok p'
      → Clears gone p p'
  unfolding clear_terminated
  clear_terminated-Clears gone p p' h =
      let (faults, e6, h6) =
        bind_inverts (expect (bounded.set_try_from max_sectors (Set.difference p.faults gone))) _ p'
          h in
      let (recoveries, e7, h7) =
        bind_inverts (expect (bounded.set_try_from max_sectors (Set.difference p.recoveries gone)))
          _ p' h6 in
      let (terminated, e8, h8) =
        bind_inverts (expect (bounded.set_try_from max_sectors (Set.union p.terminated gone))) _ p'
          h7 in
      let (unproven, e9, h9) =
        bind_inverts
          (expect (
            bounded.set_try_from max_sectors
              (Set.difference p.unproven (Set.intersection gone p.unproven))))
          _ p' h8 in
      let result = sym (ok_inverts _ p' h9) in
      record {
        sectors = ap (λ (r : Partition). r.sectors) result;
        terminated = ap (λ (r : Partition). r.terminated) result ∙ try_from_same _ terminated e8;
        faults = ap (λ (r : Partition). r.faults) result ∙ try_from_same _ faults e6;
        recoveries = ap (λ (r : Partition). r.recoveries) result ∙ try_from_same _ recoveries e7;
        unproven = ap (λ (r : Partition). r.unproven) result ∙ try_from_same _ unproven e9;
      }

  -- What `clear_terminated` leaves of a partition whose queue and early terminations have changed.
  Clears-Terminates :
      (sector_numbers gone : BtreeSet) (removed : ExpirationSet) (p p' : Partition)
      → ((x : ℕ)
          → Set.contains x sector_numbers ≡ true
          → (Set.contains x p.sectors ≡ true) × (Set.contains x p.terminated ≡ false))
      → ((x : ℕ) → in_set x removed ≡ true → Set.contains x sector_numbers ≡ true)
      → ((x : ℕ) → Set.contains x gone ≡ in_set x removed)
      → Clears gone p p'
      → Terminates sector_numbers removed p p'
  Clears-Terminates sector_numbers gone removed p p' live chosen gone_is k = record {
    live = live;
    chosen = chosen;
    sectors = k.sectors;
    terminated = λ x. rw (k.terminated, contains-union x p.terminated gone, gone_is x);
    faults = λ x. rw (k.faults, contains-difference x p.faults gone, gone_is x);
    recoveries = λ x. rw (k.recoveries, contains-difference x p.recoveries gone, gone_is x);
    unproven = λ x.
        rw
          (
            k.unproven,
            contains-difference x p.unproven (Set.intersection gone p.unproven),
            contains-intersection x gone p.unproven,
            gone_is x,
          )
          (not_both (in_set x removed) (Set.contains x p.unproven));
  }

  Terminates-same :
      (sector_numbers : BtreeSet) (removed removed' : ExpirationSet) (p p' p'' : Partition)
      → ◌≡◌ {A = ExpirationSet × Partition} (removed, p') (removed', p'')
      → Terminates sector_numbers removed p p'
      → Terminates sector_numbers removed' p p''
  Terminates-same sector_numbers removed removed' p p' p'' e t =
      let one : removed' ≡ removed = cc in let two : p'' ≡ p' = cc in rw (one, two) t

  gone_is :
      (removed : ExpirationSet) (gone : BtreeSet)
      → expect (
          bounded.set_try_from max_sectors
            (Set.union removed.on_time_sectors removed.early_sectors))
        ≡ ok gone
      → (x : ℕ) → Set.contains x gone ≡ in_set x removed
  gone_is removed gone h x =
      let both = Set.union removed.on_time_sectors removed.early_sectors in
      rw (try_from_same both gone h)
        (ground (arith, contains-union x removed.on_time_sectors removed.early_sectors))

  Clears-of :
      (early : BtreeMap BtreeSet) (q : ExpirationQueue) (gone : BtreeSet) (p p2 p3 : Partition)
      → p2 ≡ record p { expirations = q; early_terminations = early }
      → Clears gone p2 p3
      → Clears gone p p3
  Clears-of early q gone p p2 p3 kept k = record {
    sectors = k.sectors ∙ ap (λ (r : Partition). r.sectors) kept;
    terminated = k.terminated ∙ ap (λ (r : Partition). Set.union r.terminated gone) kept;
    faults = k.faults ∙ ap (λ (r : Partition). Set.difference r.faults gone) kept;
    recoveries = k.recoveries ∙ ap (λ (r : Partition). Set.difference r.recoveries gone) kept;
    unproven =
        k.unproven
        ∙ ap (λ (r : Partition). Set.difference r.unproven (Set.intersection gone r.unproven)) kept;
  }

  -- A termination that succeeds takes only sectors that were given, and all given sectors were live.
  -- What it takes out of the queue, and nothing else, becomes terminated, and is no longer faulty,
  -- recovering or unproven; the sectors stay the same.
  pub terminate_sectors-Terminates :
      (block : ℕ) (sectors : List SectorOnChainInfo) (sector_numbers : BtreeSet)
      (removed : ExpirationSet) (p p' : Partition)
      → terminate_sectors bounded block sectors sector_numbers p ≡ ok (removed, p')
      → Terminates sector_numbers removed p p'
  unfolding terminate_sectors live_sectors
  terminate_sectors-Terminates block sectors sector_numbers removed p p' h =
      let out : ExpirationSet × Partition = (removed, p') in
      let (live, e1, h1) =
        bind_inverts
          (expect (bounded.set_try_from max_sectors (Set.difference p.sectors p.terminated))) _ out
          h in
      let (_, e2, h2) =
        bind_inverts (ensure (is_empty (Set.difference sector_numbers live)) _) _ out h1 in
      let ((removed2, q), e3, h3) =
        bind_inverts
          (remove_sectors bounded
            (filter (λ s. Set.contains s.sector_number sector_numbers) sectors) p.faults
            p.expirations)
          _ out h2 in
      let both = Set.union removed2.on_time_sectors removed2.early_sectors in
      let (gone, e4, h4) = bind_inverts (expect (bounded.set_try_from max_sectors both)) _ out h3 in
      let (p2, e5, h5) =
        bind_inverts (record_early_terminations bounded block gone (record p { expirations = q })) _
          out h4 in
      let (early, kept) =
        record_early_terminations-keeps block gone (record p { expirations = q }) p2 e5 in
      let (p3, e6, h6) = bind_inverts (clear_terminated bounded gone p2) _ out h5 in
      let last = ok_inverts (removed2, p3) out h6 in
      Terminates-same sector_numbers removed2 removed p p3 p' last (
        Clears-Terminates sector_numbers gone removed2 p p3
          (live_of live sector_numbers p e1 (ensure_inverts _ _ e2))
          (λ x k.
            chosen-contains sector_numbers x sectors
              (remove_sectors-within bounded x _ p.faults p.expirations q removed2 e3 k))
          (gone_is removed2 gone e4)
          (Clears-of early q gone p p2 p3 kept (clear_terminated-Clears gone p2 p3 e6)))

  pub terminate_sectors-IsConsistent :
      (block : ℕ) (sectors : List SectorOnChainInfo) (sector_numbers : BtreeSet)
      (removed : ExpirationSet) (p p' : Partition)
      → terminate_sectors bounded block sectors sector_numbers p ≡ ok (removed, p')
      → IsConsistent p
      → IsConsistent p'
  terminate_sectors-IsConsistent block sectors sector_numbers removed p p' h k x =
      let t = terminate_sectors-Terminates block sectors sector_numbers removed p p' h in
      rw t.sectors (
        ground (
          arith,
          k x,
          t.live x,
          t.chosen x,
          t.terminated x,
          t.faults x,
          t.recoveries x,
          t.unproven x,
        ))
