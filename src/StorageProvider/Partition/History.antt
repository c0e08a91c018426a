-- ===== src/StorageProvider/Partition/History.antt =====
-- What happens to a partition, as a step relation, and what every partition that is reached has.
use polka_storage.Base.{ℕ, ◌≡◌, Bool, true, List, is_empty, length, ◌==◌, arith, ap}
use polka_storage.Btree.Set.{BtreeSet, contains-union, contains-remove_all}
use polka_storage.Btree.Set
use polka_storage.Btree.Map.{BtreeMap}
use polka_storage.Btree.Bounded.{Bounded}
use polka_storage.StorageProvider.Outcome.{ok, ensure, expect}
use polka_storage.StorageProvider.Outcome.Inversion.{bind_inverts, ok_inverts, ensure_inverts}
use polka_storage.StorageProvider.Sector.{SectorOnChainInfo, max_sectors}
use polka_storage.StorageProvider.ExpirationSet.{ExpirationSet}
use polka_storage.StorageProvider.ExpirationQueue.{ExpirationQueue, pop_until}
use polka_storage.StorageProvider.Partition.{
  Partition, new_partition, add_sectors, record_faults, declare_faults_recovered,
  recover_all_declared_recoveries, activate_unproven,
}
use polka_storage.StorageProvider.Partition.Consistency.{
  IsConsistent, add_sectors-IsConsistent, declare_faults_recovered-IsConsistent,
  recover_all_declared_recoveries-IsConsistent,
}
use polka_storage.StorageProvider.Partition.Upkeep.{
  terminate_sectors-IsConsistent, record_early_terminations-keeps, try_from_same, is_empty-contains,
}
use polka_storage.StorageProvider.Partition.Faults.{IsKeyed, record_faults-IsConsistent}
use polka_storage.StorageProvider.Partition.Termination.{
  TerminationResult, terminate_sectors, pop_early_terminations, pop_expired_sectors,
  record_early_terminations, keep_remaining,
}

-- One call that succeeds. Faults are recorded with a sector map that has each sector under its
-- number.
pub data Step (bounded : Bounded) (p p' : Partition) : Type 0 where
  adds :
      (sectors : List SectorOnChainInfo) → add_sectors bounded sectors p ≡ ok p' → Step bounded p p'
  faults :
      (sectors : BtreeMap SectorOnChainInfo) (chosen : BtreeSet) (expiration : ℕ)
      (faulty : BtreeSet)
      → IsKeyed sectors
      → record_faults bounded sectors chosen expiration p ≡ ok (faulty, p')
      → Step bounded p p'
  declares :
      (declared : BtreeSet)
      → declare_faults_recovered bounded declared p ≡ ok p'
      → Step bounded p p'
  recovers :
      (sectors : BtreeMap SectorOnChainInfo)
      → recover_all_declared_recoveries bounded sectors p ≡ ok p'
      → Step bounded p p'
  activates : p' ≡ activate_unproven p → Step bounded p p'
  terminates :
      (block : ℕ) (sectors : List SectorOnChainInfo) (chosen : BtreeSet) (removed : ExpirationSet)
      → terminate_sectors bounded block sectors chosen p ≡ ok (removed, p')
      → Step bounded p p'
  reports :
      (limit : ℕ) (result : TerminationResult × Bool)
      → pop_early_terminations bounded limit p ≡ ok (result, p')
      → Step bounded p p'
  expires :
      (until : ℕ) (popped : ExpirationSet)
      → pop_expired_sectors bounded until p ≡ ok (popped, p')
      → Step bounded p p'

-- What calls lead to, from a new partition.
pub data Reached (bounded : Bounded) : Partition → Type 0 where
  starts : Reached bounded new_partition
  goes_on : {p p' : Partition} → Reached bounded p → Step bounded p p' → Reached bounded p'

module _ (bounded : Bounded) where
  activate_unproven-IsConsistent :
      (p : Partition) → IsConsistent p → IsConsistent (activate_unproven p)
  unfolding activate_unproven Set.contains
  activate_unproven-IsConsistent p k x = ground (arith, k x)

  new_partition-IsConsistent : IsConsistent new_partition
  unfolding Set.contains
  new_partition-IsConsistent x = ground arith

  pop_early_terminations-IsConsistent :
      (limit : ℕ) (result : TerminationResult × Bool) (p p' : Partition)
      → pop_early_terminations bounded limit p ≡ ok (result, p')
      → IsConsistent p
      → IsConsistent p'
  unfolding pop_early_terminations
  pop_early_terminations-IsConsistent limit result p p' h k =
      let out : (TerminationResult × Bool) × Partition = (result, p') in
      let (early, _, h1) = bind_inverts (keep_remaining bounded _ p.early_terminations) _ out h in
      let (left, _, h2) =
        bind_inverts (expect (bounded.map_try_from BtreeSet max_sectors _)) _ out h1 in
      let same : record p { early_terminations = left } ≡ p' =
        ap (λ (r : (TerminationResult × Bool) × Partition). r.1) (ok_inverts _ out h2) in
      λ x. rw (← same) (k x)

  -- The sets that an expiration leaves.
  expired-IsConsistent :
      (popped : ExpirationSet) (terminated : BtreeSet) (p : Partition)
      → is_empty p.unproven ≡ true
      → is_empty p.recoveries ≡ true
      → terminated ≡ Set.union p.terminated (Set.union popped.on_time_sectors popped.early_sectors)
      → (q : ExpirationQueue) → IsConsistent p
      → IsConsistent (record p {
        expirations = q;
        terminated = terminated;
        faults = Set.remove_all (Set.union popped.on_time_sectors popped.early_sectors) p.faults;
      })
  expired-IsConsistent popped terminated p proven unrecovered e q k x =
      let expired = Set.union popped.on_time_sectors popped.early_sectors in
      rw e (
        ground (
          arith,
          k x,
          is_empty-contains p.unproven proven x,
          is_empty-contains p.recoveries unrecovered x,
          contains-union x p.terminated expired,
          contains-union x popped.on_time_sectors popped.early_sectors,
          contains-remove_all expired x p.faults,
        ))

  pop_expired_sectors-IsConsistent :
      (until : ℕ) (popped : ExpirationSet) (p p' : Partition)
      → pop_expired_sectors bounded until p ≡ ok (popped, p')
      → IsConsistent p
      → IsConsistent p'
  unfolding pop_expired_sectors
  pop_expired_sectors-IsConsistent until popped p p' h k =
      let out : ExpirationSet × Partition = (popped, p') in
      let (_, e0, h0) = bind_inverts (ensure (is_empty p.unproven) _) _ out h in
      let ((popped1, q), e1, h1) = bind_inverts (pop_until bounded until p.expirations) _ out h0 in
      let expired = Set.union popped1.on_time_sectors popped1.early_sectors in
      let (_, e2, h2) = bind_inverts (ensure (is_empty p.recoveries) _) _ out h1 in
      let (_, e3, h3) =
        bind_inverts (ensure (length (Set.intersection p.terminated expired) == 0) _) _ out h2 in
      let (terminated, e4, h4) =
        bind_inverts (expect (bounded.set_try_from max_sectors (Set.union p.terminated expired))) _
          out h3 in
      let p1 : Partition = record p {
        expirations = q;
        terminated = terminated;
        faults = Set.remove_all expired p.faults;
      } in
      let (p2, e5, h5) =
        bind_inverts (record_early_terminations bounded until popped1.early_sectors p1) _ out h4 in
      let (early, kept) =
        record_early_terminations-keeps bounded until popped1.early_sectors p1 p2 e5 in
      let last = ok_inverts (popped1, p2) out h5 in
      let same : p2 ≡ p' = ap (λ (r : ExpirationSet × Partition). r.1) last in
      let after =
        expired-IsConsistent popped1 terminated p (ensure_inverts _ _ e0) (ensure_inverts _ _ e2)
          (try_from_same bounded _ terminated e4) q k in
      λ x. rw (← same, kept) (after x)

  Step-IsConsistent : (p p' : Partition) → Step bounded p p' → IsConsistent p → IsConsistent p'
  Step-IsConsistent p p' (adds sectors h) = add_sectors-IsConsistent bounded sectors p p' h
  Step-IsConsistent p p' (faults sectors chosen expiration faulty keyed h) =
      record_faults-IsConsistent bounded sectors chosen expiration faulty p p' h keyed
  Step-IsConsistent p p' (declares declared h) =
      declare_faults_recovered-IsConsistent bounded declared p p' h
  Step-IsConsistent p p' (recovers sectors h) =
      recover_all_declared_recoveries-IsConsistent bounded sectors p p' h
  Step-IsConsistent p p' (activates h) = λ k x. rw h (activate_unproven-IsConsistent p k x)
  Step-IsConsistent p p' (terminates block sectors chosen removed h) =
      terminate_sectors-IsConsistent bounded block sectors chosen removed p p' h
  Step-IsConsistent p p' (reports limit result h) =
      pop_early_terminations-IsConsistent limit result p p' h
  Step-IsConsistent p p' (expires until popped h) =
      pop_expired_sectors-IsConsistent until popped p p' h

  -- A partition that successful calls have led to from a new one is consistent: its faulty sectors
  -- are not terminated, only faulty sectors are recovering, and its unproven sectors are sectors of
  -- it. Faults are recorded with a sector map that has each sector under its number.
  pub Reached-IsConsistent : (p : Partition) → Reached bounded p → IsConsistent p
  Reached-IsConsistent _ starts = new_partition-IsConsistent
  Reached-IsConsistent _ (goes_on {p} {p'} r s) =
      Step-IsConsistent p p' s (Reached-IsConsistent p r)
