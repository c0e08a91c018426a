-- ===== src/StorageProvider/Partition/Upkeep/Early.antt =====
-- What a termination records as early terminated.
use polka_storage.Base.{
  ℕ, if◌then◌else◌, some, ◌==◌, ◌≡◌, ◌≢◌, refl, ap, ◌∙◌, false, List, filter, is_empty, arith,
  ==_refl,
}
use polka_storage.Btree.Set.{BtreeSet}
use polka_storage.Btree.Set
use polka_storage.Btree.Map.{BtreeMap, get-insert}
use polka_storage.Btree.Map
use polka_storage.Btree.Bounded.{Bounded}
use polka_storage.StorageProvider.Outcome.{ok, expect, ensure}
use polka_storage.StorageProvider.Outcome.Inversion.{bind_inverts, ok_inverts}
use polka_storage.StorageProvider.Sector.{SectorOnChainInfo, max_sectors}
use polka_storage.StorageProvider.ExpirationSet.{ExpirationSet}
use polka_storage.StorageProvider.ExpirationQueue.Removal.{remove_sectors}
use polka_storage.StorageProvider.ExpirationQueue.Removal.Origin.{in_set}
use polka_storage.StorageProvider.Partition.{Partition, live_sectors}
use polka_storage.StorageProvider.Partition.Termination.{
  record_early_terminations, clear_terminated, terminate_sectors,
}
use polka_storage.StorageProvider.Partition.Upkeep.{gone_is}

module _ (bounded : Bounded) where
  -- Recording terminations at a block replaces those that were recorded there before: they are not
  -- joined. Other blocks stay as they were.
  record_early_terminations_replaces :
      (block : ℕ) (gone : BtreeSet) (p p' : Partition)
      → record_early_terminations bounded block gone p ≡ ok p'
      → (other : ℕ)
      → Map.get other p'.early_terminations
        ≡ (if other == block then some gone else Map.get other p.early_terminations)
  unfolding record_early_terminations
  record_early_terminations_replaces block gone p p' h other =
      let (early, e, last) =
        bind_inverts
          (expect (bounded.map_try_insert BtreeSet max_sectors block gone p.early_terminations)) _
          p' h in
      let law = bounded.map_try_insert_law BtreeSet max_sectors block gone p.early_terminations in
      let same : early ≡ Map.insert block gone p.early_terminations = ground (arith, e, law) in
      rw (← ok_inverts _ p' last, same, get-insert block other gone p.early_terminations)

  clear_terminated-early :
      (gone : BtreeSet) (p p' : Partition)
      → clear_terminated bounded gone p ≡ ok p'
      → p'.early_terminations ≡ p.early_terminations
  unfolding clear_terminated
  clear_terminated-early gone p p' h =
      let (faults, _, h1) =
        bind_inverts (expect (bounded.set_try_from max_sectors (Set.difference p.faults gone))) _ p'
          h in
      let (recoveries, _, h2) =
        bind_inverts (expect (bounded.set_try_from max_sectors (Set.difference p.recoveries gone)))
          _ p' h1 in
      let (terminated, _, h3) =
        bind_inverts (expect (bounded.set_try_from max_sectors (Set.union p.terminated gone))) _ p'
          h2 in
      let (unproven, _, h4) =
        bind_inverts
          (expect (
            bounded.set_try_from max_sectors
              (Set.difference p.unproven (Set.intersection gone p.unproven))))
          _ p' h3 in
      rw (← ok_inverts _ p' h4) refl

  -- Whatever was recorded before, after a successful termination the early terminations of its block
  -- are exactly the sectors that this call took out of the queue: those of an earlier termination in
  -- the same block are not joined, but lost. Other blocks stay as they were.
  pub terminate_sectors_replaces :
      (block : ℕ) (sectors : List SectorOnChainInfo) (sector_numbers : BtreeSet)
      (removed : ExpirationSet) (p p' : Partition)
      → terminate_sectors bounded block sectors sector_numbers p ≡ ok (removed, p')
      → (gone : BtreeSet) × (Map.get block p'.early_terminations ≡ some gone)
        × ((x : ℕ) → Set.contains x gone ≡ in_set x removed)
        × ((other : ℕ)
            → other ≢ block
            → Map.get other p'.early_terminations ≡ Map.get other p.early_terminations)
  unfolding terminate_sectors live_sectors
  terminate_sectors_replaces block sectors sector_numbers removed p p' h =
      let out : ExpirationSet × Partition = (removed, p') in
      let (live, _, h1) =
        bind_inverts
          (expect (bounded.set_try_from max_sectors (Set.difference p.sectors p.terminated))) _ out
          h in
      let (_, _, h2) =
        bind_inverts (ensure (is_empty (Set.difference sector_numbers live)) _) _ out h1 in
      let ((removed2, q), _, h3) =
        bind_inverts
          (remove_sectors bounded
            (filter (λ s. Set.contains s.sector_number sector_numbers) sectors) p.faults
            p.expirations)
          _ out h2 in
      let both = Set.union removed2.on_time_sectors removed2.early_sectors in
      let (gone, e4, h4) = bind_inverts (expect (bounded.set_try_from max_sectors both)) _ out h3 in
      let p1 : Partition = record p { expirations = q } in
      let (p2, e5, h5) = bind_inverts (record_early_terminations bounded block gone p1) _ out h4 in
      let (p3, e6, h6) = bind_inverts (clear_terminated bounded gone p2) _ out h5 in
      let last = ok_inverts (removed2, p3) out h6 in
      let same_removed : removed2 ≡ removed = ap (λ (r : ExpirationSet × Partition). r.0) last in
      let same : p3 ≡ p' = ap (λ (r : ExpirationSet × Partition). r.1) last in
      let kept = clear_terminated-early gone p2 p3 e6 in
      let replaced = record_early_terminations_replaces block gone p1 p2 e5 in
      (
        gone,
        rw (← same, kept) (replaced block ∙ rw (==_refl block) refl),
        rw (← same_removed) (gone_is bounded removed2 gone e4),
        λ other apart.
            let differs : (other == block) ≡ false = ground (arith, apart) in
            rw (← same, kept) (replaced other ∙ rw differs refl),
      )
