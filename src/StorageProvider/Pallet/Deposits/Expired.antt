-- ===== src/StorageProvider/Pallet/Deposits/Expired.antt =====
-- `check_precommited_sectors` takes from the total what the expired sectors had put in.
use polka_storage.Base.{
  ℕ, ◌+◌, ◌-◌, ◌≤◌, ◌≡◌, refl, true, false, ◌||◌, List, [], ◌∷◌, ◌++◌, length, ltb, leb, ◌==◌,
  if◌then◌else◌, arith, Bool-cases, inl, inr,
}
use polka_storage.Btree.Set
use polka_storage.Btree.Map.{BtreeMap}
use polka_storage.Btree.Map
use polka_storage.Market.Types.{checked_add, u128_mod}
use polka_storage.StorageProvider.Outcome.{ok, err, storage_provider_sector_not_found}
use polka_storage.StorageProvider.Sector.{SectorPreCommitOnChainInfo, max_sectors}
use polka_storage.StorageProvider.State.{StorageProviderState, remove_pre_committed_sector}
use polka_storage.StorageProvider.Pallet.{Config}
use polka_storage.StorageProvider.Pallet.Hooks.{
  detect_sector, detect_expired, detect_expired_precommit_sectors, remove_expired,
}
use polka_storage.StorageProvider.Pallet.Deposits.{
  deposited, kept, kept-nil, kept-remove, kept-absent, IsFunded,
}

contains-snoc :
    (x y : ℕ) (xs : List ℕ) → Set.contains y (xs ++ x ∷ []) ≡ (y == x || Set.contains y xs)
unfolding Set.contains
contains-snoc x y [] = ground arith
contains-snoc x y (z ∷ xs) = ground (arith, contains-snoc x y xs)

-- Which sectors were found, and no deposit but theirs.
record Found (n d : ℕ) (before after : List ℕ × ℕ) : Type 0 where
  grows : (y : ℕ) → Set.contains y before.0 ≡ true → Set.contains y after.0 ≡ true
  adds : after.1 + (if Set.contains n after.0 then 0 else d) ≤ before.1 + d

module _ (c : Config) (curr_block : ℕ) where
  Found-same : (n d : ℕ) (f : List ℕ × ℕ) → Found n d f f
  Found-same n d f = record { grows = λ y h. h; adds = ground arith }

  Found-push :
      (n d total : ℕ) (expired : List ℕ) (new : ℕ)
      → new ≤ total + d
      → Found n d (expired, total) (expired ++ n ∷ [], new)
  Found-push n d total expired new h = record {
    grows = λ y k. ground (arith, contains-snoc n y expired);
    adds = ground (arith, contains-snoc n n expired);
  }

  detect_sector-Found :
      (n : ℕ) (s : SectorPreCommitOnChainInfo) (found : List ℕ × ℕ)
      → Found n s.pre_commit_deposit found (detect_sector c curr_block n s found)
  unfolding detect_sector checked_add
  detect_sector-Found n s (expired, total) = elim (Bool-cases (leb s.info.expiration curr_block)) [
    | inr e ↦ rw e (Found-same n s.pre_commit_deposit (expired, total))
    | inl e ↦
        rw (e, c.bounded.vec_try_push_law ℕ max_sectors n expired)
          (elim (Bool-cases (ltb (length expired) max_sectors)) [
            | inr e2 ↦ rw e2 (Found-same n s.pre_commit_deposit (expired, total))
            | inl e2 ↦ rw e2 (elim (Bool-cases (ltb (total + s.pre_commit_deposit) u128_mod)) [
              | inl e3 ↦ rw e3 (
                  Found-push n s.pre_commit_deposit total expired (total + s.pre_commit_deposit)
                    (omega arith))
              | inr e3 ↦ rw e3 (Found-push n s.pre_commit_deposit total expired total (omega arith))
            ])
          ])
  ]

  detect_expired-grows :
      (m : BtreeMap SectorPreCommitOnChainInfo) (found : List ℕ × ℕ) (y : ℕ)
      → Set.contains y found.0 ≡ true
      → Set.contains y (detect_expired c curr_block m found).0 ≡ true
  unfolding detect_expired
  detect_expired-grows [] found y h = h
  detect_expired-grows ((n, s) ∷ m) found y h =
      detect_expired-grows m (detect_sector c curr_block n s found) y
        ((detect_sector-Found n s found).grows y h)

  -- What is to be slashed and what the other sectors have put in do not exceed all deposits.
  pub detect_expired-kept :
      (m : BtreeMap SectorPreCommitOnChainInfo) (found : List ℕ × ℕ)
      → (detect_expired c curr_block m found).1 + kept (detect_expired c curr_block m found).0 m
        ≤ found.1 + deposited m
  unfolding detect_expired kept deposited
  detect_expired-kept [] found = omega arith
  detect_expired-kept ((n, s) ∷ m) found =
      let next = detect_sector c curr_block n s found in
      let step = detect_sector-Found n s found in
      let later = detect_expired-grows m next n in
      ground (arith, detect_expired-kept m next, step.adds, later)

  remove-present :
      (n : ℕ) (sp : StorageProviderState c.PeerId)
      → Map.contains_key n sp.pre_committed_sectors ≡ true
      → remove_pre_committed_sector n sp
        ≡ ok (record sp { pre_committed_sectors = Map.remove n sp.pre_committed_sectors })
  unfolding remove_pre_committed_sector
  remove-present n sp e = rw e refl

  remove-absent :
      (n : ℕ) (sp : StorageProviderState c.PeerId)
      → Map.contains_key n sp.pre_committed_sectors ≡ false
      → remove_pre_committed_sector n sp ≡ err storage_provider_sector_not_found
  unfolding remove_pre_committed_sector
  remove-absent n sp e = rw e refl

  pub remove_expired-deposited :
      (expired removed : List ℕ) (sp : StorageProviderState c.PeerId)
      → (deposited (remove_expired c expired removed sp).1.pre_committed_sectors
          ≤ kept expired sp.pre_committed_sectors)
        × ((remove_expired c expired removed sp).1.pre_commit_deposits ≡ sp.pre_commit_deposits)
  unfolding remove_expired
  remove_expired-deposited [] removed sp = (omega (arith, kept-nil sp.pre_committed_sectors), refl)
  remove_expired-deposited (n ∷ expired) removed sp =
      elim (Bool-cases (Map.contains_key n sp.pre_committed_sectors)) [
        | inl e ↦
            let sp' : StorageProviderState c.PeerId = record sp {
              pre_committed_sectors = Map.remove n sp.pre_committed_sectors;
            } in
            let (h, k) = remove_expired-deposited expired (removed ++ n ∷ []) sp' in
            rw (remove-present n sp e, remove_expired)
              (rw (kept-remove n expired sp.pre_committed_sectors) at h, k)
        | inr e ↦
            let (h, k) = remove_expired-deposited expired removed sp in
            rw (remove-absent n sp e, remove_expired)
              (rw (kept-absent n expired sp.pre_committed_sectors e) h, k)
      ]

  -- The deposits of the expired sectors never exceed the total, if all deposits are in it: the
  -- subtraction succeeds. What is left of the total covers the sectors that are left.
  pub expired_IsFunded :
      (sp : StorageProviderState c.PeerId)
      → IsFunded sp
      → let found = detect_expired_precommit_sectors c curr_block sp in
        let sp' = (remove_expired c found.0 [] sp).1 in
        (found.1 ≤ sp'.pre_commit_deposits)
        × IsFunded (record sp' { pre_commit_deposits = sp'.pre_commit_deposits - found.1 })
  unfolding detect_expired_precommit_sectors
  expired_IsFunded sp h =
      let found = detect_expired c curr_block sp.pre_committed_sectors ([], 0) in
      let total = detect_expired-kept sp.pre_committed_sectors ([], 0) in
      let (left, same) = remove_expired-deposited found.0 [] sp in
      (
        omega (arith, total, left, same, h.funded),
        record { funded = omega (arith, total, left, same, h.funded) },
      )
