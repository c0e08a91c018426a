-- ===== src/StorageProvider/Pallet/Hooks.antt =====
-- `on_finalize`: `check_precommited_sectors` and `check_deadlines`
-- (pallets/storage-provider/src/lib.rs). `iter_keys` gives the keys in the storage's order. The
-- changes to a partition by a `record_faults` that fails are dropped.
use polka_storage.Base.{
  ℕ, not, none, some, List, [], ◌∷◌, ◌++◌, map, is_empty, ltb, leb, if◌then◌else◌, Option,
}
use polka_storage.Base.Words.{add_u64}
use polka_storage.Base.Storage
use polka_storage.Btree.Set.{BtreeSet}
use polka_storage.Btree.Set
use polka_storage.Btree.Map.{BtreeMap}
use polka_storage.Btree.Map
use polka_storage.Market.Types.{checked_add, checked_sub}
use polka_storage.StorageProvider.Outcome
use polka_storage.StorageProvider.Sector.{
  SectorOnChainInfo, SectorPreCommitOnChainInfo, max_sectors, max_partitions_per_deadline,
}
use polka_storage.StorageProvider.DeadlineInfo.{DeadlineInfo, period_started, has_elapsed, last}
use polka_storage.StorageProvider.Partition.{Partition}
use polka_storage.StorageProvider.Partition
use polka_storage.StorageProvider.Deadline.{Deadline}
use polka_storage.StorageProvider.Deadlines.{load_deadline, store_deadline}
use polka_storage.StorageProvider.State.{
  StorageProviderState, deadline_info, remove_pre_committed_sector, advance_deadline,
}
use polka_storage.StorageProvider.Pallet.{
  Config, Pallet, sectors_slashed, partitions_faulty, insert_provider, deposit_event,
}
use polka_storage.StorageProvider.Pallet.Monad.{
  Call, ◌>>=◌, ◌>>◌, pure, gets, expect, lift, attempt, returns, expected,
}
use polka_storage.StorageProvider.Pallet.Checks.{slash_and_burn}
use polka_storage.StorageProvider.Pallet.Terminate.{process_early_terminations}

module _ (c : Config) where
  -- One round of `detect_expired_precommit_sectors`: a sector that does not fit is left out, and so
  -- is a deposit that would overflow.
  unfoldable pub detect_sector : ℕ → ℕ → SectorPreCommitOnChainInfo → List ℕ × ℕ → List ℕ × ℕ
  detect_sector curr_block n sector (expired, to_be_slashed) =
      if leb sector.info.expiration curr_block
      then elim (c.bounded.vec_try_push ℕ max_sectors n expired) [
        | none ↦ (expired, to_be_slashed)
        | some expired' ↦ elim (checked_add to_be_slashed sector.pre_commit_deposit) [
          | none ↦ (expired', to_be_slashed)
          | some total ↦ (expired', total)
        ]
      ]
      else (expired, to_be_slashed)

  unfoldable pub detect_expired : ℕ → BtreeMap SectorPreCommitOnChainInfo → List ℕ × ℕ → List ℕ × ℕ
  detect_expired curr_block [] found = found
  detect_expired curr_block ((n, sector) ∷ rest) found =
      detect_expired curr_block rest (detect_sector curr_block n sector found)

  unfoldable pub detect_expired_precommit_sectors : ℕ → StorageProviderState c.PeerId → List ℕ × ℕ
  detect_expired_precommit_sectors curr_block state =
      detect_expired curr_block state.pre_committed_sectors ([], 0)

  -- A sector that cannot be removed is skipped.
  unfoldable pub remove_expired :
      List ℕ → List ℕ → StorageProviderState c.PeerId → List ℕ × StorageProviderState c.PeerId
  remove_expired [] removed state = (removed, state)
  remove_expired (n ∷ expired) removed state = elim (remove_pre_committed_sector n state) [
    | Outcome.ok state' ↦ remove_expired expired (removed ++ n ∷ []) state'
    | _ ↦ remove_expired expired removed state
  ]

  -- What is done for a provider with expired sectors.
  unfoldable pub slash_expired :
      ℕ → List ℕ → ℕ → StorageProviderState c.PeerId → Call (Pallet c) (Unit {0})
  slash_expired owner expired slash_amount state =
      let (removed, state') = remove_expired expired [] state in
      elim (checked_sub state'.pre_commit_deposits slash_amount) [
        | none ↦ pure tt
        | some deposits ↦ attempt (slash_and_burn c owner slash_amount) >>= λ slashed.
            elim slashed [
              | none ↦ pure tt
              | some _ ↦
                  insert_provider c owner (record state' { pre_commit_deposits = deposits })
                  >> deposit_event c (sectors_slashed owner removed)
            ]
      ]

  -- The loop over the providers. It returns at one that has no expired sectors.
  unfoldable pub check_precommits : ℕ → List ℕ → Call (Pallet c) (Unit {0})
  check_precommits current_block [] = pure tt
  check_precommits current_block (owner ∷ owners) =
      let rest = check_precommits current_block owners in
      gets (λ p. Storage.get owner p.storage_providers) >>= λ entry. elim entry [
        | none ↦ rest
        | some state ↦
            let (expired, slash_amount) = detect_expired_precommit_sectors current_block state in
            if is_empty expired
            then pure tt
            else slash_expired owner expired slash_amount state >> rest
      ]

  unfoldable pub check_precommited_sectors : ℕ → Call (Pallet c) (Unit {0})
  check_precommited_sectors current_block = do
    owners ← gets (λ p. map (λ e. e.0) p.storage_providers)
    check_precommits current_block owners

  -- The partitions of the deadline, with those that are faulty.
  abbrev pub Checked : Type 0
  Checked = BtreeMap Partition × BtreeMap BtreeSet

  -- A partition without a proof: all its sectors become faulty.
  unfoldable pub check_unproven :
      ℕ → ℕ → ℕ → BtreeMap SectorOnChainInfo → ℕ → Partition → Checked → Call (Pallet c) Checked
  check_unproven current_block owner fault_expiration_block sectors n partition (ps, faulty) =
      attempt (
        lift (
          Partition.record_faults c.bounded sectors partition.sectors fault_expiration_block
            partition))
      >>= λ recorded. elim recorded [
        | none ↦ pure (ps, faulty)
        | some (new_faults, partition') ↦
            attempt (process_early_terminations c current_block owner) >>= λ processed.
            elim processed [
              | none ↦ pure (Map.insert n partition' ps, faulty)
              | some _ ↦
                  if is_empty new_faults
                  then pure (Map.insert n partition' ps, faulty)
                  else expect (c.bounded.set_try_from max_sectors new_faults) >>= λ faults.
                      pure (Map.insert n partition' ps, Map.insert n faults faulty)
            ]
      ]

  unfoldable pub check_partitions :
      ℕ
      → ℕ
      → ℕ
      → BtreeMap SectorOnChainInfo
      → BtreeSet
      → BtreeMap Partition
      → Checked
      → Call (Pallet c) Checked
  check_partitions current_block owner fault_expiration_block sectors posted [] s = pure s
  check_partitions current_block owner fault_expiration_block sectors posted ((n, p) ∷ rest) s =
      (if is_empty p.sectors
        then pure s
        else (if Set.contains n posted
            then pure s
            else check_unproven current_block owner fault_expiration_block sectors n p s))
      >>= λ s'. check_partitions current_block owner fault_expiration_block sectors posted rest s'

  -- A deadline that has elapsed: its partitions are checked and the provider goes to the next one.
  unfoldable pub close_deadline :
      ℕ → ℕ → DeadlineInfo → Deadline → StorageProviderState c.PeerId → Call (Pallet c) (Unit {0})
  close_deadline current_block owner current_deadline deadline state = do
    (partitions, faulty) ←
        check_partitions current_block owner (add_u64 (last current_deadline) c.fault_max_age)
          state.sectors deadline.partitions_posted deadline.partitions (deadline.partitions, [])
    (if is_empty faulty then pure tt else (do
      faulty' ← expect (c.bounded.map_try_from BtreeSet max_partitions_per_deadline faulty)
      deposit_event c (partitions_faulty owner faulty')))
    let closed : Deadline = record deadline { partitions = partitions; partitions_posted = [] }
    let state' : StorageProviderState c.PeerId = record state {
      deadlines = store_deadline current_deadline.idx closed state.deadlines;
    }
    advanced ← returns (expected (advance_deadline c.bounded c.post current_block state'))
    insert_provider c owner advanced

  -- A deadline that is not there is skipped.
  unfoldable pub close_loaded :
      ℕ
      → ℕ
      → DeadlineInfo
      → StorageProviderState c.PeerId
      → Option Deadline
      → Call (Pallet c) (Unit {0})
  close_loaded current_block owner current_deadline state none = pure tt
  close_loaded current_block owner current_deadline state (some deadline) =
      close_deadline current_block owner current_deadline deadline state

  unfoldable pub check_provider : ℕ → ℕ → StorageProviderState c.PeerId → Call (Pallet c) (Unit {0})
  check_provider current_block owner state =
      let current_deadline = deadline_info c.post current_block state in
      if ltb current_block state.proving_period_start
      then pure tt
      else (if not (period_started current_deadline)
          then pure tt
          else (if not (has_elapsed current_deadline)
              then pure tt
              else attempt (lift (load_deadline current_deadline.idx state.deadlines))
                >>= close_loaded current_block owner current_deadline state))

  unfoldable pub check_providers : ℕ → List ℕ → Call (Pallet c) (Unit {0})
  check_providers current_block [] = pure tt
  check_providers current_block (owner ∷ owners) =
      gets (λ p. Storage.get owner p.storage_providers) >>= λ entry.
      elim entry [ none ↦ pure tt | some state ↦ check_provider current_block owner state ] >>= λ _.
      check_providers current_block owners

  unfoldable pub check_deadlines : ℕ → Call (Pallet c) (Unit {0})
  check_deadlines current_block = do
    owners ← gets (λ p. map (λ e. e.0) p.storage_providers)
    check_providers current_block owners

  unfoldable pub on_finalize : ℕ → Call (Pallet c) (Unit {0})
  on_finalize current_block = do
    check_precommited_sectors current_block
    check_deadlines current_block
