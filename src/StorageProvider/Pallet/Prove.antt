-- ===== src/StorageProvider/Pallet/Prove.antt =====
-- `prove_commit_sectors` (pallets/storage-provider/src/lib.rs).
use polka_storage.Base.{
  ℕ, ◌+◌, not, Option, none, some, List, [], ◌∷◌, ltb, is_empty, if◌then◌else◌,
}
use polka_storage.Base.Words.{add_u64}
use polka_storage.Btree.Set
use polka_storage.Btree.Map.{BtreeMap}
use polka_storage.Market.Types.{SectorDeal}
use polka_storage.StorageProvider.Sector.{
  SectorOnChainInfo, ProveCommitSector, ProveCommitResult, from_pre_commit, to_sector_deal,
  max_sectors,
}
use polka_storage.StorageProvider.Partition.{Partition}
use polka_storage.StorageProvider.Deadline.{Deadline}
use polka_storage.StorageProvider.State.{
  StorageProviderState, get_pre_committed_sector, activate_sector, remove_pre_committed_sector,
}
use polka_storage.StorageProvider.State.Assign.{assign_sectors_to_deadlines}
use polka_storage.StorageProvider.Pallet.{
  Config, Pallet, sectors_proven, try_get, insert_provider, deposit_event, on_chain,
}
use polka_storage.StorageProvider.Pallet.Monad.{
  Call, ◌>>=◌, ◌>>◌, pure, ensure, expect, lift, prove_commit_after_deadline,
}
use polka_storage.StorageProvider.Pallet.Checks.{validate_seal_proof}
use polka_storage.StorageProvider.Pallet.PreCommit.{push}

-- What the loop over the sectors collects.
pub record Proven : Type 0 where
  pub sector_deals : List SectorDeal
  pub sector_numbers : List ℕ
  pub new_sectors : List SectorOnChainInfo

-- The partition that holds a sector, the last one first, which is what `rev().find_map` finds.
unfoldable pub find_partition : ℕ → BtreeMap Partition → Option ℕ
find_partition sector_number [] = none
find_partition sector_number ((n, partition) ∷ partitions) =
    elim (find_partition sector_number partitions) [
      | some found ↦ some found
      | none ↦ if Set.contains sector_number partition.sectors then some n else none
    ]

-- The first deadline that has such a partition.
unfoldable pub find_sector : ℕ → ℕ → List Deadline → Option (ℕ × ℕ)
find_sector sector_number deadline_idx [] = none
find_sector sector_number deadline_idx (deadline ∷ due) =
    elim (find_partition sector_number deadline.partitions) [
      | some n ↦ some (deadline_idx, n)
      | none ↦ find_sector sector_number (deadline_idx + 1) due
    ]

module _ (c : Config) where
  -- One round of the loop over the sectors.
  unfoldable pub prove_sector :
      ℕ → ℕ → StorageProviderState c.PeerId → ProveCommitSector → Proven → Call (Pallet c) Proven
  prove_sector owner current_block sp sector b = do
    precommit ← lift (get_pre_committed_sector sector.sector_number sp)
    let prove_commit_due = add_u64 precommit.pre_commit_block_number c.max_prove_commit_duration
    ensure (ltb current_block prove_commit_due) prove_commit_after_deadline
    validate_seal_proof c current_block owner precommit sector.proof
    deals ← push c (to_sector_deal precommit) b.sector_deals
    numbers ← push c sector.sector_number b.sector_numbers
    new_sectors ← expect (
        c.bounded.vec_try_push SectorOnChainInfo max_sectors
          (from_pre_commit precommit.info current_block) b.new_sectors)
    pure (record { sector_deals = deals; sector_numbers = numbers; new_sectors = new_sectors })

  unfoldable pub prove_sectors :
      ℕ
      → ℕ
      → StorageProviderState c.PeerId
      → List ProveCommitSector
      → Proven
      → Call (Pallet c) Proven
  prove_sectors owner current_block sp [] b = pure b
  prove_sectors owner current_block sp (sector ∷ sectors) b = do
    b' ← prove_sector owner current_block sp sector b
    prove_sectors owner current_block sp sectors b'

  -- The loop over the numbers and the new sectors, in step.
  unfoldable pub activate_sectors :
      List ℕ
      → List SectorOnChainInfo
      → StorageProviderState c.PeerId
      → Call (Pallet c) (StorageProviderState c.PeerId)
  activate_sectors [] new_sectors sp = pure sp
  activate_sectors (n ∷ numbers) [] sp = pure sp
  activate_sectors (n ∷ numbers) (new_sector ∷ new_sectors) sp = do
    activated ← lift (activate_sector c.bounded n new_sector sp)
    removed ← lift (remove_pre_committed_sector n activated)
    activate_sectors numbers new_sectors removed

  -- Where each sector was placed.
  unfoldable pub placements : List ℕ → List Deadline → Call (Pallet c) (List ProveCommitResult)
  placements [] due = pure []
  placements (n ∷ numbers) due = do
    (deadline_idx, partition_number) ← expect (find_sector n 0 due)
    rest ← placements numbers due
    pure (
        (record {
          sector_number = n;
          partition_number = partition_number;
          deadline_idx = deadline_idx;
        })
        ∷ rest)

  unfoldable pub prove_commit_sectors : ℕ → ℕ → List ProveCommitSector → Call (Pallet c) (Unit {0})
  prove_commit_sectors owner current_block sectors = do
    sp ← try_get c owner
    b ←
        prove_sectors owner current_block sp sectors
          (record { sector_deals = []; sector_numbers = []; new_sectors = [] })
    on_chain (c.activate_deals owner b.sector_deals (not (is_empty b.sector_deals)))
    activated ← activate_sectors b.sector_numbers b.new_sectors sp
    sp' ← lift (
        assign_sectors_to_deadlines c.bounded c.post current_block b.new_sectors
          activated.info.window_post_partition_sectors c.max_partitions_per_deadline activated)
    proven ← placements b.sector_numbers sp'.deadlines.due
    insert_provider c owner sp'
    deposit_event c (sectors_proven owner proven)
