-- ===== src/StorageProvider/State.antt =====
-- The state of one storage provider (pallets/storage-provider/src/storage_provider.rs).
mod Examples
pub mod Assign
pub mod EarlyTerminations
pub mod Advance
pub mod Budget
pub mod Untouched
use polka_storage.Base.{
  ℕ, ◌+◌, ◌*◌, ◌/◌, ◌%◌, ◌^◌, Option, none, some, List, [], is_empty, if◌then◌else◌, ◌==◌, not,
}
use polka_storage.Base.Words.{add_u64, mul_u64}
use polka_storage.Btree.Set.{BtreeSet}
use polka_storage.Btree.Set
use polka_storage.Btree.Map.{BtreeMap}
use polka_storage.Btree.Map
use polka_storage.Btree.Bounded.{Bounded}
use polka_storage.Market.Types.{checked_add}
use polka_storage.StorageProvider.Outcome.{
  Outcome, ok, panic, ◌>>=◌, ◌>>◌, ensure, ok_or,
  storage_provider_max_pre_committed_sector_exceeded, storage_provider_sector_not_found,
  storage_provider_sector_number_in_use,
}
use polka_storage.StorageProvider.Sector.{
  SectorOnChainInfo, SectorPreCommitOnChainInfo, RegisteredPostProof, sector_size_of_post,
  window_post_partitions_sector, max_sectors,
}
use polka_storage.StorageProvider.DeadlineInfo.{
  PostConfig, DeadlineInfo, new_deadline_info, period_started, last,
}
use polka_storage.StorageProvider.Deadline.Expiry.{pop_expired_sectors}
use polka_storage.StorageProvider.Deadlines.{
  Deadlines, new_deadlines, load_deadline, store_deadline,
}

pub record StorageProviderInfo (PeerId : Type 0) : Type 0 where
  pub peer_id : PeerId
  pub window_post_proof_type : RegisteredPostProof
  pub sector_size : ℕ
  pub window_post_partition_sectors : ℕ

-- `StorageProviderInfo::new`
unfoldable pub new_info :
    {PeerId : Type 0} → PeerId → RegisteredPostProof → StorageProviderInfo PeerId
new_info peer_id window_post_proof_type = record {
  peer_id = peer_id;
  window_post_proof_type = window_post_proof_type;
  sector_size = sector_size_of_post window_post_proof_type;
  window_post_partition_sectors = window_post_partitions_sector window_post_proof_type;
}

pub record StorageProviderState (PeerId : Type 0) : Type 0 where
  pub info : StorageProviderInfo PeerId
  pub sectors : BtreeMap SectorOnChainInfo
  pub pre_commit_deposits : ℕ
  pub pre_committed_sectors : BtreeMap SectorPreCommitOnChainInfo
  pub proving_period_start : ℕ
  pub current_deadline : ℕ
  pub deadlines : Deadlines
  pub early_terminations : BtreeSet

-- The next period of the chain, and the provider's offset in it.
unfoldable pub calculate_first_proving_period_start : ℕ → ℕ → ℕ → ℕ
calculate_first_proving_period_start current_block offset wpost_proving_period =
    add_u64 (mul_u64 (add_u64 (current_block / wpost_proving_period) 1) wpost_proving_period) offset

module _ {PeerId : Type 0} where
  -- `StorageProviderState::new`
  unfoldable pub new_state :
      Bounded → StorageProviderInfo PeerId → ℕ → ℕ → ℕ → StorageProviderState PeerId
  new_state bounded info period_start deadline_idx w_post_period_deadlines = record {
    info = info;
    sectors = [];
    pre_commit_deposits = 0;
    pre_committed_sectors = [];
    proving_period_start = period_start;
    current_deadline = deadline_idx;
    deadlines = new_deadlines bounded w_post_period_deadlines;
    early_terminations = [];
  }

  unfoldable pub deadline_info : PostConfig → ℕ → StorageProviderState PeerId → DeadlineInfo
  deadline_info w current_block sp =
      new_deadline_info w current_block sp.proving_period_start sp.current_deadline

  -- The move to the next deadline. `0` deadlines make the remainder panic.
  unfoldable pub next_deadline :
      PostConfig → StorageProviderState PeerId → StorageProviderState PeerId
  next_deadline w sp =
      let next = add_u64 sp.current_deadline 1 % w.period_deadlines in
      record sp {
        current_deadline = next;
        proving_period_start =
            (if next == 0
              then add_u64 sp.proving_period_start w.proving_period
              else sp.proving_period_start);
      }

  -- What expires with a deadline that ends.
  unfoldable pub expire_deadline :
      Bounded → DeadlineInfo → StorageProviderState PeerId → Outcome (StorageProviderState PeerId)
  expire_deadline bounded dl_info sp = do
    deadline ← load_deadline dl_info.idx sp.deadlines
    (expired, deadline') ← pop_expired_sectors bounded (last dl_info) deadline
    ok (record sp {
      deadlines = store_deadline dl_info.idx deadline' sp.deadlines;
      early_terminations =
          (if is_empty expired.early_sectors
            then sp.early_terminations
            else Set.insert dl_info.idx sp.early_terminations);
    })

  unfoldable pub advance_deadline :
      Bounded → PostConfig → ℕ → StorageProviderState PeerId → Outcome (StorageProviderState PeerId)
  advance_deadline bounded w current_block sp =
      let dl_info = deadline_info w current_block sp in
      if not (period_started dl_info)
      then ok sp
      else (if w.period_deadlines == 0
          then panic
          else expire_deadline bounded dl_info (next_deadline w sp))

  -- `none` is `ArithmeticError::Overflow`.
  unfoldable pub add_pre_commit_deposit :
      ℕ → StorageProviderState PeerId → Option (StorageProviderState PeerId)
  add_pre_commit_deposit amount sp = elim (checked_add sp.pre_commit_deposits amount) [
    | some total ↦ some (record sp { pre_commit_deposits = total })
    | none ↦ none
  ]

  unfoldable pub put_pre_committed_sector :
      Bounded
      → SectorPreCommitOnChainInfo
      → StorageProviderState PeerId
      → Outcome (StorageProviderState PeerId)
  put_pre_committed_sector bounded precommit sp = do
    sectors ←
        ok_or
          (bounded.map_try_insert SectorPreCommitOnChainInfo max_sectors
            precommit.info.sector_number precommit sp.pre_committed_sectors)
          storage_provider_max_pre_committed_sector_exceeded
    ok (record sp { pre_committed_sectors = sectors })

  unfoldable pub get_pre_committed_sector :
      ℕ → StorageProviderState PeerId → Outcome SectorPreCommitOnChainInfo
  get_pre_committed_sector sector_number sp =
      ok_or (Map.get sector_number sp.pre_committed_sectors) storage_provider_sector_not_found

  unfoldable pub remove_pre_committed_sector :
      ℕ → StorageProviderState PeerId → Outcome (StorageProviderState PeerId)
  remove_pre_committed_sector sector_num sp = do
    ensure (Map.contains_key sector_num sp.pre_committed_sectors) storage_provider_sector_not_found
    ok (record sp { pre_committed_sectors = Map.remove sector_num sp.pre_committed_sectors })

  unfoldable pub activate_sector :
      Bounded
      → ℕ
      → SectorOnChainInfo
      → StorageProviderState PeerId
      → Outcome (StorageProviderState PeerId)
  activate_sector bounded sector_num info sp = do
    sectors ←
        ok_or (bounded.map_try_insert SectorOnChainInfo max_sectors sector_num info sp.sectors)
          storage_provider_sector_number_in_use
    ok (record sp { sectors = sectors })
