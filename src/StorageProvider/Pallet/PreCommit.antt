-- ===== src/StorageProvider/Pallet/PreCommit.antt =====
-- `pre_commit_sectors` (pallets/storage-provider/src/lib.rs).
use polka_storage.Base.{ℕ, List, [], ◌∷◌, length, leb}
use polka_storage.Base.Words.{add_u64}
use polka_storage.Market.Types.{SectorDeal, checked_add, max_sectors_per_call}
use polka_storage.StorageProvider.Sector.{
  SectorPreCommitInfo, SectorPreCommitOnChainInfo, to_sector_deal,
}
use polka_storage.StorageProvider.State.{
  StorageProviderState, add_pre_commit_deposit, put_pre_committed_sector,
}
use polka_storage.StorageProvider.Pallet.{
  Config, Pallet, sectors_pre_committed, try_get, insert_provider, deposit_event, on_chain,
}
use polka_storage.StorageProvider.Pallet.Monad.{
  Call, ◌>>=◌, ◌>>◌, pure, gets, ensure, ok_or, expect, lift, invalid_cid, not_enough_funds,
  arithmetic_overflow,
}
use polka_storage.StorageProvider.Pallet.Checks.{
  validate_sector_for_pre_commit, validate_expiration, check_commd_for_pre_commit,
  calculate_pre_commit_deposit,
}

-- What the loop over the sectors collects.
pub record Batch : Type 0 where
  pub deal_amounts : List ℕ
  pub unsealed_cids : List (List ℕ)
  pub all_sector_deals : List SectorDeal
  pub total_deposit : ℕ
  pub on_chain_sectors : List SectorPreCommitOnChainInfo
  pub pre_committed_sectors : List SectorPreCommitInfo

abbrev pub empty_batch : Batch
empty_batch = record {
  deal_amounts = [];
  unsealed_cids = [];
  all_sector_deals = [];
  total_deposit = 0;
  on_chain_sectors = [];
  pre_committed_sectors = [];
}

module _ (c : Config) where
  -- `try_push(..).expect(..)` on a vector for the sectors of a call
  unfoldable pub push : {A : Type 0} → A → List A → Call (Pallet c) (List A)
  push {A} x xs = expect (c.bounded.vec_try_push A max_sectors_per_call x xs)

  unfoldable pub add_to_batch :
      SectorPreCommitInfo → SectorPreCommitOnChainInfo → List ℕ → Batch → Call (Pallet c) Batch
  add_to_batch sector sector_on_chain commd b = do
    amounts ← push (length sector_on_chain.info.deal_ids) b.deal_amounts
    cids ← push commd b.unsealed_cids
    deals ← push (to_sector_deal sector_on_chain) b.all_sector_deals
    total ← expect (checked_add b.total_deposit sector_on_chain.pre_commit_deposit)
    on_chain_sectors ← push sector_on_chain b.on_chain_sectors
    sectors ← push sector b.pre_committed_sectors
    pure (record {
      deal_amounts = amounts;
      unsealed_cids = cids;
      all_sector_deals = deals;
      total_deposit = total;
      on_chain_sectors = on_chain_sectors;
      pre_committed_sectors = sectors;
    })

  -- One round of the loop over the sectors.
  unfoldable pub check_sector :
      ℕ → StorageProviderState c.PeerId → SectorPreCommitInfo → Batch → Call (Pallet c) Batch
  check_sector current_block sp sector b = do
    validate_sector_for_pre_commit c sp sector
    validate_expiration c current_block (add_u64 current_block c.max_prove_commit_duration)
        sector.expiration
    commd ← ok_or (c.comm_d_from_cid_bytes sector.unsealed_cid) invalid_cid
    _commr ← ok_or (c.comm_r_from_cid_bytes sector.sealed_cid) invalid_cid
    add_to_batch sector
        (record {
          info = sector;
          pre_commit_deposit = calculate_pre_commit_deposit c;
          pre_commit_block_number = current_block;
        })
        commd.cid b

  unfoldable pub check_sectors :
      ℕ → StorageProviderState c.PeerId → List SectorPreCommitInfo → Batch → Call (Pallet c) Batch
  check_sectors current_block sp [] b = pure b
  check_sectors current_block sp (sector ∷ sectors) b = do
    b' ← check_sector current_block sp sector b
    check_sectors current_block sp sectors b'

  unfoldable pub put_sectors :
      List SectorPreCommitOnChainInfo
      → StorageProviderState c.PeerId
      → Call (Pallet c) (StorageProviderState c.PeerId)
  put_sectors [] sp = pure sp
  put_sectors (sector ∷ sectors) sp = do
    sp' ← lift (put_pre_committed_sector c.bounded sector sp)
    put_sectors sectors sp'

  -- What `try_mutate` does to the provider's entry.
  unfoldable pub record_pre_commits : ℕ → Batch → Call (Pallet c) (Unit {0})
  record_pre_commits owner b = do
    sp ← try_get c owner
    funded ← ok_or (add_pre_commit_deposit b.total_deposit sp) arithmetic_overflow
    sp' ← put_sectors b.on_chain_sectors funded
    insert_provider c owner sp'

  unfoldable pub pre_commit_sectors : ℕ → ℕ → List SectorPreCommitInfo → Call (Pallet c) (Unit {0})
  pre_commit_sectors owner current_block sectors = do
    sp ← try_get c owner
    b ← check_sectors current_block sp sectors empty_batch
    calculated ← on_chain (c.verify_deals_for_activation owner b.all_sector_deals)
    check_commd_for_pre_commit c calculated (length sectors) b.unsealed_cids b.deal_amounts
    balance ← gets (λ p. c.total_balance p.chain owner)
    ensure (leb b.total_deposit balance) not_enough_funds
    on_chain (c.reserve owner b.total_deposit)
    record_pre_commits owner b
    deposit_event c (sectors_pre_committed current_block owner b.pre_committed_sectors)
