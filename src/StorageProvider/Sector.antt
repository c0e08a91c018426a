-- ===== src/StorageProvider/Sector.antt =====
-- Sectors (pallets/storage-provider/src/sector.rs, primitives/src/lib.rs). Block numbers and sector
-- numbers are numbers; a CID is a list of bytes.
use polka_storage.Base.{ℕ, ◌*◌, ◌^◌, Bool, true, List}
use polka_storage.Market.Types.{SectorDeal}

abbrev pub max_sectors : ℕ
max_sectors = 32 * 2 ^ 20

abbrev pub max_partitions_per_deadline : ℕ
max_partitions_per_deadline = 3000

pub data RegisteredSealProof : Type 0 where
  stacked_drg_2kib_v1p1 : RegisteredSealProof

-- `RegisteredSealProof::sector_size`, `proof_size` and `registered_window_post_proof`, and the same
-- of `RegisteredPoStProof` (primitives/src/proofs.rs), in bytes.
pub data RegisteredPostProof : Type 0 where
  stacked_drg_window_2kib_v1p1 : RegisteredPostProof

unfoldable pub sector_size : RegisteredSealProof → ℕ
sector_size proof = 2 * 2 ^ 10

unfoldable pub proof_size : RegisteredSealProof → ℕ
proof_size stacked_drg_2kib_v1p1 = 192

unfoldable pub registered_window_post_proof : RegisteredSealProof → RegisteredPostProof
registered_window_post_proof stacked_drg_2kib_v1p1 = stacked_drg_window_2kib_v1p1

unfoldable pub sector_size_of_post : RegisteredPostProof → ℕ
sector_size_of_post stacked_drg_window_2kib_v1p1 = 2 * 2 ^ 10

unfoldable pub window_post_partitions_sector : RegisteredPostProof → ℕ
window_post_partitions_sector stacked_drg_window_2kib_v1p1 = 2

-- Two proof types are the same: there is one.
unfoldable pub same_post_proof : RegisteredPostProof → RegisteredPostProof → Bool
same_post_proof stacked_drg_window_2kib_v1p1 stacked_drg_window_2kib_v1p1 = true

pub record SectorPreCommitInfo : Type 0 where
  pub seal_proof : RegisteredSealProof
  pub sector_number : ℕ
  pub sealed_cid : List ℕ
  pub seal_randomness_height : ℕ
  pub deal_ids : List ℕ
  pub expiration : ℕ
  pub unsealed_cid : List ℕ

-- `pre_commit_deposit` is a balance.
pub record SectorPreCommitOnChainInfo : Type 0 where
  pub info : SectorPreCommitInfo
  pub pre_commit_deposit : ℕ
  pub pre_commit_block_number : ℕ

pub record SectorOnChainInfo : Type 0 where
  pub sector_number : ℕ
  pub seal_proof : RegisteredSealProof
  pub sealed_cid : List ℕ
  pub activation : ℕ
  pub expiration : ℕ
  pub unsealed_cid : List ℕ

unfoldable pub from_pre_commit : SectorPreCommitInfo → ℕ → SectorOnChainInfo
from_pre_commit pre_commit activation = record {
  sector_number = pre_commit.sector_number;
  seal_proof = pre_commit.seal_proof;
  sealed_cid = pre_commit.sealed_cid;
  expiration = pre_commit.expiration;
  activation = activation;
  unsealed_cid = pre_commit.unsealed_cid;
}

-- `From<&SectorPreCommitOnChainInfo> for SectorDeal`, with the size of the sector type for the type
unfoldable pub to_sector_deal : SectorPreCommitOnChainInfo → SectorDeal
to_sector_deal precommit = record {
  sector_number = precommit.info.sector_number;
  sector_expiry = precommit.info.expiration;
  sector_size = sector_size precommit.info.seal_proof;
  deal_ids = precommit.info.deal_ids;
}

pub record ProveCommitSector : Type 0 where
  pub sector_number : ℕ
  pub proof : List ℕ

pub record ProveCommitResult : Type 0 where
  pub sector_number : ℕ
  pub partition_number : ℕ
  pub deadline_idx : ℕ
