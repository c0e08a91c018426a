-- ===== src/StorageProvider/Pallet/Deposits.antt =====
-- The deposits of the pre-committed sectors, which the provider's state keeps the sum of.
pub mod Expired
pub mod Storage
pub mod Checks
pub mod PreCommit
pub mod Calls
pub mod Proofs
pub mod Terminations
pub mod Hooks
pub mod History
use polka_storage.Base.{
  ℕ, ◌+◌, ◌≤◌, ◌≡◌, Bool, true, false, not, ◌||◌, none, some, List, [], ◌∷◌, ltb, ◌==◌,
  if◌then◌else◌, filter, arith, Bool-cases, inl, inr,
}
use polka_storage.Btree.Set
use polka_storage.Btree.Map.{BtreeMap}
use polka_storage.Btree.Map
use polka_storage.Btree.Bounded.{Bounded}
use polka_storage.StorageProvider.Outcome.{ok}
use polka_storage.StorageProvider.Outcome.Inversion.{bind_inverts, ok_inverts, ok_or_inverts}
use polka_storage.StorageProvider.Sector.{SectorPreCommitOnChainInfo}
use polka_storage.StorageProvider.State.{StorageProviderState}

-- The sum of the deposits.
unfoldable pub deposited : BtreeMap SectorPreCommitOnChainInfo → ℕ
deposited [] = 0
deposited ((n, sector) ∷ m) = sector.pre_commit_deposit + deposited m

-- The deposits of a provider's pre-committed sectors are all in its total.
pub record IsFunded {PeerId : Type 0} (sp : StorageProviderState PeerId) : Type 0 where
  pub funded : deposited sp.pre_committed_sectors ≤ sp.pre_commit_deposits

-- The sum of the deposits of the sectors that are not listed.
unfoldable pub kept : List ℕ → BtreeMap SectorPreCommitOnChainInfo → ℕ
kept listed [] = 0
kept listed ((n, sector) ∷ m) =
    (if Set.contains n listed then 0 else sector.pre_commit_deposit) + kept listed m

pub deposited-insert-le :
    (k : ℕ) (v : SectorPreCommitOnChainInfo) (m : BtreeMap SectorPreCommitOnChainInfo)
    → deposited (Map.insert k v m) ≤ deposited m + v.pre_commit_deposit
unfolding deposited Map.insert
deposited-insert-le k v [] = omega arith
deposited-insert-le k v ((n, s) ∷ m) = ground (arith, deposited-insert-le k v m)

pub deposited-remove-le :
    (k : ℕ) (m : BtreeMap SectorPreCommitOnChainInfo) → deposited (Map.remove k m) ≤ deposited m
unfolding deposited Map.remove
deposited-remove-le k [] = omega arith
deposited-remove-le k ((n, s) ∷ m) = ground (arith, deposited-remove-le k m)

pub kept-nil : (m : BtreeMap SectorPreCommitOnChainInfo) → kept [] m ≡ deposited m
unfolding kept deposited Set.contains
kept-nil [] = omega arith
kept-nil ((n, s) ∷ m) = omega (arith, kept-nil m)

pub kept-remove :
    (k : ℕ) (listed : List ℕ) (m : BtreeMap SectorPreCommitOnChainInfo)
    → kept listed (Map.remove k m) ≡ kept (k ∷ listed) m
unfolding kept Map.remove Set.contains
kept-remove k listed [] = omega arith
kept-remove k listed ((n, s) ∷ m) = ground (arith, kept-remove k listed m)

pub kept-absent :
    (k : ℕ) (listed : List ℕ) (m : BtreeMap SectorPreCommitOnChainInfo)
    → Map.contains_key k m ≡ false
    → kept (k ∷ listed) m ≡ kept listed m
unfolding kept Map.contains_key Set.contains
kept-absent k listed [] h = omega arith
kept-absent k listed ((n, s) ∷ m) h = ground (arith, kept-absent k listed m)
