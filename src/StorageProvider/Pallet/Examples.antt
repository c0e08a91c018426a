-- ===== src/StorageProvider/Pallet/Examples.antt =====
-- The theorems on the storage provider pallet at concrete inputs.
use polka_storage.Base.{ℕ, ◌+◌, ◌-◌, ◌≤◌, ◌<◌, ◌≡◌, ◌↔◌, refl, some, List, [], ◌∷◌, map, arith}
use polka_storage.Base.Words.{add_u64, sub_u64, mul_u64}
use polka_storage.Base.Storage
use polka_storage.Btree.Set
use polka_storage.Btree.Map
use polka_storage.Btree.Map.{BtreeMap}
use polka_storage.Btree.Bounded.{reference_bounded}
use polka_storage.Market.Types.{checked_add}
use polka_storage.Primitives.Randomness.{from_be_bytes}
use polka_storage.StorageProvider.ExpirationSet.{try_insert_each}
use polka_storage.StorageProvider.Sector.{
  SectorPreCommitInfo, SectorPreCommitOnChainInfo, stacked_drg_2kib_v1p1,
  stacked_drg_window_2kib_v1p1, same_post_proof, registered_window_post_proof, to_sector_deal,
}
use polka_storage.StorageProvider.Deadline.{new_deadline}
use polka_storage.StorageProvider.Deadlines
use polka_storage.StorageProvider.SectorMap
use polka_storage.StorageProvider.SectorMap.Declared.{sectors_at}
use polka_storage.StorageProvider.State.{
  StorageProviderState, new_info, new_state, calculate_first_proving_period_start,
  add_pre_commit_deposit, put_pre_committed_sector,
}
use polka_storage.StorageProvider.Pallet.{
  Config, Pallet, Declaration, sectors_pre_committed, storage_provider_registered, insert_provider,
  try_get, deposit_event, on_chain,
}
use polka_storage.StorageProvider.Pallet.Monad.{ok, err, storage_provider_not_found, ◌>>=◌}
use polka_storage.StorageProvider.Pallet.Checks.{validate_expiration}
use polka_storage.StorageProvider.Pallet.Checks
use polka_storage.StorageProvider.Pallet.Register
use polka_storage.StorageProvider.Pallet.PreCommit
use polka_storage.StorageProvider.Pallet.Access.{refusal, run_refused}
use polka_storage.StorageProvider.Pallet.Expiration.{validate_expiration_iff}
use polka_storage.StorageProvider.Pallet.Grouping.{is_declared, group_declarations_sound}
use polka_storage.StorageProvider.Pallet.Declare.{group_declarations}
use polka_storage.StorageProvider.Pallet.Deposits.{deposited, IsFunded}
use polka_storage.StorageProvider.Pallet.Deposits.Expired.{expired_IsFunded}
use polka_storage.StorageProvider.Pallet.Hooks.{detect_expired_precommit_sectors, remove_expired}
use polka_storage.StorageProvider.Pallet.Deposits.History.{
  register, pre_commit, run, start, step, Reachable_funded,
}

-- The currency has 1,000 less what is reserved; every deal is known, with one CID of the data.
abbrev sample_config : Config
sample_config = record {
  Chain = ℕ;
  PeerId = ℕ;
  bounded = reference_bounded;
  encode = λ n. n ∷ [];
  encode_block = λ n. n ∷ [];
  blake2_64 = λ bytes. 0 ∷ 17 ∷ [];
  blake2_256 = λ bytes. bytes;
  total_balance = λ reserved who. 1000 - reserved;
  reserve = λ who amount reserved. (ok tt, reserved + amount);
  slash_reserved = λ who amount reserved. ((amount, 0), reserved - amount);
  burn = λ amount reserved. (amount, reserved);
  settle = λ who amount reserved. (ok tt, reserved);
  verify_deals_for_activation =
      λ who deals reserved. (ok (map (λ d. some (3 ∷ [])) deals), reserved);
  activate_deals = λ who deals compute reserved. (ok tt, reserved);
  on_sectors_terminate = λ who sectors reserved. (ok tt, reserved);
  comm_d_from_cid_bytes = λ bytes. some (record { cid = bytes; raw = bytes });
  comm_r_from_cid_bytes = λ bytes. some (record { cid = bytes; raw = bytes });
  author_vrf_history = λ reserved block. some [];
  verify_porep = λ prover proof d r n seal interactive bytes reserved. (ok tt, reserved);
  verify_post = λ proof randomness replicas bytes reserved. (ok tt, reserved);
  post = record {
    period_deadlines = 2;
    proving_period = 40;
    challenge_window = 20;
    challenge_lookback = 5;
    fault_cutoff = 5;
  };
  min_sector_expiration = 10;
  max_sector_expiration = 500;
  sector_maximum_lifetime = 400;
  max_prove_commit_duration = 50;
  max_partitions_per_deadline = 3;
  fault_max_age = 100;
  pre_commit_challenge_delay = 10;
  addressed_partitions_max = 100;
  addressed_sectors_max = 100;
}

abbrev no_providers : Pallet sample_config
no_providers = record { storage_providers = []; chain = 0; events = [] }

validate_expiration_iff_example :
    (validate_expiration sample_config 100 150 300 no_providers ≡ (ok tt, no_providers))
    ↔ ((150 + 10 ≤ 300) × (300 < 100 + 500) × (300 < 150 + 400) × (150 ≤ 300))
validate_expiration_iff_example =
    validate_expiration_iff sample_config 100 150 300 no_providers (omega arith) (omega arith)

abbrev declarations : List Declaration
declarations =
    record { deadline = 1; partition = 0; sectors = 4 ∷ [] }
    ∷ record { deadline = 0; partition = 2; sectors = 5 ∷ [] }
    ∷ record { deadline = 1; partition = 0; sectors = 7 ∷ [] }
    ∷ []

abbrev groups : SectorMap.DeadlineSectorMap
groups = (0, (2, 5 ∷ []) ∷ []) ∷ (1, (0, 4 ∷ 7 ∷ []) ∷ []) ∷ []

grouped :
    group_declarations sample_config declarations SectorMap.new_sector_map no_providers
    ≡ (ok groups, no_providers)
unfolding group_declarations SectorMap.try_insert SectorMap.try_insert_sectors
    SectorMap.insert_sectors_into_new_partition try_insert_each Set.insert Map.get Map.insert ◌>>=◌
grouped = refl

group_declarations_sound_example :
    Set.contains 7 (sectors_at 1 0 groups) ≡ is_declared 1 0 7 declarations
group_declarations_sound_example =
    group_declarations_sound sample_config 1 0 7 declarations groups no_providers no_providers
      grouped

abbrev new_provider : StorageProviderState ℕ
new_provider = record {
  info = new_info 5 stacked_drg_window_2kib_v1p1;
  sectors = [];
  pre_commit_deposits = 0;
  pre_committed_sectors = [];
  proving_period_start = 137;
  current_deadline = 0;
  deadlines = record { due = new_deadline ∷ new_deadline ∷ [] };
  early_terminations = [];
}

abbrev registered : Pallet sample_config
registered = record {
  storage_providers = (8, new_provider) ∷ [];
  chain = 0;
  events = storage_provider_registered 8 (new_info 5 stacked_drg_window_2kib_v1p1) 137 ∷ [];
}

registers : run (register 8 5 stacked_drg_window_2kib_v1p1) 100 no_providers ≡ (ok tt, registered)
unfolding run Register.register_storage_provider Register.is_registered_storage_provider
    Checks.assign_proving_period_offset from_be_bytes calculate_first_proving_period_start add_u64
    mul_u64 new_state Deadlines.new_deadlines Deadlines.push_new insert_provider deposit_event
    Storage.get Storage.insert ◌>>=◌
registers = refl

abbrev to_pre_commit : ℕ → SectorPreCommitInfo
to_pre_commit n = record {
  seal_proof = stacked_drg_2kib_v1p1;
  sector_number = n;
  sealed_cid = [];
  seal_randomness_height = 90;
  deal_ids = n ∷ [];
  expiration = 300;
  unsealed_cid = 3 ∷ [];
}

abbrev on_chain_info : ℕ → SectorPreCommitOnChainInfo
on_chain_info n = record {
  info = to_pre_commit n;
  pre_commit_deposit = 1;
  pre_commit_block_number = 110;
}

abbrev pre_committed : StorageProviderState ℕ
pre_committed = record new_provider {
  pre_commit_deposits = 2;
  pre_committed_sectors = (1, on_chain_info 1) ∷ (6, on_chain_info 6) ∷ [];
}

abbrev with_pre_commits : Pallet sample_config
with_pre_commits = record {
  storage_providers = (8, pre_committed) ∷ [];
  chain = 2;
  events =
      storage_provider_registered 8 (new_info 5 stacked_drg_window_2kib_v1p1) 137
      ∷ sectors_pre_committed 110 8 (to_pre_commit 6 ∷ to_pre_commit 1 ∷ [])
      ∷ [];
}

pre_commits :
    run (pre_commit 8 (to_pre_commit 6 ∷ to_pre_commit 1 ∷ [])) 110 registered
    ≡ (ok tt, with_pre_commits)
unfolding run PreCommit.pre_commit_sectors PreCommit.check_sectors PreCommit.check_sector
    PreCommit.add_to_batch PreCommit.push PreCommit.put_sectors PreCommit.record_pre_commits
    Checks.validate_sector_for_pre_commit Checks.validate_expiration
    Checks.check_commd_for_pre_commit Checks.check_commds Checks.same_bytes add_u64 sub_u64
    checked_add add_pre_commit_deposit put_pre_committed_sector to_sector_deal same_post_proof
    registered_window_post_proof try_get insert_provider deposit_event on_chain Storage.get
    Storage.insert Map.contains_key Map.insert ◌>>=◌ new_info
pre_commits = refl

found : Storage.get 8 with_pre_commits.storage_providers ≡ some pre_committed
unfolding Storage.get
found = refl

Reachable_funded_example : deposited pre_committed.pre_committed_sectors ≤ 2
Reachable_funded_example =
    Reachable_funded with_pre_commits 8 pre_committed
      (step registered with_pre_commits (pre_commit 8 (to_pre_commit 6 ∷ to_pre_commit 1 ∷ [])) 110
        (step no_providers registered (register 8 5 stacked_drg_window_2kib_v1p1) 100 (start 0)
          registers)
        pre_commits)
      found

-- At block 300 both sectors have expired.
expired_IsFunded_example :
    let found = detect_expired_precommit_sectors sample_config 300 pre_committed in
    let sp' = (remove_expired sample_config found.0 [] pre_committed).1 in
    (found.1 ≤ sp'.pre_commit_deposits)
    × IsFunded (record sp' { pre_commit_deposits = sp'.pre_commit_deposits - found.1 })
expired_IsFunded_example =
    expired_IsFunded sample_config 300 pre_committed (record { funded = Reachable_funded_example })

-- Account 9 is not registered.
run_refused_example :
    run (pre_commit 9 (to_pre_commit 4 ∷ [])) 110 registered
    ≡ (err storage_provider_not_found, registered)
unfolding refusal Storage.get
run_refused_example =
    run_refused (pre_commit 9 (to_pre_commit 4 ∷ [])) 110 registered storage_provider_not_found refl
