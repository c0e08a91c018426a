-- ===== src/StorageProvider/Pallet/Deposits/History.antt =====
-- The calls of the pallet as steps, with the calls that fail and are rolled back left out.
use polka_storage.Base.{ℕ, ◌≤◌, ◌≡◌, ap, List, [], some}
use polka_storage.Base.Storage
use polka_storage.StorageProvider.Sector.{
  SectorPreCommitInfo, ProveCommitSector, RegisteredPostProof,
}
use polka_storage.StorageProvider.State.{StorageProviderState}
use polka_storage.StorageProvider.Pallet.{Config, Pallet, Declaration}
use polka_storage.StorageProvider.Pallet.Monad.{Call, Result, ok}
use polka_storage.StorageProvider.Pallet.Monad.Holds.{Holds, Any}
use polka_storage.StorageProvider.Pallet.Checks.{SubmitWindowedPostParams}
use polka_storage.StorageProvider.Pallet.Register.{register_storage_provider}
use polka_storage.StorageProvider.Pallet.PreCommit.{pre_commit_sectors}
use polka_storage.StorageProvider.Pallet.Prove.{prove_commit_sectors}
use polka_storage.StorageProvider.Pallet.Post.{submit_windowed_post}
use polka_storage.StorageProvider.Pallet.Declare.{declare_faults, declare_faults_recovered}
use polka_storage.StorageProvider.Pallet.Terminate.{terminate_sectors}
use polka_storage.StorageProvider.Pallet.Hooks.{on_finalize}
use polka_storage.StorageProvider.Pallet.Deposits.{deposited}
use polka_storage.StorageProvider.Pallet.Deposits.Storage.{AllFunded}
use polka_storage.StorageProvider.Pallet.Deposits.PreCommit.{
  Holds-register_storage_provider, Holds-pre_commit_sectors,
}
use polka_storage.StorageProvider.Pallet.Deposits.Calls.{Holds-prove_commit_sectors}
use polka_storage.StorageProvider.Pallet.Deposits.Proofs.{
  Holds-submit_windowed_post, Holds-declare_faults, Holds-declare_faults_recovered,
}
use polka_storage.StorageProvider.Pallet.Deposits.Terminations.{Holds-terminate_sectors}
use polka_storage.StorageProvider.Pallet.Deposits.Hooks.{Holds-on_finalize}

-- The extrinsics, signed by `owner` in a block, and the hook at the end of the block.
pub data Transaction (c : Config) : Type 0 where
  register : ℕ → c.PeerId → RegisteredPostProof → Transaction c
  pre_commit : ℕ → List SectorPreCommitInfo → Transaction c
  prove_commit : ℕ → List ProveCommitSector → Transaction c
  submit_post : ℕ → SubmitWindowedPostParams → Transaction c
  report_faults report_recoveries terminate : ℕ → List Declaration → Transaction c
  finalize : Transaction c

unfoldable pub run : {c : Config} → Transaction c → ℕ → Call (Pallet c) (Unit {0})
run {c} (register owner peer_id proof) block = register_storage_provider c owner block peer_id proof
run {c} (pre_commit owner sectors) block = pre_commit_sectors c owner block sectors
run {c} (prove_commit owner sectors) block = prove_commit_sectors c owner block sectors
run {c} (submit_post owner params) block = submit_windowed_post c owner block params
run {c} (report_faults owner faults) block = declare_faults c owner block faults
run {c} (report_recoveries owner recoveries) block =
    declare_faults_recovered c owner block recoveries
run {c} (terminate owner terminations) block = terminate_sectors c owner block terminations
run {c} finalize block = on_finalize c block

-- The states that runs of calls, from a state without providers, lead to. Other pallets change what
-- they keep in between.
pub data Reachable {c : Config} : Pallet c → Type 0 where
  start :
      (chain : c.Chain) → Reachable (record { storage_providers = []; chain = chain; events = [] })
  elsewhere :
      (p : Pallet c) (chain : c.Chain) → Reachable p → Reachable (record p { chain = chain })
  step :
      (p p' : Pallet c) (t : Transaction c) (block : ℕ)
      → Reachable p
      → run t block p ≡ (ok tt, p')
      → Reachable p'

module _ {c : Config} where
  -- Every call keeps the invariant, whether it returns or fails.
  run-Holds : (t : Transaction c) (block : ℕ) → Holds (AllFunded c) Any (run t block)
  unfolding run
  run-Holds (register owner peer_id proof) block =
      Holds-register_storage_provider c owner block peer_id proof
  run-Holds (pre_commit owner sectors) block = Holds-pre_commit_sectors c owner block sectors
  run-Holds (prove_commit owner sectors) block = Holds-prove_commit_sectors c owner block sectors
  run-Holds (submit_post owner params) block = Holds-submit_windowed_post c owner block params
  run-Holds (report_faults owner faults) block = Holds-declare_faults c owner block faults
  run-Holds (report_recoveries owner recoveries) block =
      Holds-declare_faults_recovered c owner block recoveries
  run-Holds (terminate owner terminations) block =
      Holds-terminate_sectors c owner block terminations
  run-Holds finalize block = Holds-on_finalize c block

  Reachable-AllFunded : (p : Pallet c) → Reachable p → AllFunded c p
  unfolding Storage.get
  Reachable-AllFunded _ (start chain) = record { each = λ owner sp e. absurd (cc) }
  Reachable-AllFunded _ (elsewhere p chain r) = record { each = (Reachable-AllFunded p r).each }
  Reachable-AllFunded p' (step p _ t block r e) =
      rw (ap (λ (out : Result (Unit {0}) × Pallet c). out.1) e) at
        ((run-Holds t block).at p (Reachable-AllFunded p r)).0

  -- In every state that the extrinsics and the hook of the pallet lead to, the deposits that a
  -- provider's pre-committed sectors put in are covered by the total that its state keeps.
  pub Reachable_funded :
      (p : Pallet c) (owner : ℕ) (sp : StorageProviderState c.PeerId)
      → Reachable p
      → Storage.get owner p.storage_providers ≡ some sp
      → deposited sp.pre_committed_sectors ≤ sp.pre_commit_deposits
  Reachable_funded p owner sp r e = ((Reachable-AllFunded p r).each owner sp e).funded
