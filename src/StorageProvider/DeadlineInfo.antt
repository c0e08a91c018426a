-- ===== src/StorageProvider/DeadlineInfo.antt =====
-- `DeadlineInfo` and `deadline_is_mutable` (pallets/storage-provider/src/deadline.rs). Arithmetic on
-- blocks wraps; both conversions of `u64` to a block number succeed at the runtime's types.
pub mod Windows
use polka_storage.Base.{ℕ, ◌+◌, ◌-◌, ◌/◌, Bool, not, ◌&&◌, ltb, leb, ◌==◌, if◌then◌else◌}
use polka_storage.Base.Words.{add_u64, sub_u64, mul_u64}
use polka_storage.StorageProvider.Outcome.{Outcome, ok, panic, ◌>>=◌}

pub record DeadlineInfo : Type 0 where
  pub block_number : ℕ
  pub period_start : ℕ
  pub idx : ℕ
  pub open_at : ℕ
  pub close_at : ℕ
  pub fault_cutoff : ℕ
  pub challenge : ℕ
  pub w_post_period_deadlines : ℕ
  pub w_post_proving_period : ℕ
  pub w_post_challenge_window : ℕ
  pub w_post_challenge_lookback : ℕ
  pub fault_declaration_cutoff : ℕ

-- The arguments of `new` that are configuration.
pub record PostConfig : Type 0 where
  pub period_deadlines : ℕ
  pub proving_period : ℕ
  pub challenge_window : ℕ
  pub challenge_lookback : ℕ
  pub fault_cutoff : ℕ

-- A deadline of the period, or what follows the last one.
abbrev pub deadline_at : PostConfig → ℕ → ℕ → ℕ → ℕ → ℕ → ℕ → ℕ → DeadlineInfo
deadline_at w block_number period_start idx open_at close_at challenge fault_cutoff = record {
  block_number = block_number;
  period_start = period_start;
  idx = idx;
  open_at = open_at;
  close_at = close_at;
  fault_cutoff = fault_cutoff;
  challenge = challenge;
  w_post_period_deadlines = w.period_deadlines;
  w_post_proving_period = w.proving_period;
  w_post_challenge_window = w.challenge_window;
  w_post_challenge_lookback = w.challenge_lookback;
  fault_declaration_cutoff = w.fault_cutoff;
}

-- `DeadlineInfo::new`
unfoldable pub new_deadline_info : PostConfig → ℕ → ℕ → ℕ → DeadlineInfo
new_deadline_info w block_number period_start idx =
    let open_at = add_u64 period_start (mul_u64 idx w.challenge_window) in
    let after_last_deadline = add_u64 period_start w.proving_period in
    if ltb idx w.period_deadlines
    then deadline_at w block_number period_start idx open_at (add_u64 open_at w.challenge_window)
        (sub_u64 open_at w.challenge_lookback) (sub_u64 open_at w.fault_cutoff)
    else deadline_at w block_number period_start idx after_last_deadline after_last_deadline
        after_last_deadline 0

-- The configuration that a deadline carries.
abbrev pub config_of : DeadlineInfo → PostConfig
config_of d = record {
  period_deadlines = d.w_post_period_deadlines;
  proving_period = d.w_post_proving_period;
  challenge_window = d.w_post_challenge_window;
  challenge_lookback = d.w_post_challenge_lookback;
  fault_cutoff = d.fault_declaration_cutoff;
}

unfoldable pub period_started : DeadlineInfo → Bool
period_started d = leb d.period_start d.block_number

unfoldable pub is_open : DeadlineInfo → Bool
is_open d = leb d.open_at d.block_number && ltb d.block_number d.close_at

unfoldable pub has_elapsed : DeadlineInfo → Bool
has_elapsed d = leb d.close_at d.block_number

unfoldable pub last : DeadlineInfo → ℕ
last d = d.close_at - 1

unfoldable pub fault_cutoff_passed : DeadlineInfo → Bool
fault_cutoff_passed d = leb d.fault_cutoff d.block_number

-- The same deadline of the first period that starts after the current block. A division by zero
-- panics.
unfoldable pub next : DeadlineInfo → Outcome DeadlineInfo
next d =
    let gap = sub_u64 d.block_number d.period_start in
    let delta_periods = add_u64 1 (gap / d.w_post_proving_period) in
    if d.w_post_proving_period == 0
    then panic
    else ok (
        new_deadline_info (config_of d) d.block_number
          (add_u64 d.period_start (mul_u64 d.w_post_proving_period delta_periods)) d.idx)

unfoldable pub next_not_elapsed : DeadlineInfo → Outcome DeadlineInfo
next_not_elapsed d = if not (has_elapsed d) then ok d else next d

unfoldable pub next_not_opened : DeadlineInfo → Outcome DeadlineInfo
next_not_opened d = if not (is_open d) && not (has_elapsed d) then ok d else next d

unfoldable pub deadline_is_mutable : PostConfig → ℕ → ℕ → ℕ → Outcome Bool
deadline_is_mutable w proving_period_start deadline_idx current_block = do
  dl_info ← next_not_elapsed (new_deadline_info w current_block proving_period_start deadline_idx)
  ok (ltb current_block (sub_u64 dl_info.open_at w.challenge_window))
