-- ===== src/StorageProvider/DeadlineInfo/Windows.antt =====
-- Which challenge window a deadline that is not elapsed names.
use polka_storage.Base.{
  ℕ, ◌+◌, ◌-◌, ◌*◌, ◌/◌, ◌%◌, ◌≤◌, ◌<◌, ◌≡◌, refl, ap, false, arith, leb, if◌then◌else◌, ◌==◌,
  lt→ltb, Bool-cases, inl, inr,
}
use native.Mathlib.Nat.{div-add-mod, mod-lt, div-le_self}
use polka_storage.Base.Words.{
  u64_mod, add_u64, sub_u64, mul_u64, add_u64-eq, sub_u64-eq, mul_u64-eq,
}
use polka_storage.StorageProvider.Outcome.{ok}
use polka_storage.StorageProvider.DeadlineInfo.{
  DeadlineInfo, PostConfig, new_deadline_info, next, next_not_elapsed, has_elapsed, config_of,
}

-- The multiple of a period that follows a gap.
next_multiple : (g p : ℕ) → 0 < p → (g < p * (1 + g / p)) × (p * (1 + g / p) ≤ g + p)
next_multiple g p pos =
    let e = div-add-mod g p in
    let l : g % p < p = mod-lt g pos in
    let d : p * (1 + g / p) ≡ p + p * (g / p) = grind arith in
    (omega (arith, d, e, l), omega (arith, d, e, l))

-- The deadline is one of the period's, and its window ends within the period.
pub record IsWindow (w : PostConfig) (idx : ℕ) : Type 0 where
  pub known : idx < w.period_deadlines
  pub in_period : idx * w.challenge_window + w.challenge_window ≤ w.proving_period
  pub positive : 0 < w.proving_period

new_deadline_info-eq :
    (w : PostConfig) (block start idx : ℕ)
    → IsWindow w idx
    → start + w.proving_period < u64_mod
    → ((new_deadline_info w block start idx).open_at ≡ start + idx * w.challenge_window)
      × ((new_deadline_info w block start idx).close_at
          ≡ start + idx * w.challenge_window + w.challenge_window)
      × (config_of (new_deadline_info w block start idx) ≡ w)
      × ((new_deadline_info w block start idx).block_number ≡ block)
      × ((new_deadline_info w block start idx).period_start ≡ start)
      × ((new_deadline_info w block start idx).idx ≡ idx)
unfolding new_deadline_info
new_deadline_info-eq w block start idx k small =
    let known = lt→ltb idx w.period_deadlines k.known in
    let one = mul_u64-eq idx w.challenge_window (omega (arith, k.in_period)) in
    let two = add_u64-eq start (idx * w.challenge_window) (omega (arith, k.in_period)) in
    let three =
      add_u64-eq (start + idx * w.challenge_window) w.challenge_window
        (omega (arith, k.in_period)) in
    rw (known, one, two) (refl, three, refl, refl, refl, refl)

config_same : (v w : PostConfig) → v ≡ w → record v { proving_period = w.proving_period } ≡ w
config_same v w e = rw e refl

next-eq :
    (w : PostConfig) (block start idx : ℕ) (d : DeadlineInfo)
    → 0 < w.proving_period
    → config_of d ≡ w
    → d.block_number ≡ block
    → d.period_start ≡ start
    → d.idx ≡ idx
    → next d
      ≡ ok (
          new_deadline_info w block
            (add_u64 start
              (mul_u64 w.proving_period (add_u64 1 (sub_u64 block start / w.proving_period))))
            idx)
unfolding next
next-eq w block start idx d pos e eb es ei =
    let ep : d.w_post_proving_period ≡ w.proving_period =
      ap (λ (v : PostConfig). v.proving_period) e in
    let positive : (w.proving_period == 0) ≡ false = ground (arith, pos) in
    rw (eb, es, ei, ep, positive)
      (ap
        (λ (v : PostConfig). ok (
          new_deadline_info v block
            (add_u64 start
              (mul_u64 w.proving_period (add_u64 1 (sub_u64 block start / w.proving_period))))
            idx))
        (config_same (config_of d) w e))

-- The start of the period that follows the current block, if no block number overflows.
next_start :
    (p block start : ℕ)
    → 0 < p
    → start ≤ block
    → block + p + p < u64_mod
    → add_u64 start (mul_u64 p (add_u64 1 (sub_u64 block start / p)))
      ≡ start + p * (1 + (block - start) / p)
next_start p block start pos after small =
    let q = (block - start) / p in
    let (above, below) = next_multiple (block - start) p pos in
    let periods : q ≤ block - start = div-le_self (block - start) p in
    rw
      (
        sub_u64-eq block start after (omega arith),
        add_u64-eq 1 q (omega arith),
        mul_u64-eq p (1 + q) (omega arith),
      )
      (add_u64-eq start (p * (1 + q)) (omega arith))

-- For a deadline whose window lies in the proving period, in a period that has started, and
-- block numbers that do not overflow within three more periods: `next_not_elapsed` finds the
-- same deadline in that period if its window there is not over, and otherwise in the period that
-- starts next after the current block. Its window has the full length and is not over at the
-- current block, and it is over before two more periods have passed.
pub next_not_elapsed-new_deadline_info :
    (w : PostConfig) (block start idx : ℕ)
    → IsWindow w idx
    → start ≤ block
    → block + w.proving_period + w.proving_period + w.proving_period < u64_mod
    → (r : DeadlineInfo) × (k : ℕ) × (next_not_elapsed (new_deadline_info w block start idx) ≡ ok r)
      × (k ≡ (
          if leb (start + idx * w.challenge_window + w.challenge_window) block
          then 1 + (block - start) / w.proving_period
          else 0))
      × (r.open_at ≡ start + w.proving_period * k + idx * w.challenge_window)
      × (r.close_at ≡ r.open_at + w.challenge_window)
      × (block < r.close_at)
      × (r.close_at ≤ block + w.proving_period + w.proving_period)
unfolding next_not_elapsed has_elapsed
next_not_elapsed-new_deadline_info w block start idx win after small =
    let p = w.proving_period in
    let d = new_deadline_info w block start idx in
    let (open_is, close_is, config_is, block_is, start_is, idx_is) =
      new_deadline_info-eq w block start idx win (omega arith) in
    elim (Bool-cases (leb d.close_at d.block_number)) [
      | inl over ↦
          let start' = start + p * (1 + (block - start) / p) in
          let at_start = next_start p block start win.positive after (omega arith) in
          let (above, below) = next_multiple (block - start) p win.positive in
          let (open_next, close_next, _, _, _, _) =
            new_deadline_info-eq w block start' idx win (omega arith) in
          (
            new_deadline_info w block start' idx,
            1 + (block - start) / p,
            rw
                (
                  over,
                  next-eq w block start idx d win.positive config_is block_is start_is idx_is,
                  at_start,
                )
                refl,
            rw (rw (close_is, block_is) at over) refl,
            open_next,
            omega (arith, open_next, close_next),
            omega (arith, close_next, above),
            omega (arith, close_next, below, win.in_period),
          )
      | inr running ↦ (
        d,
        0,
        rw running refl,
        rw (rw (close_is, block_is) at running) refl,
        omega (arith, open_is),
        omega (arith, open_is, close_is),
        ground (arith, running, block_is),
        omega (arith, close_is, win.in_period),
      )
    ]
