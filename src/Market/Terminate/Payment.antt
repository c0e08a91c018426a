-- ===== src/Market/Terminate/Payment.antt =====
-- What a termination pays and refunds, and what it does to a deal that has not started.
use polka_storage.Base.{ℕ, ◌+◌, ◌-◌, ◌*◌, ◌^◌, ◌≤◌, ◌<◌, ◌≡◌, min, max, Option, none, some, arith}
use polka_storage.Market.Types.{
  DealProposal, ActiveDealState, sub_blocks, mul_u128, u64_mod, u128_mod, underflow, checked_sub,
}
use polka_storage.Market.Monad.{err, ◌>>=◌}
use polka_storage.Market.State.{Config, Market, balance_of}
use polka_storage.Market.Funds.{perform_storage_payment, try_mutate, debit_locked}
use polka_storage.Market.Settle.Amounts.{FitsU128, sub_blocks-eq_sub, mul_u128-eq_mul}
use polka_storage.Market.Terminate.{
  termination_payment, termination_refund, calculate_start_block, terminate_active, forget_pending,
}

calculate_start_block-ge : (start : ℕ) (last : Option ℕ) → start ≤ calculate_start_block start last
unfolding calculate_start_block
calculate_start_block-ge start none = omega arith
calculate_start_block-ge start (some b) = omega arith

max-zero : (n : ℕ) → max n 0 ≡ n
max-zero n = omega arith

mul_join : (p a b k : ℕ) → a ≤ b → b ≤ k → p * (b - a) + p * (k - b) ≡ (k - a) * p
mul_join p a b k h l = grind arith

-- Part of the deal's blocks costs what the multiplication says.
price-eq_mul :
    (deal : DealProposal)
    → FitsU128 deal
    → (n : ℕ) → n ≤ deal.end_block - deal.start_block
    → mul_u128 deal.storage_price_per_block n ≡ deal.storage_price_per_block * n
price-eq_mul deal fits n h = mul_u128-eq_mul _ n (grind (arith, fits.fee))

sub_blocks_wraps : (a b : ℕ) → a < b → b < u64_mod → sub_blocks a b ≡ u64_mod + a - b
unfolding sub_blocks
sub_blocks_wraps a b h k = omega arith

mul_lt : (p n a b : ℕ) → p < a → n < b → p * n < a * b
mul_lt p n a b h k = grind arith

wrapped_fits : (p n : ℕ) → p < 2 ^ 64 → n < 2 ^ 64 → p * n < u128_mod
wrapped_fits p n h k = mul_lt p n (2 ^ 64) (2 ^ 64) h k

wrapped_more : (p a b : ℕ) → 0 < p → a < b → a * p < p * b
wrapped_more p a b h k = grind arith

-- For a deal that does not end before its start and whose whole fee is a `u128`: between the
-- last settlement, or its start, and its end, the payment and the refund of a termination are
-- together the price of all blocks that were not settled yet.
pub termination_split :
    (now : ℕ) (deal : DealProposal) (st : ActiveDealState)
    → FitsU128 deal
    → calculate_start_block deal.start_block st.last_updated_block ≤ now
    → now ≤ deal.end_block
    → termination_payment now deal st + termination_refund now deal
      ≡ (deal.end_block - calculate_start_block deal.start_block st.last_updated_block)
        * deal.storage_price_per_block
unfolding termination_payment termination_refund
termination_split now deal st fits h k =
    let p = deal.storage_price_per_block in
    let s = calculate_start_block deal.start_block st.last_updated_block in
    let le : deal.start_block ≤ s =
      calculate_start_block-ge deal.start_block st.last_updated_block in
    let at : min now deal.end_block ≡ now = omega arith in
    rw (at, sub_blocks-eq_sub now s h (omega (arith, fits.blocks)), max-zero (now - s))
      (rw
        (
          sub_blocks-eq_sub deal.end_block now k fits.blocks,
          price-eq_mul deal fits (now - s) (omega arith),
          price-eq_mul deal fits (deal.end_block - now) (omega arith),
        )
        (mul_join p s now deal.end_block h k))

-- For a deal that does not end before its start and whose whole fee is a `u128`: a termination
-- before the deal's start block, if it was never settled and its price per block is positive and
-- below 2^64, charges more than the whole fee. The block count `end_block - start_block` is
-- negative there, and block numbers are unsigned.
pub termination_payment_early :
    (now : ℕ) (deal : DealProposal) (st : ActiveDealState)
    → FitsU128 deal
    → st.last_updated_block ≡ none
    → now < deal.start_block
    → 0 < deal.storage_price_per_block
    → deal.storage_price_per_block < 2 ^ 64
    → (deal.end_block - deal.start_block) * deal.storage_price_per_block
      < termination_payment now deal st
unfolding termination_payment calculate_start_block
termination_payment_early now deal st fits fresh early pos small =
    let p = deal.storage_price_per_block in
    let at : min now deal.end_block ≡ now = omega (arith, fits.ordered) in
    let n : sub_blocks now deal.start_block ≡ u64_mod + now - deal.start_block =
      sub_blocks_wraps now deal.start_block early (omega (arith, fits.ordered, fits.blocks)) in
    rw (at, fresh, calculate_start_block, n, max-zero (u64_mod + now - deal.start_block))
      (rw
        (mul_u128-eq_mul p (u64_mod + now - deal.start_block)
          (wrapped_fits p _ small (omega arith)))
        (wrapped_more p (deal.end_block - deal.start_block) (u64_mod + now - deal.start_block) pos
          (omega (arith, fits.ordered, fits.blocks))))

-- For a deal that does not end before its start and whose whole fee is a `u128`: a termination
-- before the deal's start block, if it was never settled and its price per block is positive and
-- below 2^64, fails with an underflow, where the client has locked no more than the fee.
pub terminate_active_early :
    (c : Config) (now deal_id : ℕ) (deal : DealProposal) (st : ActiveDealState) (m : Market c)
    → FitsU128 deal
    → st.last_updated_block ≡ none
    → now < deal.start_block
    → 0 < deal.storage_price_per_block
    → deal.storage_price_per_block < 2 ^ 64
    → (balance_of c m deal.client).locked
      ≤ (deal.end_block - deal.start_block) * deal.storage_price_per_block
    → (terminate_active c now deal_id deal st m).0 ≡ err underflow
unfolding terminate_active forget_pending perform_storage_payment try_mutate debit_locked
    checked_sub ◌>>=◌
terminate_active_early c now deal_id deal st m fits fresh early pos small locked =
    ground (arith, termination_payment_early now deal st fits fresh early pos small)
