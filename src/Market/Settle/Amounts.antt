-- ===== src/Market/Settle/Amounts.antt =====
-- What settlements pay: how the amounts of several settlements of one deal add up.
use polka_storage.Base.{ℕ, ◌+◌, ◌-◌, ◌*◌, ◌≤◌, ◌<◌, ◌≡◌, refl, none, some, arith}
use native.Mathlib.Nat.{mod-eq_of_lt, mul_comm}
use polka_storage.Market.Types.{
  DealProposal, ActiveDealState, sub_blocks, mul_u128, duration, total_storage_fee, u64_mod,
  u128_mod,
}
use polka_storage.Market.Settle.{settlement_amount, block_to_settle, last_settled_block}

pub sub_blocks-eq_sub : (a b : ℕ) → b ≤ a → a < u64_mod → sub_blocks a b ≡ a - b
unfolding sub_blocks
sub_blocks-eq_sub a b h k = omega arith

pub mul_u128-eq_mul : (a b : ℕ) → a * b < u128_mod → mul_u128 a b ≡ a * b
unfolding mul_u128
mul_u128-eq_mul a b h = mod-eq_of_lt h

-- A deal whose blocks are block numbers and whose whole fee is a `u128`.
pub record FitsU128 (deal : DealProposal) : Type 0 where
  pub ordered : deal.start_block ≤ deal.end_block
  pub blocks : deal.end_block < u64_mod
  pub fee : (deal.end_block - deal.start_block) * deal.storage_price_per_block < u128_mod

pub block_to_settle-le : (now : ℕ) (deal : DealProposal) → block_to_settle now deal ≤ deal.end_block
unfolding block_to_settle
block_to_settle-le now deal = ground arith

mul_split : (a b k p : ℕ) → a ≤ b → b ≤ k → (b - a) * p + (k - b) * p ≡ (k - a) * p
mul_split a b k p h l = grind arith

-- The state that a settlement at `block` leaves.
abbrev pub st_at : ℕ → ActiveDealState → ActiveDealState
st_at block st = record st { last_updated_block = some block }

last_settled_block-st_at :
    (deal : DealProposal) (block : ℕ) (st : ActiveDealState)
    → last_settled_block deal (st_at block st) ≡ block
unfolding last_settled_block
last_settled_block-st_at deal block st = refl

block_to_settle-ge :
    (first second : ℕ) (deal : DealProposal)
    → first ≤ second
    → first < deal.end_block
    → (block_to_settle first deal ≡ first) × (first ≤ block_to_settle second deal)
unfolding block_to_settle
block_to_settle-ge first second deal h e = ground arith

module _ (deal : DealProposal) (fits : FitsU128 deal) where
  -- Part of the deal's blocks costs less than a `u128` holds.
  part_fits :
      (n : ℕ) → n ≤ deal.end_block - deal.start_block → n * deal.storage_price_per_block < u128_mod
  part_fits n h = grind (arith, fits.fee)

  pub settlement_amount-eq :
      (now : ℕ) (st : ActiveDealState)
      → deal.start_block ≤ last_settled_block deal st
      → last_settled_block deal st ≤ block_to_settle now deal
      → settlement_amount now deal st
        ≡ (block_to_settle now deal - last_settled_block deal st) * deal.storage_price_per_block
  unfolding settlement_amount
  settlement_amount-eq now st h k =
      let below : block_to_settle now deal ≤ deal.end_block = block_to_settle-le now deal in
      rw (sub_blocks-eq_sub _ _ k (omega (arith, fits.blocks)))
        (mul_u128-eq_mul _ _ (part_fits _ (omega arith)))

  -- For a deal that does not end before its start and whose whole fee is a `u128`: settling it
  -- at two blocks, the first neither before the last settlement nor at or after the deal's end,
  -- pays in all what settling it at the second alone does.
  pub settlement_amount_split :
      (first second : ℕ) (st : ActiveDealState)
      → deal.start_block ≤ last_settled_block deal st
      → last_settled_block deal st ≤ first
      → first ≤ second
      → first < deal.end_block
      → settlement_amount first deal st + settlement_amount second deal (st_at first st)
        ≡ settlement_amount second deal st
  settlement_amount_split first second st h k l e =
      let st' = st_at first st in
      let last : last_settled_block deal st' ≡ first = last_settled_block-st_at deal first st in
      let (at_first, later) = block_to_settle-ge first second deal l e in
      let one = settlement_amount-eq first st h (omega arith) in
      let two = settlement_amount-eq second st' (omega arith) (omega arith) in
      let both = settlement_amount-eq second st h (omega arith) in
      rw (one, two, both, last, at_first)
        (mul_split (last_settled_block deal st) first (block_to_settle second deal)
          deal.storage_price_per_block k later)

  -- For a deal that does not end before its start and whose whole fee is a `u128`: settling it
  -- at its end or later, if it was never settled before, pays the whole storage fee.
  pub settlement_amount_whole :
      (now : ℕ) (st : ActiveDealState)
      → st.last_updated_block ≡ none
      → deal.end_block ≤ now
      → some (settlement_amount now deal st) ≡ total_storage_fee deal
  unfolding total_storage_fee duration settlement_amount mul_u128
  settlement_amount_whole now st fresh over =
      ground
        (arith, mul_comm deal.storage_price_per_block (sub_blocks deal.end_block deal.start_block))
