-- ===== src/Market/Settle/Twice.antt =====
-- Two settlements of one deal, with the state that the first one leaves.
use polka_storage.Base.{
  ℕ, ◌+◌, ◌≤◌, ◌<◌, ◌≡◌, ◌≢◌, if◌then◌else◌, ◌==◌, ◌∙◌, refl, ap, false, some, ltb, leb, arith,
  Bool-cases, Option-cases, ==_refl, inl, inr,
}
use polka_storage.Base.Storage
use polka_storage.Market.Types.{
  BalanceEntry, default_balance, DealProposal, active, ActiveDealState, SettledDealData,
  DealSettlementError, DispatchError, early_settlement, future_last_update, corruption,
}
use polka_storage.Market.Monad.{Result, ok, err, panic, pure, fail, gets, modify, ◌>>=◌}
use polka_storage.Market.Monad.Inversion.{bind_inverts, pure_inverts}
use polka_storage.Market.State.{Config, Market, balance_of}
use polka_storage.Market.Funds.{
  perform_storage_payment, unlock_funds, try_mutate, unlock, write_back,
}
use polka_storage.Market.Funds.Worth.{perform_storage_payment_exact}
use polka_storage.Market.Settle.{
  Settlement, settled, unsettled, updated_after, last_settled_block, block_to_settle,
  settlement_amount, close_or_update, settle_active, settle_state, settle_found, settle_deal,
}
use polka_storage.Market.Settle.Amounts.{FitsU128, st_at, settlement_amount_split}

-- The deal as a settlement at `block` writes it.
abbrev pub deal_at : ℕ → DealProposal → ActiveDealState → DealProposal
deal_at block deal st = record deal { state = active (st_at block st) }

unsettled_not_settled :
    {X : Type 0} (e : DealSettlementError) (d : SettledDealData)
    → ◌≡◌ {A = Result Settlement} (ok (unsettled e)) (ok (settled d))
    → X
unsettled_not_settled e d h = absurd (cc)

failed_not_ok :
    {X : Type 0} (e : DispatchError) (s : Settlement)
    → ◌≡◌ {A = Result Settlement} (err e) (ok s)
    → X
failed_not_ok e s h = absurd (cc)

not_before : (a b : ℕ) → ltb a b ≡ false → b ≤ a
not_before a b h = ground arith

paid_once : (who x a b : ℕ) → a + (if who == who then x else 0) ≡ b → a + x ≡ b
paid_once who x a b h = rw (==_refl who) at h

-- What a settlement reports as paid.
abbrev amount_of : Settlement → ℕ
amount_of (settled d) = d.amount
amount_of (unsettled e) = 0

module _ (c : Config) where
  write_back-other :
      (who other : ℕ) (r : Result BalanceEntry) (m : Market c)
      → other ≢ who
      → balance_of c (write_back c who r m).1 other ≡ balance_of c m other
  write_back-other who other (ok e) m h =
      let apart : (other == who) ≡ false = ground (arith, h) in
      Storage.get_or-insert default_balance who other e m.balance_table ∙ rw apart refl
  write_back-other who other (err e) m h = refl
  write_back-other who other panic m h = refl

  unlock_funds-other :
      (who x other : ℕ) (m : Market c)
      → other ≢ who
      → balance_of c (unlock_funds c who x m).1 other ≡ balance_of c m other
  unfolding unlock_funds try_mutate
  unlock_funds-other who x other m h =
      write_back-other who other (unlock x (balance_of c m who)) m h

  module _ (now id : ℕ) (deal : DealProposal) (st : ActiveDealState) (d : SettledDealData) where
    -- What a settlement that is reported as successful did.
    record Settles (m m' : Market c) : Type 0 where
      paid :
          deal.client ≢ deal.provider
          → (balance_of c m' deal.client).locked + settlement_amount now deal st
            ≡ (balance_of c m deal.client).locked
      amount : d.amount ≡ settlement_amount now deal st
      later : last_settled_block deal st ≤ now
      updated : now < deal.end_block → Storage.get id m'.proposals ≡ some (deal_at now deal st)

    close_or_update-updates :
        (m m' : Market c)
        → close_or_update c now id deal st m ≡ (ok tt, m')
        → now < deal.end_block
        → Storage.get id m'.proposals ≡ some (deal_at now deal st)
    unfolding close_or_update modify
    close_or_update-updates m m' h running =
        let not_over : leb deal.end_block now ≡ false = ground (arith, running) in
        let after = ap (λ (r : Result (Unit {0}) × Market c). r.1.proposals) (rw not_over at h) in
        rw (← after)
          (Storage.get-insert id id (deal_at now deal st) m.proposals ∙ rw (==_refl id) refl)

    close_or_update-client :
        (m m' : Market c)
        → close_or_update c now id deal st m ≡ (ok tt, m')
        → deal.client ≢ deal.provider
        → (balance_of c m' deal.client).locked ≡ (balance_of c m deal.client).locked
    unfolding close_or_update modify
    close_or_update-client m m' h other = elim (Bool-cases (leb deal.end_block now)) [
      | inl over ↦
          let r =
            bind_inverts (unlock_funds c deal.provider deal.provider_collateral) _ m tt m'
              (rw over at h) in
          let unlocked = ap (λ (x : Result (Unit {0}) × Market c). x.1.balance_table) r.first in
          let last = ap (λ (x : Result (Unit {0}) × Market c). x.1.balance_table) r.rest in
          rw (← last, ← unlocked)
            (ap (λ (x : BalanceEntry). x.locked)
              (unlock_funds-other deal.provider deal.provider_collateral deal.client m other))
      | inr running ↦
          let last =
            ap (λ (x : Result (Unit {0}) × Market c). x.1.balance_table) (rw running at h) in
          rw (← last) refl
    ]

    not_updated_after :
        deal.start_block ≤ now
        → updated_after st.last_updated_block now ≡ false
        → last_settled_block deal st ≤ now
    unfolding updated_after last_settled_block
    not_updated_after started h = elim (Option-cases st.last_updated_block) [
      | inl e ↦ rw (e, last_settled_block) started
      | inr (b, e) ↦ rw (e, last_settled_block) (not_before now b (rw (e, updated_after) at h))
    ]

    settle_active-Settles :
        (m m' : Market c)
        → deal.start_block ≤ now
        → settle_active c now id deal st m ≡ (ok (settled d), m')
        → Settles m m'
    unfolding settle_active pure fail
    settle_active-Settles m m' started h =
        elim (Bool-cases (updated_after st.last_updated_block now)) [
          | inl e ↦
              unsettled_not_settled future_last_update d
                (ap (λ (r : Result Settlement × Market c). r.0) (rw e at h))
          | inr e ↦ elim (Bool-cases (ltb deal.end_block (last_settled_block deal st))) [
            | inl f ↦
                failed_not_ok corruption (settled d)
                  (ap (λ (r : Result Settlement × Market c). r.0) (rw (e, f) at h))
            | inr f ↦
                let r =
                  bind_inverts (perform_storage_payment c deal.client deal.provider _) _ m
                    (settled d) m' (rw (e, f) at h) in
                let r2 =
                  bind_inverts (close_or_update c now id deal st) _ r.middle (settled d) m'
                    r.rest in
                let (value, same) = pure_inverts _ (settled d) r2.middle m' r2.rest in
                let payment =
                  perform_storage_payment_exact c deal.client deal.provider _ m r.middle r.first
                    deal.client in
                record {
                  paid = λ other.
                      rw (same, close_or_update-client r.middle r2.middle r2.first other)
                        (paid_once deal.client _ _ _ payment.1);
                  amount = ap amount_of value;
                  later = not_updated_after started e;
                  updated = λ running.
                      rw same (close_or_update-updates r.middle r2.middle r2.first running);
                }
          ]
        ]

    settle_deal-Settles :
        (m m' : Market c)
        → Storage.get id m.proposals ≡ some deal
        → deal.state ≡ active st
        → settle_deal c now id m ≡ (ok (settled d), m')
        → Settles m m'
    unfolding settle_deal gets ◌>>=◌ settle_found settle_state pure settle_active last_settled_block
        settlement_amount close_or_update
    settle_deal-Settles m m' found is_active h = elim (Bool-cases (ltb now deal.start_block)) [
      | inl early ↦
          unsettled_not_settled early_settlement d
            (ap (λ (r : Result Settlement × Market c). r.0) (rw (found, early) at h))
      | inr started ↦
          settle_active-Settles m m' (not_before now deal.start_block started)
            (rw (found, started, is_active) at h)
    ]

  settlement_amount-deal_at :
      (first second : ℕ) (deal : DealProposal) (st : ActiveDealState)
      → settlement_amount second (deal_at first deal st) (st_at first st)
        ≡ settlement_amount second deal (st_at first st)
  unfolding settlement_amount block_to_settle last_settled_block
  settlement_amount-deal_at first second deal st = refl

  -- Two settlements of an active deal that both succeed, the first before the deal's end and the
  -- second on the state that the first leaves, pay in all what a single settlement at the second
  -- block is to pay. Unless the client is the provider, that is what the client's locked funds lose
  -- in all. The deal does not end before its start, was not settled before its start, and
  -- its whole fee is a `u128`.
  pub settle_deal_twice :
      (first second id : ℕ) (deal : DealProposal) (st : ActiveDealState) (d1 d2 : SettledDealData)
      (m m1 m2 : Market c)
      → FitsU128 deal
      → Storage.get id m.proposals ≡ some deal
      → deal.state ≡ active st
      → deal.start_block ≤ last_settled_block deal st
      → first < deal.end_block
      → first ≤ second
      → settle_deal c first id m ≡ (ok (settled d1), m1)
      → settle_deal c second id m1 ≡ (ok (settled d2), m2)
      → (d1.amount + d2.amount ≡ settlement_amount second deal st)
        × (deal.client ≢ deal.provider
            → (balance_of c m2 deal.client).locked + settlement_amount second deal st
              ≡ (balance_of c m deal.client).locked)
  settle_deal_twice first second id deal st d1 d2 m m1 m2 fits found is_active after before order h1
        h2 =
      let one = settle_deal-Settles first id deal st d1 m m1 found is_active h1 in
      let two =
        settle_deal-Settles second id (deal_at first deal st) (st_at first st) d2 m1 m2
          (one.updated before) refl h2 in
      let whole = settlement_amount_split deal fits first second st after one.later order before in
      let same = settlement_amount-deal_at first second deal st in
      (
        rw (one.amount, two.amount, same) whole,
        λ other. omega (arith, one.paid other, two.paid other, same, whole),
      )
