-- ===== src/Market/Solvency/History.antt =====
-- Deposits, withdrawals, `on_finalize`, and any history of calls.
use polka_storage.Base.{
  ℕ, ◌+◌, ◌-◌, ◌≤◌, ◌≡◌, ◌≢◌, Option, none, some, List, [], ◌∷◌, arith, Option-cases, Bool-cases,
  inl, inr, refl, All, is_empty,
}
use polka_storage.Base.Storage
use polka_storage.Btree.Set.{BtreeSet}
use polka_storage.Market.Types.{
  DealProposal, DealState, published, active, ClientDealProposal, default_balance, checked_add,
  checked_sub,
}
use polka_storage.Market.Monad.{Result, ok, err, panic, ◌>>=◌}
use polka_storage.Market.Monad.Keeps.{Keeps}
use polka_storage.Market.State.{Config, Market, deposit_event, balance_of, keep_alive, allow_death}
use polka_storage.Market.Funds.{add_balance, withdraw_balance, transfer}
use polka_storage.Market.Funds.Entries.{worth}
use polka_storage.Market.Funds.Worth.{IsCurrency, total_worth}
use polka_storage.Market.Settle.{settle_deal_payments}
use polka_storage.Market.Terminate.{on_sectors_terminate}
use polka_storage.Market.Publish.{publish_storage_deals}
use polka_storage.Market.Finalize.{
  on_finalize, finalize_deals, finalize_deal, finalize_state, finalize_fee, drop_slashed,
  slash_unactivated,
}
use polka_storage.Market.Solvency.{Covers, IsSolvent}
use polka_storage.Market.Solvency.Rules.{covers}
use polka_storage.Market.Solvency.Settlement.{
  settle_deal_payments-Covers, on_sectors_terminate-Covers,
}
use polka_storage.Market.Solvency.Publication.{publish_storage_deals-Covers}

module _ (c : Config) (held : c.Ledger → ℕ) (cur : IsCurrency c held) where
  add_balance-Covers :
      (caller x : ℕ)
      → caller ≢ c.account_id
      → (m : Market c) → Covers c held m (add_balance c caller x m).1
  unfolding add_balance ◌>>=◌ transfer deposit_event checked_add
  add_balance-Covers caller x other m =
      let e = balance_of c m caller in
      elim (Option-cases (c.transfer caller c.account_id x keep_alive m.ledger)) [
        | inl r ↦ ground arith
        | inr (l, r) ↦ ground (
          arith,
          cur.held_in caller x m.ledger l other r,
          Storage.total-insert worth default_balance caller (record e { free = e.free + x })
              m.balance_table refl,
        )
      ]

  held_out_within :
      (who x : ℕ) (l l' : c.Ledger)
      → who ≢ c.account_id
      → c.transfer c.account_id who x allow_death l ≡ some l'
      → held l ≤ held l' + x + cur.existential_deposit
  held_out_within who x l l' other r = elim (cur.held_out who x l l' other r) [
    | inl e ↦ omega arith
    | inr e ↦ omega (arith, e)
  ]

  withdraw_balance-Covers :
      (caller x : ℕ)
      → caller ≢ c.account_id
      → (m : Market c)
      → total_worth (withdraw_balance c caller x m).1 + held m.ledger
        ≤ total_worth m + held (withdraw_balance c caller x m).1.ledger + cur.existential_deposit
  unfolding withdraw_balance ◌>>=◌ transfer deposit_event checked_sub
  withdraw_balance-Covers caller x other m =
      let e = balance_of c m caller in
      elim (Option-cases (c.transfer c.account_id caller x allow_death m.ledger)) [
        | inl r ↦ ground arith
        | inr (l, r) ↦ ground (
          arith,
          held_out_within caller x m.ledger l other r,
          Storage.total-insert worth default_balance caller (record e { free = e.free - x })
              m.balance_table refl,
        )
      ]

  slash_unactivated-Covers :
      (deal_id : ℕ) (p : DealProposal) (fee : ℕ)
      → Keeps (Covers c held) (slash_unactivated c deal_id p fee)
  unfolding slash_unactivated
  slash_unactivated-Covers deal_id p fee = search covers

  drop_slashed-Covers :
      (deal_id : ℕ) (p : DealProposal) (pending : BtreeSet) (m : Market c)
      (r : Result (Unit {0}) × Market c)
      → Covers c held m r.1
      → Covers c held m (drop_slashed c deal_id p pending r).1
  unfolding drop_slashed
  drop_slashed-Covers deal_id p pending m (ok _, n) h = h
  drop_slashed-Covers deal_id p pending m (err _, n) h = h
  drop_slashed-Covers deal_id p pending m (panic, n) h = h

  finalize_fee-Covers :
      (deal_id : ℕ) (p : DealProposal) (fee : Option ℕ) (pending : BtreeSet) (m : Market c)
      → Covers c held m (finalize_fee c deal_id p fee pending m).1
  unfolding finalize_fee
  finalize_fee-Covers deal_id p none pending m = omega arith
  finalize_fee-Covers deal_id p (some fee) pending m =
      drop_slashed-Covers deal_id p pending m _ ((slash_unactivated-Covers deal_id p fee).at m)

  finalize_state-Covers :
      (deal_id : ℕ) (p : DealProposal) (st : DealState) (pending : BtreeSet) (m : Market c)
      → Covers c held m (finalize_state c deal_id p st pending m).1
  unfolding finalize_state
  finalize_state-Covers deal_id p published pending m = finalize_fee-Covers deal_id p _ pending m
  finalize_state-Covers deal_id p (active _) pending m = omega arith

  finalize_deal-Covers :
      (deal_id : ℕ) (found : Option DealProposal) (pending : BtreeSet) (m : Market c)
      → Covers c held m (finalize_deal c deal_id found pending m).1
  unfolding finalize_deal
  finalize_deal-Covers deal_id none pending m = omega arith
  finalize_deal-Covers deal_id (some p) pending m =
      finalize_state-Covers deal_id p p.state pending m

  finalize_deals-Covers :
      (deal_ids : List ℕ) (pending : BtreeSet) (m : Market c)
      → Covers c held m (finalize_deals c deal_ids pending m).1
  unfolding finalize_deals
  finalize_deals-Covers [] pending m = omega arith
  finalize_deals-Covers (deal_id ∷ deal_ids) pending m =
      let found = Storage.get deal_id m.proposals in
      let (pending', m') = finalize_deal c deal_id found pending m in
      omega (
        arith,
        finalize_deal-Covers deal_id found pending m,
        finalize_deals-Covers deal_ids pending' m',
      )

  on_finalize-Covers : (now : ℕ) (m : Market c) → Covers c held m (on_finalize c now m)
  unfolding on_finalize
  on_finalize-Covers now m =
      let deal_ids = Storage.get_or [] now m.deals_for_block in
      elim (Bool-cases (is_empty deal_ids)) [
        | inl e ↦ rw e (omega arith)
        | inr e ↦ rw e (finalize_deals-Covers deal_ids m.pending_proposals m)
      ]

-- What reaches the pallet. A sector's termination is not rolled back by itself when it fails: that
-- is up to the pallet that reports it.
pub data Call (c : Config) : Type 0 where
  adds withdraws : ℕ → ℕ → Call c
  settles : ℕ → List ℕ → Call c
  publishes : ℕ → ℕ → List (ClientDealProposal c.Signature) → Call c
  terminates : ℕ → ℕ → List ℕ → Call c
  finalizes : ℕ → Call c

-- An extrinsic that fails is rolled back.
abbrev pub dispatch : {c : Config} → Market c → Result (Unit {0}) × Market c → Market c
dispatch m (ok _, m') = m'
dispatch m (err _, m') = m
dispatch m (panic, m') = m

module _ (c : Config) where
  pub step : Market c → Call c → Market c
  step m (adds caller x) = dispatch m (add_balance c caller x m)
  step m (withdraws caller x) = dispatch m (withdraw_balance c caller x m)
  step m (settles now deal_ids) = dispatch m (settle_deal_payments c now deal_ids m)
  step m (publishes provider now deals) = dispatch m (publish_storage_deals c provider now deals m)
  step m (terminates provider now sectors) = (on_sectors_terminate c provider now sectors m).1
  step m (finalizes now) = on_finalize c now m

  pub run : Market c → List (Call c) → Market c
  run m [] = m
  run m (call ∷ calls) = run (step m call) calls

-- The market's own account signs nothing.
abbrev pub IsSigned : (c : Config) → Call c → Type 0
IsSigned c (adds caller _) = caller ≢ c.account_id
IsSigned c (withdraws caller _) = caller ≢ c.account_id
IsSigned c _ = Unit

module _ (c : Config) (held : c.Ledger → ℕ) (cur : IsCurrency c held) where
  dispatch-Covers :
      (m : Market c) (r : Result (Unit {0}) × Market c)
      → Covers c held m r.1
      → Covers c held m (dispatch m r)
  dispatch-Covers m (ok _, m') h = h
  dispatch-Covers m (err _, m') h = omega arith
  dispatch-Covers m (panic, m') h = omega arith

  -- What may be lost in the currency: the rest of the account, below the existential deposit, each
  -- time that a withdrawal closes it.
  abbrev loss : Call c → ℕ
  loss (withdraws _ _) = cur.existential_deposit
  loss _ = 0

  unfoldable pub dust : List (Call c) → ℕ
  dust [] = 0
  dust (call ∷ calls) = loss call + dust calls

  Covers-more :
      (n : ℕ) (m m' : Market c)
      → Covers c held m m'
      → total_worth m' + held m.ledger ≤ total_worth m + held m'.ledger + n
  Covers-more n m m' h = omega arith

  dispatch_withdrawal :
      (d : ℕ) (m : Market c) (r : Result (Unit {0}) × Market c)
      → total_worth r.1 + held m.ledger ≤ total_worth m + held r.1.ledger + d
      → total_worth (dispatch m r) + held m.ledger ≤ total_worth m + held (dispatch m r).ledger + d
  dispatch_withdrawal d m (ok _, m') h = h
  dispatch_withdrawal d m (err _, m') h = omega arith
  dispatch_withdrawal d m (panic, m') h = omega arith

  step-Covers :
      (m : Market c) (call : Call c)
      → IsSigned c call
      → total_worth (step c m call) + held m.ledger
        ≤ total_worth m + held (step c m call).ledger + loss call
  unfolding step
  step-Covers m (adds caller x) s =
      Covers-more 0 m (step c m (adds caller x))
        (dispatch-Covers m _ (add_balance-Covers c held cur caller x s m))
  step-Covers m (withdraws caller x) s =
      dispatch_withdrawal cur.existential_deposit m _
        (withdraw_balance-Covers c held cur caller x s m)
  step-Covers m (settles now deal_ids) s =
      Covers-more 0 m (step c m (settles now deal_ids))
        (dispatch-Covers m _ ((settle_deal_payments-Covers c held cur now deal_ids).at m))
  step-Covers m (publishes provider now deals) s =
      Covers-more 0 m (step c m (publishes provider now deals))
        (dispatch-Covers m _ ((publish_storage_deals-Covers c held cur provider now deals).at m))
  step-Covers m (terminates provider now sectors) s =
      Covers-more 0 m (step c m (terminates provider now sectors))
        ((on_sectors_terminate-Covers c held cur provider now sectors).at m)
  step-Covers m (finalizes now) s =
      Covers-more 0 m (step c m (finalizes now)) (on_finalize-Covers c held cur now m)

  run-Covers :
      (m : Market c) (calls : List (Call c))
      → All (IsSigned c) calls
      → total_worth (run c m calls) + held m.ledger
        ≤ total_worth m + held (run c m calls).ledger + dust calls
  unfolding run dust
  run-Covers m [] s = omega arith
  run-Covers m (call ∷ calls) s =
      omega (arith, run-Covers (step c m call) calls s.1, step-Covers m call s.0)

  -- From a solvent market, any history of deposits, withdrawals, settlements, publications, sector
  -- terminations and end-of-block hooks, failures included, leads to one that is solvent but for
  -- dust: the sum of all free and locked balances is at most what the market's account holds in the
  -- currency, and one existential deposit for each withdrawal, since a withdrawal may close the
  -- account and lose a rest below the existential deposit. The market's own account makes no deposit
  -- or withdrawal, and the currency otherwise moves what it is told to.
  pub run-IsSolvent :
      (m : Market c) (calls : List (Call c))
      → All (IsSigned c) calls
      → IsSolvent c held m
      → total_worth (run c m calls) ≤ held (run c m calls).ledger + dust calls
  run-IsSolvent m calls s h = omega (arith, run-Covers m calls s)
