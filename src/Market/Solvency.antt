-- ===== src/Market/Solvency.antt =====
-- The market never owes more than its account in the currency holds.
mod Rules
mod Settlement
mod Publication
pub mod History
use polka_storage.Base.{ℕ, ◌+◌, ◌-◌, ◌≤◌, ◌≢◌, ◌≡◌, refl, some, none, arith, Option-cases, inl, inr}
use polka_storage.Base.Storage
use polka_storage.Market.Types.{
  BalanceEntry, default_balance, checked_add, checked_sub, corruption, currency_failed,
}
use polka_storage.Market.Monad.{Result, ok, err, panic, Action, ◌>>=◌, resume, modify, gets}
use polka_storage.Market.Monad.Keeps.{
  Keeps, IsPreorder, Keeps-pure, Keeps-fail, Keeps-gets, Keeps-ok_or, Keeps-unwrap, Keeps-ensure,
  Keeps-bind, Keeps-if,
}
use polka_storage.Market.State.{Config, Market, balance_of, deposit_event, keep_alive}
use polka_storage.Market.Funds.Entries.{worth}
use polka_storage.Market.Funds.Worth.{
  total_worth, IsCurrency, Moves, unlock_funds-Moves, lock_funds-Moves, debit-Moves, credit-Moves,
}
use polka_storage.Market.Funds.{
  try_mutate, burn_and_settle, debit_locked, credit_free, perform_storage_payment, unlock_funds,
  lock_funds, slash_and_burn,
}

-- What the market's account holds beyond what the market owes does not shrink.
abbrev pub Covers : (c : Config) → (c.Ledger → ℕ) → Market c → Market c → Type 0
Covers c held m m' = total_worth m' + held m.ledger ≤ total_worth m + held m'.ledger

abbrev pub IsSolvent : (c : Config) → (c.Ledger → ℕ) → Market c → Type 0
IsSolvent c held m = total_worth m ≤ held m.ledger

module _ (c : Config) (held : c.Ledger → ℕ) (cur : IsCurrency c held) where
  pub Covers-IsPreorder : IsPreorder (Covers c held)
  Covers-IsPreorder = record { same = λ s. omega arith; trans = λ s t u h k. omega arith }

  -- A step that leaves the ledger alone and gains nothing covers what it owes.
  Moves-Covers :
      (x : ℕ) (m : Market c) (r : Result (Unit {0}) × Market c)
      → Moves 0 x m r
      → Covers c held m r.1
  Moves-Covers x m (ok a, n) h = ground arith
  Moves-Covers x m (err a, n) h = ground arith
  Moves-Covers x m (panic, n) h = ground arith

  pub unlock_funds-Covers : (who x : ℕ) → Keeps (Covers c held) (unlock_funds c who x)
  unlock_funds-Covers who x = record { at = λ s. Moves-Covers 0 s _ (unlock_funds-Moves c who x s) }

  pub lock_funds-Covers : (who x : ℕ) → Keeps (Covers c held) (lock_funds c who x)
  lock_funds-Covers who x = record { at = λ s. Moves-Covers 0 s _ (lock_funds-Moves c who x s) }

  -- After a debit of `x` the next step may owe `x` more.
  resume-Covers :
      (x : ℕ) (m : Market c) (r : Result (Unit {0}) × Market c)
      (f : Unit {0} → Action (Market c) (Unit {0}))
      → Moves 0 x m r
      → ((n : Market c)
          → total_worth (f tt n).1 + held n.ledger ≤ total_worth n + x + held (f tt n).1.ledger)
      → Covers c held m (resume r.0 f r.1).1
  resume-Covers x m (ok a, n) f h k = ground (arith, k n)
  resume-Covers x m (err a, n) f h k = ground arith
  resume-Covers x m (panic, n) f h k = ground arith

  credit_after_debit :
      (x : ℕ) (n : Market c) (r : Result (Unit {0}) × Market c)
      → Moves x 0 n r
      → total_worth r.1 + held n.ledger ≤ total_worth n + x + held r.1.ledger
  credit_after_debit x n (ok a, s) h = ground arith
  credit_after_debit x n (err a, s) h = ground arith
  credit_after_debit x n (panic, s) h = ground arith

  pub perform_storage_payment-Covers :
      (client provider x : ℕ) → Keeps (Covers c held) (perform_storage_payment c client provider x)
  unfolding perform_storage_payment ◌>>=◌
  perform_storage_payment-Covers client provider x = record {
    at = λ s.
        resume-Covers x s _ _ (debit-Moves c client x s)
          (λ n. credit_after_debit x n _ (credit-Moves c provider x n));
  }

  burn_after_debit :
      (x : ℕ) (n : Market c)
      → total_worth (burn_and_settle c x n).1 + held n.ledger
        ≤ total_worth n + x + held (burn_and_settle c x n).1.ledger
  unfolding burn_and_settle
  burn_after_debit x n =
      elim (Option-cases (c.settle c.account_id x keep_alive (c.burn x n.ledger))) [
        | inl e ↦ ground (arith, cur.held_burn x n.ledger)
        | inr (l, e) ↦
            ground (arith, cur.held_burn x n.ledger, cur.held_settle x (c.burn x n.ledger) l e)
      ]

  pub slash_and_burn-Covers : (who x : ℕ) → Keeps (Covers c held) (slash_and_burn c who x)
  unfolding slash_and_burn ◌>>=◌
  slash_and_burn-Covers who x = record {
    at = λ s. resume-Covers x s _ _ (debit-Moves c who x s) (burn_after_debit x);
  }
