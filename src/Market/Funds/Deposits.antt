-- ===== src/Market/Funds/Deposits.antt =====
-- A deposit and its withdrawal.
use polka_storage.Base.{ℕ, ◌+◌, ◌-◌, ◌≡◌, ◌==◌, some, arith, if◌then◌else◌}
use polka_storage.Base.Storage
use polka_storage.Market.Types.{default_balance, checked_add, checked_sub}
use polka_storage.Market.Monad.{ok, ◌>>=◌}
use polka_storage.Market.State.{Config, Market, balance_of, deposit_event, allow_death}
use polka_storage.Market.Funds.{transfer, add_balance, withdraw_balance}

module _ (c : Config) where
  -- What a deposit that succeeds leaves.
  record Deposits (caller x : ℕ) (m m' : Market c) : Type 0 where
    entry :
        (who : ℕ)
        → ((balance_of c m' who).free
            ≡ (balance_of c m who).free + (if who == caller then x else 0))
          × ((balance_of c m' who).locked ≡ (balance_of c m who).locked)

  add_balance-Deposits :
      (caller x : ℕ) (m m' : Market c)
      → add_balance c caller x m ≡ (ok tt, m')
      → Deposits caller x m m'
  unfolding add_balance transfer deposit_event checked_add ◌>>=◌
  add_balance-Deposits caller x m m' h = record {
    entry = λ who.
        let e = balance_of c m caller in
        ground (
          arith,
          Storage.get_or-insert default_balance caller who (record e { free = e.free + x })
              m.balance_table,
        );
  }

  -- What was deposited can be withdrawn at once, if the currency lets the market's account pay it
  -- back: the withdrawal succeeds, and every account's balance is what it was before both.
  pub withdraw_balance-add_balance :
      (caller x : ℕ) (m m' : Market c) (l : c.Ledger)
      → add_balance c caller x m ≡ (ok tt, m')
      → c.transfer c.account_id caller x allow_death m'.ledger ≡ some l
      → ((withdraw_balance c caller x m').0 ≡ ok tt)
        × ((who : ℕ)
            → ((balance_of c (withdraw_balance c caller x m').1 who).free
                ≡ (balance_of c m who).free)
              × ((balance_of c (withdraw_balance c caller x m').1 who).locked
                  ≡ (balance_of c m who).locked))
  unfolding withdraw_balance transfer deposit_event checked_sub ◌>>=◌
  withdraw_balance-add_balance caller x m m' l h back =
      let d = add_balance-Deposits caller x m m' h in
      let e = balance_of c m' caller in
      (
        ground (arith, d.entry caller, back),
        λ who. ground (
          arith,
          d.entry caller,
          d.entry who,
          back,
          Storage.get_or-insert default_balance caller who (record e { free = e.free - x })
              m'.balance_table,
        ),
      )
