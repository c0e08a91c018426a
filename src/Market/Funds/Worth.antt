-- ===== src/Market/Funds/Worth.antt =====
-- The total of the balance table, and what each operation on funds does to it and to the market's
-- account in the currency.
use polka_storage.Base.{
  ◌≤◌, ◌<◌, ◌⊎◌, ℕ, ◌+◌, ◌-◌, ◌==◌, if◌then◌else◌, ◌≢◌, ◌≡◌, some, refl, arith,
}
use polka_storage.Base.Storage
use polka_storage.Market.Types.{BalanceEntry, default_balance, checked_add, checked_sub}
use polka_storage.Market.Monad.{Result, ok, err, panic, Action, ◌>>=◌, resume}
use polka_storage.Market.State.{Config, Market, keep_alive, allow_death, balance_of}
use polka_storage.Market.Funds.Entries.{
  worth, Changes, debit_locked-Changes, credit_free-Changes, unlock-Changes, lock-Changes,
}
use polka_storage.Market.Funds.{
  try_mutate, write_back, debit_locked, credit_free, perform_storage_payment, unlock_funds,
  lock_funds,
}

-- All that the market owes, to all accounts.
abbrev pub total_worth : {c : Config} → Market c → ℕ
total_worth m = Storage.total worth m.balance_table

-- What the documentation of `Currency` promises of the balance that an account has in the ledger.
pub record IsCurrency (c : Config) (held : c.Ledger → ℕ) : Type 0 where
  pub existential_deposit : ℕ
  pub held_in :
      (who x : ℕ) (l l' : c.Ledger)
      → who ≢ c.account_id
      → c.transfer who c.account_id x keep_alive l ≡ some l'
      → held l' ≡ held l + x
  pub held_out :
      (who x : ℕ) (l l' : c.Ledger)
      → who ≢ c.account_id
      → c.transfer c.account_id who x allow_death l ≡ some l'
      → (held l' + x ≡ held l) ⊎ ((held l' ≡ 0) × (x ≤ held l) × (held l < x + existential_deposit))
  pub held_burn : (x : ℕ) (l : c.Ledger) → held (c.burn x l) ≡ held l
  pub held_settle :
      (x : ℕ) (l l' : c.Ledger)
      → c.settle c.account_id x keep_alive l ≡ some l'
      → held l' + x ≡ held l

-- A step that is worth `gained - lost` more where it succeeds, and leaves the ledger alone; where it
-- fails it changes nothing.
abbrev pub Moves : {c : Config} → ℕ → ℕ → Market c → Result (Unit {0}) × Market c → Type 0
Moves gained lost m (ok _, m') =
    (total_worth m' + lost ≡ total_worth m + gained) × (m'.ledger ≡ m.ledger)
Moves gained lost m (err _, m') = m' ≡ m
Moves gained lost m (panic, m') = m' ≡ m

module _ (c : Config) where
  write_back-Moves :
      (g l who : ℕ) (r : Result BalanceEntry) (m : Market c)
      → Changes g l (balance_of c m who) r
      → Moves g l m (write_back c who r m)
  write_back-Moves g l who (ok e) m k =
      (omega (arith, Storage.total-insert worth default_balance who e m.balance_table refl), refl)
  write_back-Moves g l who (err e) m k = refl
  write_back-Moves g l who panic m k = refl

  pub unlock_funds-Moves : (who x : ℕ) (m : Market c) → Moves 0 0 m (unlock_funds c who x m)
  unfolding unlock_funds try_mutate
  unlock_funds-Moves who x m = write_back-Moves 0 0 who _ m (unlock-Changes x _)

  pub lock_funds-Moves : (who x : ℕ) (m : Market c) → Moves 0 0 m (lock_funds c who x m)
  unfolding lock_funds try_mutate
  lock_funds-Moves who x m = write_back-Moves 0 0 who _ m (lock-Changes x _)

  pub debit-Moves : (who x : ℕ) (m : Market c) → Moves 0 x m (try_mutate c who (debit_locked x) m)
  unfolding try_mutate
  debit-Moves who x m = write_back-Moves 0 x who _ m (debit_locked-Changes x _)

  pub credit-Moves : (who x : ℕ) (m : Market c) → Moves x 0 m (try_mutate c who (credit_free x) m)
  unfolding try_mutate
  credit-Moves who x m = write_back-Moves x 0 who _ m (credit_free-Changes x _)

  -- What follows a step that `Moves`.
  resume-Moves :
      (g l g' l' : ℕ) (m : Market c) (r : Result (Unit {0}) × Market c)
      (f : Unit {0} → Action (Market c) (Unit {0}))
      → Moves g l m r
      → ((n : Market c) → Moves g' l' n (f tt n))
      → (m' : Market c) → resume r.0 f r.1 ≡ (ok tt, m')
      → (total_worth m' + l + l' ≡ total_worth m + g + g') × (m'.ledger ≡ m.ledger)
  resume-Moves g l g' l' m (ok a, n) f h k m' e = ground (arith, k n)
  resume-Moves g l g' l' m (err a, n) f h k m' e = absurd (cc)
  resume-Moves g l g' l' m (panic, n) f h k m' e = absurd (cc)

  -- A payment that succeeds moves the amount inside the table.
  pub perform_storage_payment-Moves :
      (client provider x : ℕ) (m m' : Market c)
      → perform_storage_payment c client provider x m ≡ (ok tt, m')
      → (total_worth m' ≡ total_worth m) × (m'.ledger ≡ m.ledger)
  unfolding perform_storage_payment ◌>>=◌
  perform_storage_payment-Moves client provider x m m' h =
      let (same, kept) =
        resume-Moves 0 x x 0 m _ _ (debit-Moves client x m) (credit-Moves provider x) m' h in
      (omega arith, kept)

  -- A payment that succeeds takes the amount from what the client has locked and adds it to what the
  -- provider has free, and leaves every other balance as it was.
  pub perform_storage_payment_exact :
      (client provider x : ℕ) (m m' : Market c)
      → perform_storage_payment c client provider x m ≡ (ok tt, m')
      → (who : ℕ)
      → ((balance_of c m' who).free
          ≡ (balance_of c m who).free + (if who == provider then x else 0))
        × ((balance_of c m' who).locked + (if who == client then x else 0)
            ≡ (balance_of c m who).locked)
  unfolding perform_storage_payment ◌>>=◌ try_mutate debit_locked credit_free checked_add
      checked_sub
  perform_storage_payment_exact client provider x m m' h who =
      let e1 = balance_of c m client in
      let t1 = Storage.insert client (record e1 { locked = e1.locked - x }) m.balance_table in
      let e2 = Storage.get_or default_balance provider t1 in
      ground (
        arith,
        Storage.get_or-insert default_balance client who (record e1 { locked = e1.locked - x })
            m.balance_table,
        Storage.get_or-insert default_balance client provider (record e1 { locked = e1.locked - x })
            m.balance_table,
        Storage.get_or-insert default_balance provider who (record e2 { free = e2.free + x }) t1,
      )
