-- ===== src/Market/Funds.antt =====
-- The balance table: deposits and withdrawals, and the free functions that lock, unlock, pay and
-- slash (pallets/market/src/lib.rs).
pub mod Entries
pub mod Worth
pub mod Deposits
use polka_storage.Base.{ℕ, Option, none, some, if◌then◌else◌, leb}
use polka_storage.Base.Storage
use polka_storage.Market.Types.{
  BalanceEntry, checked_add, checked_sub, overflow, underflow, corruption, currency_failed,
  insufficient_free_funds, balance_added, balance_withdrawn,
}
use polka_storage.Market.Monad.{
  Result, ok, err, panic, Action, ◌>>=◌, ◌>>◌, pure, fail, ok_or, ensure, gets, modify,
}
use polka_storage.Market.State.{
  Config, Market, ExistenceRequirement, keep_alive, allow_death, deposit_event, balance_of,
}

-- `T::Currency::transfer`, which changes nothing if it fails.
unfoldable pub transfer :
    (c : Config) → ℕ → ℕ → ℕ → ExistenceRequirement → Action (Market c) (Unit {0})
transfer c from to amount existence m = elim (c.transfer from to amount existence m.ledger) [
  | some ledger ↦ (ok tt, record m { ledger = ledger })
  | none ↦ (err currency_failed, m)
]

-- `T::Currency::settle` of the imbalance that `T::Currency::burn` returns; its failure is a
-- corruption.
unfoldable pub burn_and_settle : (c : Config) → ℕ → Action (Market c) (Unit {0})
burn_and_settle c amount m =
    let burnt = c.burn amount m.ledger in
    elim (c.settle c.account_id amount keep_alive burnt) [
      | some ledger ↦ (ok tt, record m { ledger = ledger })
      | none ↦ (err corruption, record m { ledger = burnt })
    ]

-- `BalanceTable::try_mutate`: the entry is written if the closure succeeds.
abbrev pub write_back : (c : Config) → ℕ → Result BalanceEntry → Action (Market c) (Unit {0})
write_back c who (ok e) m =
    (ok tt, record m { balance_table = Storage.insert who e m.balance_table })
write_back c who (err e) m = (err e, m)
write_back c who panic m = (panic, m)

unfoldable pub try_mutate :
    (c : Config) → ℕ → (BalanceEntry → Result BalanceEntry) → Action (Market c) (Unit {0})
try_mutate c who f m = write_back c who (f (balance_of c m who)) m

-- The closures.
unfoldable pub debit_locked : ℕ → BalanceEntry → Result BalanceEntry
debit_locked amount e = elim (checked_sub e.locked amount) [
  | some locked ↦ ok (record e { locked = locked })
  | none ↦ err underflow
]

unfoldable pub credit_free : ℕ → BalanceEntry → Result BalanceEntry
credit_free amount e = elim (checked_add e.free amount) [
  | some free ↦ ok (record e { free = free })
  | none ↦ err overflow
]

unfoldable pub unlock : ℕ → BalanceEntry → Result BalanceEntry
unlock amount e = elim (checked_sub e.locked amount) [
  | none ↦ err underflow
  | some locked ↦ elim (checked_add e.free amount) [
    | none ↦ err overflow
    | some free ↦ ok (record { free = free; locked = locked })
  ]
]

unfoldable pub lock : ℕ → BalanceEntry → Result BalanceEntry
lock amount e = elim (checked_sub e.free amount) [
  | none ↦ err underflow
  | some free ↦ elim (checked_add e.locked amount) [
    | none ↦ err overflow
    | some locked ↦ ok (record { free = free; locked = locked })
  ]
]

module _ (c : Config) where
  unfoldable pub perform_storage_payment : ℕ → ℕ → ℕ → Action (Market c) (Unit {0})
  perform_storage_payment client provider amount = do
    try_mutate c client (debit_locked amount)
    try_mutate c provider (credit_free amount)

  unfoldable pub unlock_funds : ℕ → ℕ → Action (Market c) (Unit {0})
  unlock_funds who amount = try_mutate c who (unlock amount)

  unfoldable pub lock_funds : ℕ → ℕ → Action (Market c) (Unit {0})
  lock_funds who amount = try_mutate c who (lock amount)

  unfoldable pub slash_and_burn : ℕ → ℕ → Action (Market c) (Unit {0})
  slash_and_burn who amount = do try_mutate c who (debit_locked amount); burn_and_settle c amount

  -- The transfer stands inside the closure: the entry is written after it.
  unfoldable pub add_balance : ℕ → ℕ → Action (Market c) (Unit {0})
  add_balance caller amount = do
    entry ← gets (λ m. balance_of c m caller)
    free ← ok_or (checked_add entry.free amount) overflow
    transfer c caller c.account_id amount keep_alive
    modify (λ m. record m {
      balance_table = Storage.insert caller (record entry { free = free }) m.balance_table;
    })
    deposit_event c (balance_added caller amount)

  unfoldable pub withdraw_balance : ℕ → ℕ → Action (Market c) (Unit {0})
  withdraw_balance caller amount = do
    entry ← gets (λ m. balance_of c m caller)
    ensure (leb amount entry.free) insufficient_free_funds
    free ← ok_or (checked_sub entry.free amount) underflow
    transfer c c.account_id caller amount allow_death
    modify (λ m. record m {
      balance_table = Storage.insert caller (record entry { free = free }) m.balance_table;
    })
    deposit_event c (balance_withdrawn caller amount)
