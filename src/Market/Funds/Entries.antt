-- ===== src/Market/Funds/Entries.antt =====
-- What the closures do to one balance entry.
use polka_storage.Base.{ℕ, ◌+◌, ◌≡◌, arith}
use polka_storage.Market.Types.{BalanceEntry, checked_add, checked_sub}
use polka_storage.Market.Monad.{Result, ok, err, panic}
use polka_storage.Market.Funds.{debit_locked, credit_free, unlock, lock}

-- All that an account holds in the market.
abbrev pub worth : BalanceEntry → ℕ
worth e = e.free + e.locked

-- A result that, where it is an entry, is worth `gained - lost` more than `e`.
abbrev pub Changes : ℕ → ℕ → BalanceEntry → Result BalanceEntry → Type 0
Changes gained lost e (ok e') = worth e' + lost ≡ worth e + gained
Changes gained lost e (err _) = Unit
Changes gained lost e panic = Unit

pub debit_locked-Changes : (x : ℕ) (e : BalanceEntry) → Changes 0 x e (debit_locked x e)
unfolding debit_locked checked_sub
debit_locked-Changes x e = ground arith

pub credit_free-Changes : (x : ℕ) (e : BalanceEntry) → Changes x 0 e (credit_free x e)
unfolding credit_free checked_add
credit_free-Changes x e = ground arith

pub unlock-Changes : (x : ℕ) (e : BalanceEntry) → Changes 0 0 e (unlock x e)
unfolding unlock checked_sub checked_add
unlock-Changes x e = ground arith

pub lock-Changes : (x : ℕ) (e : BalanceEntry) → Changes 0 0 e (lock x e)
unfolding lock checked_sub checked_add
lock-Changes x e = ground arith
