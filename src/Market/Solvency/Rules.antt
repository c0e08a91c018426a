-- ===== src/Market/Solvency/Rules.antt =====
-- Rules for what covers the debts, one for each way to build an action.
use polka_storage.Base.{
  ℕ, ◌+◌, ◌≤◌, ◌≢◌, ◌≡◌, Bool, true, false, Option, none, some, List, [], ◌∷◌, arith, if◌then◌else◌,
  Option-cases, inl, inr, refl,
}
use polka_storage.Market.Types.{DispatchError, Event}
use polka_storage.Market.Monad.{Action, pure, fail, gets, modify, ensure, ok_or, unwrap, ◌>>=◌}
use polka_storage.Market.Monad.Keeps.{
  Keeps, Keeps-pure, Keeps-fail, Keeps-gets, Keeps-ok_or, Keeps-unwrap, Keeps-ensure, Keeps-bind,
  Keeps-if,
}
use polka_storage.Market.State.{Config, Market, deposit_event}
use polka_storage.Market.Funds.Worth.{IsCurrency}
use polka_storage.Market.Solvency.{
  Covers, Covers-IsPreorder, unlock_funds-Covers, lock_funds-Covers, perform_storage_payment-Covers,
  slash_and_burn-Covers,
}

module _ (c : Config) (held : c.Ledger → ℕ) (cur : IsCurrency c held) where
  pub Covers-pure : {A : Type 0} (a : A) → Keeps (Covers c held) (pure a)
  Covers-pure a = Keeps-pure (Covers-IsPreorder c held cur) a

  pub Covers-fail : {A : Type 0} (e : DispatchError) → Keeps (Covers c held) (fail {A = A} e)
  Covers-fail e = Keeps-fail (Covers-IsPreorder c held cur) e

  pub Covers-gets : {A : Type 0} (f : Market c → A) → Keeps (Covers c held) (gets f)
  Covers-gets f = Keeps-gets (Covers-IsPreorder c held cur) f

  pub Covers-ok_or :
      {A : Type 0} (o : Option A) (e : DispatchError) → Keeps (Covers c held) (ok_or o e)
  Covers-ok_or o e = Keeps-ok_or (Covers-IsPreorder c held cur) o e

  pub Covers-unwrap : {A : Type 0} (o : Option A) → Keeps (Covers c held) (unwrap o)
  Covers-unwrap o = Keeps-unwrap (Covers-IsPreorder c held cur) o

  pub Covers-ensure : (b : Bool) (e : DispatchError) → Keeps (Covers c held) (ensure b e)
  Covers-ensure b e = Keeps-ensure (Covers-IsPreorder c held cur) b e

  pub Covers-bind :
      {A B : Type 0} (m : Action (Market c) A) (f : A → Action (Market c) B)
      → Keeps (Covers c held) m
      → ((a : A) → Keeps (Covers c held) (f a))
      → Keeps (Covers c held) (m >>= f)
  Covers-bind m f = Keeps-bind (Covers-IsPreorder c held cur) m f

  -- A write to any part of the storage but the balances and the ledger.
  pub Covers-modify :
      (f : Market c → Market c)
      → ((m : Market c) → ((f m).balance_table ≡ m.balance_table) × ((f m).ledger ≡ m.ledger))
      → Keeps (Covers c held) (modify f)
  unfolding modify
  Covers-modify f h = record { at = λ s. ground (arith, h s) }

  pub Covers-deposit_event : (e : Event) → Keeps (Covers c held) (deposit_event c e)
  unfolding deposit_event
  Covers-deposit_event e = Covers-modify _ (λ m. (refl, refl))

pub ruleset covers = (
  Covers-pure, Covers-fail, Covers-gets, Covers-ok_or, Covers-unwrap, Covers-ensure, Covers-bind,
  Covers-deposit_event, Covers-modify, refl, Keeps-if, unlock_funds-Covers, lock_funds-Covers,
  perform_storage_payment-Covers, slash_and_burn-Covers,
)
