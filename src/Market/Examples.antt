-- ===== src/Market/Examples.antt =====
-- The market pallet's theorems at concrete inputs.
use polka_storage.Base.{
  ℕ, zero, suc, ◌+◌, ◌-◌, ◌*◌, ◌≤◌, ◌<◌, ◌≡◌, ◌≢◌, refl, Option, none, some, List, [], ◌∷◌, map,
  arith, leb, ltb, Bool-cases, inl, inr, ◌==◌, if◌then◌else◌, All,
}
use polka_storage.Base.Storage
use polka_storage.Base.Storage.{StorageMap}
use polka_storage.Btree.Set
use polka_storage.Btree.Map
use polka_storage.Btree.Bounded.{reference_bounded}
use polka_storage.Market.Types.{
  balance_added, active, SettledDealData, BalanceEntry, DealProposal, ClientDealProposal,
  ActiveDealState, published, total_storage_fee, duration, sub_blocks, mul_u128, checked_add,
  checked_sub, underflow, deal_precondition_failed,
}
use polka_storage.Market.Monad.{ok, err, ◌>>=◌}
use polka_storage.Market.State.{deposit_event, Config, Market, balance_of, ExistenceRequirement}
use polka_storage.Market.Funds.Deposits.{withdraw_balance-add_balance}
use polka_storage.Market.Funds.{
  transfer, add_balance, withdraw_balance, perform_storage_payment, try_mutate, debit_locked,
  credit_free,
}
use polka_storage.Market.Funds.Worth.{IsCurrency, total_worth, perform_storage_payment_exact}
use polka_storage.Market.Settle.{settlement_amount, last_settled_block}
use polka_storage.Market.Settle.Twice.{settle_deal_twice}
use polka_storage.Market.Settle.{
  settle_deal, settle_found, settle_state, settle_active, updated_after, block_to_settle,
  close_or_update,
}
use polka_storage.Market.Settle.Amounts.{FitsU128, settlement_amount_whole}
use polka_storage.Market.Terminate.{
  termination_payment, termination_refund, terminate_active, calculate_start_block,
}
use polka_storage.Market.Terminate.Payment.{
  termination_split, termination_payment_early, terminate_active_early,
}
use polka_storage.Market.Validate.{
  validate_deals, validate_loop, validate_deal, validate_signature, sanity_check, is_published,
  lockup_of, hash_proposal, proposals_for_deals, collect_proposals,
}
use polka_storage.Market.Validate.Accepted.{
  validate_deals_sound, IsAccepted, AllNew, hashes, collateral_of, fees_of,
}
use polka_storage.Market.Validate.Proposals.{
  Fresh, AreStored, proposals_for_deals_sound, proposals_for_deals_limit,
}
use polka_storage.Market.Solvency.History.{
  dust, Call, adds, withdraws, publishes, finalizes, settles, run, run-IsSolvent,
}

-- A currency that keeps only what the market's account, 0, holds, with an existential deposit of 3;
-- what is burnt leaves it when it is settled.
abbrev pays_in : ℕ → ℕ → ℕ → ExistenceRequirement → ℕ → Option ℕ
pays_in from to amount existence l =
    if to == 0
    then some (l + amount)
    else (if leb amount l then some (if ltb (l - amount) 3 then 0 else l - amount) else none)

abbrev digest : List ℕ → ℕ
digest [] = 7
digest (b ∷ bytes) = b + 31 * digest bytes

abbrev sample_config : Config
sample_config = record {
  Ledger = ℕ;
  Signature = ℕ;
  transfer = pays_in;
  burn = λ x l. l;
  settle = λ who x existence l. if leb x l then some (l - x) else none;
  account_id = 0;
  verify = λ bytes signature signer. signature == signer;
  encode = λ p. p.client ∷ p.provider ∷ p.start_block ∷ p.end_block ∷ [];
  hash = digest;
  is_registered_storage_provider = λ who. who == 2;
  from_cid_bytes = λ bytes. some bytes;
  compute_commd = λ deals. some [];
  max_deals = 50;
  min_deal_duration = 5;
  max_deal_duration = 100;
  max_deals_per_block = 10;
  bounded = reference_bounded;
}

abbrev held : ℕ → ℕ
held l = l

sample-IsCurrency : IsCurrency sample_config held
sample-IsCurrency = record {
  existential_deposit = 3;
  held_in = λ who x l l' other h. ground arith;
  held_out = λ who x l l' other h. elim (Bool-cases (ltb (l - x) 3)) [
    | inl c ↦ inr (ground arith)
    | inr c ↦ inl (ground arith)
  ];
  held_burn = λ x l. refl;
  held_settle = λ x l l' h. ground arith;
}

abbrev sample_deal : DealProposal
sample_deal = record {
  piece_cid = 1 ∷ [];
  piece_size = 2048;
  client = 1;
  provider = 2;
  label = [];
  start_block = 10;
  end_block = 30;
  storage_price_per_block = 3;
  provider_collateral = 25;
  state = published;
}

abbrev signed_deal : ClientDealProposal ℕ
signed_deal = record { proposal = sample_deal; client_signature = 1 }

abbrev sample_balances : StorageMap BalanceEntry
sample_balances =
    (1, record { free = 100; locked = 60 }) ∷ (2, record { free = 40; locked = 25 }) ∷ []

abbrev sample_market : StorageMap DealProposal → Market sample_config
sample_market proposals = record {
  balance_table = sample_balances;
  next_deal_id = 0;
  proposals = proposals;
  pending_proposals = [];
  deals_for_block = [];
  sector_deals = [];
  ledger = 225;
  events = [];
}

abbrev calls : List (Call sample_config)
calls =
    adds 1 70
    ∷ withdraws 2 5
    ∷ publishes 2 5 (signed_deal ∷ [])
    ∷ settles 12 (0 ∷ [])
    ∷ finalizes 10
    ∷ withdraws 1 200
    ∷ []

run-IsSolvent_example :
    total_worth (run sample_config (sample_market []) calls)
    ≤ held (run sample_config (sample_market []) calls).ledger
      + dust sample_config held sample-IsCurrency calls
unfolding Storage.total
run-IsSolvent_example =
    run-IsSolvent sample_config held sample-IsCurrency (sample_market []) calls
      (omega arith, (omega arith, (tt, (tt, (tt, (omega arith, tt)))))) (ground arith)

validate_deals_sound_example :
    (sample_deal ∷ [] ≡ map (λ d. d.proposal) (signed_deal ∷ []))
    × All (IsAccepted sample_config 2 5) (signed_deal ∷ [])
    × (25 ≡ collateral_of sample_config (signed_deal ∷ []))
    × (25 ≤ (balance_of sample_config (sample_market []) 2).free)
    × ((who : ℕ)
        → fees_of sample_config who (signed_deal ∷ [])
          ≤ (balance_of sample_config (sample_market []) who).free)
    × ((validate_deals sample_config 2 (signed_deal ∷ []) 5 (sample_market [])).1.balance_table
        ≡ sample_balances)
    × AllNew sample_config (hashes sample_config (signed_deal ∷ [])) []
    × ((validate_deals sample_config 2 (signed_deal ∷ []) 5 (sample_market [])).1.pending_proposals
        ≡ Set.insert_all (hashes sample_config (signed_deal ∷ [])) [])
unfolding validate_deals validate_loop validate_deal validate_signature sanity_check is_published
    lockup_of hash_proposal total_storage_fee duration sub_blocks mul_u128 checked_add ◌>>=◌
    Set.contains Set.insert Map.get Map.insert Storage.get_or
validate_deals_sound_example =
    validate_deals_sound sample_config 2 5 (signed_deal ∷ []) (sample_deal ∷ []) 25
      (sample_market []) (validate_deals sample_config 2 (signed_deal ∷ []) 5 (sample_market [])).1
      refl

-- The market after the client, 1, has paid 20 to the provider, 2.
abbrev paid_market : Market sample_config
paid_market = record (sample_market []) {
  balance_table =
      (1, record { free = 100; locked = 40 }) ∷ (2, record { free = 60; locked = 25 }) ∷ [];
}

perform_storage_payment_exact_example :
    ((balance_of sample_config paid_market 1).free
      ≡ (balance_of sample_config (sample_market []) 1).free + (if 1 == 2 then 20 else 0))
    × ((balance_of sample_config paid_market 1).locked + (if 1 == 1 then 20 else 0)
        ≡ (balance_of sample_config (sample_market []) 1).locked)
unfolding perform_storage_payment try_mutate debit_locked credit_free checked_add checked_sub ◌>>=◌
    Storage.get_or Storage.insert
perform_storage_payment_exact_example =
    perform_storage_payment_exact sample_config 1 2 20 (sample_market []) paid_market refl 1

sample_deal-FitsU128 : FitsU128 sample_deal
sample_deal-FitsU128 = record { ordered = omega arith; blocks = omega arith; fee = omega arith }

abbrev fresh_state : ActiveDealState
fresh_state = record {
  sector_number = 4;
  sector_start_block = 9;
  last_updated_block = none;
  slash_block = none;
}

abbrev active_deal : DealProposal
active_deal = record sample_deal { state = active fresh_state }

abbrev with_deal : Market sample_config
with_deal = sample_market ((4, active_deal) ∷ [])

abbrev reported : ℕ → SettledDealData
reported amount = record { deal_id = 4; client = 1; provider = 2; amount = amount }

abbrev settled_once : Market sample_config
settled_once = (settle_deal sample_config 14 4 with_deal).1

abbrev settled_twice : Market sample_config
settled_twice = (settle_deal sample_config 22 4 settled_once).1

active_deal-FitsU128 : FitsU128 active_deal
active_deal-FitsU128 = record { ordered = omega arith; blocks = omega arith; fee = omega arith }

settle_deal_twice_example :
    (12 + 24 ≡ settlement_amount 22 active_deal fresh_state)
    × (active_deal.client ≢ active_deal.provider
        → (balance_of sample_config settled_twice 1).locked
            + settlement_amount 22 active_deal fresh_state
          ≡ 60)
unfolding settle_deal settle_found settle_state settle_active updated_after last_settled_block
    settlement_amount block_to_settle sub_blocks mul_u128 close_or_update perform_storage_payment
    try_mutate debit_locked credit_free checked_add checked_sub ◌>>=◌ Storage.get Storage.get_or
    Storage.insert
settle_deal_twice_example =
    settle_deal_twice sample_config 14 22 4 active_deal fresh_state (reported 12) (reported 24)
      with_deal settled_once settled_twice active_deal-FitsU128 refl refl (omega arith)
      (omega arith) (omega arith) refl refl

settlement_amount_whole_example :
    some (settlement_amount 35 sample_deal fresh_state) ≡ total_storage_fee sample_deal
settlement_amount_whole_example =
    settlement_amount_whole sample_deal sample_deal-FitsU128 35 fresh_state refl (omega arith)

termination_split_example :
    termination_payment 18 sample_deal fresh_state + termination_refund 18 sample_deal
    ≡ (30 - calculate_start_block 10 none) * 3
unfolding calculate_start_block
termination_split_example =
    termination_split 18 sample_deal fresh_state sample_deal-FitsU128 (omega arith) (omega arith)

termination_payment_early_example : (30 - 10) * 3 < termination_payment 8 sample_deal fresh_state
termination_payment_early_example =
    termination_payment_early 8 sample_deal fresh_state sample_deal-FitsU128 refl (omega arith)
      (omega arith) (omega arith)

terminate_active_early_example :
    (terminate_active sample_config 8 0 sample_deal fresh_state (sample_market [])).0
    ≡ err underflow
unfolding Storage.get_or
terminate_active_early_example =
    terminate_active_early sample_config 8 0 sample_deal fresh_state (sample_market [])
      sample_deal-FitsU128 refl (omega arith) (omega arith) (omega arith) (omega arith)

abbrev stored : ℕ → StorageMap DealProposal
stored zero = []
stored (suc n) = (n, sample_deal) ∷ stored n

proposals_for_deals_sound_example :
    (map (λ (e : ℕ × DealProposal). e.0) ((2, sample_deal) ∷ (0, sample_deal) ∷ []) ≡ 2 ∷ 0 ∷ [])
    × AreStored sample_config (sample_market (stored 3)) ((2, sample_deal) ∷ (0, sample_deal) ∷ [])
    × Fresh [] (2 ∷ 0 ∷ [])
    × (sample_market (stored 3) ≡ sample_market (stored 3))
unfolding proposals_for_deals collect_proposals ◌>>=◌ Set.contains Set.insert Storage.get
proposals_for_deals_sound_example =
    proposals_for_deals_sound sample_config (sample_market (stored 3)) (2 ∷ 0 ∷ [])
      ((2, sample_deal) ∷ (0, sample_deal) ∷ []) (sample_market (stored 3)) refl

-- The ids of 33 deals.
abbrev ids_from : ℕ → ℕ → List ℕ
ids_from first zero = []
ids_from first (suc n) = first ∷ ids_from (suc first) n

proposals_for_deals_limit_example :
    (proposals_for_deals sample_config (ids_from 0 33) (sample_market (stored 33))).0
    ≡ err deal_precondition_failed
unfolding Set.contains Set.insert Storage.get
proposals_for_deals_limit_example =
    proposals_for_deals_limit sample_config (sample_market (stored 33)) (ids_from 0 33)
      (
        refl,
        (
          refl,
          (
            refl,
            (
              refl,
              (
                refl,
                (
                  refl,
                  (
                    refl,
                    (
                      refl,
                      (
                        refl,
                        (
                          refl,
                          (
                            refl,
                            (
                              refl,
                              (
                                refl,
                                (
                                  refl,
                                  (
                                    refl,
                                    (
                                      refl,
                                      (
                                        refl,
                                        (
                                          refl,
                                          (
                                            refl,
                                            (
                                              refl,
                                              (
                                                refl,
                                                (
                                                  refl,
                                                  (
                                                    refl,
                                                    (
                                                      refl,
                                                      (
                                                        refl,
                                                        (
                                                          refl,
                                                          (
                                                            refl,
                                                            (
                                                            refl,
                                                            (
                                                            refl,
                                                            (refl, (refl, (refl, (refl, tt)))),
                                                            ),
                                                            ),
                                                          ),
                                                        ),
                                                      ),
                                                    ),
                                                  ),
                                                ),
                                              ),
                                            ),
                                          ),
                                        ),
                                      ),
                                    ),
                                  ),
                                ),
                              ),
                            ),
                          ),
                        ),
                      ),
                    ),
                  ),
                ),
              ),
            ),
          ),
        ),
      )
      (
        ((sample_deal, refl)),
        (
          ((sample_deal, refl)),
          (
            ((sample_deal, refl)),
            (
              ((sample_deal, refl)),
              (
                ((sample_deal, refl)),
                (
                  ((sample_deal, refl)),
                  (
                    ((sample_deal, refl)),
                    (
                      ((sample_deal, refl)),
                      (
                        ((sample_deal, refl)),
                        (
                          ((sample_deal, refl)),
                          (
                            ((sample_deal, refl)),
                            (
                              ((sample_deal, refl)),
                              (
                                ((sample_deal, refl)),
                                (
                                  ((sample_deal, refl)),
                                  (
                                    ((sample_deal, refl)),
                                    (
                                      ((sample_deal, refl)),
                                      (
                                        ((sample_deal, refl)),
                                        (
                                          ((sample_deal, refl)),
                                          (
                                            ((sample_deal, refl)),
                                            (
                                              ((sample_deal, refl)),
                                              (
                                                ((sample_deal, refl)),
                                                (
                                                  ((sample_deal, refl)),
                                                  (
                                                    ((sample_deal, refl)),
                                                    (
                                                      ((sample_deal, refl)),
                                                      (
                                                        ((sample_deal, refl)),
                                                        (
                                                          ((sample_deal, refl)),
                                                          (
                                                            ((sample_deal, refl)),
                                                            (
                                                            ((sample_deal, refl)),
                                                            (
                                                            ((sample_deal, refl)),
                                                            (
                                                            ((sample_deal, refl)),
                                                            (
                                                            ((sample_deal, refl)),
                                                            (
                                                            ((sample_deal, refl)),
                                                            (((sample_deal, refl)), tt),
                                                            ),
                                                            ),
                                                            ),
                                                            ),
                                                            ),
                                                          ),
                                                        ),
                                                      ),
                                                    ),
                                                  ),
                                                ),
                                              ),
                                            ),
                                          ),
                                        ),
                                      ),
                                    ),
                                  ),
                                ),
                              ),
                            ),
                          ),
                        ),
                      ),
                    ),
                  ),
                ),
              ),
            ),
          ),
        ),
      )
      (omega arith)

-- The market after a deposit of 70 by account 1.
abbrev deposited_market : Market sample_config
deposited_market = record (sample_market []) {
  balance_table =
      (1, record { free = 170; locked = 60 }) ∷ (2, record { free = 40; locked = 25 }) ∷ [];
  ledger = 295;
  events = balance_added 1 70 ∷ [];
}

withdraw_balance-add_balance_example :
    ((withdraw_balance sample_config 1 70 deposited_market).0 ≡ ok tt)
    × ((who : ℕ)
        → ((balance_of sample_config
              (withdraw_balance sample_config 1 70 deposited_market).1
              who).free
            ≡ (balance_of sample_config (sample_market []) who).free)
          × ((balance_of sample_config
                (withdraw_balance sample_config 1 70 deposited_market).1
                who).locked
              ≡ (balance_of sample_config (sample_market []) who).locked))
unfolding add_balance transfer deposit_event checked_add ◌>>=◌ Storage.get_or Storage.insert
withdraw_balance-add_balance_example =
    withdraw_balance-add_balance sample_config 1 70 (sample_market []) deposited_market 225 refl
      refl
