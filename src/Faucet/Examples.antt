-- ===== src/Faucet/Examples.antt =====
-- The faucet at concrete inputs.
use polka_storage.Base.{ℕ, ◌+◌, ◌*◌, ◌≤◌, ◌≡◌, refl, true, [], ◌∷◌, arith}
use polka_storage.Base.Words.{add_u64}
use polka_storage.Base.Storage
use polka_storage.Faucet.{Config, Faucet, ok, used_recently, dripped, drip}
use polka_storage.Faucet.Rate.{times, start, step, drips_paced}

-- The currency counts what was issued.
abbrev sample_config : Config
sample_config = record {
  Chain = ℕ;
  issue = λ amount issued. (amount, issued + amount);
  resolve_creating = λ who amount issued. issued;
  drip_amount = 5;
  drip_delay = 100;
}

abbrev unused : Faucet sample_config
unused = record { drips = []; chain = 0; events = [] }

abbrev once : Faucet sample_config
once = record { drips = (3, 20) ∷ []; chain = 5; events = record { who = 3; at = 20 } ∷ [] }

abbrev twice : Faucet sample_config
twice = record {
  drips = (3, 120) ∷ [];
  chain = 10;
  events = record { who = 3; at = 20 } ∷ record { who = 3; at = 120 } ∷ [];
}

first : drip sample_config true 20 3 unused ≡ ok once
unfolding drip used_recently dripped Storage.get Storage.insert
first = refl

second : drip sample_config true 120 3 once ≡ ok twice
unfolding drip used_recently dripped Storage.get Storage.insert add_u64
second = refl

drips_paced_example : times 3 twice.events * 100 ≤ 120 + 100
unfolding Storage.get
drips_paced_example =
    drips_paced 3 twice 120
      (step once twice true 120 3 (step unused once true 20 3 (start 0) (omega arith) first)
        (omega arith) second)
      refl
