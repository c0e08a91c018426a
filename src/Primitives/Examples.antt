-- ===== src/Primitives/Examples.antt =====
-- The theorems on primitives/src/randomness.rs at concrete inputs.
use polka_storage.Base.{ℕ, ◌≡◌, refl, List, [], ◌∷◌, arith}
use polka_storage.Primitives.Randomness.{seal_randomness}
use polka_storage.Primitives.Randomness.Separation.{randomness_data_injective}

abbrev digest : List ℕ
digest = 1 ∷ 2 ∷ []

abbrev entropy : List ℕ
entropy = 9 ∷ []

abbrev round : ℕ
round = 7

randomness_data_injective_example :
    (seal_randomness ≡ seal_randomness) × (digest ≡ digest) × (round ≡ round) × (entropy ≡ entropy)
randomness_data_injective_example =
    randomness_data_injective digest digest seal_randomness seal_randomness round round entropy
      entropy refl refl (omega arith) (omega arith)
