-- ===== src/Primitives/Randomness.antt =====
-- `draw_randomness` and `derive_prover_id` (primitives/src/randomness.rs, primitives/src/proofs.rs).
-- `blake2_256` belongs to `sp_core` and is an argument.
pub mod Separation
use polka_storage.Base.{
  ℕ, zero, suc, ◌+◌, ◌*◌, ◌/◌, ◌%◌, List, [], ◌∷◌, ◌++◌, get_elem?, set, none, some,
}

pub data DomainSeparationTag : Type 0 where
  seal_randomness interactive_seal_challenge_seed windowed_post_challenge_seed : DomainSeparationTag

-- `to_be_bytes` of an integer of so many bytes
unfoldable pub to_be_bytes : ℕ → ℕ → List ℕ
to_be_bytes zero n = []
to_be_bytes (suc width) n = to_be_bytes width (n / 256) ++ n % 256 ∷ []

-- `from_be_bytes`, with the value of the bytes before
unfoldable pub from_be_bytes : ℕ → List ℕ → ℕ
from_be_bytes acc [] = acc
from_be_bytes acc (b ∷ bytes) = from_be_bytes (acc * 256 + b) bytes

abbrev pub tag_number : DomainSeparationTag → ℕ
tag_number seal_randomness = 1
tag_number interactive_seal_challenge_seed = 2
tag_number windowed_post_challenge_seed = 3

unfoldable pub as_bytes : DomainSeparationTag → List ℕ
as_bytes tag = to_be_bytes 8 (tag_number tag)

-- `bytes[31] &= 0x3f`
unfoldable pub mask_last_byte : List ℕ → List ℕ
mask_last_byte bytes = elim (get_elem? bytes 31) [ some b ↦ set bytes 31 (b % 64) | none ↦ bytes ]

-- What `draw_randomness` hashes.
unfoldable pub randomness_data : List ℕ → DomainSeparationTag → ℕ → List ℕ → List ℕ
randomness_data rbase pers block_number entropy =
    as_bytes pers ++ (rbase ++ (to_be_bytes 8 block_number ++ entropy))

module _ (blake2_256 : List ℕ → List ℕ) where
  unfoldable pub draw_randomness : List ℕ → DomainSeparationTag → ℕ → List ℕ → List ℕ
  draw_randomness rbase pers block_number entropy =
      mask_last_byte (blake2_256 (randomness_data rbase pers block_number entropy))

  -- `derive_prover_id`, of an encoded account
  unfoldable pub derive_prover_id : List ℕ → List ℕ
  derive_prover_id account_id = mask_last_byte (blake2_256 account_id)
