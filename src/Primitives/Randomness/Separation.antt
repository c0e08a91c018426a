-- ===== src/Primitives/Randomness/Separation.antt =====
-- Randomness for different purposes and blocks comes from different data.
use native.Mathlib.Nat.{div-add-mod', div-lt_iff_lt-mul, pow-suc}
use polka_storage.Base.{
  ℕ, zero, suc, ◌+◌, ◌*◌, ◌/◌, ◌%◌, ◌^◌, ◌<◌, ◌≡◌, ◌∙◌, ap, refl, sym, List, [], ◌∷◌, ◌++◌, length,
  arith, length-append,
}
use polka_storage.Base.Words.{u64_mod}
use polka_storage.Primitives.Randomness.{
  DomainSeparationTag, seal_randomness, interactive_seal_challenge_seed,
  windowed_post_challenge_seed, to_be_bytes, from_be_bytes, tag_number, as_bytes, randomness_data,
}

length-to_be_bytes : (width n : ℕ) → length (to_be_bytes width n) ≡ width
unfolding to_be_bytes
length-to_be_bytes zero n = refl
length-to_be_bytes (suc width) n =
    let len = length-append (to_be_bytes width (n / 256)) (n % 256 ∷ []) in
    omega (arith, len, length-to_be_bytes width (n / 256))

from_be_bytes-snoc :
    (acc b : ℕ) (bytes : List ℕ)
    → from_be_bytes acc (bytes ++ b ∷ []) ≡ from_be_bytes acc bytes * 256 + b
unfolding from_be_bytes
from_be_bytes-snoc acc b [] = refl
from_be_bytes-snoc acc b (c ∷ bytes) = from_be_bytes-snoc (acc * 256 + c) b bytes

-- Bytes that were written from a number are read back as that number, if it fits in them.
pub from_be_bytes-to_be_bytes :
    (width n : ℕ) → n < 256 ^ width → from_be_bytes 0 (to_be_bytes width n) ≡ n
unfolding to_be_bytes from_be_bytes
from_be_bytes-to_be_bytes zero n h = omega arith
from_be_bytes-to_be_bytes (suc width) n h =
    let rest = from_be_bytes-to_be_bytes width (n / 256) (
      (div-lt_iff_lt-mul {k = 256} {x = n} {y = 256 ^ width} (omega arith)).1
        (omega (arith, pow-suc 256 width))) in
    rw (from_be_bytes-snoc 0 (n % 256) (to_be_bytes width (n / 256)), rest) (div-add-mod' n 256)

cons_inverts : {A : Type 0} (x z : A) (xs zs : List A) → x ∷ xs ≡ z ∷ zs → (x ≡ z) × (xs ≡ zs)
cons_inverts x z xs zs h = (cc, cc)

append-inverts :
    {A : Type 0} (xs ys zs ws : List A)
    → length xs ≡ length zs
    → xs ++ ys ≡ zs ++ ws
    → (xs ≡ zs) × (ys ≡ ws)
append-inverts [] ys [] ws l h = (refl, h)
append-inverts [] ys (z ∷ zs) ws l h = absurd (omega (arith, l))
append-inverts (x ∷ xs) ys [] ws l h = absurd (omega (arith, l))
append-inverts (x ∷ xs) ys (z ∷ zs) ws l h =
    let (heads, tails) = cons_inverts x z (xs ++ ys) (zs ++ ws) h in
    let (same, rest) = append-inverts xs ys zs ws (omega (arith, l)) tails in
    (rw (heads, same) refl, rest)

tag_number_injective : (s t : DomainSeparationTag) → tag_number s ≡ tag_number t → s ≡ t
tag_number_injective seal_randomness seal_randomness h = refl
tag_number_injective seal_randomness interactive_seal_challenge_seed h = absurd (omega arith)
tag_number_injective seal_randomness windowed_post_challenge_seed h = absurd (omega arith)
tag_number_injective interactive_seal_challenge_seed seal_randomness h = absurd (omega arith)
tag_number_injective interactive_seal_challenge_seed interactive_seal_challenge_seed h = refl
tag_number_injective interactive_seal_challenge_seed windowed_post_challenge_seed h =
    absurd (omega arith)
tag_number_injective windowed_post_challenge_seed seal_randomness h = absurd (omega arith)
tag_number_injective windowed_post_challenge_seed interactive_seal_challenge_seed h =
    absurd (omega arith)
tag_number_injective windowed_post_challenge_seed windowed_post_challenge_seed h = refl

to_be_bytes_injective :
    (n m : ℕ) → n < u64_mod → m < u64_mod → to_be_bytes 8 n ≡ to_be_bytes 8 m → n ≡ m
to_be_bytes_injective n m hn hm e =
    sym (from_be_bytes-to_be_bytes 8 n (omega arith))
    ∙ ap (λ bytes. from_be_bytes 0 bytes) e
    ∙ from_be_bytes-to_be_bytes 8 m (omega arith)

tag_number_small : (t : DomainSeparationTag) → tag_number t < u64_mod
tag_number_small seal_randomness = omega arith
tag_number_small interactive_seal_challenge_seed = omega arith
tag_number_small windowed_post_challenge_seed = omega arith

-- For randomness of the same length and blocks that are `u64`s, the data that are hashed are the same
-- only if the purpose, the randomness, the block and the entropy are.
pub randomness_data_injective :
    (r s : List ℕ) (t u : DomainSeparationTag) (n m : ℕ) (e f : List ℕ)
    → randomness_data r t n e ≡ randomness_data s u m f
    → length r ≡ length s
    → n < u64_mod
    → m < u64_mod
    → (t ≡ u) × (r ≡ s) × (n ≡ m) × (e ≡ f)
unfolding randomness_data as_bytes
randomness_data_injective r s t u n m e f h len hn hm =
    let bytes = λ (x : ℕ) (y : ℕ). length-to_be_bytes 8 x ∙ sym (length-to_be_bytes 8 y) in
    let (tags, h1) =
      append-inverts (to_be_bytes 8 (tag_number t)) (r ++ (to_be_bytes 8 n ++ e))
        (to_be_bytes 8 (tag_number u)) (s ++ (to_be_bytes 8 m ++ f))
        (bytes (tag_number t) (tag_number u)) h in
    let (same, h2) = append-inverts r (to_be_bytes 8 n ++ e) s (to_be_bytes 8 m ++ f) len h1 in
    let (blocks, rest) = append-inverts (to_be_bytes 8 n) e (to_be_bytes 8 m) f (bytes n m) h2 in
    (
      tag_number_injective t u (
          to_be_bytes_injective (tag_number t) (tag_number u) (tag_number_small t)
            (tag_number_small u) tags),
      same,
      to_be_bytes_injective n m hn hm blocks,
      rest,
    )
