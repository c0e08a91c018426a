-- ===== src/StorageProvider/Pallet/Expiration.antt =====
-- Which expirations `validate_expiration` accepts.
use polka_storage.Base.{
  ℕ, ◌+◌, ◌≤◌, ◌<◌, ◌≡◌, ◌↔◌, Bool, true, false, refl, leb→le, ltb→lt, le→leb, lt→ltb, leb, ltb,
  arith,
}
use polka_storage.Base.Words.{u64_mod, sub_u64, add_u64, sub_u64-eq, add_u64-eq}
use polka_storage.StorageProvider.Pallet.{Config, Pallet}
use polka_storage.StorageProvider.Pallet.Monad.{
  DispatchError, ok, ensure, ◌>>=◌, ◌>>◌, expiration_before_activation, expiration_too_soon,
  expiration_too_long, max_sector_lifetime_exceeded,
}
use polka_storage.StorageProvider.Pallet.Checks.{validate_expiration}

-- Four checks in a row succeed exactly if each does.
checks_iff :
    {S : Type 0} (a b c d : Bool) (e f g h : DispatchError) (s : S)
    → ((ensure a e >> (ensure b f >> (ensure c g >> ensure d h))) s ≡ (ok tt, s))
      ↔ ((a ≡ true) × (b ≡ true) × (c ≡ true) × (d ≡ true))
unfolding ensure ◌>>=◌
checks_iff true true true true e f g h s = (λ _. (refl, refl, refl, refl), λ _. refl)
checks_iff true true true false e f g h s = (λ k. absurd (cc), λ (_, _, _, k). absurd (cc))
checks_iff true true false d e f g h s = (λ k. absurd (cc), λ (_, _, k, _). absurd (cc))
checks_iff true false c d e f g h s = (λ k. absurd (cc), λ (_, k, _, _). absurd (cc))
checks_iff false b c d e f g h s = (λ k. absurd (cc), λ (k, _, _, _). absurd (cc))

-- For blocks that do not overflow, an expiration is accepted exactly if it is late enough after the
-- activation, but neither too late from now nor too long after the activation.
pub validate_expiration_iff :
    (c : Config) (now activation expiration : ℕ) (p : Pallet c)
    → expiration < u64_mod
    → now + c.max_sector_expiration < u64_mod
    → (validate_expiration c now activation expiration p ≡ (ok tt, p)) ↔ (
        (activation + c.min_sector_expiration ≤ expiration)
        × (expiration < now + c.max_sector_expiration)
        × (expiration < activation + c.sector_maximum_lifetime)
        × (activation ≤ expiration))
unfolding validate_expiration
validate_expiration_iff c now activation expiration p small later =
    let (to, from) =
      checks_iff (leb activation expiration)
        (leb c.min_sector_expiration (sub_u64 expiration activation))
        (ltb expiration (add_u64 now c.max_sector_expiration))
        (ltb (sub_u64 expiration activation) c.sector_maximum_lifetime) expiration_before_activation
        expiration_too_soon expiration_too_long max_sector_lifetime_exceeded p in
    let sum = add_u64-eq now c.max_sector_expiration later in
    let difference = sub_u64-eq expiration activation in
    (
      λ h.
          let (h1, h2, h3, h4) = to h in
          let before = leb→le activation expiration h1 in
          let same = difference before small in
          let enough = leb→le _ _ h2 in
          let soon = ltb→lt _ _ h3 in
          let short = ltb→lt _ _ h4 in
          (
            omega (arith, enough, same, before),
            omega (arith, soon, sum),
            omega (arith, short, same, before),
            before,
          ),
      λ (h1, h2, h3, before).
          let same = difference before small in
          from (
            le→leb activation expiration before,
            le→leb c.min_sector_expiration (sub_u64 expiration activation) (omega (arith, same)),
            lt→ltb expiration (add_u64 now c.max_sector_expiration) (omega (arith, sum)),
            lt→ltb (sub_u64 expiration activation) c.sector_maximum_lifetime (omega (arith, same)),
          ),
    )
