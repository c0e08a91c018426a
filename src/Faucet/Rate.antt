-- ===== src/Faucet/Rate.antt =====
-- How often the faucet drips to an account.
use polka_storage.Base.{
  ℕ, ◌+◌, ◌*◌, ◌≤◌, ◌<◌, ◌≡◌, ◌≢◌, sym, ==_iff, refl, Bool, true, false, none, some, List, [], ◌∷◌,
  ◌++◌, if◌then◌else◌, ltb, ◌==◌, Bool-cases, Option-cases, some_inverts, none_inverts, inl, inr,
  arith,
}
use polka_storage.Base.Words.{u64_mod, add_u64-eq}
use polka_storage.Base.Storage
use polka_storage.Faucet.{
  Config, Event, Faucet, ok, faucet_used_recently, used_recently, dripped, drip,
}

-- How many drips an account got.
unfoldable pub times : ℕ → List Event → ℕ
times account [] = 0
times account (e ∷ events) = (if account == e.who then 1 else 0) + times account events

times-snoc :
    (account : ℕ) (events : List Event) (e : Event)
    → times account (events ++ e ∷ []) ≡ times account events + (if account == e.who then 1 else 0)
unfolding times
times-snoc account [] e = omega arith
times-snoc account (f ∷ events) e = omega (arith, times-snoc account events e)

-- The states that drips lead to, from an empty storage; other pallets change what they keep in
-- between. Blocks are such that a delay after them is a `u64`.
pub data Reachable {c : Config} : Faucet c → Type 0 where
  start : (chain : c.Chain) → Reachable (record { drips = []; chain = chain; events = [] })
  elsewhere :
      (s : Faucet c) (chain : c.Chain) → Reachable s → Reachable (record s { chain = chain })
  step :
      (s s' : Faucet c) (unsigned : Bool) (block account : ℕ)
      → Reachable s
      → block + c.drip_delay < u64_mod
      → drip c unsigned block account s ≡ ok s'
      → Reachable s'

not_before : (a b : ℕ) → ltb a b ≡ false → b ≤ a
not_before a b h = ground arith

next_product : (n d : ℕ) → (n + 1) * d ≡ n * d + d
next_product n d = omega arith

module _ {c : Config} (account : ℕ) where
  record IsPaced (s : Faucet c) : Type 0 where
    never : Storage.get account s.drips ≡ none → times account s.events ≡ 0
    paced :
        (last : ℕ)
        → Storage.get account s.drips ≡ some last
        → (times account s.events * c.drip_delay ≤ last + c.drip_delay)
          × (last + c.drip_delay < u64_mod)

  -- A drip that is let through pays for its delay.
  dripped_pays :
      (block : ℕ) (s : Faucet c)
      → IsPaced s
      → used_recently c block (Storage.get account s.drips) ≡ false
      → times account s.events * c.drip_delay ≤ block
  unfolding used_recently
  dripped_pays block s h late = elim (Option-cases (Storage.get account s.drips)) [
    | inl absent ↦ let n = h.never absent in rw n (omega arith)
    | inr (last, present) ↦
        let (fits, small) = h.paced last present in
        let after = rw (present, used_recently) at late in
        omega (arith, fits, not_before _ _ after, add_u64-eq last c.drip_delay small)
  ]

  dripped-IsPaced :
      (block who : ℕ) (s : Faucet c)
      → IsPaced s
      → block + c.drip_delay < u64_mod
      → used_recently c block (Storage.get who s.drips) ≡ false
      → IsPaced (dripped c block who s)
  unfolding dripped
  dripped-IsPaced block who s h small late =
      let found = Storage.get-insert who account block s.drips in
      let counted = times-snoc account s.events (record { who = who; at = block }) in
      elim (Bool-cases (account == who)) [
        | inr other ↦
            let same_count : times account (s.events ++ record { who = who; at = block } ∷ [])
                ≡ times account s.events =
              omega (arith, rw other at counted) in
            record {
              never = λ e. rw same_count (h.never (rw (found, other) at e));
              paced = λ last e. rw same_count (h.paced last (rw (found, other) at e));
            }
        | inl same ↦
            let late' : used_recently c block (Storage.get account s.drips) ≡ false =
              rw ((==_iff account who).0 same) late in
            let pays = dripped_pays block s h late' in
            let one_more : times account (s.events ++ record { who = who; at = block } ∷ [])
                ≡ times account s.events + 1 =
              rw same at counted in
            record {
              never = λ e. none_inverts _ block (sym (rw (found, same) at e));
              paced = λ last e.
                  let now = some_inverts block last (rw (found, same) at e) in
                  rw (one_more, next_product (times account s.events) c.drip_delay, ← now)
                    (omega (arith, pays), small);
            }
      ]

  refused_not_ok : (s : Faucet c) → faucet_used_recently ≢ ok s
  refused_not_ok s h = cc

  ok_inverts : (s s' : Faucet c) → ok s ≡ ok s' → s' ≡ s
  ok_inverts s s' h = cc

  Reachable-IsPaced : (s : Faucet c) → Reachable s → IsPaced s
  unfolding Storage.get times drip
  Reachable-IsPaced _ (start chain) = record { never = λ e. refl; paced = λ last e. absurd (cc) }
  Reachable-IsPaced _ (elsewhere s chain r) =
      let h = Reachable-IsPaced s r in record { never = h.never; paced = h.paced }
  Reachable-IsPaced s' (step s _ false block who r small e) = absurd (cc)
  Reachable-IsPaced s' (step s _ true block who r small e) =
      elim (Bool-cases (used_recently c block (Storage.get who s.drips))) [
        | inl early ↦ absurd (refused_not_ok s' (rw early at e))
        | inr late ↦
            rw (ok_inverts _ s' (rw late at e))
              (dripped-IsPaced block who s (Reachable-IsPaced s r) small late)
      ]

  -- In every state that drips lead to, the delays of all drips to an account fit between the first
  -- block and one delay after the account's last drip. Blocks are far from the end of `u64`.
  pub drips_paced :
      (s : Faucet c) (last : ℕ)
      → Reachable s
      → Storage.get account s.drips ≡ some last
      → times account s.events * c.drip_delay ≤ last + c.drip_delay
  drips_paced s last r e = ((Reachable-IsPaced s r).paced last e).0
