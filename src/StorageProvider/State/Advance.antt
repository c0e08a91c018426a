-- ===== src/StorageProvider/State/Advance.antt =====
-- The first proving period, and the move from deadline to deadline.
use native.Mathlib.Nat.{
  add-mul, mod-lt, mod_self, mod-eq_of_lt, div-add-mod', div-le_self, div-mul-le_self,
}
use polka_storage.Base.{
  ℕ, ◌+◌, ◌*◌, ◌/◌, ◌%◌, ◌≤◌, ◌<◌, ◌≡◌, refl, sym, ◌∙◌, leb, ltb, true, false, arith, ◌==◌,
  if◌then◌else◌, Bool-cases, inl, inr, ==_iff,
}
use polka_storage.Base.Words.{u64_mod, add_u64-eq, mul_u64-eq}
use polka_storage.Btree.Bounded.{Bounded}
use polka_storage.StorageProvider.Outcome.{ok}
use polka_storage.StorageProvider.Outcome.Inversion.{bind_inverts, ok_inverts}
use polka_storage.StorageProvider.Deadlines.{load_deadline}
use polka_storage.StorageProvider.Deadline.Expiry.{pop_expired_sectors}
use polka_storage.StorageProvider.DeadlineInfo.{
  PostConfig, DeadlineInfo, last, period_started, new_deadline_info,
}
use polka_storage.StorageProvider.State.{
  StorageProviderState, calculate_first_proving_period_start, next_deadline, deadline_info,
  expire_deadline, advance_deadline,
}

-- Where nothing overflows, the first proving period of a provider starts after the current block,
-- and at most two periods later, for an offset within a period.
pub calculate_first_proving_period_start_future :
    (current_block offset period : ℕ)
    → offset < period
    → current_block + 2 * period < u64_mod
    → (current_block < calculate_first_proving_period_start current_block offset period)
      × (calculate_first_proving_period_start current_block offset period
          < current_block + 2 * period)
unfolding calculate_first_proving_period_start
calculate_first_proving_period_start_future current_block offset period h small =
    let q = current_block / period in
    let whole : q * period ≤ current_block = div-mul-le_self current_block period in
    let rest = mod-lt current_block {m = period} (omega arith) in
    let next = add-mul q 1 period in
    let e1 = add_u64-eq q 1 (omega (arith, div-le_self current_block period)) in
    let e2 = mul_u64-eq (q + 1) period (omega (arith, whole)) in
    let e3 = add_u64-eq ((q + 1) * period) offset (omega (arith, whole)) in
    rw (e1, e2, e3) (omega (arith, whole, rest, next, div-add-mod' current_block period))

mod-next : (a n : ℕ) → a < n → (a + 1) % n ≡ (if a + 1 == n then 0 else a + 1)
mod-next a n h = elim (Bool-cases (a + 1 == n)) [
  | inl c ↦ rw (c, (==_iff (a + 1) n).0 c) (mod_self n)
  | inr c ↦ rw c (mod-eq_of_lt (ground arith))
]

abbrev pub Moves :
    {PeerId : Type 0}
    → PostConfig
    → StorageProviderState PeerId
    → StorageProviderState PeerId
    → Type 0
Moves w sp sp' =
    (sp'.current_deadline
      ≡ (if sp.current_deadline + 1 == w.period_deadlines then 0 else sp.current_deadline + 1))
    × (sp'.proving_period_start ≡ (
        if sp.current_deadline + 1 == w.period_deadlines
        then sp.proving_period_start + w.proving_period
        else sp.proving_period_start))

-- The move to the next deadline, where nothing overflows.
next_deadline_cycles :
    {PeerId : Type 0} (w : PostConfig) (sp : StorageProviderState PeerId)
    → sp.current_deadline < w.period_deadlines
    → w.period_deadlines < u64_mod
    → sp.proving_period_start + w.proving_period < u64_mod
    → Moves w sp (next_deadline w sp)
unfolding next_deadline
next_deadline_cycles w sp h k small =
    let e = add_u64-eq sp.current_deadline 1 (omega arith) in
    let f = add_u64-eq sp.proving_period_start w.proving_period small in
    rw (e, f) (ground (arith, mod-next sp.current_deadline w.period_deadlines h))

expire_deadline-keeps :
    {PeerId : Type 0} (bounded : Bounded) (d : DeadlineInfo) (sp sp' : StorageProviderState PeerId)
    → expire_deadline bounded d sp ≡ ok sp'
    → (sp'.current_deadline ≡ sp.current_deadline)
      × (sp'.proving_period_start ≡ sp.proving_period_start)
      × (sp'.sectors ≡ sp.sectors)
unfolding expire_deadline
expire_deadline-keeps bounded d sp sp' h =
    let (deadline, _, h1) = bind_inverts (load_deadline d.idx sp.deadlines) _ sp' h in
    let ((expired, deadline'), _, h2) =
      bind_inverts (pop_expired_sectors bounded (last d) deadline) _ sp' h1 in
    rw (← ok_inverts _ sp' h2) (refl, refl, refl)

next_deadline-sectors :
    {PeerId : Type 0} (w : PostConfig) (sp : StorageProviderState PeerId)
    → (next_deadline w sp).sectors ≡ sp.sectors
unfolding next_deadline
next_deadline-sectors w sp = refl

late_not_early : (a b : ℕ) → leb a b ≡ true → ¬ (b < a)
late_not_early a b h k = ground arith

early_not_late : (a b : ℕ) → leb a b ≡ false → ¬ (a ≤ b)
early_not_late a b h k = ground arith

period_started-deadline_info :
    {PeerId : Type 0} (w : PostConfig) (block : ℕ) (sp : StorageProviderState PeerId)
    → period_started (deadline_info w block sp) ≡ leb sp.proving_period_start block
unfolding period_started deadline_info new_deadline_info
period_started-deadline_info w block sp =
    elim (Bool-cases (ltb sp.current_deadline w.period_deadlines)) [
      | inl e ↦ rw e refl
      | inr e ↦ rw e refl
    ]

advance-started :
    {PeerId : Type 0} (bounded : Bounded) (w : PostConfig) (block : ℕ)
    (sp sp' : StorageProviderState PeerId)
    → advance_deadline bounded w block sp ≡ ok sp'
    → sp.current_deadline < w.period_deadlines
    → leb sp.proving_period_start block ≡ true
    → expire_deadline bounded (deadline_info w block sp) (next_deadline w sp) ≡ ok sp'
unfolding advance_deadline
advance-started bounded w block sp sp' h known c =
    let some_deadlines : (w.period_deadlines == 0) ≡ false = ground (arith, known) in
    rw (period_started-deadline_info w block sp, c, some_deadlines) at h

advance-not_started :
    {PeerId : Type 0} (bounded : Bounded) (w : PostConfig) (block : ℕ)
    (sp sp' : StorageProviderState PeerId)
    → advance_deadline bounded w block sp ≡ ok sp'
    → leb sp.proving_period_start block ≡ false
    → sp' ≡ sp
unfolding advance_deadline
advance-not_started bounded w block sp sp' h c =
    sym (ok_inverts sp sp' (rw (period_started-deadline_info w block sp, c) at h))

-- Before a provider's proving period has started, a successful `advance_deadline` changes nothing.
-- Afterwards the provider moves to the next of its deadlines, and after the last one to the first;
-- its proving period starts anew exactly then, one period later, where that does not overflow. Its
-- table of sectors stays the same.
pub advance_deadline_cycles :
    {PeerId : Type 0} (bounded : Bounded) (w : PostConfig) (block : ℕ)
    (sp sp' : StorageProviderState PeerId)
    → advance_deadline bounded w block sp ≡ ok sp'
    → sp.current_deadline < w.period_deadlines
    → w.period_deadlines < u64_mod
    → sp.proving_period_start + w.proving_period < u64_mod
    → (block < sp.proving_period_start → sp' ≡ sp)
      × (sp.proving_period_start ≤ block → Moves w sp sp' × (sp'.sectors ≡ sp.sectors))
advance_deadline_cycles {PeerId} bounded w block sp sp' h known k small =
    elim (Bool-cases (leb sp.proving_period_start block)) [
      | inl c ↦ (
        λ early. absurd (late_not_early _ _ c early),
        λ late.
            let next = next_deadline w sp in
            let (d, p, s) =
              expire_deadline-keeps bounded (deadline_info w block sp) next sp'
                (advance-started bounded w block sp sp' h known c) in
            let (d1, p1) = next_deadline_cycles w sp known k small in
            ((d ∙ d1, p ∙ p1), s ∙ next_deadline-sectors w sp),
      )
      | inr c ↦ (
        λ early. advance-not_started bounded w block sp sp' h c,
        λ late. absurd (early_not_late _ _ c late),
      )
    ]
