-- ===== src/Timer/Reading.antt =====
-- `get_timer` and `Timer::set` of kernel/src/timer.rs: a 64-bit time read in two halves.
use beyond_os1k.Base.{
  ℕ, suc, ◌+◌, ◌*◌, ◌/◌, ◌%◌, ◌^◌, ◌<◌, ◌≤◌, ◌≡◌, ◌≢◌, ◌∙◌, refl, inl, inr, arith, ◌==◌,
  if◌then◌else◌, Bool-cases, Outcome, ok, panic, expect, eq→==, ne→==, ==→eq, ==→ne,
}
use beyond_os1k.Timer.{
  Sbi, success, failure, millisecs_to_ticks, get_timer, set_timer, set_deadline,
}

-- A 64-bit counter that does not run backwards, nor through 2 ^ 32 ticks within six readings.
pub record IsClock (time : ℕ → ℕ) : Type 0 where
  pub word : (n : ℕ) → time n < 2 ^ 64
  pub onward : (n m : ℕ) → n ≤ m → time n ≤ time m
  pub slow : (n : ℕ) → time (n + 3 + 2) < time n + 2 ^ 32

alarm_lem :
    {C : Type 0} (sbi : Sbi C) (t next : ℕ) (c : C)
    → (elim (set_timer sbi t c).0 as (λ x. Outcome (ℕ × C)) [
      | success r ↦ ok (next, (set_timer sbi t c).1)
      | failure r ↦ panic expect
    ])
      ≡ (let (result, c') = sbi.set_timer_call (t % 2 ^ 32) (t / 2 ^ 32) c in
          if result == 0 then ok (next, c') else panic expect)
unfolding set_timer
alarm_lem sbi t next c =
    elim (Bool-cases ((sbi.set_timer_call (t % 2 ^ 32) (t / 2 ^ 32) c).0 == 0)) [
      | inl done ↦ rw done
      | inr refused ↦ rw refused
    ]

module _ (time : ℕ → ℕ) (clock : IsClock time) where
  whole :
      (n : ℕ)
      → time (n + 2) / 2 ^ 32 ≡ time n / 2 ^ 32
      → time n / 2 ^ 32 * 2 ^ 32 + time (n + 1) % 2 ^ 32 ≡ time (n + 1)
  whole n same =
      let before : time n ≤ time (n + 1) = clock.onward n (n + 1) (omega arith) in
      let behind : time (n + 1) ≤ time (n + 2) = clock.onward (n + 1) (n + 2) (omega arith) in
      omega arith

  get_timer-calm :
      (fuel n : ℕ) {m next : ℕ}
      → time (n + 2) / 2 ^ 32 ≡ time n / 2 ^ 32
      → m ≡ n + 1
      → next ≡ n + 3
      → get_timer time (suc fuel) n ≡ ok (time m, next)
  unfolding get_timer
  get_timer-calm fuel n same e e' = rw (e, e', eq→== _ _ same, whole n same)

  get_timer-again :
      (fuel n : ℕ)
      → time (n + 2) / 2 ^ 32 ≢ time n / 2 ^ 32
      → get_timer time (suc fuel) n ≡ get_timer time fuel (n + 3)
  unfolding get_timer
  get_timer-again fuel n other = rw (ne→== _ _ other)

  -- After a carry between the first and the third reading the next round sees none.
  calm_after :
      (n : ℕ)
      → time (n + 2) / 2 ^ 32 ≢ time n / 2 ^ 32
      → time (n + 3 + 2) / 2 ^ 32 ≡ time (n + 3) / 2 ^ 32
  calm_after n other =
      let up : time n ≤ time (n + 2) = clock.onward n (n + 2) (omega arith) in
      let on : time (n + 2) ≤ time (n + 3) = clock.onward (n + 2) (n + 3) (omega arith) in
      let end : time (n + 3) ≤ time (n + 3 + 2) = clock.onward (n + 3) (n + 3 + 2) (omega arith) in
      let slow : time (n + 3 + 2) < time n + 2 ^ 32 = clock.slow n in omega arith

  -- On such a clock `get_timer` ends after at most two rounds, and its result is the whole
  -- 64-bit time at one of its readings: the halves belong together.
  pub get_timer_lem :
      (fuel n : ℕ)
      → (m : ℕ) × (next : ℕ) × (get_timer time (suc (suc fuel)) n ≡ ok (time m, next))
        × (n ≤ m)
        × (m < next)
        × (next ≤ n + 6)
  get_timer_lem fuel n = elim (Bool-cases (time (n + 2) / 2 ^ 32 == time n / 2 ^ 32)) [
    | inl same ↦ (
      n + 1,
      n + 3,
      get_timer-calm (suc fuel) n (==→eq _ _ same) refl refl,
      omega arith,
      omega arith,
      omega arith,
    )
    | inr other ↦ (
      n + 4,
      n + 6,
      get_timer-again (suc fuel) n (==→ne _ _ other)
          ∙ get_timer-calm fuel (n + 3) (calm_after n (==→ne _ _ other)) (omega arith)
              (omega arith),
      omega arith,
      omega arith,
      omega arith,
    )
  ]

  -- `Timer::set` for up to 2 ^ 40 milliseconds asks the firmware, in two words, for an alarm that
  -- many milliseconds of 10000 ticks after a time at which the counter was read; if the firmware
  -- answers 0, the call is done, and it panics otherwise.
  pub set_deadline_lem :
      {C : Type 0} (sbi : Sbi C) (fuel millisecs n : ℕ) (c : C)
      → millisecs ≤ 2 ^ 40
      → ((m : ℕ) → time m < 2 ^ 63)
      → (m : ℕ) × (next : ℕ) × (lo : ℕ) × (hi : ℕ) × (n ≤ m)
        × (m < next)
        × (lo < 2 ^ 32)
        × (hi * 2 ^ 32 + lo ≡ time m + millisecs * 10000)
        × (set_deadline sbi time (suc (suc fuel)) millisecs n c ≡ (
            let (result, c') = sbi.set_timer_call lo hi c in
            if result == 0 then ok (next, c') else panic expect))
  unfolding set_deadline set_timer millisecs_to_ticks
  set_deadline_lem sbi fuel millisecs n c few early =
      let (m, next, e, from, to, soon) = get_timer_lem fuel n in
      let t = (time m + millisecs_to_ticks millisecs) % 2 ^ 64 in
      let bound = early m in
      let ticks : millisecs_to_ticks millisecs ≡ millisecs * 10000 = omega arith in
      let sum : t ≡ time m + millisecs * 10000 = omega arith in
      (
        m,
        next,
        t % 2 ^ 32,
        t / 2 ^ 32,
        from,
        to,
        omega arith,
        omega arith,
        rw e (alarm_lem sbi t next c),
      )
