-- ===== src/Timer.antt =====
-- kernel/src/timer.rs and the firmware calls of kernel/src/sbi.rs. The firmware is the parameter
-- `Sbi`, over a state of its own; the 64-bit time counter is the parameter `time`: `time n` is its
-- value at the n-th reading.
pub mod Reading
pub mod Console
use beyond_os1k.Base.{
  ℕ, zero, suc, ◌+◌, ◌*◌, ◌/◌, ◌%◌, ◌^◌, ◌==◌, if◌then◌else◌, Outcome, ok, panic, expect, spinning,
  ◌>>=◌,
}

-- The calls by their numbers 0, 1 and 2: what they return in `a0`, and the state they leave.
pub record Sbi (C : Type 0) : Type 0 where
  pub set_timer_call : (ticksl ticksh : ℕ) → C → ℕ × C
  pub putchar_call : ℕ → C → ℕ × C
  pub getchar_call : C → ℕ × C

-- `Result<isize, isize>`
pub data Answer : Type 0 where
  success failure : ℕ → Answer

module _ {C : Type 0} (sbi : Sbi C) where
  unfoldable pub put_byte : ℕ → C → Answer × C
  put_byte b c =
      let (result, c') = sbi.putchar_call b c in
      (if result == 0 then success 0 else failure result, c')

  unfoldable pub get_char : C → Answer × C
  get_char c =
      let (result, c') = sbi.getchar_call c in
      (if result == 0xffffffff then failure 0xffffffff else success result, c')

  unfoldable pub set_timer : ℕ → C → Answer × C
  set_timer ticks c =
      let (result, c') = sbi.set_timer_call (ticks % 2 ^ 32) (ticks / 2 ^ 32) c in
      (if result == 0 then success result else failure result, c')

unfoldable pub millisecs_to_ticks : ℕ → ℕ
millisecs_to_ticks millisecs = millisecs * 10000000 % 2 ^ 64 / 1000

-- The loop of `get_timer` from the n-th reading on; each unit of fuel is a round of three
-- readings. The result comes with the number of the next reading.
unfoldable pub get_timer : (time : ℕ → ℕ) (fuel n : ℕ) → Outcome (ℕ × ℕ)
get_timer time zero n = panic spinning
get_timer time (suc fuel) n =
    let ticksh = time n / 2 ^ 32 in
    let ticksl = time (n + 1) % 2 ^ 32 in
    let ticksh_check = time (n + 2) / 2 ^ 32 in
    let again = get_timer time fuel (n + 3) in
    if ticksh_check == ticksh then ok (ticksh * 2 ^ 32 + ticksl, n + 3) else again

-- `Timer::set`
unfoldable pub set_deadline :
    {C : Type 0} → Sbi C → (time : ℕ → ℕ) (fuel millisecs n : ℕ) → C → Outcome (ℕ × C)
unfolding set_timer
set_deadline sbi time fuel millisecs n c = do
  let ticks = millisecs_to_ticks millisecs
  (current_ticks, next) ← get_timer time fuel n
  let (answer, c') = set_timer sbi ((current_ticks + ticks) % 2 ^ 64) c
  elim answer [ success r ↦ ok (next, c') | failure r ↦ panic expect ]
