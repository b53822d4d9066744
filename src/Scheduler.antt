-- ===== src/Scheduler.antt =====
-- kernel/src/scheduler.rs: the process table and the choice of the next process. What the kernel
-- keeps of a process besides is the business of kernel/src/process.rs.
pub mod Next
pub mod Yield
pub mod Fair
pub mod Context
use beyond_os1k.Base.{
  ℕ, zero, suc, ◌+◌, Bool, true, false, not, ◌&&◌, Option, none, some, List, [], ◌∷◌, ◌++◌, take,
  drop, set, get_elem?, length, ◌==◌, if◌then◌else◌, ltb, Outcome, ok, panic, expect, guard,
  expect_some, ◌>>=◌, ◌>>◌,
}
use beyond_os1k.SpinLock.{SpinLock, lock, write, drop_guard}

pub data State : Type 0 where
  unused runnable exited : State

-- `pid`, `state`, the saved stack pointer and the page table of a `Process`; its stack is in RAM.
pub record Process : Type 0 where
  pub pid : ℕ
  pub state : State
  pub sp : ℕ
  pub page_table : Option ℕ

abbrev pub procs_max : ℕ
procs_max = 8

abbrev pub idle_pid : ℕ
idle_pid = 0

abbrev pub is_runnable : State → Bool
is_runnable unused = false
is_runnable runnable = true
is_runnable exited = false

-- `iter().position(|p| p.pid == pid)`
unfoldable pub position : List Process → ℕ → Option ℕ
position [] pid = none
position (p ∷ ps) pid =
    let rest = position ps pid in
    if p.pid == pid then some 0 else elim rest [ none ↦ none | some i ↦ some (suc i) ]

unfoldable pub try_get_index :
    SpinLock (List Process) → ℕ → Outcome (Option ℕ × SpinLock (List Process))
unfolding lock drop_guard
try_get_index l pid = do procs ← lock l; ok (position procs.value pid, drop_guard procs)

abbrev pub eligible : Process → Bool
eligible p = is_runnable p.state && not (p.pid == idle_pid)

-- `iter().cycle().skip(start).take(n)`, for `start + n` within two rounds of the cycle.
abbrev pub cycle_part : ℕ → ℕ → List Process → List Process
cycle_part start n ps = take n (drop start (ps ++ ps))

-- `find(…).map(|p| p.pid).unwrap_or(IDLE_PID)`
unfoldable pub first_eligible : List Process → ℕ
first_eligible [] = idle_pid
first_eligible (p ∷ ps) = let rest = first_eligible ps in if eligible p then p.pid else rest

unfoldable pub get_next : SpinLock (List Process) → ℕ → Outcome (ℕ × SpinLock (List Process))
unfolding try_get_index lock drop_guard
get_next l current_pid = do
  (index, l) ← try_get_index l current_pid
  current_index ← expect_some index
  procs ← lock l
  ok (first_eligible (cycle_part (current_index + 1) procs_max procs.value), drop_guard procs)

-- The statics PROCS, CURRENT_PROC and FIRST_SWITCH.
pub record Sched : Type 0 where
  pub procs : SpinLock (List Process)
  pub current : SpinLock (Option ℕ)
  pub first_switch : Bool

-- What `yield_now` does in the end: nothing, or a call of `switch_context`. It saves the stack
-- pointer in the process at the index `from`, or in a discarded word on the first switch, and
-- loads that of the process at the index `to`.
pub data Switch : Type 0 where
  stay : Switch
  switch : (from : Option ℕ) (to : ℕ) → Switch

-- `get_disjoint_mut([i, j])`: an error for equal indices or one out of range.
abbrev pub disjoint : ℕ → ℕ → List Process → Bool
disjoint i j ps = not (i == j) && ltb i (length ps) && ltb j (length ps)

unfoldable pub yield_now : Sched → Outcome (Switch × Sched)
unfolding lock drop_guard
yield_now s = do
  current ← lock s.current
  current_pid ← expect_some current.value
  (next_pid, procs) ← get_next s.procs current_pid
  let s = record s { procs = procs; current = drop_guard current }
  if next_pid == current_pid then ok (stay, s) else do
    (found_next, procs) ← try_get_index s.procs next_pid
    next_index ← expect_some found_next
    (found_current, procs) ← try_get_index procs current_pid
    current_index ← expect_some found_current
    procs ← lock procs
    guard (disjoint next_index current_index procs.value) expect
    let from = if s.first_switch then none else some current_index
    current ← lock s.current
    ok (
      switch from next_index,
      record {
        procs = drop_guard procs;
        current = drop_guard (write current (some next_pid));
        first_switch = false;
      },
    )
