-- ===== src/Boot.antt =====
-- The start of the scheduler, `scheduler_init` of kernel/src/scheduler.rs.
pub mod Idle
pub mod Main
use beyond_os1k.Base.{
  ℕ, zero, suc, ◌^◌, ◌==◌, if◌then◌else◌, bit_or, none, some, List, [], ◌∷◌, replicate, Outcome, ok,
  ◌>>=◌,
}
use beyond_os1k.SpinLock.{SpinLock, lock, write, drop_guard}
use beyond_os1k.Allocator.{Symbols, Ram}
use beyond_os1k.Page.{store}
use beyond_os1k.Riscv.Csr.{sstatus, sie}
use beyond_os1k.Scheduler.{Process, unused, idle_pid, Sched}
use beyond_os1k.Scheduler.Context.{sstatus_sie}
use beyond_os1k.Timer.{Sbi, set_deadline}
use beyond_os1k.Process.{create_process}

-- `SIE_STIE`
abbrev pub sie_stie : ℕ
sie_stie = 2 ^ 5

-- `Process::zeroed()`
abbrev pub zeroed_process : Process
zeroed_process = record { pid = 0; state = unused; sp = 0; page_table = none }

-- The state that the start-up works on.
pub record Start (C : Type 0) : Type 0 where
  pub csr : ℕ → ℕ
  pub sched : Sched
  pub ram : Ram
  pub console : C
  pub readings : ℕ

-- The first process with that pid becomes the idle process.
unfoldable pub mark_idle : List Process → ℕ → List Process
mark_idle [] pid = []
mark_idle (p ∷ ps) pid =
    let rest = mark_idle ps pid in
    if p.pid == pid then record p { pid = idle_pid } ∷ ps else p ∷ rest

module _ {C : Type 0} (k : Symbols) (grow : ℕ → ℕ → ℕ) (stack : ℕ → ℕ) (sbi : Sbi C) (time : ℕ → ℕ)
    (timer_fuel : ℕ) where
  -- `idle_process` is the address of that function.
  unfoldable pub scheduler_init : (idle_process : ℕ) → Start C → Outcome (Start C)
  unfolding lock drop_guard
  scheduler_init idle_process s = do
    (pid, procs, ram) ←
        create_process k grow stack (s.csr sstatus) idle_process 0 0 s.sched.procs s.ram
    procs ← lock procs
    let marked = drop_guard (write procs (mark_idle procs.value pid))
    let csr = store s.csr sie sie_stie
    let enabled = store csr sstatus (bit_or (csr sstatus) sstatus_sie)
    (readings, console) ← set_deadline sbi time timer_fuel 500 s.readings s.console
    ok (record {
      csr = enabled;
      sched = record s.sched { procs = marked };
      ram = ram;
      console = console;
      readings = readings;
    })
