-- ===== src/Trap/Handler.antt =====
-- `handle_trap` of kernel/src/trap.rs: system calls and timer interrupts, on a hart with its CSRs.
use beyond_os1k.Base.{
  ℕ, ◌+◌, ◌%◌, ◌^◌, ◌==◌, if◌then◌else◌, bit_or, Outcome, ok, panic, explicit, ◌>>=◌,
}
use beyond_os1k.Page.{store}
use beyond_os1k.Riscv.Csr.{sstatus, sepc, scause}
use beyond_os1k.Scheduler.{Switch, stay, switch, yield_now}
use beyond_os1k.Scheduler.Context.{sstatus_sie}
use beyond_os1k.Timer.{Sbi, set_deadline}
use beyond_os1k.Virtio.Device.{Device}
use beyond_os1k.Trap.{TrapFrame, Kernel, returned, waiting, gone, handle_syscall}

abbrev pub scause_ecall : ℕ
scause_ecall = 8

abbrev pub scause_timer_interrupt : ℕ
scause_timer_interrupt = 0x80000005

-- The CSRs, the kernel, and how often the time counter has been read.
pub record Hart (S C : Type 0) : Type 0 where
  pub csr : ℕ → ℕ
  pub kernel : Kernel S C
  pub readings : ℕ

-- `handle_trap` returns, or another process gets the hart: in SYS_GETCHAR, at the end of a process,
-- or as the last step of a timer interrupt.
pub data Handled (S C : Type 0) : Type 0 where
  back : TrapFrame → Hart S C → Handled S C
  away : Switch → Hart S C → Handled S C

abbrev pub enabled : (ℕ → ℕ) → ℕ → ℕ
enabled csr = store csr sstatus (bit_or (csr sstatus) sstatus_sie)

module _ {S C : Type 0} (device : Device S) (fuel : ℕ) (sbi : Sbi C) (time : ℕ → ℕ)
    (timer_fuel : ℕ) where
  unfoldable pub ecall : TrapFrame → Hart S C → Outcome (Handled S C)
  ecall f h = do
    let user_pc = h.csr sepc
    let csr = enabled h.csr
    result ← handle_syscall device fuel sbi f h.kernel
    elim result [
      | returned f' k ↦
          ok (back f' (record h { csr = store csr sepc ((user_pc + 4) % 2 ^ 32); kernel = k }))
      | waiting to k ↦ ok (away to (record h { csr = csr; kernel = k }))
      | gone to k ↦ ok (away to (record h { csr = csr; kernel = k }))
    ]

  unfoldable pub timer_interrupt : TrapFrame → Hart S C → Outcome (Handled S C)
  timer_interrupt f h = do
    (readings, console) ← set_deadline sbi time timer_fuel 500 h.readings h.kernel.console
    let csr = enabled h.csr
    (next, sched) ← yield_now h.kernel.sched
    let h' : Hart S C = record {
      csr = csr;
      kernel = record h.kernel { sched = sched; console = console };
      readings = readings;
    }
    elim next [ stay ↦ ok (back f h') | switch from to ↦ ok (away (switch from to) h') ]

  unfoldable pub handle_trap : TrapFrame → Hart S C → Outcome (Handled S C)
  handle_trap f h =
      if h.csr scause == scause_ecall
      then ecall f h
      else if h.csr scause == scause_timer_interrupt
      then timer_interrupt f h
      else panic explicit
