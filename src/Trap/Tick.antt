-- ===== src/Trap/Tick.antt =====
-- A timer interrupt in `handle_trap` of kernel/src/trap.rs: the next alarm and the next process.
use beyond_os1k.Base.{
  ℕ, ◌+◌, ◌*◌, ◌^◌, ◌<◌, ◌≤◌, ◌≡◌, ◌≢◌, refl, ◌∙◌, ◌⊎◌, inl, inr, arith, none, some, List, Outcome,
  ok, if◌then◌else◌, eq→==, ne→==,
}
use beyond_os1k.Riscv.Csr.{scause}
use beyond_os1k.Scheduler.{Process, Sched, Switch, stay, switch, yield_now}
use beyond_os1k.Scheduler.Next.{IsNext}
use beyond_os1k.Scheduler.Yield.{IsSettled, switched, yield_now_lem}
use beyond_os1k.Timer.{Sbi, set_deadline}
use beyond_os1k.Timer.Reading.{IsClock, set_deadline_lem}
use beyond_os1k.Virtio.Device.{Device}
use beyond_os1k.Trap.{TrapFrame}
use beyond_os1k.Trap.Handler.{Hart, Handled, back, away, enabled, timer_interrupt, handle_trap}

-- The hart after the interrupt, with the firmware and the scheduler as they are left.
abbrev pub ticked : {S C : Type 0} → Hart S C → C → Sched → ℕ → Hart S C
ticked h console sched readings = record {
  csr = enabled h.csr;
  kernel = record h.kernel { sched = sched; console = console };
  readings = readings;
}

module _ {S C : Type 0} (device : Device S) (fuel : ℕ) (sbi : Sbi C) (time : ℕ → ℕ)
    (clock : IsClock time) (early : (m : ℕ) → time m < 2 ^ 63)
    (alarm : (lo hi : ℕ) (c : C) → (sbi.set_timer_call lo hi c).0 ≡ 0) where
  timer_interrupt-run :
      (f : TrapFrame) (h : Hart S C) {readings : ℕ} {console : C} {next : Switch} {sched : Sched}
      → h.csr scause ≡ 0x80000005
      → set_deadline sbi time 2 500 h.readings h.kernel.console ≡ ok (readings, console)
      → yield_now h.kernel.sched ≡ ok (next, sched)
      → handle_trap device fuel sbi time 2 f h ≡ (elim next as (λ _. Outcome (Handled S C)) [
        | stay ↦ ok (back f (ticked h console sched readings))
        | switch from to ↦ ok (away (switch from to) (ticked h console sched readings))
      ])
  unfolding handle_trap timer_interrupt
  timer_interrupt-run f h {next = next} cause set yielded =
      rw (ne→== (h.csr scause) 8 (omega arith), eq→== (h.csr scause) 0x80000005 cause)
        (rw (set, yielded) refl)

  -- A timer interrupt on a settled scheduler, with a firmware that accepts alarms: `handle_trap`
  -- does not panic. The firmware is asked for an alarm 500 ms after a reading of the time, and
  -- interrupts are on. Let `next` be the next eligible process in turn, or 0. If it is the current
  -- one the trap returns to it with its registers as they were; otherwise the hart goes to
  -- `next`, and the scheduler is settled on it.
  pub handle_trap-timer :
      (f : TrapFrame) (h : Hart S C) (ps : List Process) (pid i : ℕ)
      → h.csr scause ≡ 0x80000005
      → (settled : IsSettled h.kernel.sched ps pid i)
      → (m : ℕ) × (readings : ℕ) × (lo : ℕ) × (hi : ℕ) × (next : ℕ) × (h.readings ≤ m)
        × (m < readings)
        × (hi * 2 ^ 32 + lo ≡ time m + 500 * 10000)
        × IsNext ps i next
        × (((next ≡ pid)
              × (handle_trap device fuel sbi time 2 f h
                  ≡ ok (
                      back f (
                        ticked h
                          (sbi.set_timer_call lo hi h.kernel.console).1
                          h.kernel.sched
                          readings))))
            ⊎ ((next ≢ pid)
                × (j : ℕ) × (handle_trap device fuel sbi time 2 f h
                    ≡ ok (
                        away (switch (if h.kernel.sched.first_switch then none else some i) j) (
                          ticked h
                            (sbi.set_timer_call lo hi h.kernel.console).1
                            (switched settled next)
                            readings)))
                × IsSettled (switched settled next) ps next j))
  handle_trap-timer f h ps pid i cause settled =
      let (m, readings, lo, hi, from, to, low, at, e) =
        set_deadline_lem time clock sbi 0 500 h.readings h.kernel.console (omega arith) early in
      let set =
        e
        ∙ rw (eq→== (sbi.set_timer_call lo hi h.kernel.console).0 0 (alarm lo hi h.kernel.console))
            refl in
      let (next, turn, rest) = yield_now_lem settled in
      (
        m,
        readings,
        lo,
        hi,
        next,
        from,
        to,
        at,
        turn,
        elim rest [
          | inl (same, stayed) ↦ inl (same, timer_interrupt-run f h cause set stayed)
          | inr (other, j, left, after) ↦
              inr (other, j, timer_interrupt-run f h cause set left, after)
        ],
      )
