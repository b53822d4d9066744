-- ===== src/Trap/Preempt.antt =====
-- A timer interrupt inside a critical section of the kernel: `handle_trap` of kernel/src/trap.rs
-- while a guard of PROCS or CURRENT_PROC is alive.
use beyond_os1k.Base.{
  ℕ, ◌^◌, ◌<◌, ◌≡◌, refl, sym, ap, ok-injective, ◌∙◌, ◌⊎◌, inl, inr, arith, true, Option, some,
  List, ok, panic, locked, eq→==, ne→==, Bool-cases, panic-ne-ok,
}
use beyond_os1k.SpinLock.{SpinLock, lock, drop_guard}
use beyond_os1k.Riscv.Csr.{scause}
use beyond_os1k.Scheduler.{Process, Sched, try_get_index, get_next, yield_now}
use beyond_os1k.Timer.{Sbi, set_deadline}
use beyond_os1k.Timer.Reading.{IsClock, set_deadline_lem}
use beyond_os1k.Virtio.Device.{Device}
use beyond_os1k.Trap.{TrapFrame}
use beyond_os1k.Trap.Handler.{Hart, handle_trap, timer_interrupt}

-- Some code is between `lock` and the end of its guard, on one of the scheduler's two statics.
abbrev pub IsHeld : Sched → Type 0
IsHeld s =
    ((l : SpinLock (List Process)) × (lock l ≡ ok s.procs))
    ⊎ ((l : SpinLock (Option ℕ)) × (lock l ≡ ok s.current))

-- After `lock` the flag is set.
lock-sets : {T : Type 0} (l g : SpinLock T) → lock l ≡ ok g → g.is_locked ≡ true
unfolding lock
lock-sets {T} l g e = elim (Bool-cases l.is_locked) [
  | inl held ↦ absurd (panic-ne-ok (rw held at e))
  | inr free ↦ ap (λ (x : SpinLock T). x.is_locked) (sym (ok-injective (rw free at e)))
]

yield_now-locked :
    (s : Sched) (pid : ℕ)
    → s.current.value ≡ some pid
    → (s.procs.is_locked ≡ true) ⊎ (s.current.is_locked ≡ true)
    → yield_now s ≡ panic locked
unfolding yield_now get_next try_get_index lock drop_guard
yield_now-locked s pid running (inl held) = elim (Bool-cases s.current.is_locked) [
  | inl both ↦ rw both refl
  | inr free ↦ rw (free, running) (rw held refl)
]
yield_now-locked s pid running (inr held) = rw held refl

module _ {S C : Type 0} (device : Device S) (fuel : ℕ) (sbi : Sbi C) (time : ℕ → ℕ)
    (clock : IsClock time) (early : (m : ℕ) → time m < 2 ^ 63)
    (alarm : (lo hi : ℕ) (c : C) → (sbi.set_timer_call lo hi c).0 ≡ 0) where
  -- A timer interrupt that comes while a process runs and a guard of PROCS or of CURRENT_PROC is
  -- alive panics: `yield_now` finds the lock held.
  pub handle_trap-held :
      (f : TrapFrame) (h : Hart S C) (pid : ℕ)
      → h.csr scause ≡ 0x80000005
      → h.kernel.sched.current.value ≡ some pid
      → IsHeld h.kernel.sched
      → handle_trap device fuel sbi time 2 f h ≡ panic locked
  unfolding handle_trap timer_interrupt
  handle_trap-held f h pid cause running held =
      let (m, readings, lo, hi, from, to, low, at, e) =
        set_deadline_lem time clock sbi 0 500 h.readings h.kernel.console (omega arith) early in
      let set : set_deadline sbi time 2 500 h.readings h.kernel.console
          ≡ ok (readings, (sbi.set_timer_call lo hi h.kernel.console).1) =
        e
        ∙ rw (eq→== (sbi.set_timer_call lo hi h.kernel.console).0 0 (alarm lo hi h.kernel.console))
            refl in
      let stuck = yield_now-locked h.kernel.sched pid running (flags held) in
      rw (ne→== (h.csr scause) 8 (omega arith), eq→== (h.csr scause) 0x80000005 cause)
        (rw (set, stuck) refl)
    where
      flags :
          IsHeld h.kernel.sched
          → (h.kernel.sched.procs.is_locked ≡ true) ⊎ (h.kernel.sched.current.is_locked ≡ true)
      flags (inl (l, e)) = inl (lock-sets l h.kernel.sched.procs e)
      flags (inr (l, e)) = inr (lock-sets l h.kernel.sched.current e)
