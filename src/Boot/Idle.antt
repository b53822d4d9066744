-- ===== src/Boot/Idle.antt =====
-- What `scheduler_init` of kernel/src/scheduler.rs leaves behind at start-up.
use beyond_os1k.Base.{
  ℕ, ◌+◌, ◌*◌, ◌^◌, ◌<◌, ◌≤◌, ◌≡◌, ◌≢◌, refl, ◌∙◌, arith, true, some, List, ◌∷◌, replicate, bit_or,
  ok, eq→==, ne→==,
}
use beyond_os1k.SpinLock.{new, lock, drop_guard}
use beyond_os1k.Allocator.{Symbols, IsLinked}
use beyond_os1k.Allocator.Bump.{frontier, IsBump}
use beyond_os1k.Page.{store}
use beyond_os1k.Riscv.Csr.{sstatus, sie}
use beyond_os1k.Scheduler.{Process, runnable, position, Sched}
use beyond_os1k.Scheduler.Yield.{IsSettled}
use beyond_os1k.Timer.{Sbi, set_deadline}
use beyond_os1k.Timer.Reading.{IsClock, set_deadline_lem}
use beyond_os1k.Process.{first_unused}
use beyond_os1k.Process.KernelTables.{IsCreated, create_process-kernel}
use beyond_os1k.Boot.{Start, zeroed_process, mark_idle, scheduler_init}

-- The scheduler's statics as the program starts.
abbrev pub initial : Sched
initial = record {
  procs = new (replicate 8 zeroed_process);
  current = new (some 0);
  first_switch = true;
}

-- The table with the idle process in its first slot.
abbrev pub with_idle : (sp root : ℕ) → List Process
with_idle sp root =
    record { pid = 0; state = runnable; sp = sp; page_table = some root }
    ∷ replicate 7 zeroed_process

module _ {C : Type 0} (k : Symbols) (linked : IsLinked k) (grow : ℕ → ℕ → ℕ) (stack : ℕ → ℕ)
    (below : stack 0 + 8192 ≤ k.free_ram) (sbi : Sbi C) (time : ℕ → ℕ) (clock : IsClock time)
    (early : (m : ℕ) → time m < 2 ^ 63)
    (alarm : (lo hi : ℕ) (c : C) → (sbi.set_timer_call lo hi c).0 ≡ 0) where
  -- At start-up, with the linked layout, a ready allocator with 36 pages left, a clock and a
  -- firmware that accepts alarms, `scheduler_init` does not panic. The idle process stands in the
  -- first slot with pid 0 and is the current one, and the scheduler is settled; the next switch is
  -- the first. Its page table and its frame are those of a new kernel process, and 36 pages are
  -- taken at most. The supervisor's interrupts and the one of the timer are on, no other CSR
  -- changes, and the firmware is asked for an alarm 500 ms after a reading of the time.
  pub scheduler_init_lem :
      (idle_process : ℕ) (s : Start C)
      → s.sched ≡ initial
      → IsBump k s.ram
      → frontier k s.ram + 36 * 4096 ≤ k.free_ram_end
      → (s' : Start C) × (root : ℕ) × (m : ℕ) × (lo : ℕ) × (hi : ℕ) × (scheduler_init k grow stack
            sbi time 2 idle_process s
          ≡ ok s')
        × IsSettled s'.sched (with_idle (stack 0 + 8124) root) 0 0
        × IsCreated k (stack 0 + 8124) idle_process (s.csr sstatus) root s.ram s'.ram
        × (s'.sched.first_switch ≡ true)
        × ((c : ℕ) → c ≢ sie → c ≢ sstatus → s'.csr c ≡ s.csr c)
        × (s'.csr sie ≡ 32)
        × (s'.csr sstatus ≡ bit_or (s.csr sstatus) 2)
        × (s.readings ≤ m)
        × (m < s'.readings)
        × (hi * 2 ^ 32 + lo ≡ time m + 500 * 10000)
        × (s'.console ≡ (sbi.set_timer_call lo hi s.console).1)
  unfolding scheduler_init mark_idle first_unused position lock drop_guard
  scheduler_init_lem idle_process s at_start bump room =
      let (root, r', made, created) =
        create_process-kernel k linked grow stack (s.csr sstatus) idle_process 0
          (replicate 8 zeroed_process) 0 s.ram bump room refl below in
      let (m, readings, lo, hi, from, to, low, at, e) =
        set_deadline_lem time clock sbi 0 500 s.readings s.console (omega arith) early in
      let set : set_deadline sbi time 2 500 s.readings s.console
          ≡ ok (readings, (sbi.set_timer_call lo hi s.console).1) =
        e ∙ rw (eq→== (sbi.set_timer_call lo hi s.console).0 0 (alarm lo hi s.console)) refl in
      let s' : Start C = record {
        csr = store (store s.csr sie 32) sstatus (bit_or (s.csr sstatus) 2);
        sched = record initial { procs = new (with_idle (stack 0 + 8124) root) };
        ram = r';
        console = (sbi.set_timer_call lo hi s.console).1;
        readings = readings;
      } in
      (
        s',
        root,
        m,
        lo,
        hi,
        rw (at_start, made) (rw set refl),
        record { procs = refl; current = refl; full = refl; here = refl; idle = (0, refl) },
        created,
        refl,
        λ c a b. rw (ne→== c sie a, ne→== c sstatus b) refl,
        refl,
        refl,
        from,
        to,
        at,
        refl,
      )
