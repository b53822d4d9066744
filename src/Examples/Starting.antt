-- ===== src/Examples/Starting.antt =====
-- `scheduler_init` of kernel/src/scheduler.rs at a concrete start.
use beyond_os1k.Base.{
  ℕ, ◌+◌, ◌*◌, ◌^◌, ◌<◌, ◌≤◌, ◌≡◌, ◌≢◌, refl, arith, true, ok, ◌==◌, if◌then◌else◌,
}
use beyond_os1k.Riscv.Csr.{sstatus, sie}
use beyond_os1k.Scheduler.Yield.{IsSettled}
use beyond_os1k.Process.KernelTables.{IsCreated}
use beyond_os1k.Boot.{Start, scheduler_init}
use beyond_os1k.Boot.Idle.{initial, with_idle, scheduler_init_lem}
use beyond_os1k.Examples.Memory.{linker, linker-IsLinked, boot_ram, boot_ram-IsBump}
use beyond_os1k.Examples.Creating.{stack, grow}
use beyond_os1k.Examples.Calls.{sbi, clock, clock-IsClock}

abbrev start : Start ℕ
start = record {
  csr = λ c. if c == 0x100 then 0x100 else 0;
  sched = initial;
  ram = boot_ram;
  console = 0;
  readings = 0;
}

scheduler_init_lem_example :
    (s' : Start ℕ) × (root : ℕ) × (m : ℕ) × (lo : ℕ) × (hi : ℕ) × (scheduler_init linker grow stack
        sbi clock 2 0x80200400 start
      ≡ ok s')
    × IsSettled s'.sched (with_idle (stack 0 + 8124) root) 0 0
    × IsCreated linker (stack 0 + 8124) 0x80200400 0x100 root boot_ram s'.ram
    × (s'.sched.first_switch ≡ true)
    × ((c : ℕ) → c ≢ sie → c ≢ sstatus → s'.csr c ≡ start.csr c)
    × (s'.csr sie ≡ 32)
    × (s'.csr sstatus ≡ 0x102)
    × (0 ≤ m)
    × (m < s'.readings)
    × (hi * 2 ^ 32 + lo ≡ clock m + 500 * 10000)
    × (s'.console ≡ hi * 2 ^ 32 + lo)
scheduler_init_lem_example =
    scheduler_init_lem linker linker-IsLinked grow stack (omega arith) sbi clock clock-IsClock
      (λ m. ground arith) (λ lo hi c. refl) 0x80200400 start refl boot_ram-IsBump (omega arith)
