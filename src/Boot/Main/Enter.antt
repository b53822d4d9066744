-- ===== src/Boot/Main/Enter.antt =====
-- `kernel_main` of kernel/src/main.rs from reset to the switch into the first process.
use beyond_os1k.Base.{ℕ, ◌≡◌, true, false, some}
use beyond_os1k.SpinLock.{new}
use beyond_os1k.Allocator.{Symbols, Ram}
use beyond_os1k.Page.{store}
use beyond_os1k.Riscv.Csr.{stvec}
use beyond_os1k.Scheduler.{Sched}
use beyond_os1k.Timer.{Sbi}
use beyond_os1k.Virtio.Device.{Device}
use beyond_os1k.Tar.Fs.{Fs}
use beyond_os1k.Boot.{Start}
use beyond_os1k.Boot.Main.{Image, Kernel}
use beyond_os1k.Boot.Main.Processes.{table}

-- The kernel at reset: the statics of .data have their first values. Nothing is said of .bss.
pub record IsReset {C S : Type 0} (m : Kernel C S) : Type 0 where
  pub current : m.start.sched.current ≡ new (some 0)
  pub first : m.start.sched.first_switch ≡ true

-- the scheduler after the first switch
abbrev entered : (stack : ℕ → ℕ) (idle a b shell : ℕ) → Sched
entered stack idle a b shell = record {
  procs = new (table stack idle a b shell);
  current = new (some 2);
  first_switch = false;
}

module _ {C S : Type 0} (k : Symbols) (i : Image) (grow : ℕ → ℕ → ℕ) (stack : ℕ → ℕ) (sbi : Sbi C)
    (time : ℕ → ℕ) (device : Device S) (fuel : ℕ) where
  abbrev at_vector : Kernel C S → Ram → Start C
  at_vector m r = record m.start { csr = store m.start.csr stvec i.kernel_entry; ram = r }
