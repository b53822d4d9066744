-- ===== src/Boot/Main.antt =====
-- `kernel_main` of kernel/src/main.rs, from the entry of the kernel to the switch into the first
-- process. The statics are fields of the state: the clearing of .bss sets those whose first value is
-- all zeros, wherever the linker puts them there; the rest of .bss is in the RAM. Messages are not
-- modelled.
pub mod Devices
pub mod Processes
pub mod Up
pub mod Enter
use beyond_os1k.Base.{
  ℕ, ◌+◌, ◌-◌, ◌%◌, ◌^◌, Option, none, replicate, Outcome, ok, panic, unreachable, ◌>>=◌,
}
use beyond_os1k.Allocator.{Symbols}
use beyond_os1k.Page.{store}
use beyond_os1k.Riscv.Csr.{sstatus, stvec}
use beyond_os1k.SpinLock.{new}
use beyond_os1k.Scheduler.{procs_max, stay, switch, yield_now}
use beyond_os1k.Timer.{Sbi}
use beyond_os1k.Virtio.Device.{Device}
use beyond_os1k.Virtio.Driver.{virtio_blk_init}
use beyond_os1k.Tar.Files.{zeroed_file}
use beyond_os1k.Tar.Fs.{Fs, fs_init}
use beyond_os1k.Process.{create_process, put_bytes}
use beyond_os1k.Boot.{Start, zeroed_process, scheduler_init}

-- The addresses that the linker gives to .bss, to the functions, and to the image of the shell.
pub record Image : Type 0 where
  pub bss : ℕ
  pub bss_end : ℕ
  pub kernel_entry : ℕ
  pub idle_process : ℕ
  pub proc_a_entry : ℕ
  pub proc_b_entry : ℕ
  pub user_entry : ℕ
  pub shell_start : ℕ
  pub shell_size : ℕ

pub record Kernel (C S : Type 0) : Type 0 where
  pub start : Start C
  pub fs : Fs S

-- `write_bytes(bss, 0, bss_end - bss)`. PROCS, ALLOCATOR, FILES, DISK, BLK_REQUEST_VQ, BLK_REQ and
-- BLK_CAPACITY are in .bss; CURRENT_PROC and FIRST_SWITCH, which do not start with zeros, are not.
abbrev pub clear_bss : {C S : Type 0} → Image → Kernel C S → Kernel C S
clear_bss i m = record {
  start = record m.start {
    sched = record m.start.sched { procs = new (replicate procs_max zeroed_process) };
    ram = record {
      next = new none;
      word = put_bytes m.start.ram.word i.bss ((i.bss_end + 2 ^ 32 - i.bss) % 2 ^ 32) (λ x. 0);
    };
  };
  fs = record {
    files = new (replicate 2 zeroed_file);
    disk = new (replicate 2560 0);
    blk = record m.fs.blk { vq = new none; req = new none; capacity = new none };
  };
}

module _ {C S : Type 0} (k : Symbols) (i : Image) (grow : ℕ → ℕ → ℕ) (stack : ℕ → ℕ) (sbi : Sbi C)
    (time : ℕ → ℕ) (timer_fuel : ℕ) (device : Device S) (fuel : ℕ) where
  -- The result is the entry that is switched from, if any, and the one that is switched to.
  unfoldable pub kernel_main : Kernel C S → Outcome (Option ℕ × ℕ × Kernel C S)
  kernel_main m = do
    let m = clear_bss i m
    let csr = store m.start.csr stvec i.kernel_entry
    (ram, blk) ← virtio_blk_init device k m.start.ram m.fs.blk
    fs ← fs_init device fuel (record m.fs { blk = blk })
    s ←
        scheduler_init k grow stack sbi time timer_fuel i.idle_process
          (record m.start { csr = csr; ram = ram })
    (pid_a, procs, ram) ←
        create_process k grow stack (s.csr sstatus) i.proc_a_entry 0 0 s.sched.procs s.ram
    (pid_b, procs, ram) ← create_process k grow stack (s.csr sstatus) i.proc_b_entry 0 0 procs ram
    (pid_shell, procs, ram) ←
        create_process k grow stack (s.csr sstatus) i.user_entry i.shell_start i.shell_size procs
          ram
    (action, sched) ← yield_now (record s.sched { procs = procs })
    let m' : Kernel C S = record { start = record s { sched = sched; ram = ram }; fs = fs }
    elim action [ stay ↦ panic unreachable | switch from to ↦ ok (from, to, m') ]
