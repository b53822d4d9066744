-- ===== src/Examples/Creating.antt =====
-- kernel/src/process.rs at a concrete memory.
use beyond_os1k.Base.{ℕ, ◌+◌, ◌*◌, ◌≡◌, refl, arith, some, set, ok}
use beyond_os1k.SpinLock.{new}
use beyond_os1k.Allocator.{Ram}
use beyond_os1k.Scheduler.{runnable}
use beyond_os1k.Process.{first_unused, create_process}
use beyond_os1k.Process.KernelTables.{IsCreated, create_process-kernel}
use beyond_os1k.Examples.Memory.{linker, linker-IsLinked, boot_ram, boot_ram-IsBump}
use beyond_os1k.Examples.Processes.{procs}

abbrev pub stack : ℕ → ℕ
stack i = 0x80210000 + 8192 * i

-- A `Vec` that doubles.
abbrev pub grow : ℕ → ℕ → ℕ
grow capacity needed = capacity * 2 + needed

pub slot_4 : first_unused procs ≡ some 4
unfolding first_unused
slot_4 = refl

create_process-kernel_example :
    (root : ℕ) × (r' : Ram) × (create_process linker grow stack 0x100 0x80200400 0 0
        (new procs)
        boot_ram
      ≡ ok (
        5,
        new (
            set procs 4
              (record { pid = 5; state = runnable; sp = stack 4 + 8124; page_table = some root })),
        r',
      ))
    × IsCreated linker (stack 4 + 8124) 0x80200400 0x100 root boot_ram r'
create_process-kernel_example =
    create_process-kernel linker linker-IsLinked grow stack 0x100 0x80200400 0 procs 4 boot_ram
      boot_ram-IsBump (omega arith) slot_4 (omega arith)
