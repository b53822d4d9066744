-- ===== src/Examples/Loading.antt =====
-- `create_process` of kernel/src/process.rs with a user image of five bytes.
use beyond_os1k.Base.{
  ℕ, ◌+◌, ◌*◌, ◌≡◌, refl, arith, some, set, ok, ◌==◌, if◌then◌else◌, ◌/◌, inl, inr, ◌∷◌, map,
  replicate, bit_or, ne→==,
}
use beyond_os1k.SpinLock.{new}
use beyond_os1k.Allocator.{Ram}
use beyond_os1k.Allocator.Bump.{IsBump}
use beyond_os1k.Page.{store}
use beyond_os1k.Scheduler.{runnable}
use beyond_os1k.Riscv.{Machine, ended}
use beyond_os1k.Riscv.Blocks.{words, words-agree}
use beyond_os1k.Riscv.Reg.{sp}
use beyond_os1k.Riscv.Csr.{sscratch, sepc, satp}
use beyond_os1k.Scheduler.Context.{switch_call, callee_saved}
use beyond_os1k.Scheduler.Context.Roundtrip.{IsCall}
use beyond_os1k.Process.{create_process, byte, put_bytes, satp_sv32}
use beyond_os1k.Process.Start.{IsFirst, create_process-switch_context}
use beyond_os1k.Process.UserTables.{IsUserCreated, create_process-user}
use beyond_os1k.Examples.Memory.{linker, linker-IsLinked, boot_ram}
use beyond_os1k.Examples.Processes.{procs}
use beyond_os1k.Examples.Creating.{stack, grow, slot_4}
use beyond_os1k.Examples.Switching.{machine}

-- The image is 0x55 0x66 0x77 0x88 0x99 at 0x80208000.
abbrev pub loaded_ram : Ram
loaded_ram = record boot_ram {
  word = λ a. if a == 0x80208000 then 0x88776655 else if a == 0x80208004 then 0x99 else 0;
}

pub loaded_ram-IsBump : IsBump linker loaded_ram
loaded_ram-IsBump = record { free = refl; low = omega arith; high = omega arith; aligned = refl }

-- bytes across a word boundary
put_bytes_test :
    (byte loaded_ram.word 0x80208001 ≡ 0x66)
    × (put_bytes loaded_ram.word 0x80208003 2 (λ x. 1) 0x80208000 ≡ 0x01776655)
    × (put_bytes loaded_ram.word 0x80208003 2 (λ x. 1) 0x80208004 ≡ 0x01)
    × (put_bytes loaded_ram.word 0x80208003 2 (λ x. 1) 0x80208008 ≡ 0)
put_bytes_test = (refl, refl, refl, refl)

created :
    (root : ℕ) × (q : ℕ) × (r' : Ram) × (create_process linker grow stack 0x100 0x80200400
        0x80208000 5
        (new procs)
        loaded_ram
      ≡ ok (
        5,
        new (
            set procs 4
              (record { pid = 5; state = runnable; sp = stack 4 + 8124; page_table = some root })),
        r',
      ))
    × IsUserCreated linker
        (0x80300000 + 42 * 4096)
        (stack 4 + 8124)
        (stack 4 + 8192)
        0x80200400
        0x100
        0x80208000
        5
        q
        root
        loaded_ram
        r'
created =
    create_process-user linker linker-IsLinked grow stack 0x100 0x80200400 0x80208000 5 procs 4
      loaded_ram loaded_ram-IsBump (omega arith) (omega arith) (omega arith) (omega arith)
      (omega arith) slot_4 (omega arith)

create_process-user_example :
    (root : ℕ) × (q : ℕ) × (r' : Ram) × (create_process linker grow stack 0x100 0x80200400
        0x80208000 5
        (new procs)
        loaded_ram
      ≡ ok (
        5,
        new (
            set procs 4
              (record { pid = 5; state = runnable; sp = stack 4 + 8124; page_table = some root })),
        r',
      ))
    × IsUserCreated linker
        (0x80300000 + 42 * 4096)
        (stack 4 + 8124)
        (stack 4 + 8192)
        0x80200400
        0x100
        0x80208000
        5
        q
        root
        loaded_ram
        r'
create_process-user_example =
    create_process-user linker linker-IsLinked grow stack 0x100 0x80200400 0x80208000 5 procs 4
      loaded_ram loaded_ram-IsBump (omega arith) (omega arith) (omega arith) (omega arith)
      (omega arith) slot_4 (omega arith)

-- A caller that switches to the new process.
abbrev caller : Ram → Machine
caller r = machine 0x80222000 0x80220000 0x80220010 0 (store r.word 0x80220010 (stack 4 + 8124))

caller-IsCall : (r : Ram) → IsCall (caller r) 0x80222000
caller-IsCall r = record {
  stack = refl;
  room = omega arith;
  word = omega arith;
  prev = omega arith;
  next = omega arith;
  apart = inl (omega arith);
}

caller-IsFirst : (r : Ram) → IsFirst (caller r) 0x80222000 (stack 4 + 8124)
caller-IsFirst r = record {
  next = refl;
  next_ne = omega arith;
  next_apart = inl (omega arith);
  frames = inl (omega arith);
  prev_apart = inr (omega arith);
  fits = omega arith;
}

caller_frame :
    (r : Ram) → words (caller r).mem (stack 4 + 8124) 17 ≡ words r.word (stack 4 + 8124) 17
caller_frame r =
    words-agree r.word (caller r).mem (stack 4 + 8124) 17
      (λ a lo hi. rw (ne→== a 0x80220010 (omega arith)) refl)

create_process-switch_context_example :
    (n' : Machine) × (switch_call (caller created.2) ≡ (ended, n'))
    × (map n'.x callee_saved ≡ 0x80200400 ∷ replicate 12 0)
    × (n'.x sp ≡ stack 4 + 8124 + 68)
    × (n'.csr sscratch ≡ stack 4 + 8192)
    × (n'.csr sepc ≡ 0x1000000)
    × (n'.csr satp ≡ bit_or satp_sv32 (created.0 / 4096))
create_process-switch_context_example =
    create_process-switch_context (caller-IsCall created.2) (caller-IsFirst created.2)
      created.4.framed (caller_frame created.2)
