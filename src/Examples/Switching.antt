-- ===== src/Examples/Switching.antt =====
-- The assembly of kernel/src/scheduler.rs and kernel/src/entry.rs at concrete machines.
use beyond_os1k.Base.{ℕ, ◌+◌, ◌-◌, ◌≡◌, refl, inl, inr, arith, ◌==◌, if◌then◌else◌, bit_or}
use beyond_os1k.Page.{store}
use beyond_os1k.Riscv.{Machine, ended}
use beyond_os1k.Riscv.Csr.{sstatus}
use beyond_os1k.Scheduler.Context.{switch_call, masked, suspended}
use beyond_os1k.Scheduler.Context.Resume.{Resumed}
use beyond_os1k.Scheduler.Context.Roundtrip.{
  IsCall, IsReturn, IsRestored, switch_context_lem, switch_context-return,
}
use beyond_os1k.Trap.Entry.{trap}
use beyond_os1k.Trap.Entry.Save.{IsTrap, trapped}
use beyond_os1k.Trap.Entry.Restore.Whole.{IsEntered, KeepsFrame, IsBack, kernel_entry_lem}

-- A machine with these values of `sp`, `a0`, `a1` and `sscratch`.
abbrev pub machine : (sp a0 a1 scratch : ℕ) → (ℕ → ℕ) → Machine
machine sp a0 a1 scratch mem = record {
  x = λ r. if r == 2 then sp else if r == 10 then a0 else if r == 11 then a1 else r;
  csr = λ c. if c == 0x140 then scratch else c;
  mem = mem;
}

-- Two processes, their `sp` fields at 0x80400000 and 0x80400010.
abbrev first : Machine
first = machine 0x80300000 0x80400000 0x80400010 0 (store (λ a. 0) 0x80400010 0x80310000)

first-IsCall : IsCall first 0x80300000
first-IsCall = record {
  stack = refl;
  room = omega arith;
  word = omega arith;
  prev = omega arith;
  next = omega arith;
  apart = inr (omega arith);
}

switch_context_lem_example :
    (m' : Machine) × (switch_call first ≡ (ended, m'))
    × Resumed (suspended first 0x80300000) 0x100 (suspended first 0x80300000 0x80400010) m'
switch_context_lem_example = switch_context_lem first-IsCall (omega arith)

abbrev second : Machine
second = machine 0x80310044 0x80400010 0x80400000 0 (suspended first 0x80300000)

second-IsCall : IsCall second 0x80310044
second-IsCall = record {
  stack = refl;
  room = omega arith;
  word = omega arith;
  prev = omega arith;
  next = omega arith;
  apart = inr (omega arith);
}

back-IsReturn : IsReturn first 0x80300000 second 0x80310044
back-IsReturn = record {
  back = refl;
  stood = λ a lo hi. refl;
  slot_stood = refl;
  frames = inl (omega arith);
  slot_apart = inr (omega arith);
  prev_apart = inr (omega arith);
  prev_ne = omega arith;
}

switch_context-return_example :
    (n' : Machine) × (switch_call second ≡ (ended, n'))
    × IsRestored first n'
    × (n'.csr sstatus ≡ (if 0x100 == 0 then masked 0x100 else bit_or (masked 0x100) 2))
switch_context-return_example = switch_context-return first-IsCall second-IsCall back-IsReturn

-- A system call that answers 7: the handler writes `a0` of the frame.
abbrev handler : Machine → Machine
handler n = record n { mem = store n.mem (0x80300000 - 128 + 40) 7 }

abbrev user : Machine
user = machine 0x1010000 1 2 0x80300000 (λ a. 0)

user-IsTrap : IsTrap user 0x80300000
user-IsTrap = record { stack = refl; room = omega arith; word = omega arith; nonzero = omega arith }

kernel_entry_lem_example :
    IsEntered user 0x80300000 (trapped handler user-IsTrap)
    × (KeepsFrame
          (trapped handler user-IsTrap)
          (handler (trapped handler user-IsTrap))
          (0x80300000 - 128)
        → (n' : Machine) × (trap handler user ≡ (ended, n'))
          × IsBack user 0x80300000 (handler (trapped handler user-IsTrap)) n')
kernel_entry_lem_example = kernel_entry_lem handler user-IsTrap
