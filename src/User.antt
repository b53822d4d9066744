-- ===== src/User.antt =====
-- user/src/lib.rs, and the printing of common/src/print.rs, on top of `handle_syscall`. A function
-- of the library is a program `User`, from the state of the kernel as the process sees it to a
-- `Run`.
pub mod Shell
use beyond_os1k.Base.{
  ℕ, ◌%◌, ◌==◌, if◌then◌else◌, Bool, true, false, Option, none, some, List, [], ◌∷◌, length, Panic,
  ok, panic, unreachable,
}
use beyond_os1k.Scheduler.{Switch}
use beyond_os1k.Timer.{Sbi, Answer, success, failure}
use beyond_os1k.Virtio.Device.{Device}
use beyond_os1k.Trap.{
  TrapFrame, Kernel, returned, waiting, gone, handle_syscall, sys_putbyte, sys_getchar, sys_exit,
  sys_readfile, sys_writefile,
}

-- How a run of user code ends: with a value; away from the CPU, in a system call that waits or has
-- ended the process; in the panic handler of the process; or with a panic of the kernel.
pub data Run (S C T : Type 0) : Type 0 where
  done : (value : T) → Kernel S C → Run S C T
  away : Switch → Kernel S C → Run S C T
  failed : Panic → Kernel S C → Run S C T
  crashed : Panic → Run S C T

abbrev pub User : (S C T : Type 0) → Type 0
User S C T = Kernel S C → Run S C T

infixl 5 ◌>>◌ ◌>>=◌
abbrev pub ◌>>=◌ : {S C T U : Type 0} → User S C T → (T → User S C U) → User S C U
◌>>=◌ first after k = elim (first k) [
  | done x k' ↦ after x k'
  | away to k' ↦ away to k'
  | failed why k' ↦ failed why k'
  | crashed why ↦ crashed why
]

abbrev pub ◌>>◌ : {S C U : Type 0} → User S C (Unit {0}) → User S C U → User S C U
◌>>◌ first after = first >>= (λ _. after)

abbrev pub pure : {S C T : Type 0} → T → User S C T
pure x k = done x k

abbrev pub fail : {S C T : Type 0} → Panic → User S C T
fail why k = failed why k

module _ {S C : Type 0} (device : Device S) (fuel : ℕ) (sbi : Sbi C) where
  -- The `ecall`, with these registers.
  unfoldable pub sys_call : (arg0 arg1 arg2 arg3 sysno : ℕ) → User S C ℕ
  sys_call arg0 arg1 arg2 arg3 sysno k =
      let f : TrapFrame = record { a0 = arg0; a1 = arg1; a2 = arg2; a3 = arg3; a7 = sysno } in
      elim (handle_syscall device fuel sbi f k) [
        | ok (returned f' k') ↦ done f'.a0 k'
        | ok (waiting to k') ↦ away to k'
        | ok (gone to k') ↦ away to k'
        | panic why ↦ crashed why
      ]

  unfoldable pub put_byte : ℕ → User S C Answer
  put_byte b = do
    result ← sys_call b 0 0 0 sys_putbyte
    pure (if result == 0 then success 0 else failure result)

  unfoldable pub get_char : User S C (Option ℕ)
  get_char = do ch ← sys_call 0 0 0 0 sys_getchar; pure (if ch == 0xffffffff then none else some ch)

  -- It does not return.
  unfoldable pub exit : {T : Type 0} → User S C T
  exit = do _ ← sys_call 0 0 0 0 sys_exit; fail unreachable

  -- A `&str` or `&[u8]` is its address and its length.
  unfoldable pub readfile : (filename len buf size : ℕ) → User S C (Unit {0})
  readfile filename len buf size = do _ ← sys_call filename len buf size sys_readfile; pure tt

  unfoldable pub writefile : (filename len buf size : ℕ) → User S C (Unit {0})
  writefile filename len buf size = do _ ← sys_call filename len buf size sys_writefile; pure tt

  -- `DebugConsole::write_str`
  unfoldable pub write_str : List ℕ → User S C (Option (Unit {0}))
  write_str [] = pure (some tt)
  write_str (b ∷ bs) = do
    answer ← put_byte b
    elim answer [ success r ↦ write_str bs | failure e ↦ pure none ]

  -- `print!`, with its arguments written out
  unfoldable pub print : List ℕ → User S C (Unit {0})
  print s = do _ ← write_str s; pure tt
