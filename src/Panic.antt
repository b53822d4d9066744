-- ===== src/Panic.antt =====
-- The panic handler of kernel/src/panic.rs. It ends in a loop that waits for interrupts, which it
-- has turned off: the state that it leaves is the last one.
pub mod Announce
use beyond_os1k.Base.{ℕ, ◌+◌, ◌%◌, Option, none, some, List, [], ◌∷◌, ◌++◌, ◌==◌, if◌then◌else◌}
use beyond_os1k.Base.Utf8.{char_bytes}
use beyond_os1k.Base.Text.{text}
use beyond_os1k.Page.{store}
use beyond_os1k.Riscv.Csr.{sstatus}
use beyond_os1k.Timer.{Sbi, put_byte}
use beyond_os1k.Timer.Console.{write_str, put_all}

-- U+26A0 U+FE0F
abbrev pub warning_sign : List ℕ
warning_sign = char_bytes 0x26a0 ++ char_bytes 0xfe0f

-- `counter` is PANIC_COUNTER, a byte.
pub record Panicking (C : Type 0) : Type 0 where
  pub counter : ℕ
  pub csr : ℕ → ℕ
  pub console : C

-- What a `PanicInfo` shows, and its message if that is a plain string.
pub record PanicInfo : Type 0 where
  pub shows : List ℕ
  pub message : Option (List ℕ)

module _ {C : Type 0} (sbi : Sbi C) where
  unfoldable pub first_panic : PanicInfo → C → C
  first_panic info c =
      (write_str sbi (warning_sign ++ (text " Panic: " ++ (info.shows ++ text "\n"))) c).1

  unfoldable pub double_panic : PanicInfo → C → C
  double_panic info c =
      let c' = put_all sbi (warning_sign ++ (warning_sign ++ text " Double panic: ")) c in
      elim info.message [ none ↦ (put_byte sbi b'!' c').1 | some s ↦ put_all sbi s c' ]

  -- Four calls of the firmware, with no look at their results.
  unfoldable pub triple_panic : C → C
  triple_panic c =
      let c1 = (sbi.putchar_call 240 c).1 in
      let c2 = (sbi.putchar_call 159 c1).1 in
      let c3 = (sbi.putchar_call 171 c2).1 in (sbi.putchar_call 160 c3).1

  -- `panic`
  unfoldable pub panic_handler : PanicInfo → Panicking C → Panicking C
  panic_handler info s = record {
    counter = (s.counter + 1) % 256;
    csr = store s.csr sstatus 0;
    console =
        if s.counter == 0
        then first_panic info s.console
        else if s.counter == 1
        then double_panic info s.console
        else triple_panic s.console;
  }
