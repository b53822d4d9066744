-- ===== src/Examples/Panicking.antt =====
-- The panic handler of kernel/src/panic.rs at a concrete console.
use beyond_os1k.Base.{ℕ, ◌≡◌, refl, some, ◌++◌}
use beyond_os1k.Base.Text.{text}
use beyond_os1k.Riscv.Csr.{sstatus}
use beyond_os1k.Timer.Console.{all_bytes-IsByte}
use beyond_os1k.Panic.{warning_sign, Panicking, PanicInfo, panic_handler}
use beyond_os1k.Panic.Announce.{announcement, panic_handler_lem}
use beyond_os1k.Examples.Shell.{Terminal, sbi, sbi-IsConsole}

abbrev info : PanicInfo
info = record { shows = text "panicked at x.rs:1:1: lost"; message = some (text "lost") }

abbrev panicked : ℕ → Panicking Terminal
panicked n = record {
  counter = n;
  csr = λ c. 2;
  console = record { typed = text ""; shown = text "$ " };
}

second_shown : announcement 1 info ≡ warning_sign ++ (warning_sign ++ text " Double panic: lost")
second_shown = refl

panic_handler_lem_example :
    ((panic_handler sbi info (panicked 1)).console.shown
      ≡ text "$ " ++ (warning_sign ++ (warning_sign ++ text " Double panic: lost")))
    × ((panic_handler sbi info (panicked 1)).csr sstatus ≡ 0)
    × ((panic_handler sbi info (panicked 1)).counter ≡ 2)
panic_handler_lem_example =
    panic_handler_lem sbi (λ t. t.typed) (λ t. t.shown) sbi-IsConsole info (panicked 1)
      (all_bytes-IsByte info.shows refl) (all_bytes-IsByte (text "lost") refl)
