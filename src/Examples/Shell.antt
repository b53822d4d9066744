-- ===== src/Examples/Shell.antt =====
-- user/src/bin/shell.rs at a concrete console.
use beyond_os1k.Base.{
  ℕ, ◌≡◌, refl, ap, arith, zero, suc, true, List, [], ◌∷◌, ◌++◌, replicate, out_of_bounds, All,
}
use beyond_os1k.Base.Utf8.{is_utf8}
use beyond_os1k.Base.Text.{text}
use beyond_os1k.Base.Trim.{trim, trim_start, trim_back}
use beyond_os1k.SpinLock.{new}
use beyond_os1k.Timer.{Sbi}
use beyond_os1k.Trap.{Kernel}
use beyond_os1k.User.{done, failed}
use beyond_os1k.User.Shell.{Places, newline, round, execute_command}
use beyond_os1k.Timer.Console.{IsConsole}
use beyond_os1k.Tar.Files.{◌=ᵇ◌}
use beyond_os1k.User.Shell.Answer.{answer_to, round-answer}
use beyond_os1k.User.Shell.Line.{IsChar, round_lem, round-overflow}
use beyond_os1k.Examples.Disk.{Disk, prompt_device, blk}
use beyond_os1k.Examples.Processes.{sched}
use beyond_os1k.Examples.Files.{table}
use beyond_os1k.Tar.Archive.{zeros}

-- The characters that wait, and those that are shown.
pub record Terminal : Type 0 where
  pub typed : List ℕ
  pub shown : List ℕ

abbrev take_char : List ℕ → Terminal → ℕ × Terminal
take_char [] t = (0xffffffff, t)
take_char (b ∷ bs) t = (b, record t { typed = bs })

abbrev pub sbi : Sbi Terminal
sbi = record {
  set_timer_call = λ lo hi t. (0, t);
  putchar_call = λ b t. (0, record t { shown = t.shown ++ (b ∷ []) });
  getchar_call = λ t. take_char t.typed t;
}

pub sbi-IsConsole : IsConsole sbi (λ t. t.typed) (λ t. t.shown)
sbi-IsConsole = record {
  get = λ t b bs waits byte. (record t { typed = bs }, ap (λ l. take_char l t) waits, refl, refl);
  put = λ t b byte. (record t { shown = t.shown ++ (b ∷ []) }, refl, refl, refl);
}

abbrev kernel : List ℕ → Kernel Disk Terminal
kernel typed = record {
  sched = sched;
  fs = record { files = new table; disk = new (zeros 2560); blk = blk };
  console = record { typed = typed; shown = [] };
  memory = λ a. 0;
}

abbrev places : Places
places = record {
  hello_txt = 0x1001000;
  meow_txt = 0x1001010;
  greeting = 0x1001020;
  buf = 0x1004000;
}

-- The line "hello " behind two spaces.
abbrev line : List ℕ
line = text "  hello "

line-chars : All IsChar line
line-chars = (
  (omega arith, omega arith),
  (
    (omega arith, omega arith),
    (
      (omega arith, omega arith),
      (
        (omega arith, omega arith),
        (
          (omega arith, omega arith),
          (
            (omega arith, omega arith),
            ((omega arith, omega arith), ((omega arith, omega arith), tt)),
          ),
        ),
      ),
    ),
  ),
)

line-valid : is_utf8 line ≡ true
unfolding is_utf8
line-valid = refl

trimmed : trim line ≡ text "hello"
unfolding trim_start trim_back
trimmed = refl

round_lem_example :
    (c : Terminal) × (round prompt_device 1 sbi 10 places (kernel (line ++ (0x0d ∷ text "exit")))
      ≡ execute_command prompt_device 1 sbi places
          (trim line)
          (record (kernel (line ++ (0x0d ∷ text "exit"))) { console = c }))
    × (c.typed ≡ text "exit")
    × (c.shown ≡ text "> " ++ (line ++ (newline ∷ [])))
round_lem_example =
    round_lem prompt_device 1 sbi (λ t. t.typed) (λ t. t.shown) sbi-IsConsole places line
      (text "exit") 10 (kernel (line ++ (0x0d ∷ text "exit"))) line-chars line-valid (omega arith)
      (omega arith) refl

replicate-chars : (n b : ℕ) → IsChar b → All IsChar (replicate n b)
replicate-chars zero b char = tt
replicate-chars (suc n) b char = (char, replicate-chars n b char)

round-overflow_example :
    (c : Terminal) × (round prompt_device 1 sbi 200 places
        (kernel (replicate 128 b'x' ++ (b'y' ∷ b'z' ∷ [])))
      ≡ failed out_of_bounds
          (record (kernel (replicate 128 b'x' ++ (b'y' ∷ b'z' ∷ []))) { console = c }))
    × (c.typed ≡ b'z' ∷ [])
    × (c.shown ≡ text "> " ++ (replicate 128 b'x' ++ (b'y' ∷ [])))
round-overflow_example =
    round-overflow prompt_device 1 sbi (λ t. t.typed) (λ t. t.shown) sbi-IsConsole places
      (replicate 128 b'x') (b'z' ∷ []) b'y' 200 (kernel (replicate 128 b'x' ++ (b'y' ∷ b'z' ∷ [])))
      (replicate-chars 128 b'x' (omega arith, omega arith)) (omega arith, omega arith) refl
      (omega arith) refl

-- It is greeted.
round-answer_example :
    (c : Terminal) × (round prompt_device 1 sbi 10 places (kernel (line ++ (0x0d ∷ text "exit")))
      ≡ done tt (record (kernel (line ++ (0x0d ∷ text "exit"))) { console = c }))
    × (c.typed ≡ text "exit")
    × (c.shown ≡ (text "> " ++ (line ++ (newline ∷ []))) ++ answer_to (trim line))
unfolding trim_start trim_back ◌=ᵇ◌
round-answer_example =
    round-answer prompt_device 1 sbi (λ t. t.typed) (λ t. t.shown) sbi-IsConsole places line
      (text "exit") 10 (kernel (line ++ (0x0d ∷ text "exit"))) line-chars line-valid (omega arith)
      (omega arith) refl
      (omega arith, (omega arith, (omega arith, (omega arith, (omega arith, tt))))) refl refl refl
