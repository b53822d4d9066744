-- ===== src/User/Shell/Answer.antt =====
-- What the shell answers to a line, but for the commands that reach files or end it.
use beyond_os1k.Base.{
  ℕ, ◌<◌, ◌≤◌, ◌≡◌, refl, ap, ◌∙◌, arith, true, false, List, [], ◌∷◌, ◌++◌, length, All,
  if◌then◌else◌, Bool-cases, inl, inr,
}
use mathlib.Core.List.{append_assoc}
use beyond_os1k.Base.Utf8.{is_utf8}
use beyond_os1k.Base.Text.{text}
use beyond_os1k.Base.Trim.{trim}
use beyond_os1k.Timer.{Sbi}
use beyond_os1k.Virtio.Device.{Device}
use beyond_os1k.Tar.Files.{◌=ᵇ◌}
use beyond_os1k.Trap.{Kernel}
use beyond_os1k.User.{done}
use beyond_os1k.User.Shell.{Places, newline, carriage_return, round, execute_command}
use beyond_os1k.Timer.Console.{all_bytes-IsByte, All-append, IsByte, IsConsole}
use beyond_os1k.User.Shell.Console.{print_lem}
use beyond_os1k.User.Shell.Line.{IsChar, round_lem}

-- What is shown for a command line.
abbrev pub answer_to : List ℕ → List ℕ
answer_to cmdline =
    if cmdline =ᵇ text "hello"
    then text "Hello world from the shell! 🐚\n"
    else text "unknown command: " ++ (cmdline ++ newline ∷ [])

module _ {S C : Type 0} (device : Device S) (fuel : ℕ) (sbi : Sbi C) (typed shown : C → List ℕ)
    (law : IsConsole sbi typed shown) where
  execute_command-answer :
      (places : Places) (cmdline : List ℕ) (k : Kernel S C)
      → All IsByte cmdline
      → (cmdline =ᵇ text "exit") ≡ false
      → (cmdline =ᵇ text "readfile") ≡ false
      → (cmdline =ᵇ text "writefile") ≡ false
      → (c : C) × (execute_command device fuel sbi places cmdline k
          ≡ done tt (record k { console = c }))
        × (typed c ≡ typed k.console)
        × (shown c ≡ shown k.console ++ answer_to cmdline)
  unfolding execute_command
  execute_command-answer places cmdline k bytes a b c =
      elim (Bool-cases (cmdline =ᵇ text "hello")) [
        | inl hello ↦ rw hello (
            print_lem device fuel sbi typed shown law (text "Hello world from the shell! 🐚\n") k
              (all_bytes-IsByte (text "Hello world from the shell! 🐚\n") refl))
        | inr other ↦
            rw (other, a, b, c)
              (print_lem device fuel sbi typed shown law
                (text "unknown command: " ++ (cmdline ++ newline ∷ [])) k
                (All-append (text "unknown command: ") (cmdline ++ newline ∷ [])
                  (all_bytes-IsByte (text "unknown command: ") refl)
                  (All-append cmdline (newline ∷ []) bytes (omega arith, tt))))
      ]

  -- To a line of at most 128 bytes of well-formed UTF-8 that, without the white space at its ends,
  -- is neither "exit" nor "readfile" nor "writefile", a round of the shell shows the prompt, the
  -- line, a newline, and then the greeting if the rest is "hello", or else that the command is
  -- unknown. The round ends, and what is typed behind the line waits for the next one.
  pub round-answer :
      (places : Places) (line rest : List ℕ) (rounds : ℕ) (k : Kernel S C)
      → All IsChar line
      → is_utf8 line ≡ true
      → length line ≤ 128
      → length line < rounds
      → typed k.console ≡ line ++ (carriage_return ∷ rest)
      → All IsByte (trim line)
      → (trim line =ᵇ text "exit") ≡ false
      → (trim line =ᵇ text "readfile") ≡ false
      → (trim line =ᵇ text "writefile") ≡ false
      → (c : C) × (round device fuel sbi rounds places k ≡ done tt (record k { console = c }))
        × (typed c ≡ rest)
        × (shown c
            ≡ shown k.console ++ ((text "> " ++ (line ++ (newline ∷ []))) ++ answer_to (trim line)))
  round-answer places line rest rounds k chars valid fits few waits bytes a b d =
      let (c, ran, after, shown') =
        round_lem device fuel sbi typed shown law places line rest rounds k chars valid fits few
          waits in
      let (c', answered, same, shown'') =
        execute_command-answer places (trim line) (record k { console = c }) bytes a b d in
      (
        c',
        ran ∙ answered,
        same ∙ after,
        shown''
            ∙ ap (λ t. t ++ answer_to (trim line)) shown'
            ∙ append_assoc (shown k.console) (text "> " ++ (line ++ (newline ∷ [])))
                (answer_to (trim line)),
      )
