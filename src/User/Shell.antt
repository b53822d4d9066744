-- ===== src/User/Shell.antt =====
-- The shell of user/src/bin/shell.rs. A command line is a value; what goes to the kernel by address
-- stands where `Places` says.
pub mod Console
pub mod Line
pub mod Answer
use beyond_os1k.Base.{
  ℕ, zero, suc, ◌+◌, ◌%◌, ◌==◌, ltb, Bool, true, false, Option, none, some, List, [], ◌∷◌, ◌++◌,
  length, set, replicate, expect, out_of_bounds, spinning, if◌then◌else◌,
}
use beyond_os1k.Base.Utf8.{is_utf8}
use beyond_os1k.Base.Text.{text}
use beyond_os1k.Base.Trim.{trim, trim_end}
use beyond_os1k.Timer.{Sbi}
use beyond_os1k.Virtio.Device.{Device}
use beyond_os1k.Tar.Files.{c_str, ◌=ᵇ◌}
use beyond_os1k.Trap.{Kernel, bytes, put_bytes}
use beyond_os1k.User.{
  User, done, ◌>>=◌, ◌>>◌, pure, fail, put_byte, get_char, exit, readfile, writefile, print,
}

-- The addresses of "hello.txt", "meow.txt", b"Hello from the shell!" and the buffer of `readfile`.
pub record Places : Type 0 where
  pub hello_txt : ℕ
  pub meow_txt : ℕ
  pub greeting : ℕ
  pub buf : ℕ

abbrev pub newline : ℕ
newline = 0x0a

abbrev pub carriage_return : ℕ
carriage_return = 0x0d

-- `[b'\n'; 128]`
abbrev pub blank_line : List ℕ
blank_line = replicate 128 newline

module _ {S C : Type 0} where
  -- The bytes at an address of the process's memory, read and written.
  abbrev pub peek : (p n : ℕ) → User S C (List ℕ)
  peek p n k = done (bytes k.memory p n) k

  abbrev pub poke : ℕ → List ℕ → User S C (Unit {0})
  poke p bs k = done tt (record k { memory = put_bytes k.memory p bs })

  module _ (device : Device S) (fuel : ℕ) (sbi : Sbi C) where
    -- the arm "readfile"
    unfoldable pub show_file : Places → User S C (Unit {0})
    show_file places = do
      poke places.buf (replicate 128 0)
      readfile device fuel sbi places.hello_txt 9 places.buf 128
      buf ← peek places.buf 128
      elim (c_str buf) [
        | none ↦ print device fuel sbi (text "could not read file contents\n")
        | some s ↦
            if is_utf8 s
            then print device fuel sbi (trim_end s ++ newline ∷ [])
            else print device fuel sbi (text "could not read file contents\n")
      ]

    unfoldable pub execute_command : Places → List ℕ → User S C (Unit {0})
    execute_command places cmdline_str =
        if cmdline_str =ᵇ text "hello"
        then print device fuel sbi (text "Hello world from the shell! 🐚\n")
        else if cmdline_str =ᵇ text "exit"
        then exit device fuel sbi
        else if cmdline_str =ᵇ text "readfile"
        then show_file places
        else if cmdline_str =ᵇ text "writefile"
        then writefile device fuel sbi places.meow_txt 8 places.greeting 21
        else print device fuel sbi (text "unknown command: " ++ (cmdline_str ++ newline ∷ []))

    -- The inner loop of `main`; each unit of fuel is one character. The character is shown before it
    -- is stored.
    unfoldable pub read_line : (rounds : ℕ) (cmdline : List ℕ) (pos : ℕ) → User S C (List ℕ)
    read_line zero cmdline pos = fail spinning
    read_line (suc rounds) cmdline pos = do
      got ← get_char device fuel sbi
      elim got [
        | none ↦ pure cmdline
        | some ch ↦ elim (ch % 256 == carriage_return) [
          | true ↦ do print device fuel sbi (newline ∷ []); pure cmdline
          | false ↦ do
            _ ← put_byte device fuel sbi (ch % 256)
            elim (ltb pos (length cmdline)) [
              | true ↦ read_line rounds (set cmdline pos (ch % 256)) (pos + 1)
              | false ↦ fail out_of_bounds
            ]
        ]
      ]

    -- A round of the outer loop of `main`.
    unfoldable pub round : (rounds : ℕ) → Places → User S C (Unit {0})
    round rounds places = do
      print device fuel sbi (text "> ")
      cmdline ← read_line rounds blank_line 0
      elim (is_utf8 cmdline) [ true ↦ execute_command places (trim cmdline) | false ↦ fail expect ]
