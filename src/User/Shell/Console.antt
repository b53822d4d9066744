-- ===== src/User/Shell/Console.antt =====
-- Characters between a process and the firmware's console, through the system calls.
use beyond_os1k.Base.{
  ℕ, ◌%◌, ◌≡◌, ◌≢◌, refl, sym, ap, ◌∙◌, arith, some, List, [], ◌∷◌, ◌++◌, All, ne→==,
}
use mathlib.Core.List.{append_assoc, append-nil}
use beyond_os1k.Timer.{Sbi, success, put_byte, get_char}
use beyond_os1k.Timer.Console.{IsByte, IsConsole}
use beyond_os1k.Virtio.Device.{Device}
use beyond_os1k.Trap.{Kernel, handle_syscall, putbyte_call, getchar_round}
use beyond_os1k.User.{
  done, sys_call, put_byte as user_put, get_char as user_get, write_str, print, ◌>>=◌,
}

get_char_answer :
    {C : Type 0} (sbi : Sbi C) (c : C) {c' : C} {b : ℕ}
    → sbi.getchar_call c ≡ (b, c')
    → b ≢ 0xffffffff
    → get_char sbi c ≡ (success b, c')
unfolding get_char
get_char_answer sbi c {b = b} e ne = rw (e, ne→== b 0xffffffff ne) refl

module _ {S C : Type 0} (device : Device S) (fuel : ℕ) (sbi : Sbi C) (typed shown : C → List ℕ)
    (law : IsConsole sbi typed shown) where
  pub put_byte_lem :
      (b : ℕ) (k : Kernel S C)
      → IsByte b
      → (c : C) × (user_put device fuel sbi b k ≡ done (success 0) (record k { console = c }))
        × (typed c ≡ typed k.console)
        × (shown c ≡ shown k.console ++ (b ∷ []))
  unfolding user_put sys_call handle_syscall putbyte_call put_byte
  put_byte_lem b k byte =
      let (c, e, same, more) = law.put k.console b byte in
      let low : b % 256 ≡ b = omega arith in (c, rw (low, e) refl, same, more)

  pub get_char_lem :
      (b : ℕ) (bs : List ℕ) (k : Kernel S C)
      → IsByte b
      → typed k.console ≡ b ∷ bs
      → (c : C) × (user_get device fuel sbi k ≡ done (some b) (record k { console = c }))
        × (typed c ≡ bs)
        × (shown c ≡ shown k.console)
  unfolding user_get sys_call handle_syscall getchar_round
  get_char_lem b bs k byte waits =
      let (c, e, rest, same) = law.get k.console b bs waits byte in
      let answered = get_char_answer sbi k.console e (omega arith) in
      (
        c,
        rw (answered, ◌>>=◌, sys_call, getchar_round)
            (rw (ne→== b 0xffffffff (omega arith), answered) refl),
        rest,
        same,
      )

  write_str_lem :
      (s : List ℕ) (k : Kernel S C)
      → All IsByte s
      → (c : C) × (write_str device fuel sbi s k ≡ done (some tt) (record k { console = c }))
        × (typed c ≡ typed k.console)
        × (shown c ≡ shown k.console ++ s)
  unfolding write_str
  write_str_lem [] k bytes = (k.console, refl, refl, sym (append-nil (shown k.console)))
  write_str_lem (b ∷ bs) k (byte, bytes) =
      let (c, put, same, more) = put_byte_lem b k byte in
      let (c', rest, same', more') = write_str_lem bs (record k { console = c }) bytes in
      (
        c',
        rw (put, ◌>>=◌) rest,
        same' ∙ same,
        more' ∙ ap (λ t. t ++ bs) more ∙ append_assoc (shown k.console) (b ∷ []) bs,
      )

  -- Bytes that are printed are shown, in their order, and nothing else changes.
  pub print_lem :
      (s : List ℕ) (k : Kernel S C)
      → All IsByte s
      → (c : C) × (print device fuel sbi s k ≡ done tt (record k { console = c }))
        × (typed c ≡ typed k.console)
        × (shown c ≡ shown k.console ++ s)
  unfolding print
  print_lem s k bytes =
      let (c, e, same, more) = write_str_lem s k bytes in (c, rw (e, ◌>>=◌) refl, same, more)
