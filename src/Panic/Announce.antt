-- ===== src/Panic/Announce.antt =====
-- What the panic handler of kernel/src/panic.rs shows.
use beyond_os1k.Base.{
  ℕ, ◌+◌, ◌%◌, ◌≡◌, refl, ap, ◌∙◌, arith, Option, none, some, List, [], ◌∷◌, ◌++◌, All, ◌==◌,
  if◌then◌else◌, Option-cases, Bool-cases, inl, inr,
}
use mathlib.Core.List.{append_assoc}
use mathlib.Core.Path.{subst}
use beyond_os1k.Base.Text.{text}
use beyond_os1k.Riscv.Csr.{sstatus}
use beyond_os1k.Timer.{Sbi}
use beyond_os1k.Timer.Console.{
  IsByte, IsConsole, putchar_call_lem, put_byte_lem, put_all, write_str_lem, put_all_lem,
  all_bytes-IsByte, All-append,
}
use beyond_os1k.Panic.{
  warning_sign, Panicking, PanicInfo, first_panic, double_panic, triple_panic, panic_handler,
}

abbrev pub plain : Option (List ℕ) → List ℕ
plain none = b'!' ∷ []
plain (some s) = s

-- By the number of panics before.
abbrev pub announcement : ℕ → PanicInfo → List ℕ
announcement before info =
    if before == 0
    then warning_sign ++ (text " Panic: " ++ (info.shows ++ text "\n"))
    else if before == 1
    then (warning_sign ++ (warning_sign ++ text " Double panic: ")) ++ plain info.message
    else text "🫠"

module _ {C : Type 0} (sbi : Sbi C) (typed shown : C → List ℕ)
    (law : IsConsole sbi typed shown) where
  triple_panic_lem : (c : C) → shown (triple_panic sbi c) ≡ shown c ++ text "🫠"
  unfolding triple_panic
  triple_panic_lem c =
      let put = putchar_call_lem sbi typed shown law in
      let c1 = (sbi.putchar_call 240 c).1 in
      let c2 = (sbi.putchar_call 159 c1).1 in
      let c3 = (sbi.putchar_call 171 c2).1 in
      put 160 c3 (omega arith)
      ∙ ap (λ t. t ++ (160 ∷ []))
          (put 171 c2 (omega arith)
            ∙ ap (λ t. t ++ (171 ∷ []))
                (put 159 c1 (omega arith) ∙ ap (λ t. t ++ (159 ∷ [])) (put 240 c (omega arith))))
      ∙ append_assoc (((shown c ++ (240 ∷ [])) ++ (159 ∷ []))) (171 ∷ []) (160 ∷ [])
      ∙ append_assoc (shown c ++ (240 ∷ [])) (159 ∷ []) (171 ∷ 160 ∷ [])
      ∙ append_assoc (shown c) (240 ∷ []) (159 ∷ 171 ∷ 160 ∷ [])

  double_panic_lem :
      (info : PanicInfo) (c : C)
      → All IsByte (plain info.message)
      → shown (double_panic sbi info c)
        ≡ shown c
          ++ ((warning_sign ++ (warning_sign ++ text " Double panic: ")) ++ plain info.message)
  unfolding double_panic
  double_panic_lem info c bytes =
      let prefix = warning_sign ++ (warning_sign ++ text " Double panic: ") in
      let c' = put_all sbi prefix c in
      let begun = put_all_lem sbi typed shown law prefix c (all_bytes-IsByte prefix refl) in
      let joined : (ws : List ℕ) → shown c' ++ ws ≡ shown c ++ (prefix ++ ws) =
        λ ws. ap (λ t. t ++ ws) begun ∙ append_assoc (shown c) prefix ws in
      elim (Option-cases info.message) [
        | inl e ↦
            rw e ((put_byte_lem sbi typed shown law b'!' c' (omega arith)).1 ∙ joined (b'!' ∷ []))
        | inr (s, e) ↦ rw e (
            put_all_lem sbi typed shown law s c' (subst (λ m. All IsByte (plain m)) e bytes)
            ∙ joined s)
      ]

  -- On a console that shows what it is given, and for a panic whose text and message are bytes, the
  -- panic handler turns the interrupts off, counts the panic modulo 256, and shows exactly one text
  -- behind what was shown before: for the first panic the whole information, for the second the
  -- message if it is a plain string and an exclamation mark otherwise, for any later one four
  -- bytes.
  pub panic_handler_lem :
      (info : PanicInfo) (s : Panicking C)
      → All IsByte info.shows
      → All IsByte (plain info.message)
      → (shown (panic_handler sbi info s).console ≡ shown s.console ++ announcement s.counter info)
        × ((panic_handler sbi info s).csr sstatus ≡ 0)
        × ((panic_handler sbi info s).counter ≡ (s.counter + 1) % 256)
  unfolding panic_handler first_panic
  panic_handler_lem info s shows message = (
    elim (Bool-cases (s.counter == 0)) [
      | inl first ↦ rw first (
          write_str_lem sbi typed shown law
            (warning_sign ++ (text " Panic: " ++ (info.shows ++ text "\n"))) s.console
            (All-append (warning_sign ++ text " Panic: ") (info.shows ++ text "\n")
              (all_bytes-IsByte (warning_sign ++ text " Panic: ") refl)
              (All-append info.shows (text "\n") shows (omega arith, tt))))
      | inr again ↦ elim (Bool-cases (s.counter == 1)) [
        | inl second ↦ rw (again, second) (double_panic_lem info s.console message)
        | inr more ↦ rw (again, more) (triple_panic_lem s.console)
      ]
    ],
    refl,
    refl,
  )
