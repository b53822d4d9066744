-- ===== src/User/Shell/Line.antt =====
-- The command line of the shell: what is typed, shown, stored and run.
use beyond_os1k.Base.{
  ℕ, zero, suc, ◌+◌, ◌-◌, ◌%◌, ◌≤◌, ◌<◌, ◌≡◌, ◌≢◌, refl, sym, ap, ◌∙◌, arith, true, false, List, [],
  ◌∷◌, ◌++◌, length, All, set, replicate, length-append, length-set, length-replicate, Bool-cases,
  inl, inr, ◌==◌, ltb, lt→ltb, le→ltb, ne→==, out_of_bounds,
}
use mathlib.Core.List.{append_assoc}
use beyond_os1k.Base.Utf8.{is_utf8, is_utf8-newlines}
use beyond_os1k.Base.Text.{text}
use beyond_os1k.Base.Trim.{trim, trim-newlines}
use beyond_os1k.Timer.{Sbi}
use beyond_os1k.Virtio.Device.{Device}
use beyond_os1k.Trap.{Kernel}
use beyond_os1k.User.{Run, put_byte as user_put, done, failed, ◌>>=◌}
use beyond_os1k.User.Shell.{
  Places, newline, carriage_return, blank_line, read_line, round, execute_command,
}
use beyond_os1k.Timer.Console.{IsByte, IsConsole}
use beyond_os1k.User.Shell.Console.{put_byte_lem, get_char_lem, print_lem}

-- A character of a line: a byte that does not end it.
abbrev pub IsChar : ℕ → Type 0
IsChar b = IsByte b × (b ≢ carriage_return)

-- The first free place of the buffer is filled.
set-next :
    (filled : List ℕ) (m b pos : ℕ)
    → pos ≡ length filled
    → set (filled ++ replicate (suc m) newline) pos b ≡ (filled ++ (b ∷ [])) ++ replicate m newline
set-next [] m b zero e = refl
set-next [] m b (suc pos) e = absurd (omega arith)
set-next (x ∷ xs) m b zero e = absurd (omega arith)
set-next (x ∷ xs) m b (suc pos) e = ap (λ t. x ∷ t) (set-next xs m b pos (omega arith))

module _ {S C : Type 0} (device : Device S) (fuel : ℕ) (sbi : Sbi C) (typed shown : C → List ℕ)
    (law : IsConsole sbi typed shown) where
  -- A character is shown, and stored where the buffer has room.
  read_char_lem :
      (b : ℕ) (bs cmdline : List ℕ) (rounds pos : ℕ) (k : Kernel S C)
      → IsChar b
      → typed k.console ≡ b ∷ bs
      → (c : C) × (read_line device fuel sbi (suc rounds) cmdline pos k
          ≡ (elim (ltb pos (length cmdline)) as (λ _. Run S C (List ℕ)) [
            | true ↦
                read_line device fuel sbi rounds
                  (set cmdline pos b)
                  (pos + 1)
                  (record k { console = c })
            | false ↦ failed out_of_bounds (record k { console = c })
          ]))
        × (typed c ≡ bs)
        × (shown c ≡ shown k.console ++ (b ∷ []))
  unfolding read_line
  read_char_lem b bs cmdline rounds pos k (byte, inner) waits =
      let (c, got, after, same) = get_char_lem device fuel sbi typed shown law b bs k byte waits in
      let (c', put, after', shown') =
        put_byte_lem device fuel sbi typed shown law b (record k { console = c }) byte in
      let low : b % 256 ≡ b = omega arith in
      let not_end : (b % 256 == carriage_return) ≡ false =
        ne→== (b % 256) carriage_return (λ e. inner (sym low ∙ e)) in
      let put_low = ap (λ b. user_put device fuel sbi b (record k { console = c })) low ∙ put in
      (
        c',
        rw (got, ◌>>=◌)
            (rw not_end (
              rw (put_low, ◌>>=◌)
                (elim (Bool-cases (ltb pos (length cmdline))) [
                  | inl fits ↦ rw fits (
                      ap
                        (λ b.
                          read_line device fuel sbi rounds (set cmdline pos b) (pos + 1)
                            (record k { console = c' }))
                        low)
                  | inr full ↦ rw full refl
                ]))),
        after' ∙ after,
        shown' ∙ ap (λ t. t ++ (b ∷ [])) same,
      )

  -- A line that fits, up to its end.
  read_line_lem :
      (line rest filled : List ℕ) (m n rounds pos : ℕ) (k : Kernel S C)
      → All IsChar line
      → typed k.console ≡ line ++ (carriage_return ∷ rest)
      → m ≡ length line + n
      → length line < rounds
      → pos ≡ length filled
      → (c : C) × (read_line device fuel sbi rounds (filled ++ replicate m newline) pos k
          ≡ done (filled ++ (line ++ replicate n newline)) (record k { console = c }))
        × (typed c ≡ rest)
        × (shown c ≡ shown k.console ++ (line ++ (newline ∷ [])))
  unfolding read_line
  read_line_lem line rest filled m n zero pos k chars waits fits more at = absurd (omega arith)
  read_line_lem [] rest filled m n (suc rounds) pos k chars waits fits more at =
      let (c, got, after, same) =
        get_char_lem device fuel sbi typed shown law carriage_return rest k (omega arith) waits in
      let (c', put, after', shown') =
        print_lem device fuel sbi typed shown law (newline ∷ []) (record k { console = c })
          (omega arith, tt) in
      let size : m ≡ n = omega arith in
      (
        c',
        rw (got, ◌>>=◌)
            (rw (put, ◌>>=◌)
              (ap (λ r. done (filled ++ replicate r newline) (record k { console = c' })) size)),
        after' ∙ after,
        shown' ∙ ap (λ t. t ++ (newline ∷ [])) same,
      )
  read_line_lem (b ∷ line) rest filled zero n (suc rounds) pos k chars waits fits more at =
      absurd (omega arith)
  read_line_lem (b ∷ line) rest filled (suc m) n (suc rounds) pos k (char, chars) waits fits more
        at =
      let cmdline = filled ++ replicate (suc m) newline in
      let (c, step, after, shown') =
        read_char_lem b (line ++ (carriage_return ∷ rest)) cmdline rounds pos k char waits in
      let (c', ran, after', shown'') =
        read_line_lem line rest (filled ++ (b ∷ [])) m n rounds (pos + 1) (record k { console = c })
          chars after (omega arith) (omega arith) (omega (arith, length-append filled (b ∷ []))) in
      let in_bounds = lt→ltb pos (length cmdline) (
        omega (
          arith,
          length-append filled (replicate (suc m) newline),
          length-replicate (suc m) newline,
        )) in
      (
        c',
        step
            ∙ rw (in_bounds, set-next filled m b pos at)
                (ran
                  ∙ ap (λ l. done l (record k { console = c' }))
                      (append_assoc filled (b ∷ []) (line ++ replicate n newline))),
        after',
        shown''
            ∙ ap (λ t. t ++ (line ++ (newline ∷ []))) shown'
            ∙ append_assoc (shown k.console) (b ∷ []) (line ++ (newline ∷ [])),
      )

  -- A line that does not fit, up to the character that has no room.
  read_line-overflow :
      (line more cmdline : List ℕ) (b rounds pos : ℕ) (k : Kernel S C)
      → All IsChar line
      → IsChar b
      → typed k.console ≡ line ++ (b ∷ more)
      → length cmdline ≡ pos + length line
      → length line < rounds
      → (c : C) × (read_line device fuel sbi rounds cmdline pos k
          ≡ failed out_of_bounds (record k { console = c }))
        × (typed c ≡ more)
        × (shown c ≡ shown k.console ++ (line ++ (b ∷ [])))
  read_line-overflow line more cmdline b zero pos k chars char waits full few = absurd (omega arith)
  read_line-overflow [] more cmdline b (suc rounds) pos k chars char waits full few =
      let (c, step, after, shown') = read_char_lem b more cmdline rounds pos k char waits in
      (c, step ∙ rw (le→ltb pos (length cmdline) (omega arith)) refl, after, shown')
  read_line-overflow (x ∷ line) more cmdline b (suc rounds) pos k (first, chars) char waits full
        few =
      let (c, step, after, shown') =
        read_char_lem x (line ++ (b ∷ more)) cmdline rounds pos k first waits in
      let (c', ran, after', shown'') =
        read_line-overflow line more (set cmdline pos x) b rounds (pos + 1)
          (record k { console = c }) chars char after (omega (arith, length-set cmdline pos x))
          (omega arith) in
      (
        c',
        step ∙ rw (lt→ltb pos (length cmdline) (omega arith)) ran,
        after',
        shown''
            ∙ ap (λ t. t ++ (line ++ (b ∷ []))) shown'
            ∙ append_assoc (shown k.console) (x ∷ []) (line ++ (b ∷ [])),
      )

  -- A typed line of at most 128 bytes of well-formed UTF-8, ended by a carriage return, is shown
  -- behind the prompt with a newline, and nothing behind it is read. The round of the shell then is
  -- the run of the command that the line without the white space at its ends names.
  pub round_lem :
      (places : Places) (line rest : List ℕ) (rounds : ℕ) (k : Kernel S C)
      → All IsChar line
      → is_utf8 line ≡ true
      → length line ≤ 128
      → length line < rounds
      → typed k.console ≡ line ++ (carriage_return ∷ rest)
      → (c : C) × (round device fuel sbi rounds places k
          ≡ execute_command device fuel sbi places (trim line) (record k { console = c }))
        × (typed c ≡ rest)
        × (shown c ≡ shown k.console ++ (text "> " ++ (line ++ (newline ∷ []))))
  unfolding round
  round_lem places line rest rounds k chars valid fits few waits =
      let (c, prompt, same, shown') =
        print_lem device fuel sbi typed shown law (text "> ") k (omega arith, (omega arith, tt)) in
      let (c', read, after, shown'') =
        read_line_lem line rest [] 128 (128 - length line) rounds 0 (record k { console = c }) chars
          (same ∙ waits) (omega arith) few refl in
      (
        c',
        rw (prompt, ◌>>=◌)
            (rw (read, ◌>>=◌)
              (rw
                (
                  is_utf8-newlines line (128 - length line) valid,
                  trim-newlines line (128 - length line),
                )
                refl)),
        after,
        shown''
            ∙ ap (λ t. t ++ (line ++ (newline ∷ []))) shown'
            ∙ append_assoc (shown k.console) (text "> ") (line ++ (newline ∷ [])),
      )

  -- After 128 bytes of a line any further byte that does not end it is shown, and then the shell
  -- panics, since its buffer has no place for it.
  pub round-overflow :
      (places : Places) (line more : List ℕ) (b rounds : ℕ) (k : Kernel S C)
      → All IsChar line
      → IsChar b
      → length line ≡ 128
      → 128 < rounds
      → typed k.console ≡ line ++ (b ∷ more)
      → (c : C) × (round device fuel sbi rounds places k
          ≡ failed out_of_bounds (record k { console = c }))
        × (typed c ≡ more)
        × (shown c ≡ shown k.console ++ (text "> " ++ (line ++ (b ∷ []))))
  unfolding round
  round-overflow places line more b rounds k chars char long few waits =
      let (c, prompt, same, shown') =
        print_lem device fuel sbi typed shown law (text "> ") k (omega arith, (omega arith, tt)) in
      let (c', read, after, shown'') =
        read_line-overflow line more blank_line b rounds 0 (record k { console = c }) chars char
          (same ∙ waits) (omega arith) (omega arith) in
      (
        c',
        rw (prompt, ◌>>=◌) (rw (read, ◌>>=◌) refl),
        after,
        shown''
            ∙ ap (λ t. t ++ (line ++ (b ∷ []))) shown'
            ∙ append_assoc (shown k.console) (text "> ") (line ++ (b ∷ [])),
      )
