-- ===== src/Timer/Console.antt =====
-- The console behind kernel/src/sbi.rs, and the kernel's printing: common/src/print.rs on top of
-- `put_byte`.
use beyond_os1k.Base.{
  ℕ, ◌<◌, ◌≡◌, refl, sym, ap, ◌∙◌, Bool, true, false, List, [], ◌∷◌, ◌++◌, All, ltb, ltb→lt, ◌&&◌,
}
use mathlib.Core.List.{append_assoc, append-nil}
use beyond_os1k.Timer.{Sbi, success, failure, put_byte}

abbrev pub IsByte : ℕ → Type 0
IsByte b = b < 256

abbrev pub all_bytes : List ℕ → Bool
all_bytes [] = true
all_bytes (b ∷ bs) = ltb b 256 && all_bytes bs

both : (x y : Bool) → x && y ≡ true → (x ≡ true) × (y ≡ true)
both true y h = (refl, h)
both false y h = absurd (false-ne-true h)
  where
    false-ne-true : false ≡ true → ⊥
    false-ne-true e = cc

pub all_bytes-IsByte : (bs : List ℕ) → all_bytes bs ≡ true → All IsByte bs
all_bytes-IsByte [] h = tt
all_bytes-IsByte (b ∷ bs) h =
    let (small, rest) = both (ltb b 256) (all_bytes bs) h in
    (ltb→lt b 256 small, all_bytes-IsByte bs rest)

pub All-append : (xs ys : List ℕ) → All IsByte xs → All IsByte ys → All IsByte (xs ++ ys)
All-append [] ys hx hy = hy
All-append (x ∷ xs) ys (h, hx) hy = (h, All-append xs ys hx hy)

-- The firmware has the characters `typed` waiting, and has shown the characters `shown`.
pub record IsConsole {C : Type 0} (sbi : Sbi C) (typed shown : C → List ℕ) : Type 0 where
  pub get :
      (c : C) (b : ℕ) (bs : List ℕ)
      → typed c ≡ b ∷ bs
      → IsByte b
      → (c' : C) × (sbi.getchar_call c ≡ (b, c')) × (typed c' ≡ bs) × (shown c' ≡ shown c)
  pub put :
      (c : C) (b : ℕ)
      → IsByte b
      → (c' : C) × (sbi.putchar_call b c ≡ (0, c'))
        × (typed c' ≡ typed c)
        × (shown c' ≡ shown c ++ (b ∷ []))

module _ {C : Type 0} (sbi : Sbi C) where
  -- `DebugConsole::write_str` in the kernel: whether all went well, and the console.
  unfoldable pub write_str : List ℕ → C → Bool × C
  write_str [] c = (true, c)
  write_str (b ∷ bs) c =
      let (answer, c') = put_byte sbi b c in
      elim answer [ success r ↦ write_str bs c' | failure e ↦ (false, c') ]

  -- A loop of `put_byte` that ignores failures.
  unfoldable pub put_all : List ℕ → C → C
  put_all [] c = c
  put_all (b ∷ bs) c = put_all bs (put_byte sbi b c).1

  module _ (typed shown : C → List ℕ) (law : IsConsole sbi typed shown) where
    pub putchar_call_lem :
        (b : ℕ) (c : C) → IsByte b → shown (sbi.putchar_call b c).1 ≡ shown c ++ (b ∷ [])
    putchar_call_lem b c byte = let (c', e, same, more) = law.put c b byte in rw e more

    pub put_byte_lem :
        (b : ℕ) (c : C)
        → IsByte b
        → ((put_byte sbi b c).0 ≡ success 0) × (shown (put_byte sbi b c).1 ≡ shown c ++ (b ∷ []))
    unfolding put_byte
    put_byte_lem b c byte = let (c', e, same, more) = law.put c b byte in (rw e refl, rw e more)

    pub write_str_lem : (s : List ℕ) (c : C) → All IsByte s → shown (write_str s c).1 ≡ shown c ++ s
    unfolding write_str
    write_str_lem [] c bytes = sym (append-nil (shown c))
    write_str_lem (b ∷ bs) c (byte, bytes) =
        let (done, more) = put_byte_lem b c byte in
        rw (done, write_str)
          (write_str_lem bs (put_byte sbi b c).1 bytes
            ∙ ap (λ t. t ++ bs) more
            ∙ append_assoc (shown c) (b ∷ []) bs)

    pub put_all_lem : (s : List ℕ) (c : C) → All IsByte s → shown (put_all s c) ≡ shown c ++ s
    unfolding put_all
    put_all_lem [] c bytes = sym (append-nil (shown c))
    put_all_lem (b ∷ bs) c (byte, bytes) =
        put_all_lem bs (put_byte sbi b c).1 bytes
        ∙ ap (λ t. t ++ bs) (put_byte_lem b c byte).1
        ∙ append_assoc (shown c) (b ∷ []) bs
