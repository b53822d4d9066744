-- ===== src/Tar/OctalLaws.antt =====
-- The octal fields of kernel/src/tar.rs: what is written is read back, and what is read is the
-- value of the digits.
use mathlib.Core.List.{reverse-append, append_assoc}
use native.Mathlib.Nat.{pow-suc}
use beyond_os1k.Base.{
  ℕ, suc, ◌+◌, ◌-◌, ◌*◌, ◌/◌, ◌%◌, ◌^◌, ◌≤◌, ◌<◌, ◌≡◌, refl, ap, ◌∙◌, sym, arith, some, List, [],
  ◌∷◌, ◌++◌, map, reverse, length, leb, le→leb, Bool-cases, inl, inr, true, ◌&&◌, All, ◌↔◌,
  length-reverse, length-map, none-ne-some, some-injective,
}
use beyond_os1k.Tar.Octal.{until_nul, fold_octal, oct2int, write_digits, from_back, int2oct}

reverse-cons : (x : ℕ) (xs ys : List ℕ) → reverse (x ∷ xs) ++ ys ≡ reverse xs ++ (x ∷ ys)
reverse-cons x xs ys =
    ap (λ l. l ++ ys) (reverse-append (x ∷ []) xs) ∙ append_assoc (reverse xs) (x ∷ []) ys

-- the last digit read
fold_octal-last :
    (n : ℕ) (ys : List ℕ) → n < 2 ^ 32 → fold_octal (n / 8) ((n % 8 + b'0') ∷ ys) ≡ fold_octal n ys
unfolding fold_octal
fold_octal-last n ys small =
    let e : (n / 8 * 8 + (n % 8 + b'0' - b'0')) % 2 ^ 32 ≡ n = omega arith in
    rw (le→leb b'0' (n % 8 + b'0') (omega arith), le→leb (n % 8 + b'0') b'7' (omega arith), e)

-- The digits of `n`, most significant first, are read as `n`.
fold_octal-digits :
    (n : ℕ) (room ys : List ℕ)
    → n < 8 ^ length room
    → n < 2 ^ 32
    → fold_octal 0 (reverse (write_digits n room) ++ ys) ≡ fold_octal n ys
unfolding write_digits
fold_octal-digits n [] ys fits small = ap (λ t. fold_octal t ys) (omega arith)
fold_octal-digits n (b ∷ bs) ys fits small =
    rw (reverse-cons (n % 8 + b'0') (write_digits (n / 8) bs) ys) (
      fold_octal-digits (n / 8) bs ((n % 8 + b'0') ∷ ys) (omega (arith, pow-suc 8 (length bs)))
        (omega arith)
      ∙ fold_octal-last n ys small)

-- None of them is a nul.
until_nul-digits :
    (n : ℕ) (room ys : List ℕ)
    → until_nul (reverse (write_digits n room) ++ ys)
      ≡ reverse (write_digits n room) ++ until_nul ys
unfolding write_digits
until_nul-digits n [] ys = refl
until_nul-digits n (b ∷ bs) ys =
    let x = n % 8 + b'0' in
    let ds = write_digits (n / 8) bs in
    rw (reverse-cons x ds ys, reverse-cons x ds (until_nul ys))
      (until_nul-digits (n / 8) bs (x ∷ ys) ∙ ap (λ t. reverse ds ++ t) (digit-stays n ys))
  where
    digit-stays :
        (n : ℕ) (ys : List ℕ) → until_nul ((n % 8 + b'0') ∷ ys) ≡ (n % 8 + b'0') ∷ until_nul ys
    digit-stays n ys = unfold until_nul in ground arith

oct2int-from_back :
    (n : ℕ) (room : List ℕ)
    → 0 < length room
    → n < 8 ^ (length room - 1)
    → n < 2 ^ 32
    → oct2int (reverse (from_back n room)) ≡ some n
unfolding oct2int from_back
oct2int-from_back n [] pos fits small = absurd (omega arith)
oct2int-from_back n (last ∷ rest) pos fits small =
    let ds = write_digits n rest in
    let e : suc (length rest) - 1 ≡ length rest = omega arith in
    let digits : reverse (0 ∷ ds) ≡ reverse ds ++ (0 ∷ []) = reverse-append (0 ∷ []) ds in
    rw (digits, until_nul-digits n rest (0 ∷ [])) (fold_octal-digits n rest [] (rw e at fits) small)

-- A number below 2 ^ 32 that has room for its octal digits before the terminator is read back
-- from the field that `int2oct` fills, whatever the field held.
pub oct2int-int2oct :
    (n : ℕ) (oct : List ℕ)
    → 0 < length oct
    → n < 8 ^ (length oct - 1)
    → n < 2 ^ 32
    → oct2int (int2oct n oct) ≡ some n
unfolding int2oct
oct2int-int2oct n oct pos fits small =
    let spaces = map (λ _. b' ') oct in
    let e : length (reverse spaces) ≡ length oct = length-reverse spaces ∙ length-map _ oct in
    oct2int-from_back n (reverse spaces) (omega arith) (rw e fits) small

length-write_digits : (n : ℕ) (room : List ℕ) → length (write_digits n room) ≡ length room
unfolding write_digits
length-write_digits n [] = refl
length-write_digits n (b ∷ bs) = ap suc (length-write_digits (n / 8) bs)

length-from_back : (n : ℕ) (room : List ℕ) → length (from_back n room) ≡ length room
unfolding from_back
length-from_back n [] = refl
length-from_back n (b ∷ bs) = ap suc (length-write_digits n bs)

pub length-int2oct : (n : ℕ) (oct : List ℕ) → length (int2oct n oct) ≡ length oct
unfolding int2oct
length-int2oct n oct =
    let spaces = map (λ _. b' ') oct in
    length-reverse (from_back n (reverse spaces))
    ∙ length-from_back n (reverse spaces)
    ∙ length-reverse spaces
    ∙ length-map _ oct

abbrev pub IsOctal : ℕ → Type 0
IsOctal b = (b'0' ≤ b) × (b ≤ b'7')

-- The number that octal digits spell behind `n`.
abbrev pub value : ℕ → List ℕ → ℕ
value n [] = n
value n (b ∷ bs) = value (n * 8 + (b - b'0')) bs

value-mod : (n : ℕ) (bs : List ℕ) → value (n % 2 ^ 32) bs % 2 ^ 32 ≡ value n bs % 2 ^ 32
value-mod n [] = omega arith
value-mod n (b ∷ bs) =
    let d = b - b'0' in
    sym (value-mod (n % 2 ^ 32 * 8 + d) bs)
    ∙ ap (λ (t : ℕ). value t bs % 2 ^ 32) (omega arith)
    ∙ value-mod (n * 8 + d) bs

fold_octal-value :
    (n : ℕ) (bs : List ℕ)
    → n < 2 ^ 32
    → All IsOctal bs
    → fold_octal n bs ≡ some (value n bs % 2 ^ 32)
unfolding fold_octal
fold_octal-value n [] small _ = ap some (omega arith)
fold_octal-value n (b ∷ bs) small (h, hs) =
    let m = n * 8 + (b - b'0') in
    rw (le→leb b'0' b h.0, le→leb b b'7' h.1)
      (fold_octal-value (m % 2 ^ 32) bs (omega arith) hs ∙ ap some (value-mod m bs))

IsOctal-byte : (b : ℕ) → (leb b'0' b && leb b b'7') ≡ true → IsOctal b
IsOctal-byte b h = ground arith

fold_octal-inv : (n : ℕ) (bs : List ℕ) {r : ℕ} → fold_octal n bs ≡ some r → All IsOctal bs
unfolding fold_octal
fold_octal-inv n [] h = tt
fold_octal-inv n (b ∷ bs) h = elim (Bool-cases (leb b'0' b && leb b b'7')) [
  | inl e ↦ (IsOctal-byte b e, fold_octal-inv ((n * 8 + (b - b'0')) % 2 ^ 32) bs (rw e at h))
  | inr e ↦ absurd (none-ne-some (rw e at h))
]

-- `oct2int` succeeds exactly when every byte before the first nul is an octal digit, and then
-- gives the number that they spell, modulo 2 ^ 32.
pub oct2int-value :
    (oct : List ℕ) (r : ℕ)
    → (oct2int oct ≡ some r)
      ↔ (All IsOctal (until_nul oct) × (r ≡ value 0 (until_nul oct) % 2 ^ 32))
unfolding oct2int
oct2int-value oct r = (
  λ h.
      let digits = fold_octal-inv 0 (until_nul oct) h in
      (digits, some-injective (sym h ∙ fold_octal-value 0 (until_nul oct) (omega arith) digits)),
  λ h. fold_octal-value 0 (until_nul oct) (omega arith) h.0 ∙ ap some (sym h.1),
)
