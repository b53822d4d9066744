-- ===== src/Base/Trim.antt =====
-- `str::trim`, on the bytes of well-formed UTF-8: the characters of White_Space at both ends go.
use Prim.Native.Nat.{ℕ, zero, suc, ◌+◌}
use mathlib.Core.Bool.{Bool, true, false, ◌&&◌, ◌||◌}
use mathlib.Core.List.{List, [], ◌∷◌, ◌++◌, reverse, reverse_aux, reverse-append}
use mathlib.Core.Path.{◌≡◌, refl, ap, ◌∙◌}
use native.Mathlib.Omega.{arith}
use beyond_os1k.Base.Lists.{replicate}
use beyond_os1k.Base.Tests.{leb, ◌==◌, if◌then◌else◌}

-- The characters of White_Space, by their number of bytes.
abbrev space1 : ℕ → Bool
space1 a = leb 9 a && leb a 13 || a == 0x20

abbrev space2 : ℕ → ℕ → Bool
space2 a b = a == 0xc2 && (b == 0x85 || b == 0xa0)

abbrev space3 : ℕ → ℕ → ℕ → Bool
space3 a b c =
    a == 0xe1 && b == 0x9a && c == 0x80
    || a == 0xe2 && b == 0x80 && (leb 0x80 c && leb c 0x8a || c == 0xa8 || c == 0xa9 || c == 0xaf)
    || a == 0xe2 && b == 0x81 && c == 0x9f
    || a == 0xe3 && b == 0x80 && c == 0x80

-- `str::trim_start`
unfoldable pub trim_start : List ℕ → List ℕ
trim_start [] = []
trim_start (a ∷ []) = if space1 a then [] else a ∷ []
trim_start (a ∷ b ∷ []) = elim (space1 a) [
  | true ↦ trim_start (b ∷ [])
  | false ↦ if space2 a b then [] else a ∷ b ∷ []
]
trim_start (a ∷ b ∷ c ∷ bs) = elim (space1 a) [
  | true ↦ trim_start (b ∷ c ∷ bs)
  | false ↦ elim (space2 a b) [
    | true ↦ trim_start (c ∷ bs)
    | false ↦ elim (space3 a b c) [ true ↦ trim_start bs | false ↦ a ∷ b ∷ c ∷ bs ]
  ]
]

-- The same from the last byte on: `trim_end`, on a reversed text.
unfoldable pub trim_back : List ℕ → List ℕ
trim_back [] = []
trim_back (c ∷ []) = if space1 c then [] else c ∷ []
trim_back (c ∷ b ∷ []) = elim (space1 c) [
  | true ↦ trim_back (b ∷ [])
  | false ↦ if space2 b c then [] else c ∷ b ∷ []
]
trim_back (c ∷ b ∷ a ∷ bs) = elim (space1 c) [
  | true ↦ trim_back (b ∷ a ∷ bs)
  | false ↦ elim (space2 b c) [
    | true ↦ trim_back (a ∷ bs)
    | false ↦ elim (space3 a b c) [ true ↦ trim_back bs | false ↦ c ∷ b ∷ a ∷ bs ]
  ]
]

-- `str::trim_end`
abbrev pub trim_end : List ℕ → List ℕ
trim_end bs = reverse (trim_back (reverse bs))

-- `str::trim`
abbrev pub trim : List ℕ → List ℕ
trim bs = trim_start (trim_end bs)

-- Newlines behind a text are trimmed away.
trim_back-newlines : (n : ℕ) (bs : List ℕ) → trim_back (replicate n 0x0a ++ bs) ≡ trim_back bs
unfolding trim_back
trim_back-newlines zero bs = refl
trim_back-newlines (suc zero) [] = refl
trim_back-newlines (suc zero) (b ∷ []) = refl
trim_back-newlines (suc zero) (b ∷ a ∷ bs) = refl
trim_back-newlines (suc (suc zero)) [] = refl
trim_back-newlines (suc (suc zero)) (b ∷ bs) = trim_back-newlines (suc zero) (b ∷ bs)
trim_back-newlines (suc (suc (suc n))) bs = trim_back-newlines (suc (suc n)) bs

reverse_aux-replicate :
    (n m k x : ℕ) → k ≡ n + m → reverse_aux (replicate n x) (replicate m x) ≡ replicate k x
reverse_aux-replicate zero m k x e = ap (λ k. replicate k x) (omega arith)
reverse_aux-replicate (suc n) m k x e = reverse_aux-replicate n (suc m) k x (omega arith)

pub trim-newlines : (bs : List ℕ) (n : ℕ) → trim (bs ++ replicate n 0x0a) ≡ trim bs
trim-newlines bs n =
    ap (λ r. trim_start (reverse (trim_back r)))
      (reverse-append bs (replicate n 0x0a)
        ∙ ap (λ t. t ++ reverse bs) (reverse_aux-replicate n 0 n 0x0a (omega arith)))
    ∙ ap (λ r. trim_start (reverse r)) (trim_back-newlines n (reverse bs))
