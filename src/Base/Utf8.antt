-- ===== src/Base/Utf8.antt =====
-- `str::from_utf8` succeeds on well-formed UTF-8, table 3-7 of the Unicode standard, and
-- the bytes of a character.
use Prim.Native.Nat.{ℕ, zero, suc, ◌+◌, ◌/◌, ◌%◌}
use mathlib.Core.Bool.{Bool, true, false, ◌&&◌}
use mathlib.Core.Option.{Option, none, some}
use mathlib.Core.List.{List, [], ◌∷◌, ◌++◌}
use mathlib.Core.Path.{◌≡◌, refl}
use beyond_os1k.Base.Lists.{replicate}
use beyond_os1k.Base.Tests.{ltb, leb, ◌==◌, if◌then◌else◌}

-- After a first byte: how many bytes follow, and the range of the next one.
lead : ℕ → Option (ℕ × ℕ × ℕ)
lead b =
    if ltb b 0x80
    then some (0, 0x80, 0xbf)
    else if ltb b 0xc2
    then none
    else if ltb b 0xe0
    then some (1, 0x80, 0xbf)
    else if b == 0xe0
    then some (2, 0xa0, 0xbf)
    else if b == 0xed
    then some (2, 0x80, 0x9f)
    else if ltb b 0xf0
    then some (2, 0x80, 0xbf)
    else if b == 0xf0
    then some (3, 0x90, 0xbf)
    else if ltb b 0xf4
    then some (3, 0x80, 0xbf)
    else if b == 0xf4
    then some (3, 0x80, 0x8f)
    else none

well_formed : ℕ → ℕ → ℕ → List ℕ → Bool
well_formed zero lo hi [] = true
well_formed (suc n) lo hi [] = false
well_formed zero lo hi (b ∷ bs) = elim (lead b) [
  | none ↦ false
  | some (n, l, h) ↦ well_formed n l h bs
]
well_formed (suc n) lo hi (b ∷ bs) = leb lo b && leb b hi && well_formed n 0x80 0xbf bs

unfoldable pub is_utf8 : List ℕ → Bool
unfolding well_formed lead
is_utf8 bs = well_formed 0 0x80 0xbf bs

-- The bytes of a character.
abbrev pub char_bytes : ℕ → List ℕ
char_bytes n =
    if ltb n 0x80
    then n ∷ []
    else if ltb n 0x800
    then (0xc0 + n / 64) ∷ (0x80 + n % 64) ∷ []
    else if ltb n 0x10000
    then (0xe0 + n / 4096) ∷ (0x80 + n / 64 % 64) ∷ (0x80 + n % 64) ∷ []
    else (0xf0 + n / 262144) ∷ (0x80 + n / 4096 % 64) ∷ (0x80 + n / 64 % 64) ∷ (0x80 + n % 64) ∷ []

and-last :
    (x y : Bool) {p q : Bool} → (p ≡ true → q ≡ true) → x && y && p ≡ true → x && y && q ≡ true
and-last true true then_so h = then_so h
and-last true false then_so h = h
and-last false y then_so h = h

well_formed-newlines :
    (n lo hi : ℕ) (bs : List ℕ) (k : ℕ)
    → well_formed n lo hi bs ≡ true
    → well_formed n lo hi (bs ++ replicate k 0x0a) ≡ true
unfolding well_formed lead
well_formed-newlines zero lo hi [] zero h = refl
well_formed-newlines zero lo hi [] (suc k) h = well_formed-newlines zero 0x80 0xbf [] k refl
well_formed-newlines (suc n) lo hi [] k h = absurd (false-ne-true h)
  where
    false-ne-true : false ≡ true → ⊥
    false-ne-true e = cc
well_formed-newlines zero lo hi (b ∷ bs) k h =
    after (λ n l h good. well_formed-newlines n l h bs k good) (lead b) h
  where
    after :
        ((n l h : ℕ)
          → well_formed n l h bs ≡ true
          → well_formed n l h (bs ++ replicate k 0x0a) ≡ true)
        → (o : Option (ℕ × ℕ × ℕ))
        → elim o [ none ↦ false | some (n, l, h) ↦ well_formed n l h bs ] ≡ true
        → elim o [ none ↦ false | some (n, l, h) ↦ well_formed n l h (bs ++ replicate k 0x0a) ]
          ≡ true
    after rest none h = h
    after rest (some (n, l, h)) good = rest n l h good
well_formed-newlines (suc n) lo hi (b ∷ bs) k h =
    and-last (leb lo b) (leb b hi) (well_formed-newlines n 0x80 0xbf bs k) h

-- Newlines behind a text keep it well-formed.
pub is_utf8-newlines :
    (bs : List ℕ) (k : ℕ) → is_utf8 bs ≡ true → is_utf8 (bs ++ replicate k 0x0a) ≡ true
unfolding is_utf8
is_utf8-newlines bs k h = well_formed-newlines 0 0x80 0xbf bs k h

crab : is_utf8 (0xf0 ∷ 0x9f ∷ 0xa6 ∷ 0x80 ∷ []) ≡ true
unfolding is_utf8
crab = refl

surrogate : is_utf8 (0xed ∷ 0xa0 ∷ 0x80 ∷ []) ≡ false
unfolding is_utf8
surrogate = refl
