-- ===== src/Tar/Octal.antt =====
-- `oct2int` and `int2oct` of kernel/src/tar.rs: octal numbers in nul-terminated fields.
use beyond_os1k.Base.{
  ℕ, ◌+◌, ◌-◌, ◌*◌, ◌/◌, ◌%◌, ◌^◌, ◌&&◌, Option, none, some, List, [], ◌∷◌, map, reverse, leb, ◌==◌,
  if◌then◌else◌,
}

-- `take_while(|b| b != 0)`
unfoldable pub until_nul : List ℕ → List ℕ
until_nul [] = []
until_nul (b ∷ bs) = if b == 0 then [] else b ∷ until_nul bs

-- the `try_fold`; `none` is `Err(())`
unfoldable pub fold_octal : ℕ → List ℕ → Option ℕ
fold_octal dec [] = some dec
fold_octal dec (b ∷ bs) =
    let rest = fold_octal ((dec * 8 + (b - b'0')) % 2 ^ 32) bs in
    if leb b'0' b && leb b b'7' then rest else none

unfoldable pub oct2int : List ℕ → Option ℕ
unfolding until_nul fold_octal
oct2int oct = fold_octal 0 (until_nul oct)

-- The digits that `for_each` writes from the back, into the bytes before the terminator.
unfoldable pub write_digits : ℕ → List ℕ → List ℕ
write_digits num [] = []
write_digits num (byte ∷ rest) = (num % 8 + b'0') ∷ write_digits (num / 8) rest

-- From the back: the terminator in the last byte, then the digits.
unfoldable pub from_back : ℕ → List ℕ → List ℕ
from_back num [] = []
from_back num (last ∷ rest) = 0 ∷ write_digits num rest

unfoldable pub int2oct : ℕ → List ℕ → List ℕ
unfolding from_back write_digits
int2oct dec oct = let spaces = map (λ _. b' ') oct in reverse (from_back dec (reverse spaces))
