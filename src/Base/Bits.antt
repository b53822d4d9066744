-- ===== src/Base/Bits.antt =====
-- `&` and `|` of machine words as arithmetic: masks of high or low bits, and disjoint fields.
mod Step
use Step.{bit_or_step, bit_and_step}
use mathlib.Core.Path.{◌≡◌, refl, ap, sym, ◌∙◌}
use native.Mathlib.Nat.{
  pow-suc, one-le-pow, div-div-eq-div-mul, mod-eq-sub-div-mul, div-mul-le_self,
}
use native.Mathlib.Omega.{arith}
use Prim.Native.Nat.{
  ℕ, zero, suc, ◌+◌, ◌-◌, ◌*◌, ◌/◌, ◌%◌, ◌^◌, ◌<◌, ◌≤◌, bit_and, bit_or, bit_or-bitwise,
}

or_nothing : (n a : ℕ) → a ≤ n → bit_or a 0 ≡ a
or_nothing n zero h = refl
or_nothing zero (suc a) h = absurd (omega arith)
or_nothing (suc n) (suc a) h =
    omega (arith, bit_or_step (suc a) 0, or_nothing n (suc a / 2) (omega arith))

pub bit_or-zero : (a : ℕ) → bit_or a 0 ≡ a
bit_or-zero a = or_nothing a a (omega arith)

and_nothing : (n a : ℕ) → a ≤ n → bit_and a 0 ≡ 0
and_nothing n zero h = refl
and_nothing zero (suc a) h = absurd (omega arith)
and_nothing (suc n) (suc a) h =
    omega (arith, bit_and_step (suc a) 0, and_nothing n (suc a / 2) (omega arith))

pub bit_and-zero : (a : ℕ) → bit_and a 0 ≡ 0
bit_and-zero a = and_nothing a a (omega arith)

pub zero-bit_or : (a : ℕ) → bit_or 0 a ≡ a
zero-bit_or a = bit_or-bitwise 0 a

-- The lowest bit is set once 1 is or-ed in.
pub bit_or_one : (a : ℕ) → bit_or a 1 ≡ a / 2 * 2 + 1
bit_or_one a = omega (arith, bit_or_step a 1, bit_or-zero (a / 2))

double : (q k : ℕ) → q * 2 ^ suc k ≡ 2 * (q * 2 ^ k)
double q k = omega (arith, ap (λ (t : ℕ). q * t) (pow-suc 2 k))

-- The word without its lowest bit.
shifted : (q k r : ℕ) → (q * 2 ^ suc k + r) / 2 ≡ q * 2 ^ k + r / 2
shifted q k r = omega (arith, double q k)

-- A field above bit `k` is untouched by what is or-ed in below.
pub bit_or_split :
    (k q r s : ℕ)
    → r < 2 ^ k
    → s < 2 ^ k
    → (bit_or (q * 2 ^ k + r) s ≡ q * 2 ^ k + bit_or r s) × (bit_or r s < 2 ^ k)
bit_or_split zero q zero zero hr hs = (omega (arith, bit_or-zero (q * 1 + 0)), omega arith)
bit_or_split zero q zero (suc s) hr hs = absurd (omega arith)
bit_or_split zero q (suc r) s hr hs = absurd (omega arith)
bit_or_split (suc k) q r s hr hs =
    let p : 2 ^ suc k ≡ 2 * 2 ^ k = omega (arith, pow-suc 2 k) in
    let (e, b) = bit_or_split k q (r / 2) (s / 2) (omega arith) (omega arith) in
    (
      omega (
        arith,
        e,
        double q k,
        bit_or_step (q * 2 ^ suc k + r) s,
        bit_or_step r s,
        ap (λ (t : ℕ). bit_or t (s / 2)) (shifted q k r),
      ),
      omega (arith, b, bit_or_step r s),
    )

-- A mask that is zero below bit `k` cuts those bits off.
pub bit_and_high :
    (k q r t : ℕ) → r < 2 ^ k → bit_and (q * 2 ^ k + r) (t * 2 ^ k) ≡ bit_and q t * 2 ^ k
bit_and_high zero q zero t hr =
    omega (arith, ap (λ (x : ℕ). bit_and x (t * 1)) (plain q), ap (λ (x : ℕ). bit_and q x) (once t))
  where
    plain : (q : ℕ) → q * 1 + 0 ≡ q
    plain q = omega arith

    once : (q : ℕ) → q * 1 ≡ q
    once q = omega arith
bit_and_high zero q (suc r) t hr = absurd (omega arith)
bit_and_high (suc k) q r t hr = ground (
  arith,
  bit_and_step (q * 2 ^ suc k + r) (t * 2 ^ suc k),
  double q k,
  double t k,
  double (bit_and q t) k,
  bit_and_high k q (r / 2) t (omega (arith, pow-suc 2 k)),
)

two_digits : (k a : ℕ) → a % 2 ^ suc k ≡ a % 2 + 2 * (a / 2 % 2 ^ k)
two_digits k a =
    let P = 2 ^ k in
    let e : 2 ^ suc k ≡ 2 * P = omega (arith, pow-suc 2 k) in
    let f : a / 2 ^ suc k ≡ a / 2 / P = ap (λ t. a / t) e ∙ sym (div-div-eq-div-mul a 2 P) in
    omega (
      arith,
      f,
      mod-eq-sub-div-mul a (2 ^ suc k),
      mod-eq-sub-div-mul (a / 2) P,
      ap (λ t. t * 2 ^ suc k) f,
      double (a / 2 / P) k,
      div-mul-le_self (a / 2) P,
    )

-- A mask of `k` ones keeps the low bits.
pub bit_and_low : (k a : ℕ) → bit_and a (2 ^ k - 1) ≡ a % 2 ^ k
bit_and_low zero a = omega (arith, bit_and-zero a)
bit_and_low (suc k) a = ground (
  arith,
  one-le-pow k 2,
  pow-suc 2 k,
  bit_and_step a (2 ^ suc k - 1),
  bit_and_low k (a / 2),
  two_digits k a,
)
