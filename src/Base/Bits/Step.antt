-- ===== src/Base/Bits/Step.antt =====
-- One equation for the lowest digit of `&` and `|`. The native operations recur on a count of
-- digits; a count that is large enough may be replaced by any other.
use Prim.Native.Nat.{ℕ, zero, suc, ◌+◌, ◌*◌, ◌/◌, ◌%◌, ◌≤◌, bit_and, bit_or, min, max}
use Prim.Native.Nat.{digits, bit_and-bitwise, bit_or-bitwise}
use mathlib.Core.Path.{◌≡◌, refl, sym, ◌∙◌}
use native.Mathlib.Omega.{arith}

-- What is left of the second word once the first has run out: all for `|`, nothing for `&`.
module _ (rest : ℕ → ℕ) (digit : ℕ → ℕ → ℕ) where
  abbrev run : ℕ → ℕ → ℕ → ℕ
  run count x y = digits rest digit count x y

  run-nothing : (count y : ℕ) → run count 0 y ≡ rest y
  run-nothing zero y = refl
  run-nothing (suc count) y = refl

  run_enough : (count more x y : ℕ) → x ≤ count → count ≤ more → run more x y ≡ run count x y
  run_enough count more zero y enough order = run-nothing more y ∙ sym (run-nothing count y)
  run_enough zero more (suc x) y enough order = absurd (omega arith)
  run_enough (suc count) zero (suc x) y enough order = absurd (omega arith)
  run_enough (suc count) (suc more) (suc x) y enough order =
      omega (arith, run_enough count more (suc x / 2) (y / 2) (omega arith) (omega arith))

  run-suc :
      (x y : ℕ)
      → run (suc x) (suc x) y ≡ run (suc x / 2) (suc x / 2) (y / 2) * 2 + digit (suc x % 2) (y % 2)
  run-suc x y =
      omega (arith, run_enough (suc x / 2) x (suc x / 2) (y / 2) (omega arith) (omega arith))

pub bit_and_step : (x y : ℕ) → bit_and x y ≡ min (x % 2) (y % 2) + 2 * bit_and (x / 2) (y / 2)
bit_and_step zero y = omega (arith, bit_and-bitwise 0 y, bit_and-bitwise 0 (y / 2))
bit_and_step (suc x) y = omega (
  arith,
  run-suc (λ _. 0) min x y,
  bit_and-bitwise (suc x) y,
  bit_and-bitwise (suc x / 2) (y / 2),
)

pub bit_or_step : (x y : ℕ) → bit_or x y ≡ max (x % 2) (y % 2) + 2 * bit_or (x / 2) (y / 2)
bit_or_step zero y = omega (arith, bit_or-bitwise 0 y, bit_or-bitwise 0 (y / 2))
bit_or_step (suc x) y =
    omega (
      arith,
      run-suc (λ w. w) max x y,
      bit_or-bitwise (suc x) y,
      bit_or-bitwise (suc x / 2) (y / 2),
    )
