-- ===== src/Address.antt =====
-- kernel/src/address.rs. A `PAddr` or `VAddr` is the `usize` in it: a number below 2 ^ 32 on
-- riscv32.
pub mod Align
use beyond_os1k.Base.{
  ℕ, zero, suc, ◌+◌, ◌-◌, ◌%◌, ◌^◌, Bool, false, ◌||◌, Outcome, ok, assertion, guard, ◌>>=◌, ◌>>◌,
  bit_and, ◌==◌,
}

abbrev pub usize_values : ℕ
usize_values = 2 ^ 32

-- `usize::is_power_of_two`: one of the 32 powers.
one_of_powers : ℕ → ℕ → Bool
one_of_powers zero n = false
one_of_powers (suc k) n = n == 2 ^ k || one_of_powers k n

unfoldable pub is_power_of_two : ℕ → Bool
unfolding one_of_powers
is_power_of_two n = one_of_powers 32 n

-- `!n` on a `usize`
abbrev pub bit_not : ℕ → ℕ
bit_not n = 2 ^ 32 - 1 - n

unfoldable pub align_up : ℕ → ℕ → ℕ
align_up value align =
    let below = (align + 2 ^ 32 - 1) % 2 ^ 32 in bit_and ((value + below) % 2 ^ 32) (bit_not below)

unfoldable pub is_aligned : ℕ → ℕ → Outcome Bool
unfolding is_power_of_two
is_aligned value align = do
  guard (is_power_of_two align) assertion
  let align_mask = align - 1
  ok (bit_and value align_mask == 0)
