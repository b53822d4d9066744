-- ===== src/Address/Align.antt =====
-- What `align_up` and `is_aligned` of kernel/src/address.rs compute, at each power of two.
use native.Mathlib.Nat.{
  one-le-pow, pow-le-pow_right, pow-suc, div-lt_iff_lt-mul, div-add-mod', mod-lt, mul-mod_left,
  mod-eq_of_lt,
}
use beyond_os1k.Base.{
  ℕ, zero, suc, ◌+◌, ◌-◌, ◌*◌, ◌/◌, ◌%◌, ◌^◌, ◌≤◌, ◌<◌, ◌≡◌, refl, inl, inr, ap, ap₂, sym, ◌∙◌,
  arith, true, ◌==◌, ok, bit_and, Bool-cases, ==→eq, ==→ne, eq→==,
}
use beyond_os1k.Base.Bits.{bit_and_high, bit_and_low}
use beyond_os1k.Address.{one_of_powers, is_power_of_two, align_up, is_aligned}

one_of_powers-true : (n k : ℕ) → k < n → one_of_powers n (2 ^ k) ≡ true
unfolding one_of_powers
one_of_powers-true zero k h = absurd (omega arith)
one_of_powers-true (suc n) k h = elim (Bool-cases (k == n)) [
  | inl e ↦ rw (eq→== (2 ^ k) (2 ^ n) (ap (λ (t : ℕ). 2 ^ t) (==→eq k n e)))
  | inr ne ↦ ground (arith, one_of_powers-true n k, ==→ne k n ne)
]

pow-mul : (a b c : ℕ) → a + b ≡ c → 2 ^ a * 2 ^ b ≡ 2 ^ c
pow-mul zero b c h = rw (← h) (omega (arith, ap (λ (t : ℕ). 2 ^ t) (plain b)))
  where
    plain : (b : ℕ) → 0 + b ≡ b
    plain b = omega arith
pow-mul (suc a) b zero h = absurd (omega arith)
pow-mul (suc a) b (suc c) h =
    rw (pow-suc 2 a, pow-suc 2 c)
      (omega (arith, pow-mul a b c (omega arith), regroup (2 ^ a) (2 ^ b)))
  where
    regroup : (x y : ℕ) → x * 2 * y ≡ 2 * (x * y)
    regroup x y = omega arith

-- The complement of `p - 1` is a mask of ones above `p`.
mask-above : (t p n : ℕ) → p * suc t ≡ n → n - p ≡ t * p
mask-above t p n e = omega arith

module _ (k : ℕ) (small : k < 32) where
  powers : 2 ^ k * 2 ^ (32 - k) ≡ 2 ^ 32
  powers = pow-mul k (32 - k) 32 (omega arith)

  pub power_bounds : (1 ≤ 2 ^ k) × (2 ^ k ≤ 2 ^ 31) × (1 ≤ 2 ^ (32 - k))
  power_bounds = (
    one-le-pow k 2 (omega arith),
    pow-le-pow_right (omega arith) {j = 31} (omega arith),
    one-le-pow (32 - k) 2 (omega arith),
  )

  -- the complemented mask applied to any word
  mask_word : (s : ℕ) → s < 2 ^ 32 → bit_and s (2 ^ 32 - 2 ^ k) ≡ s / 2 ^ k * 2 ^ k
  mask_word s fits =
      let (lo, hi, top) = power_bounds in
      let q = s / 2 ^ k in
      let below : q < 2 ^ (32 - k) = (div-lt_iff_lt-mul lo).1 (omega (arith, powers)) in
      let e : 2 ^ 32 - 2 ^ k ≡ (2 ^ (32 - k) - 1) * 2 ^ k =
        mask-above (2 ^ (32 - k) - 1) (2 ^ k) (2 ^ 32)
          (ap (λ t. 2 ^ k * t) (omega arith) ∙ powers) in
      let f : bit_and q (2 ^ (32 - k) - 1) ≡ q = bit_and_low (32 - k) q ∙ mod-eq_of_lt below in
      let cut : bit_and (q * 2 ^ k + s % 2 ^ k) ((2 ^ (32 - k) - 1) * 2 ^ k) ≡ q * 2 ^ k =
        bit_and_high k q (s % 2 ^ k) (2 ^ (32 - k) - 1) (mod-lt s lo) ∙ ap (λ t. t * 2 ^ k) f in
      ap₂ bit_and (sym (div-add-mod' s (2 ^ k))) e ∙ cut

  -- `align_up` rounds the wrapped sum down to a multiple of the power.
  pub align_up_lem : (v : ℕ) → align_up v (2 ^ k) ≡ (v + (2 ^ k - 1)) % 2 ^ 32 / 2 ^ k * 2 ^ k
  unfolding align_up
  align_up_lem v =
      let b = power_bounds in
      let e : (2 ^ k + 2 ^ 32 - 1) % 2 ^ 32 ≡ 2 ^ k - 1 = omega arith in
      let m : 2 ^ 32 - 1 - (2 ^ k - 1) ≡ 2 ^ 32 - 2 ^ k = omega arith in
      rw (e, m) (mask_word ((v + (2 ^ k - 1)) % 2 ^ 32) (omega arith))

  -- For a power of two, `align_up` of a value whose rounding fits the word is the least multiple
  -- of the power that is not below the value: a multiple, at least the value, less than one
  -- power above it.
  pub align_up_least :
      (v : ℕ)
      → v + 2 ^ k ≤ 2 ^ 32
      → (align_up v (2 ^ k) % 2 ^ k ≡ 0)
        × (v ≤ align_up v (2 ^ k))
        × (align_up v (2 ^ k) < v + 2 ^ k)
  align_up_least v fits =
      let (lo, hi, top) = power_bounds in
      let s = v + (2 ^ k - 1) in
      let w : s % 2 ^ 32 ≡ s = omega arith in
      let e : align_up v (2 ^ k) ≡ s / 2 ^ k * 2 ^ k = rw (align_up_lem v, w) refl in
      let d = div-add-mod' s (2 ^ k) in
      let r = mod-lt s lo in
      rw e (mul-mod_left (s / 2 ^ k) (2 ^ k), omega (arith, d, r), omega (arith, d, r))

  -- `is_aligned` does not panic at a power of two below 2 ^ 32, and says whether the power
  -- divides the value.
  pub is_aligned_lem : (v : ℕ) → is_aligned v (2 ^ k) ≡ ok (v % 2 ^ k == 0)
  unfolding is_aligned is_power_of_two
  is_aligned_lem v = rw (one_of_powers-true 32 k small, bit_and_low k v)
