-- ===== src/Process/Bytes.antt =====
-- The bytes that `create_process` of kernel/src/process.rs moves, over the words of the RAM.
use beyond_os1k.Base.{
  ℕ, ◌+◌, ◌-◌, ◌*◌, ◌/◌, ◌%◌, ◌^◌, ◌≤◌, ◌<◌, ◌≡◌, ◌∙◌, ◌⊎◌, inl, inr, arith, ap, ltb, leb, ◌&&◌,
  zero, suc, Bool-cases, if◌then◌else◌,
}
use native.Mathlib.Nat.{div-one}
use beyond_os1k.Process.{byte, put_bytes, copy}

-- Bytes in words that agree.
pub byte-agree :
    (word word' : ℕ → ℕ) (x : ℕ) → word' (x - x % 4) ≡ word (x - x % 4) → byte word' x ≡ byte word x
byte-agree word word' x e = ap (λ w. w / 256 ^ (x % 4) % 256) e

module _ (b : ℕ → ℕ) (small : (x : ℕ) → b x < 256) (a : ℕ) where
  -- the word of the four bytes from `a` on
  abbrev packed : ℕ
  packed = b a + 256 * b (a + 1) + 65536 * b (a + 2) + 16777216 * b (a + 3)

  first : packed / 1 % 256 ≡ b (a + 0)
  first =
      let low : packed % 256 ≡ b a = omega (arith, small a) in
      ap (λ w. w % 256) (div-one packed) ∙ low ∙ ap b (omega arith)

  second : packed / 256 % 256 ≡ b (a + 1)
  second = omega (arith, small a, small (a + 1))

  third : packed / 65536 % 256 ≡ b (a + 2)
  third = omega (arith, small a, small (a + 1), small (a + 2))

  fourth : packed / 16777216 % 256 ≡ b (a + 3)
  fourth = omega (arith, small a, small (a + 1), small (a + 2), small (a + 3))

  byte-packed : (i : ℕ) → i < 4 → packed / 256 ^ i % 256 ≡ b (a + i)
  byte-packed zero h = first
  byte-packed (suc zero) h = second
  byte-packed (suc (suc zero)) h = third
  byte-packed (suc (suc (suc zero))) h = fourth
  byte-packed (suc (suc (suc (suc i)))) h = absurd (omega arith)

module _ (word : ℕ → ℕ) (p n : ℕ) (g : ℕ → ℕ) where
  -- A word that holds none of the places is not changed.
  pub put_bytes-outside : (a : ℕ) → (a < p - p % 4) ⊎ (p + n ≤ a) → put_bytes word p n g a ≡ word a
  put_bytes-outside a out = ground (arith, out)

  module _ (small : (x : ℕ) → g x < 256) where
    abbrev picked : ℕ → ℕ
    picked x = if leb p x && ltb x (p + n) then g x else byte word x

    picked_small : (x : ℕ) → picked x < 256
    picked_small x = ground (arith, small x)

    -- Each place holds its byte, and every other byte is as before.
    pub byte-put_bytes :
        (x : ℕ)
        → byte (put_bytes word p n g) x ≡ (if leb p x && ltb x (p + n) then g x else byte word x)
    byte-put_bytes x =
        let a = x - x % 4 in
        elim (Bool-cases (leb (p - p % 4) a && ltb a (p + n))) [
          | inl some_of ↦
              rw some_of
                (byte-packed picked picked_small a (x % 4) (omega arith) ∙ ap picked (omega arith))
          | inr none_of ↦ ground arith
        ]

-- The copied bytes, where the two places are at their addresses.
pub byte-copy :
    (word : ℕ → ℕ) (dst src n x : ℕ)
    → x < n
    → byte (copy word dst src n) (dst + x) ≡ byte word (src + x)
byte-copy word dst src n x h =
    byte-put_bytes word dst n (λ y. byte word (src + (y - dst))) (λ y. omega arith) (dst + x)
    ∙ ground arith
