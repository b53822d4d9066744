-- ===== src/Page/Entry.antt =====
-- The numbers in the page-table entries that kernel/src/page.rs writes.
use beyond_os1k.Base.{ℕ, ◌+◌, ◌*◌, ◌/◌, ◌%◌, ◌^◌, ◌<◌, ◌≡◌, ◌∙◌, arith, bit_or}
use beyond_os1k.Base.Bits.{bit_or_split, bit_or_one, zero-bit_or, bit_and_low}
use beyond_os1k.Page.{vpn0, vpn1, ppn, from_ppn}

pub vpn0_lem : (v : ℕ) → vpn0 v ≡ v / 4096 % 1024
unfolding vpn0
vpn0_lem v = bit_and_low 10 (v / 4096)

pub vpn1_lem : (v : ℕ) → v < 2 ^ 32 → vpn1 v ≡ v / 2 ^ 22
unfolding vpn1
vpn1_lem v fits = bit_and_low 10 (v / 2 ^ 22) ∙ omega arith

-- The flags with the valid bit set.
abbrev pub valid : ℕ → ℕ
valid flags = bit_or flags 1

pub valid_lem : (flags : ℕ) → valid flags ≡ flags / 2 * 2 + 1
valid_lem = bit_or_one

module _ (p flags : ℕ) (aligned : p % 4096 ≡ 0) (fits : p < 2 ^ 32) (small : flags < 1024) where
  -- The word that `map_page` stores: the page number over the flags and the valid bit.
  pub leaf_lem : bit_or (bit_or (ppn p) flags) 1 ≡ p / 4096 * 1024 + valid flags
  unfolding ppn
  leaf_lem =
      rw (whole, (bit_or_split 10 (p / 4096) 0 flags (omega arith) small).0, zero-bit_or flags)
        (bit_or_split 10 (p / 4096) flags 1 small (omega arith)).0
    where
      whole : p / 4096 * 1024 % 2 ^ 32 ≡ p / 4096 * 1024 + 0
      whole = omega arith

  -- Whatever flags stand below it, the page address is read back from an entry.
  pub from_ppn-ppn : from_ppn (bit_or (bit_or (ppn p) flags) 1) ≡ p
  unfolding from_ppn
  from_ppn-ppn = omega (arith, leaf_lem, valid_lem flags)

pub pointer_lem : (p : ℕ) → p < 2 ^ 32 → bit_or (ppn p) 1 ≡ p / 4096 * 1024 + 1
unfolding ppn
pointer_lem p fits = rw whole (bit_or_split 10 (p / 4096) 0 1 (omega arith) (omega arith)).0
  where
    whole : p / 4096 * 1024 % 2 ^ 32 ≡ p / 4096 * 1024 + 0
    whole = omega arith
