-- ===== src/Page/Walk.antt =====
-- The address translation of the RISC-V privileged specification for Sv32, over the same RAM as
-- kernel/src/page.rs writes: what the tables mean to the hardware.
use beyond_os1k.Base.{
  ℕ, ◌+◌, ◌*◌, ◌/◌, ◌%◌, ◌^◌, ◌≡◌, arith, Option, none, some, ◌==◌, if◌then◌else◌, ◌||◌,
}

-- A leaf gives the physical address and the ten flag bits; `page` is its size and `at` the offset.
abbrev leaf : ℕ → ℕ → ℕ → ℕ → Option (ℕ × ℕ)
leaf pte unit page va = some (pte / unit * page + va % page, pte % 1024)

-- the second level: entry `va[21:12]` of the table that a pointer entry names
abbrev second : (ℕ → ℕ) → ℕ → ℕ → Option (ℕ × ℕ)
second word pointer va =
    let pte = word (pointer / 1024 * 4096 + 4 * (va / 4096 % 1024)) in
    if pte % 2 == 0 || pte / 2 % 8 == 0 then none else leaf pte 1024 4096 va

-- The first level: entry `va[31:22]` of the root table. An entry with R, W or X set is a leaf.
unfoldable pub walk : (ℕ → ℕ) → ℕ → ℕ → Option (ℕ × ℕ)
walk word root va =
    let pte = word (root + 4 * (va / 2 ^ 22)) in
    if pte % 2 == 0
    then none
    else if pte / 2 % 8 == 0
    then second word pte va
    else leaf pte (2 ^ 20) (2 ^ 22) va

module _ (word : ℕ → ℕ) (root va : ℕ) where
  pub walk_invalid : word (root + 4 * (va / 2 ^ 22)) ≡ 0 → walk word root va ≡ none
  unfolding walk
  walk_invalid z = rw z

  -- through a pointer to a table at `p` whose entry is 0
  pub walk_empty :
      (p : ℕ)
      → p % 4096 ≡ 0
      → word (root + 4 * (va / 2 ^ 22)) ≡ p / 4096 * 1024 + 1
      → word (p + 4 * (va / 4096 % 1024)) ≡ 0
      → walk word root va ≡ none
  unfolding walk
  walk_empty p whole at zeroed =
      let back : (p / 4096 * 1024 + 1) / 1024 * 4096 ≡ p = omega arith in
      rw (at, back, zeroed) (ground arith)
