-- ===== src/Page/Agree.antt =====
-- The tables of kernel/src/page.rs in a memory that agrees on what they stand in.
use beyond_os1k.Base.{ℕ, ◌+◌, ◌*◌, ◌/◌, ◌%◌, ◌^◌, ◌≤◌, ◌<◌, ◌≡◌, inr, arith}
use beyond_os1k.Allocator.{Symbols, Ram}
use beyond_os1k.Allocator.Bump.{frontier}
use beyond_os1k.Page.{entry}
use beyond_os1k.Page.Walk.{walk}
use beyond_os1k.Page.Space.{IsSpace, IsClear, target}

module _ {k : Symbols} {r : Ram} {root : ℕ} (space : IsSpace k r root) where
  -- The hardware translates alike in a memory that agrees on the handed-out free RAM.
  pub walk-agree :
      (word : ℕ → ℕ)
      → ((a : ℕ) → k.free_ram ≤ a → a < frontier k r → word a ≡ r.word a)
      → (va : ℕ) → va < 2 ^ 32
      → walk word root va ≡ walk r.word root va
  unfolding walk
  walk-agree word same va fits = ground (
    arith,
    same (root + 4 * (va / 2 ^ 22)),
    same (target (entry r root (va / 2 ^ 22)) + 4 * (va / 4096 % 1024)),
    space.page,
    space.entries (va / 2 ^ 22) (omega arith),
  )

  module _ (r' : Ram) (grown : frontier k r ≤ frontier k r')
      (same : (a : ℕ) → k.free_ram ≤ a → a < frontier k r → r'.word a ≡ r.word a) where
    entry-agree : (i : ℕ) → i < 1024 → entry r' root i ≡ entry r root i
    entry-agree i hi =
        same (root + 4 * i) (omega (arith, space.page.low)) (omega (arith, space.page.high))

    pub agree-IsSpace : IsSpace k r' root
    agree-IsSpace = record {
      page = ground (arith, space.page);
      entries = λ i hi. rw (entry-agree i hi) (ground (arith, space.entries i hi));
      apart = λ i j hi hj ne. rw (entry-agree i hi, entry-agree j hj) (space.apart i j hi hj ne);
    }

    -- A word that has been handed out since is outside the tables.
    pub fresh-IsClear : (a : ℕ) → frontier k r ≤ a → a < frontier k r' → IsClear k r' root a
    fresh-IsClear a lo hi = record {
      below = hi;
      off_root = inr (omega (arith, space.page.high));
      off_tables = λ i hi. rw (entry-agree i hi) (ground (arith, space.entries i hi));
    }

    -- A word outside the tables stays outside.
    pub agree-IsClear : (a : ℕ) → IsClear k r root a → IsClear k r' root a
    agree-IsClear a c = record {
      below = omega (arith, c.below);
      off_root = c.off_root;
      off_tables = λ i hi. rw (entry-agree i hi) (c.off_tables i hi);
    }
