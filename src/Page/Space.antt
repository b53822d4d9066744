-- ===== src/Page/Space.antt =====
-- The invariant of one process's page tables, and the two writes that `map_page` of
-- kernel/src/page.rs makes, seen through the translation.
use beyond_os1k.Base.{ℕ, ◌+◌, ◌*◌, ◌/◌, ◌%◌, ◌≤◌, ◌<◌, ◌≡◌, ◌≢◌, ◌⊎◌, refl, arith, ne→==}
use beyond_os1k.Allocator.{Symbols, Ram}
use beyond_os1k.Allocator.Bump.{frontier}
use beyond_os1k.Page.{entry, set_entry}

-- The page that a pointer entry names.
abbrev pub target : ℕ → ℕ
target pte = pte / 1024 * 4096

-- a page that the allocator has handed out
pub record IsPage (k : Symbols) (r : Ram) (t : ℕ) : Type 0 where
  pub aligned : t % 4096 ≡ 0
  pub low : k.free_ram ≤ t
  pub high : t + 4096 ≤ frontier k r

pub record IsPointer (k : Symbols) (r : Ram) (root pte : ℕ) : Type 0 where
  pub bits : pte % 1024 ≡ 1
  pub page : IsPage k r (target pte)
  pub other : target pte ≢ root

-- The root table is a page; each of its entries is 0 or points to a page of its own.
pub record IsSpace (k : Symbols) (r : Ram) (root : ℕ) : Type 0 where
  pub page : IsPage k r root
  pub entries : (i : ℕ) → i < 1024 → (entry r root i ≡ 0) ⊎ IsPointer k r root (entry r root i)
  pub apart :
      (i j : ℕ)
      → i < 1024
      → j < 1024
      → i ≢ j
      → (entry r root i ≡ 0) ⊎ (target (entry r root i) ≢ target (entry r root j))

-- A word that has been handed out, outside the tables.
pub record IsClear (k : Symbols) (r : Ram) (root a : ℕ) : Type 0 where
  pub below : a < frontier k r
  pub off_root : (a < root) ⊎ (root + 4096 ≤ a)
  pub off_tables :
      (i : ℕ)
      → i < 1024
      → (entry r root i ≡ 0)
        ⊎ ((a < target (entry r root i)) ⊎ (target (entry r root i) + 4096 ≤ a))

-- Entries of pages do not overlap.
pub slots_apart :
    (t t' i j : ℕ)
    → t % 4096 ≡ 0
    → t' % 4096 ≡ 0
    → i < 1024
    → j < 1024
    → t + 4 * i ≡ t' + 4 * j
    → (t ≡ t') × (i ≡ j)
slots_apart t t' i j ht ht' hi hj e = omega arith

module _ {k : Symbols} {r : Ram} {root : ℕ} (space : IsSpace k r root) where
  -- A write into the second-level table of entry `i`.
  module _ (i j pte : ℕ) (hi : i < 1024) (hj : j < 1024) (set : entry r root i ≢ 0) where
    abbrev pub written : Ram
    written = set_entry r (target (entry r root i)) j pte

    pub entry-written : (m : ℕ) → m < 1024 → entry written root m ≡ entry r root m
    entry-written m hm =
        ground
          (arith, space.entries i hi, slots_apart root (target (entry r root i)) m j, space.page)

    -- The write does not touch a word outside the tables.
    pub written-IsClear :
        (a : ℕ) → IsClear k r root a → (written.word a ≡ r.word a) × IsClear k written root a
    written-IsClear a c = (
      rw (ne→== a (target (entry r root i) + 4 * j) (ground (arith, c.off_tables i hi))) refl,
      record {
        below = c.below;
        off_root = c.off_root;
        off_tables = λ m hm. rw (entry-written m hm) (c.off_tables m hm);
      },
    )

    pub written-IsSpace : IsSpace k written root
    written-IsSpace = record {
      page = record { aligned = space.page.aligned; low = space.page.low; high = space.page.high };
      entries = λ m hm. rw (entry-written m hm) (ground (arith, space.entries m hm));
      apart =
          λ m n hm hn ne. rw (entry-written m hm, entry-written n hn) (space.apart m n hm hn ne);
    }
