-- ===== src/Page/Fresh.antt =====
-- The first write of `map_page` in kernel/src/page.rs: a fresh second-level table behind an empty
-- entry keeps the invariant, and translates nothing.
use mathlib.Core.Path.{subst}
use beyond_os1k.Base.{
  ℕ, ◌+◌, ◌*◌, ◌/◌, ◌%◌, ◌^◌, ◌≤◌, ◌<◌, ◌≡◌, ◌≢◌, refl, ◌⊎◌, inl, inr, arith, bit_or, ok, sym, ◌∙◌,
  Bool-cases, ◌==◌, ==→eq, ==→ne,
}
use beyond_os1k.Base.Bits.{bit_and_low}
use beyond_os1k.Allocator.{Symbols, IsLinked, Ram}
use beyond_os1k.Allocator.Bump.{frontier, IsBump, Block, alloc-Block}
use beyond_os1k.Page.{entry, clear as zeroed, store, ppn, first_level}
use beyond_os1k.Page.Walk.{walk, walk_invalid, walk_empty}
use beyond_os1k.Page.Entry.{pointer_lem}
use beyond_os1k.Page.Space.{IsSpace, IsPage, IsPointer, IsClear, target, slots_apart}

-- `r'` is `r` with a cleared page at the frontier `p`, and entry `i` of `root` pointing to it.
record IsGrown (k : Symbols) (r r' : Ram) (root i p : ℕ) : Type 0 where
  start : p ≡ frontier k r
  grown : frontier k r' ≡ p + 4096
  pointer : entry r' root i ≡ p / 4096 * 1024 + 1
  cleared : (j : ℕ) → j < 1024 → r'.word (p + 4 * j) ≡ 0
  kept : (a : ℕ) → a < p → a ≢ root + 4 * i → r'.word a ≡ r.word a

module _ {k : Symbols} {r r' : Ram} {root i p : ℕ} (space : IsSpace k r root)
    (empty : entry r root i ≡ 0) (hi : i < 1024) (whole : p % 4096 ≡ 0) (low : k.free_ram ≤ p)
    (g : IsGrown k r r' root i p) where
  entry_kept : (m : ℕ) → m < 1024 → m ≢ i → entry r' root m ≡ entry r root m
  entry_kept m hm ne = g.kept (root + 4 * m) (omega (arith, space.page.high, g.start)) (omega arith)

  IsPage-grown : (t : ℕ) → IsPage k r t → IsPage k r' t
  IsPage-grown t h = record {
    aligned = h.aligned;
    low = h.low;
    high = omega (arith, h.high, g.start, g.grown);
  }

  new-IsPointer : IsPointer k r' root (entry r' root i)
  new-IsPointer = record {
    bits = omega (arith, g.pointer);
    page = record {
      aligned = omega arith;
      low = omega (arith, g.pointer);
      high = omega (arith, g.pointer, g.grown);
    };
    other = λ e. omega (arith, g.pointer, space.page.high, g.start);
  }

  IsPointer-grown : (pte : ℕ) → IsPointer k r root pte → IsPointer k r' root pte
  IsPointer-grown pte h = record {
    bits = h.bits;
    page = IsPage-grown (target pte) h.page;
    other = h.other;
  }

  new_target : target (entry r' root i) ≡ p
  new_target = omega (arith, g.pointer)

  old_target : (m : ℕ) → m < 1024 → m ≢ i → target (entry r' root m) < p
  old_target m hm ne = ground (arith, entry_kept m hm ne, space.entries m hm, space.page, g.start)

  grown_entries : (m : ℕ) → m < 1024 → (entry r' root m ≡ 0) ⊎ IsPointer k r' root (entry r' root m)
  grown_entries m hm = elim (Bool-cases (m == i)) [
    | inl e ↦
        inr (subst (λ x. IsPointer k r' root (entry r' root x)) (sym (==→eq m i e)) new-IsPointer)
    | inr ne ↦ rw (entry_kept m hm (==→ne m i ne)) (elim (space.entries m hm) [
      | inl z ↦ inl z
      | inr h ↦ inr (IsPointer-grown (entry r root m) h)
    ])
  ]

  grown_apart :
      (m n : ℕ)
      → m < 1024
      → n < 1024
      → m ≢ n
      → (entry r' root m ≡ 0) ⊎ (target (entry r' root m) ≢ target (entry r' root n))
  grown_apart m n hm hn ne = ground (
    arith,
    new_target,
    old_target m hm,
    old_target n hn,
    entry_kept m hm,
    entry_kept n hn,
    space.apart m n hm hn ne,
  )

  grown-IsSpace : IsSpace k r' root
  grown-IsSpace = record {
    page = IsPage-grown root space.page;
    entries = grown_entries;
    apart = grown_apart;
  }

  -- A word outside the tables stays as it is, and outside.
  grown-IsClear : (a : ℕ) → IsClear k r root a → (r'.word a ≡ r.word a) × IsClear k r' root a
  grown-IsClear a c = (
    g.kept a (omega (arith, c.below, g.start)) (ground (arith, c.off_root)),
    record {
      below = omega (arith, c.below, g.start, g.grown);
      off_root = c.off_root;
      off_tables = λ m hm. elim (Bool-cases (m == i)) [
        | inl e ↦ inr (
            inl (
              subst (λ x. a < target (entry r' root x)) (sym (==→eq m i e))
                (omega (arith, new_target, c.below, g.start))))
        | inr ne ↦ rw (entry_kept m hm (==→ne m i ne)) (c.off_tables m hm)
      ];
    },
  )

  walk-grown : (va : ℕ) → va < 2 ^ 32 → walk r'.word root va ≡ walk r.word root va
  unfolding walk
  walk-grown va fits = elim (Bool-cases (va / 2 ^ 22 == i)) [
    | inl e ↦
        let at : va / 2 ^ 22 ≡ i = ==→eq _ _ e in
        walk_empty r'.word root va p whole (rw at g.pointer)
          (g.cleared (va / 4096 % 1024) (omega arith))
        ∙ sym (walk_invalid r.word root va (rw at empty))
    | inr ne ↦ ground (
      arith,
      entry_kept (va / 2 ^ 22) (omega arith),
      space.entries (va / 2 ^ 22) (omega arith),
      slots_apart (target (entry r root (va / 2 ^ 22))) root (va / 4096 % 1024) i,
      space.page,
      g.start,
      g.kept (target (entry r root (va / 2 ^ 22)) + 4 * (va / 4096 % 1024)),
    )
  ]

-- What the first half of `map_page` leaves: entry `i` points to a table, all is as before to the
-- hardware, and at most one page was taken.
pub record IsReady (k : Symbols) (root i : ℕ) (r r' : Ram) : Type 0 where
  pub space : IsSpace k r' root
  pub bump : IsBump k r'
  pub present : entry r' root i ≢ 0
  pub taken : (frontier k r ≤ frontier k r') × (frontier k r' ≤ frontier k r + 4096)
  pub kept : entry r root i ≢ 0 → frontier k r' ≡ frontier k r
  pub clear : (a : ℕ) → IsClear k r root a → (r'.word a ≡ r.word a) × IsClear k r' root a
  pub same : (va : ℕ) → va < 2 ^ 32 → walk r'.word root va ≡ walk r.word root va

module _ (k : Symbols) (linked : IsLinked k) (r : Ram) (bump : IsBump k r) (root i : ℕ)
    (space : IsSpace k r root) (hi : i < 1024) (room : frontier k r + 4096 ≤ k.free_ram_end) where
  abbrev grown : Ram → ℕ → Ram
  grown r1 p = record r1 { word = store (zeroed r1.word p) (root + 4 * i) (bit_or (ppn p) 1) }

  Block-IsGrown : {p : ℕ} {r1 : Ram} → Block k 4096 r p r1 → IsGrown k r (grown r1 p) root i p
  Block-IsGrown {p} {r1} b = record {
    start = b.start;
    grown = omega (arith, b.next);
    pointer = ground (arith, pointer_lem p, b.start, bump.high, linked.size, linked.room);
    cleared = λ j hj. ground (arith, b.start, space.page);
    kept = λ a lt ne. ground (arith, b.kept a);
  }

  Block-IsReady :
      {p : ℕ} {r1 : Ram}
      → entry r root i ≡ 0
      → Block k 4096 r p r1
      → IsReady k root i r (grown r1 p)
  Block-IsReady {p} {r1} empty b =
      let g = Block-IsGrown b in
      let whole : p % 4096 ≡ 0 = omega (arith, b.start, bump.aligned) in
      let low : k.free_ram ≤ p = omega (arith, b.start, bump.low) in
      record {
        space = grown-IsSpace space empty hi whole low g;
        bump = record {
          free = b.after.free;
          low = b.after.low;
          high = b.after.high;
          aligned = b.after.aligned;
        };
        present = λ z. omega (arith, g.pointer, z);
        taken = omega (arith, b.start, b.next);
        kept = λ ne. absurd (ne empty);
        clear = grown-IsClear space empty hi whole low g;
        same = walk-grown space empty hi whole low g;
      }

  first_level-fresh :
      entry r root i ≡ 0 → (r' : Ram) × (first_level k root i r ≡ ok r') × IsReady k root i r r'
  unfolding first_level
  first_level-fresh empty =
      let (p, r1, e, b) = alloc-Block k linked r bump 4096 (omega arith) in
      (grown r1 p, rw (empty, e) refl, Block-IsReady empty b)

  pub first_level_lem : (r' : Ram) × (first_level k root i r ≡ ok r') × IsReady k root i r r'
  unfolding first_level
  first_level_lem = elim (space.entries i hi) [
    | inl empty ↦ first_level-fresh empty
    | inr h ↦ (
      r,
      ground (arith, bit_and_low 1 (entry r root i)),
      record {
        space = space;
        bump = bump;
        present = ground arith;
        taken = omega arith;
        kept = λ ne. refl;
        clear = λ a c. (refl, c);
        same = λ va fits. refl;
      },
    )
  ]
