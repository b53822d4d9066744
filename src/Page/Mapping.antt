-- ===== src/Page/Mapping.antt =====
-- `map_page` of kernel/src/page.rs against the hardware's translation.
use beyond_os1k.Base.{
  ℕ, ◌+◌, ◌*◌, ◌/◌, ◌%◌, ◌^◌, ◌≤◌, ◌<◌, ◌≡◌, ◌≢◌, refl, sym, ◌⊎◌, inl, inr, arith, none, some,
  ne→==, Bool-cases, ◌==◌, ap₂, ◌∙◌, ok, panic, assertion,
}
use beyond_os1k.Address.Align.{is_aligned_lem}
use beyond_os1k.Allocator.{Symbols, IsLinked, Ram}
use beyond_os1k.Allocator.Bump.{frontier, IsBump, Block, alloc-Block}
use beyond_os1k.Page.{entry, set_entry, map_page, new_table, clear as zeroed, first_level, from_ppn}
use beyond_os1k.Page.Walk.{walk, walk_invalid}
use beyond_os1k.Page.Entry.{vpn0_lem, vpn1_lem, valid, valid_lem, leaf_lem}
use beyond_os1k.Page.Space.{
  IsSpace, IsClear, target, written-IsClear, entry-written, written-IsSpace,
}
use beyond_os1k.Page.Leaf.{walk-written_self, walk-written_other}
use beyond_os1k.Page.Fresh.{IsReady, first_level_lem}

-- The outcome of mapping the page `va` to the frame `pa`.
pub record IsMapped (k : Symbols) (root va pa flags : ℕ) (r r' : Ram) : Type 0 where
  pub space : IsSpace k r' root
  pub bump : IsBump k r'
  pub taken : (frontier k r ≤ frontier k r') × (frontier k r' ≤ frontier k r + 4096)
  pub present : entry r' root (va / 2 ^ 22) ≢ 0
  pub kept : entry r root (va / 2 ^ 22) ≢ 0 → frontier k r' ≡ frontier k r
  pub clear : (a : ℕ) → IsClear k r root a → (r'.word a ≡ r.word a) × IsClear k r' root a
  pub hit : (o : ℕ) → o < 4096 → walk r'.word root (va + o) ≡ some (pa + o, valid flags)
  pub miss : (x : ℕ) → x < 2 ^ 32 → x / 4096 ≢ va / 4096 → walk r'.word root x ≡ walk r.word root x

-- page-aligned words, and flags that fit the ten bits and make a leaf
pub record IsRequest (va pa flags : ℕ) : Type 0 where
  pub va_aligned : va % 4096 ≡ 0
  pub pa_aligned : pa % 4096 ≡ 0
  pub va_fits : va < 2 ^ 32
  pub pa_fits : pa < 2 ^ 32
  pub small : flags < 1024
  pub leaf : flags / 2 % 8 ≢ 0

leaf_kept : (pa flags : ℕ) → flags / 2 % 8 ≢ 0 → (pa / 4096 * 1024 + valid flags) / 2 % 8 ≢ 0
leaf_kept pa flags h = omega (arith, valid_lem flags)

page_differs :
    (x va : ℕ)
    → x < 2 ^ 32
    → va < 2 ^ 32
    → x / 4096 ≢ va / 4096
    → (x / 2 ^ 22 ≢ va / 2 ^ 22) ⊎ (x / 4096 % 1024 ≢ va / 4096 % 1024)
page_differs x va fx fv ne = ground arith

module _ {k : Symbols} {r r1 : Ram} {root va pa flags : ℕ} (q : IsRequest va pa flags)
    (ready : IsReady k root (va / 2 ^ 22) r r1) where
  abbrev pte : ℕ
  pte = pa / 4096 * 1024 + valid flags

  abbrev mapped : Ram
  mapped = set_entry r1 (target (entry r1 root (va / 2 ^ 22))) (va / 4096 % 1024) pte

  hi : va / 2 ^ 22 < 1024
  hi = omega (arith, q.va_fits)

  hj : va / 4096 % 1024 < 1024
  hj = omega arith

  mapped_hit : (o : ℕ) → o < 4096 → walk mapped.word root (va + o) ≡ some (pa + o, valid flags)
  mapped_hit o ho =
      walk-written_self ready.space (va / 2 ^ 22) (va / 4096 % 1024) pte hi hj ready.present
        (va + o) (omega (arith, q.va_aligned)) (omega (arith, q.va_aligned))
        (omega (arith, valid_lem flags)) (leaf_kept pa flags q.leaf)
      ∙ ap₂ (λ a b. some (a, b))
          (omega (arith, q.va_aligned, q.pa_aligned, valid_lem flags, q.small))
          (omega (arith, valid_lem flags, q.small))

  -- the table behind the entry
  from_ppn-target :
      IsLinked k → from_ppn (entry r1 root (va / 2 ^ 22)) ≡ target (entry r1 root (va / 2 ^ 22))
  unfolding from_ppn
  from_ppn-target linked =
      ground (arith, ready.space.entries (va / 2 ^ 22) hi, ready.present, ready.bump, linked)

  map_page-run :
      IsLinked k
      → first_level k root (va / 2 ^ 22) r ≡ ok r1
      → map_page k root va pa flags r ≡ ok mapped
  unfolding map_page
  map_page-run linked e =
      rw
        (
          is_aligned_lem 12 (omega arith) va,
          is_aligned_lem 12 (omega arith) pa,
          vpn1_lem va q.va_fits,
          q.va_aligned,
          q.pa_aligned,
          e,
        )
        (rw (from_ppn-target linked, vpn0_lem va, leaf_lem pa flags q.pa_aligned q.pa_fits q.small)
          refl)

  mapped-IsClear :
      (a : ℕ) → IsClear k r root a → (mapped.word a ≡ r.word a) × IsClear k mapped root a
  mapped-IsClear a c =
      let (same, c1) = ready.clear a c in
      let (kept, c2) =
        written-IsClear ready.space (va / 2 ^ 22) (va / 4096 % 1024) pte hi hj ready.present a c1 in
      (kept ∙ same, c2)

  mapped-IsMapped : IsMapped k root va pa flags r mapped
  mapped-IsMapped = record {
    space = written-IsSpace ready.space (va / 2 ^ 22) (va / 4096 % 1024) pte hi hj ready.present;
    bump = record {
      free = ready.bump.free;
      low = ready.bump.low;
      high = ready.bump.high;
      aligned = ready.bump.aligned;
    };
    taken = ready.taken;
    present = λ z. ready.present (
        sym (
          entry-written ready.space (va / 2 ^ 22) (va / 4096 % 1024) pte hi hj ready.present
            (va / 2 ^ 22) hi)
        ∙ z);
    kept = ready.kept;
    clear = mapped-IsClear;
    hit = mapped_hit;
    miss = λ x fits ne.
        walk-written_other ready.space (va / 2 ^ 22) (va / 4096 % 1024) pte hi hj ready.present x
          fits (page_differs x va fits q.va_fits ne)
        ∙ ready.same x fits;
  }

module _ (k : Symbols) (linked : IsLinked k) (r : Ram) (bump : IsBump k r) (root : ℕ)
    (space : IsSpace k r root) where
  -- With page-aligned 32-bit addresses, flags that fit ten bits and permit some access, and one
  -- free page left, `map_page` does not panic; the hardware then translates every address of the
  -- page to the frame, with the flags and the valid bit, and every other address as before; the
  -- tables stay well formed, and a page is taken from the allocator at most where the first level
  -- had no entry. No word outside the tables that was handed out before changes.
  pub map_page-IsMapped :
      (va pa flags : ℕ)
      → IsRequest va pa flags
      → frontier k r + 4096 ≤ k.free_ram_end
      → (r' : Ram) × (map_page k root va pa flags r ≡ ok r') × IsMapped k root va pa flags r r'
  unfolding map_page
  map_page-IsMapped va pa flags q room =
      let (r1, e, ready) =
        first_level_lem k linked r bump root (va / 2 ^ 22) space (omega arith) room in
      (mapped q ready, map_page-run q ready linked e, mapped-IsMapped q ready)

-- An address that is not page-aligned panics before anything is written.
pub map_page-unaligned :
    (k : Symbols) (r : Ram) (root va pa flags : ℕ)
    → (va % 4096 ≢ 0) ⊎ (pa % 4096 ≢ 0)
    → map_page k root va pa flags r ≡ panic assertion
unfolding map_page
map_page-unaligned k r root va pa flags (inl h) =
    rw (is_aligned_lem 12 (omega arith) va, ne→== (va % 4096) 0 h)
map_page-unaligned k r root va pa flags (inr h) =
    rw
      (
        is_aligned_lem 12 (omega arith) va,
        is_aligned_lem 12 (omega arith) pa,
        ne→== (pa % 4096) 0 h,
      )
      (elim (Bool-cases (va % 4096 == 0)) [ inl e ↦ rw e | inr e ↦ rw e ])

zeroed-IsSpace :
    (k : Symbols) (r : Ram) (p : ℕ) (r1 : Ram)
    → IsBump k r
    → Block k 4096 r p r1
    → IsSpace k (record r1 { word = zeroed r1.word p }) p
zeroed-IsSpace k r p r1 bump b = record {
  page = record {
    aligned = omega (arith, b.start, bump.aligned);
    low = omega (arith, b.start, bump.low);
    high = omega (arith, b.next);
  };
  entries = λ i hi. inl (ground arith);
  apart = λ i j hi hj ne. inl (ground arith);
}

-- With the linked layout, a ready allocator and a page of RAM left, `Box::new(PageTable::new())`
-- gives well-formed tables that translate no address; no word below the page changes, and each
-- of those words is outside the tables.
pub new_table-IsSpace :
    (k : Symbols) (r : Ram)
    → IsLinked k
    → IsBump k r
    → frontier k r + 4096 ≤ k.free_ram_end
    → (root : ℕ) × (r' : Ram) × (new_table k r ≡ ok (root, r'))
      × IsSpace k r' root
      × IsBump k r'
      × (frontier k r' ≡ frontier k r + 4096)
      × ((a : ℕ) → a < frontier k r → (r'.word a ≡ r.word a) × IsClear k r' root a)
      × ((va : ℕ) → va < 2 ^ 32 → walk r'.word root va ≡ none)
unfolding new_table
new_table-IsSpace k r linked bump room =
    let (p, r1, e, b) = alloc-Block k linked r bump 4096 (omega arith) in
    (
      p,
      record r1 { word = zeroed r1.word p },
      rw e,
      zeroed-IsSpace k r p r1 bump b,
      record {
        free = b.after.free;
        low = b.after.low;
        high = b.after.high;
        aligned = b.after.aligned;
      },
      omega (arith, b.next, b.start),
      λ a lo. (
        ground (arith, b.start, b.kept a),
        record {
          below = omega (arith, b.next, b.start);
          off_root = inl (omega (arith, b.start));
          off_tables = λ i hi. inl (ground arith);
        },
      ),
      λ va fits. walk_invalid (zeroed r1.word p) p va (ground arith),
    )
