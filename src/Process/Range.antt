-- ===== src/Process/Range.antt =====
-- The loops of `create_process` in kernel/src/process.rs that map a run of pages: the kernel's
-- pages to themselves, and the pages of a user image to the chunks of its copy.
use beyond_os1k.Base.{
  ℕ, zero, suc, ◌+◌, ◌-◌, ◌*◌, ◌/◌, ◌%◌, ◌^◌, ◌≤◌, ◌<◌, ◌≡◌, ◌≢◌, refl, sym, ◌∙◌, ◌⊎◌, inl, inr,
  arith, some, Outcome, ok, ap, ap₂, ◌==◌, ◌>>=◌, Bool-cases, ==→eq, ==→ne,
}
use native.Mathlib.Decide.{dec_lt}
use mathlib.Core.Path.{fun_ext}
use beyond_os1k.Allocator.{Symbols, IsLinked, Ram}
use beyond_os1k.Allocator.Bump.{frontier, IsBump}
use beyond_os1k.Page.{entry, map_page}
use beyond_os1k.Page.Walk.{walk}
use beyond_os1k.Page.Entry.{valid}
use beyond_os1k.Page.Space.{IsSpace, IsClear}
use beyond_os1k.Page.Mapping.{IsMapped, IsRequest, map_page-IsMapped}
use beyond_os1k.Process.{map_identity, map_chunks}

-- `n` pages from `va` on, mapped to the frames from `pa` on: both loops are instances.
unfoldable pub map_range : (k : Symbols) (root flags n va pa : ℕ) → Ram → Outcome Ram
map_range k root flags zero va pa r = ok r
map_range k root flags (suc n) va pa r = do
  r' ← map_page k root va pa flags r
  map_range k root flags n (va + 4096) (pa + 4096) r'

module _ (k : Symbols) (root : ℕ) where
  pub map_identity-map_range :
      (flags n va : ℕ) (r : Ram)
      → map_identity k root flags n va r ≡ map_range k root flags n va va r
  unfolding map_identity map_range
  map_identity-map_range flags zero va r = refl
  map_identity-map_range flags (suc n) va r =
      ap (λ f. map_page k root va va flags r >>= f)
        (fun_ext (λ r'. map_identity-map_range flags n (va + 4096) r'))

  pub map_chunks-map_range :
      (image_data n i : ℕ) (r : Ram)
      → map_chunks k root image_data n i r
        ≡ map_range k root 30 n (0x1000000 + i * 4096) (image_data + i * 4096) r
  unfolding map_chunks map_range
  map_chunks-map_range image_data zero i r = refl
  map_chunks-map_range image_data (suc n) i r =
      ap (λ f. map_page k root (0x1000000 + i * 4096) (image_data + i * 4096) 30 r >>= f)
        (fun_ext (λ r'.
          map_chunks-map_range image_data n (i + 1) r'
          ∙ ap₂ (λ va pa. map_range k root 30 n va pa r') (omega arith) (omega arith)))

-- `n` pages from `va` on are mapped to the frames from `pa` on, and nothing else is changed.
pub record IsRange (k : Symbols) (top root flags n va pa : ℕ) (r r' : Ram) : Type 0 where
  pub space : IsSpace k r' root
  pub bump : IsBump k r'
  pub room : frontier k r' + 4096 ≤ top
  pub above : frontier k r ≤ frontier k r'
  pub clear : (a : ℕ) → IsClear k r root a → (r'.word a ≡ r.word a) × IsClear k r' root a
  pub hit : (o : ℕ) → o < 4096 * n → walk r'.word root (va + o) ≡ some (pa + o, valid flags)
  pub miss :
      (x : ℕ)
      → x < 2 ^ 32
      → (x < va) ⊎ (va + 4096 * n ≤ x)
      → walk r'.word root x ≡ walk r.word root x

-- What the tables of the regions up to `last`, of 4 MB each, still need: one page for each, but for
-- the region of `va` if it has its table; and another page, all below `top`.
abbrev pub Budget : Symbols → (top root va last : ℕ) → Ram → Type 0
Budget k top root va last r =
    ((entry r root (va / 2 ^ 22) ≢ 0) × (frontier k r + 4096 * (last - va / 2 ^ 22) + 4096 ≤ top))
    ⊎ (frontier k r + 4096 * (last + 1 - va / 2 ^ 22) + 4096 ≤ top)

module _ (k : Symbols) (linked : IsLinked k) (top : ℕ) (within : top ≤ k.free_ram_end)
    (root flags last : ℕ) (small : flags < 1024) (leaf : flags / 2 % 8 ≢ 0) where
  Budget-left :
      (va pa : ℕ) (r r' : Ram)
      → Budget k top root va last r
      → IsMapped k root va pa flags r r'
      → va / 2 ^ 22 ≤ last
      → Budget k top root (va + 4096) last r'
  Budget-left va pa r r' budget m here = elim (Bool-cases ((va + 4096) / 2 ^ 22 == va / 2 ^ 22)) [
    | inl same ↦
        let region : (va + 4096) / 2 ^ 22 ≡ va / 2 ^ 22 = ==→eq _ _ same in
        inl (
          λ z. m.present (ap (entry r' root) (sym region) ∙ z),
          elim budget [
            | inl (there, left) ↦ omega (arith, m.kept there)
            | inr left ↦ omega (arith, m.taken)
          ],
        )
    | inr other ↦
        let region : (va + 4096) / 2 ^ 22 ≢ va / 2 ^ 22 = ==→ne _ _ other in
        inr (elim budget [
          | inl (there, left) ↦ omega (arith, m.kept there)
          | inr left ↦ omega (arith, m.taken)
        ])
  ]

  pub map_range_lem :
      (n va pa : ℕ) (r : Ram)
      → IsBump k r
      → IsSpace k r root
      → (va % 4096 ≡ 0) × (pa % 4096 ≡ 0)
      → (va + 4096 * n ≤ 2 ^ 32) × (pa + 4096 * n ≤ 2 ^ 32)
      → (va + 4096 * n - 1) / 2 ^ 22 ≤ last
      → Budget k top root va last r
      → (r' : Ram) × (map_range k root flags n va pa r ≡ ok r')
        × IsRange k top root flags n va pa r r'
  unfolding map_range
  map_range_lem zero va pa r bump space aligned fits up budget = (
    r,
    refl,
    record {
      space = space;
      bump = bump;
      room = elim budget [ inl (there, left) ↦ omega arith | inr left ↦ omega arith ];
      above = omega arith;
      clear = λ a c. (refl, c);
      hit = λ o h. absurd (omega arith);
      miss = λ x fits out. refl;
    },
  )
  map_range_lem (suc n) va pa r bump space aligned fits up budget =
      let request : IsRequest va pa flags = record {
        va_aligned = aligned.0;
        pa_aligned = aligned.1;
        va_fits = omega arith;
        pa_fits = omega arith;
        small = small;
        leaf = leaf;
      } in
      let (r1, e, m) =
        map_page-IsMapped k linked r bump root space va pa flags request
          (elim budget [ inl (there, left) ↦ omega arith | inr left ↦ omega arith ]) in
      let (r2, ran, rest) =
        map_range_lem n (va + 4096) (pa + 4096) r1 m.bump m.space (omega arith) (omega arith)
          (omega arith) (Budget-left va pa r r1 budget m (omega arith)) in
      (
        r2,
        rw e ran,
        record {
          space = rest.space;
          bump = rest.bump;
          room = rest.room;
          above = omega (arith, m.taken, rest.above);
          clear = λ a c.
              let (same, c1) = m.clear a c in let (kept, c2) = rest.clear a c1 in (kept ∙ same, c2);
          hit = λ o h. elim (dec_lt o 4096) [
            | yes first ↦ rest.miss (va + o) (omega arith) (inl (omega arith)) ∙ m.hit o first
            | no later ↦
                ap (walk r2.word root) (omega arith)
                ∙ rest.hit (o - 4096) (omega arith)
                ∙ ap (λ (y : ℕ). some (y, valid flags)) (omega arith)
          ];
          miss = λ x low out.
              rest.miss x low (elim out [ inl h ↦ inl (omega arith) | inr h ↦ inr (omega arith) ])
              ∙ m.miss x low (elim out [ inl h ↦ omega arith | inr h ↦ omega arith ]);
        },
      )
