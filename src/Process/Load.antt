-- ===== src/Process/Load.antt =====
-- The part of `create_process` in kernel/src/process.rs that loads a user image: its copy, and the
-- pages that map the copy at USER_BASE.
use beyond_os1k.Base.{
  ℕ, ◌+◌, ◌-◌, ◌*◌, ◌/◌, ◌%◌, ◌^◌, ◌≤◌, ◌<◌, ◌≡◌, refl, ◌∙◌, ◌⊎◌, inl, inr, arith, ap, ok, some,
}
use beyond_os1k.Address.{align_up}
use beyond_os1k.Allocator.{Symbols, IsLinked, Ram}
use beyond_os1k.Allocator.Bump.{frontier, IsBump, pages, align_up-pages}
use beyond_os1k.Page.Agree.{walk-agree, agree-IsSpace, fresh-IsClear, agree-IsClear}
use beyond_os1k.Page.Walk.{walk}
use beyond_os1k.Page.Space.{IsSpace, IsClear}
use beyond_os1k.Process.{byte, copy_image, map_image}
use beyond_os1k.Process.Bytes.{byte-agree}
use beyond_os1k.Process.Image.{IsImage, copy_image_lem}
use beyond_os1k.Process.Range.{IsRange, map_range, map_range_lem, map_chunks-map_range}

-- The pages from USER_BASE on stand at `q`, a new block; they are open to the user for reading,
-- writing and execution, and hold the image, with zeros behind it.
pub record IsUser (image image_size q root : ℕ) (word word' : ℕ → ℕ) : Type 0 where
  pub mapped : (o : ℕ) → o < pages image_size → walk word' root (0x1000000 + o) ≡ some (q + o, 31)
  pub content : (x : ℕ) → x < image_size → byte word' (q + x) ≡ byte word (image + x)
  pub zeros : (x : ℕ) → image_size ≤ x → x < pages image_size → byte word' (q + x) ≡ 0

-- What the loading leaves behind.
pub record IsLoaded (k : Symbols) (top image image_size q root : ℕ) (r r' : Ram) : Type 0 where
  pub space : IsSpace k r' root
  pub bump : IsBump k r'
  pub start : frontier k r ≤ q
  pub aligned : q % 4096 ≡ 0
  pub end : q + pages image_size ≤ frontier k r'
  pub room : frontier k r' ≤ top
  pub clear : (a : ℕ) → IsClear k r root a → (r'.word a ≡ r.word a) × IsClear k r' root a
  pub user : IsUser image image_size q root r.word r'.word
  pub others :
      (x : ℕ)
      → x < 2 ^ 32
      → (x < 0x1000000) ⊎ (0x1000000 + pages image_size ≤ x)
      → walk r'.word root x ≡ walk r.word root x

module _ (k : Symbols) (linked : IsLinked k) (top : ℕ) (within : top ≤ k.free_ram_end)
    (image image_size root : ℕ) where
  module _ {r r1 r2 : Ram} {q : ℕ} (space : IsSpace k r root)
      (i : IsImage k (top - 2 * 4096) image image_size (pages image_size) r q r1)
      (m : IsRange k top root 30 (pages image_size / 4096) 0x1000000 q r1 r2) where
    grown : frontier k r ≤ frontier k r1
    grown = omega (arith, i.start, i.end)

    same : (a : ℕ) → k.free_ram ≤ a → a < frontier k r → r1.word a ≡ r.word a
    same a lo hi = i.kept a hi

    byte_kept : (x : ℕ) → x < pages image_size → byte r2.word (q + x) ≡ byte r1.word (q + x)
    byte_kept x h =
        let a = q + x - (q + x) % 4 in
        byte-agree r1.word r2.word (q + x)
          (m.clear a (
            fresh-IsClear space r1 grown same a (omega (arith, i.start, i.aligned))
              (omega (arith, i.end)))).0

    range-IsLoaded : IsLoaded k top image image_size q root r r2
    range-IsLoaded = record {
      space = m.space;
      bump = m.bump;
      start = i.start;
      aligned = i.aligned;
      end = omega (arith, i.end, m.above);
      room = omega (arith, m.room);
      clear = λ a c.
          let (kept, c') = m.clear a (agree-IsClear space r1 grown same a c) in
          (kept ∙ i.kept a c.below, c');
      user = record {
        mapped = λ o h. m.hit o (omega arith);
        content = λ x h. byte_kept x (omega arith) ∙ i.content x h;
        zeros = λ x lo hi. byte_kept x hi ∙ i.zeros x lo hi;
      };
      others = λ x fits out.
          m.miss x fits (elim out [ inl h ↦ inl h | inr h ↦ inr (omega arith) ])
          ∙ walk-agree space r1.word same x fits;
    }

  module _ (grow : ℕ → ℕ → ℕ) (enough : pages image_size ≤ grow image_size (pages image_size)) where
    map_image-run :
        (r r1 r2 : Ram) (q : ℕ)
        → image_size ≤ 0x400000
        → copy_image k grow image image_size (pages image_size) r ≡ ok (q, r1)
        → map_range k root 30 (pages image_size / 4096) 0x1000000 q r1 ≡ ok r2
        → map_image k grow root image image_size r ≡ ok r2
    unfolding map_image align_up
    map_image-run r r1 r2 q small copied ran = rw (align_up-pages image_size (omega arith)) (
        rw copied (
          map_chunks-map_range k root q (pages image_size / 4096) 0 r1
          ∙ ap (λ a. map_range k root 30 (pages image_size / 4096) 0x1000000 a r1) (omega arith)
          ∙ ran))

    -- With room for the copies and the tables, the loading of an image of at most 4 MB does not
    -- panic, and leaves it behind the pages from USER_BASE on.
    pub map_image_lem :
        (r : Ram)
        → IsBump k r
        → IsSpace k r root
        → image + image_size ≤ frontier k r
        → image_size ≤ 0x400000
        → frontier k r
            + 2 * pages image_size
            + pages (grow image_size (pages image_size))
            + 2 * 4096
          ≤ top
        → (q : ℕ) × (r' : Ram) × (map_image k grow root image image_size r ≡ ok r')
          × IsLoaded k top image image_size q root r r'
    map_image_lem r bump space source small room =
        let n = pages image_size in
        let (q, r1, e, i) =
          copy_image_lem k linked (top - 2 * 4096) (omega arith) image image_size n grow enough r
            bump source (omega arith) (omega arith) (omega arith) in
        let (r2, ran, m) =
          map_range_lem k linked top within root 30 4 (omega arith) (omega arith) (n / 4096)
            0x1000000 q r1 i.bump
            (agree-IsSpace space r1 (omega (arith, i.start, i.end)) (λ a lo hi. i.kept a hi))
            (refl, i.aligned)
            (omega arith, omega (arith, i.end, i.bump.high, linked.size, linked.room)) (omega arith)
            (inr (omega (arith, i.room))) in
        (q, r2, map_image-run r r1 r2 q small e ran, range-IsLoaded space i m)
