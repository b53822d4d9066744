-- ===== src/Process/Image.antt =====
-- The copy of a user image that `create_process` of kernel/src/process.rs maps: `to_vec`, `resize`
-- and `into_boxed_slice`.
use beyond_os1k.Base.{
  ℕ, ◌+◌, ◌-◌, ◌%◌, ◌≤◌, ◌<◌, ◌≡◌, refl, ◌∙◌, inl, inr, arith, ok, min, ltb, Bool-cases,
  if◌then◌else◌,
}
use native.Mathlib.Nat.{min-eq_left, min-eq_right}
use beyond_os1k.Allocator.{Symbols, IsLinked, Ram, alloc}
use beyond_os1k.Allocator.Bump.{frontier, IsBump, alloc-Block, pages}
use beyond_os1k.Process.{byte, put_bytes, copy, realloc, copy_image}
use beyond_os1k.Process.Bytes.{byte-agree, put_bytes-outside, byte-put_bytes, byte-copy}

-- `q` is a new block of `size` bytes, the first `n` of which are those at `src`.
record IsMoved (k : Symbols) (src n size : ℕ) (r : Ram) (q : ℕ) (r' : Ram) : Type 0 where
  start : q ≡ frontier k r
  next : frontier k r' ≡ q + pages size
  bump : IsBump k r'
  kept : (a : ℕ) → a < frontier k r → r'.word a ≡ r.word a
  content : (x : ℕ) → x < n → byte r'.word (q + x) ≡ byte r.word (src + x)

module _ (k : Symbols) (linked : IsLinked k) where
  -- an allocation, and the copy of `n` bytes that were handed out before
  moved_lem :
      (src n size : ℕ) (r : Ram)
      → IsBump k r
      → n ≤ size
      → src + n ≤ frontier k r
      → frontier k r + pages size ≤ k.free_ram_end
      → (q : ℕ) × (r1 : Ram) × (alloc k size r ≡ ok (q, r1))
        × IsMoved k src n size r q (record r1 { word = copy r1.word q src n })
  moved_lem src n size r bump le source room =
      let (q, r1, e, b) = alloc-Block k linked r bump size (omega arith) in
      let at : q % 4 ≡ 0 = omega (arith, b.start, bump.aligned) in
      (
        q,
        r1,
        e,
        record {
          start = b.start;
          next = b.next;
          bump = record {
            free = b.after.free;
            low = b.after.low;
            high = b.after.high;
            aligned = b.after.aligned;
          };
          kept = λ a lo.
              put_bytes-outside r1.word q n (λ y. byte r1.word (src + (y - q))) a
                (inl (omega (arith, b.start)))
              ∙ b.kept a (inl (omega (arith, b.start)));
          content = λ x h.
              byte-copy r1.word q src n x h
              ∙ byte-agree r.word r1.word (src + x) (b.kept _ (inl (omega (arith, b.start))));
        },
      )

-- `q` is a copy of the image in whole pages: its bytes, and zeros up to the `n` bytes of the pages.
pub record IsImage (k : Symbols) (top image image_size n : ℕ) (r : Ram) (q : ℕ) (r' : Ram)
    : Type 0 where
  pub aligned : q % 4096 ≡ 0
  pub start : frontier k r ≤ q
  pub end : q + n ≤ frontier k r'
  pub room : frontier k r' ≤ top
  pub bump : IsBump k r'
  pub kept : (a : ℕ) → a < frontier k r → r'.word a ≡ r.word a
  pub content : (x : ℕ) → x < image_size → byte r'.word (q + x) ≡ byte r.word (image + x)
  pub zeros : (x : ℕ) → image_size ≤ x → x < n → byte r'.word (q + x) ≡ 0

-- the block of `resize`, with its zeros
abbrev resized : (image_size n q : ℕ) → Ram → Ram
resized image_size n q r = record r {
  word = put_bytes r.word (q + image_size) (n - image_size) (λ x. 0);
}

module _ (k : Symbols) (linked : IsLinked k) (top : ℕ) (within : top ≤ k.free_ram_end)
    (image image_size n : ℕ) where
  module _ {r r1 r2 : Ram} {p q cap : ℕ} (le : n ≤ cap)
      (m1 : IsMoved k image image_size image_size r p r1) (m2 : IsMoved k p image_size cap r1 q r2)
      (room : frontier k r2 ≤ top - n) where
    resized-IsImage :
        image_size ≤ n → IsImage k (top - n) image image_size n r q (resized image_size n q r2)
    resized-IsImage small = record {
      aligned = omega (arith, m1.next, m2.start, m1.bump.aligned);
      start = omega (arith, m1.start, m1.next, m2.start);
      end = omega (arith, m2.next);
      room = room;
      bump = record {
        free = m2.bump.free;
        low = m2.bump.low;
        high = m2.bump.high;
        aligned = m2.bump.aligned;
      };
      kept = λ a lo.
          put_bytes-outside r2.word (q + image_size) (n - image_size) (λ x. 0) a
            (inl (omega (arith, m1.start, m1.next, m2.start, m1.bump.aligned)))
          ∙ m2.kept a (omega (arith, m1.start, m1.next))
          ∙ m1.kept a lo;
      content = λ x h.
          byte-put_bytes r2.word (q + image_size) (n - image_size) (λ x. 0) (λ x. omega arith)
            (q + x)
          ∙ (ground arith)
          ∙ m2.content x h
          ∙ m1.content x h;
      zeros = λ x lo hi.
          byte-put_bytes r2.word (q + image_size) (n - image_size) (λ x. 0) (λ x. omega arith)
            (q + x)
          ∙ ground arith;
    }

  IsImage-le :
      {low q : ℕ} {r r' : Ram}
      → IsImage k low image image_size n r q r'
      → low ≤ top
      → IsImage k top image image_size n r q r'
  IsImage-le i le = record {
    aligned = i.aligned;
    start = i.start;
    end = i.end;
    room = omega (arith, i.room);
    bump = i.bump;
    kept = i.kept;
    content = i.content;
    zeros = i.zeros;
  }

  -- A copy into another block of which a prefix is used; its bytes up to `n` are kept.
  shrunk-IsImage :
      {r r1 r2 : Ram} {low p q : ℕ}
      → image_size ≤ n
      → n % 4096 ≡ 0
      → IsImage k low image image_size n r p r1
      → IsMoved k p n n r1 q r2
      → frontier k r2 ≤ top
      → IsImage k top image image_size n r q r2
  shrunk-IsImage small whole i m room = record {
    aligned = omega (arith, m.start, i.bump.aligned);
    start = omega (arith, m.start, i.start, i.end);
    end = omega (arith, m.next);
    room = room;
    bump = m.bump;
    kept = λ a lo. m.kept a (omega (arith, i.start, i.end)) ∙ i.kept a lo;
    content = λ x h. m.content x (omega arith) ∙ i.content x h;
    zeros = λ x lo hi. m.content x hi ∙ i.zeros x lo hi;
  }

  -- An image of whole pages is copied once.
  whole-IsImage :
      {r r1 : Ram} {p : ℕ}
      → n ≤ image_size
      → IsMoved k image image_size image_size r p r1
      → frontier k r1 ≤ top
      → IsImage k top image image_size n r p r1
  whole-IsImage {r} {r1} {p} le m room = record {
    aligned = omega (arith, m.next, m.bump.aligned);
    start = omega (arith, m.start);
    end = omega (arith, m.next);
    room = room;
    bump = m.bump;
    kept = m.kept;
    content = m.content;
    zeros = λ x lo hi. absurd (omega arith);
  }

  -- What `into_boxed_slice` makes of it.
  boxed_lem :
      {r r2 : Ram} {q : ℕ} (cap : ℕ)
      → n ≤ cap
      → image_size ≤ n
      → n % 4096 ≡ 0
      → IsImage k (top - n) image image_size n r q r2
      → n ≤ top
      → (q' : ℕ) × (r' : Ram) × ((if ltb n cap then realloc k q cap n r2 else ok (q, r2))
          ≡ ok (q', r'))
        × IsImage k top image image_size n r q' r'
  unfolding realloc
  boxed_lem {r} {r2} {q} cap le small whole i fits = elim (Bool-cases (ltb n cap)) [
    | inl shrinks ↦
        let (q', r3, e, m) =
          moved_lem k linked q n n r2 i.bump (omega arith) i.end (omega (arith, i.room)) in
        (
          q',
          record r3 { word = copy r3.word q' q n },
          rw (shrinks, e, min-eq_right le) refl,
          shrunk-IsImage small whole i m (omega (arith, i.room, m.start, m.next)),
        )
    | inr full ↦ (q, r2, rw full refl, IsImage-le i (omega arith))
  ]

  -- With room for the copy, for what `grow` makes of it and for the whole pages.
  module _ (grow : ℕ → ℕ → ℕ) (enough : n ≤ grow image_size n) where
    grown_lem :
        {r r1 : Ram} {p : ℕ}
        → IsMoved k image image_size image_size r p r1
        → image_size ≤ n
        → n % 4096 ≡ 0
        → frontier k r1 + pages (grow image_size n) + n ≤ top
        → (q : ℕ) × (r2 : Ram) × (realloc k p image_size (grow image_size n) r1 ≡ ok (q, r2))
          × (q' : ℕ) × (r' : Ram) × ((if ltb n (grow image_size n)
                then realloc k q (grow image_size n) n (resized image_size n q r2)
                else ok (q, resized image_size n q r2))
              ≡ ok (q', r'))
          × IsImage k top image image_size n r q' r'
    unfolding realloc
    grown_lem {r} {r1} {p} m1 small whole room =
        let (q, r2, e2, m2) =
          moved_lem k linked p image_size (grow image_size n) r1 m1.bump (omega arith)
            (omega (arith, m1.start, m1.next)) (omega arith) in
        let min_small : min image_size (grow image_size n) ≡ image_size =
          min-eq_left (omega arith) in
        let (q', r', run, i) =
          boxed_lem (grow image_size n) enough small whole
            (resized-IsImage enough m1 m2 (omega (arith, m1.next, m2.start, m2.next)) small)
            (omega arith) in
        (
          q,
          record r2 { word = copy r2.word q p image_size },
          rw (e2, min_small) refl,
          q',
          r',
          run,
          i,
        )

    pub copy_image_lem :
        (r : Ram)
        → IsBump k r
        → image + image_size ≤ frontier k r
        → image_size ≤ n
        → n % 4096 ≡ 0
        → frontier k r + pages image_size + pages (grow image_size n) + n ≤ top
        → (q : ℕ) × (r' : Ram) × (copy_image k grow image image_size n r ≡ ok (q, r'))
          × IsImage k top image image_size n r q r'
    unfolding copy_image
    copy_image_lem r bump source small whole room =
        let (p, r1, e1, m1) =
          moved_lem k linked image image_size image_size r bump (omega arith) source
            (omega arith) in
        elim (Bool-cases (ltb image_size n)) [
          | inl grows ↦
              let (q, r2, e2, q', r', run, i) =
                grown_lem m1 small whole (omega (arith, m1.start, m1.next)) in
              (q', r', rw (e1, grows, e2) run, i)
          | inr fits ↦ (
            p,
            record r1 { word = copy r1.word p image image_size },
            rw (e1, fits) refl,
            whole-IsImage (ground arith) m1 (omega (arith, m1.start, m1.next)),
          )
        ]
