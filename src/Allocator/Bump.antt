-- ===== src/Allocator/Bump.antt =====
-- What `alloc` of kernel/src/allocator.rs hands out.
use beyond_os1k.Base.{
  ℕ, ◌+◌, ◌-◌, ◌*◌, ◌/◌, ◌%◌, ◌^◌, ◌≤◌, ◌<◌, ◌≡◌, refl, ◌⊎◌, inl, inr, sym, ◌∙◌, arith, false, some,
  List, [], ◌∷◌, Outcome, ok, panic, out_of_memory, fault, ◌>>=◌, All, leb, leb→le, Bool-cases,
  >>=-eq-ok, ok-injective,
}
use mathlib.Core.Path.{subst}
use beyond_os1k.Address.{align_up}
use beyond_os1k.Address.Align.{align_up_lem}
use beyond_os1k.Allocator.{Symbols, IsLinked, Ram, or_insert, fill, alloc}

-- the address of the next block
abbrev pub frontier : Symbols → Ram → ℕ
frontier k r = or_insert r.next.value k.free_ram

-- Between calls the lock is free and the frontier is a page boundary of the free RAM.
pub record IsBump (k : Symbols) (r : Ram) : Type 0 where
  pub free : r.next.is_locked ≡ false
  pub low : k.free_ram ≤ frontier k r
  pub high : frontier k r ≤ k.free_ram_end
  pub aligned : frontier k r % 4096 ≡ 0

-- `n` rounded up to whole pages
abbrev pub pages : ℕ → ℕ
pages n = (n + 4095) / 4096 * 4096

pub align_up-pages : (n : ℕ) → n + 4095 < 2 ^ 32 → align_up n 4096 ≡ pages n
align_up-pages n h = omega (arith, align_up_lem 12 (omega arith) n)

-- The block that `alloc` returns, and what the call leaves behind.
pub record Block (k : Symbols) (size : ℕ) (r : Ram) (p : ℕ) (r' : Ram) : Type 0 where
  pub start : p ≡ frontier k r
  pub next : frontier k r' ≡ p + pages size
  pub filled : (a : ℕ) → p ≤ a → a < p + pages size → r'.word a ≡ 0x55555555
  pub kept : (a : ℕ) → (a < p) ⊎ (p + pages size ≤ a) → r'.word a ≡ r.word a
  pub after : IsBump k r'

module _ (k : Symbols) (linked : IsLinked k) (r : Ram) (bump : IsBump k r) where
  abbrev bumped : ℕ → Ram
  bumped size = record {
    next = record { is_locked = false; value = some (frontier k r + pages size) };
    word = fill r.word (frontier k r) (pages size);
  }

  -- With the linked layout and a ready allocator, a request that the rest of the free RAM can hold
  -- is met: the block starts at the frontier,
  -- which moves behind its pages, the block holds 0x55 bytes, no other word changes, and the
  -- allocator is ready for the next call.
  pub alloc-Block :
      (size : ℕ)
      → size ≤ k.free_ram_end - frontier k r
      → (p : ℕ) × (r' : Ram) × (alloc k size r ≡ ok (p, r')) × Block k size r p r'
  unfolding alloc
  alloc-Block size fits = (
    frontier k r,
    bumped size,
    ground (arith, align_up-pages size),
    record {
      start = refl;
      next = refl;
      filled = ground arith;
      kept = ground arith;
      after = ground arith;
    },
  )

  -- With the linked layout and a ready allocator, a request of at most 0x70000000 bytes that the
  -- rest of the free RAM cannot hold panics.
  pub alloc-out_of_memory :
      (size : ℕ)
      → k.free_ram_end - frontier k r < size
      → size ≤ 0x70000000
      → alloc k size r ≡ panic out_of_memory
  unfolding alloc
  alloc-out_of_memory size over small = ground (arith, align_up-pages size)

  -- With the linked layout and a ready allocator, a request below 2 ^ 31 bytes whose padded size
  -- reaches the end of the address space, which the free RAM cannot hold, is not reported as out of
  -- memory: the sum has wrapped, and the call ends in the fault of the filling.
  pub alloc_wraps :
      (size : ℕ)
      → size < 2 ^ 31
      → 2 ^ 32 ≤ frontier k r + pages size
      → (k.free_ram_end < frontier k r + size) × (alloc k size r ≡ panic fault)
  unfolding alloc
  alloc_wraps size small over = (omega arith, ground (arith, align_up-pages size))

  -- Whatever `alloc` returns for such a request is a block within the free RAM.
  pub alloc-ok :
      (size : ℕ) {p : ℕ} {r' : Ram}
      → size ≤ 0x70000000
      → alloc k size r ≡ ok (p, r')
      → Block k size r p r' × (p + size ≤ k.free_ram_end)
  alloc-ok size {p} {r'} small done = elim (Bool-cases (leb size (k.free_ram_end - frontier k r))) [
    | inl fits ↦
        let (p0, r0, e, b) = alloc-Block size (leb→le _ _ fits) in
        let same : ◌≡◌ {A = ℕ × Ram} (p0, r0) (p, r') = ok-injective (sym e ∙ done) in
        let moved : Block k size r p r' = subst (λ (x : ℕ × Ram). Block k size r x.0 x.1) same b in
        (moved, omega (arith, moved.start, leb→le _ _ fits))
    | inr over ↦ cc (alloc-out_of_memory size (ground arith) small)
  ]

module _ {k : Symbols} {n p : ℕ} {r r' : Ram} (b : Block k n r p r') where
  Block-le : p + n ≤ frontier k r'
  Block-le = omega (arith, b.next)

  Block-aligned : frontier k r % 4096 ≡ 0 → (frontier k r ≤ p) × (p % 4096 ≡ 0)
  Block-aligned h = omega (arith, b.start)

-- Blocks, each with its size, in rising order from `lo`: page-aligned, disjoint, below `end`.
abbrev pub InOrder : ℕ → ℕ → List (ℕ × ℕ) → Type 0
InOrder end lo [] = lo ≤ end
InOrder end lo ((p, n) ∷ bs) = (lo ≤ p) × (p % 4096 ≡ 0) × InOrder end (p + n) bs

-- A run of requests, with the address that each was given.
unfoldable pub allocs : Symbols → List ℕ → Ram → Outcome (List (ℕ × ℕ) × Ram)
allocs k [] r = ok ([], r)
allocs k (n ∷ ns) r = do (p, r') ← alloc k n r; (bs, r'') ← allocs k ns r'; ok ((p, n) ∷ bs, r'')

InOrder-le :
    (end lo lo' : ℕ) (bs : List (ℕ × ℕ)) → lo' ≤ lo → InOrder end lo bs → InOrder end lo' bs
InOrder-le end lo lo' [] h o = omega arith
InOrder-le end lo lo' ((p, n) ∷ bs) h o = (omega arith, o.1, o.2)

-- From a ready allocator with the linked layout, any run of requests of at most 0x70000000 bytes
-- each that ends without a panic has handed out page-aligned blocks that lie in the free RAM and
-- do not overlap, and leaves the allocator ready.
pub allocs-InOrder :
    (k : Symbols) (ns : List ℕ) (r : Ram) {bs : List (ℕ × ℕ)} {r' : Ram}
    → IsLinked k
    → IsBump k r
    → All (λ n. n ≤ 0x70000000) ns
    → allocs k ns r ≡ ok (bs, r')
    → InOrder k.free_ram_end (frontier k r) bs × IsBump k r'
unfolding allocs
allocs-InOrder k [] r linked bump small done =
    subst (λ (x : List (ℕ × ℕ) × Ram). InOrder k.free_ram_end (frontier k r) x.0 × IsBump k x.1)
      (ok-injective done) (bump.high, bump)
allocs-InOrder k (n ∷ ns) r linked bump small done =
    let ((p, r1), e1, f1) = >>=-eq-ok (alloc k n r) _ done in
    let ((bs, r2), e2, f2) = >>=-eq-ok (allocs k ns r1) _ f1 in
    let (b, inside) = alloc-ok k linked r bump n small.0 e1 in
    let (order, after) = allocs-InOrder k ns r1 linked b.after small.1 e2 in
    let behind = InOrder-le k.free_ram_end (frontier k r1) (p + n) bs (Block-le b) order in
    subst (λ (x : List (ℕ × ℕ) × Ram). InOrder k.free_ram_end (frontier k r) x.0 × IsBump k x.1)
      (ok-injective f2) (let (le, al) = Block-aligned b bump.aligned in (le, al, behind), after)
