-- ===== src/Process/KernelTables.antt =====
-- What `create_process` of kernel/src/process.rs sets up for a kernel process.
use beyond_os1k.Base.{
  ℕ, ◌+◌, ◌-◌, ◌*◌, ◌/◌, ◌^◌, ◌≤◌, ◌<◌, ◌≡◌, ◌≢◌, refl, ◌∙◌, ◌⊎◌, inl, inr, arith, none, some, List,
  length, set, bit_or, ok, ap, sym,
}
use beyond_os1k.SpinLock.{new, lock, drop_guard}
use beyond_os1k.Allocator.{Symbols, IsLinked, Ram}
use beyond_os1k.Allocator.Bump.{frontier, IsBump}
use beyond_os1k.Page.{new_table, map_page}
use beyond_os1k.Page.Walk.{walk}
use beyond_os1k.Page.Agree.{walk-agree, agree-IsSpace}
use beyond_os1k.Page.Space.{IsSpace, IsClear}
use beyond_os1k.Page.Mapping.{IsMapped, IsRequest, map_page-IsMapped, new_table-IsSpace}
use beyond_os1k.Scheduler.{Process, runnable}
use beyond_os1k.Riscv.Blocks.{put_words, words, words-put_words, put_words-outside}
use beyond_os1k.Process.{map_identity, create_process, first_unused, first_regs, satp_sv32}
use beyond_os1k.Process.Range.{IsRange, map_range_lem, map_identity-map_range}

-- Page tables for the kernel: every page of it and of the free RAM stands at its own address, as
-- the device does, and no other address is mapped.
pub record IsKernel (k : Symbols) (root : ℕ) (word : ℕ → ℕ) : Type 0 where
  pub kernel : (x : ℕ) → k.kernel_base ≤ x → x < k.free_ram_end → walk word root x ≡ some (x, 15)
  pub device : (o : ℕ) → o < 4096 → walk word root (0x10001000 + o) ≡ some (0x10001000 + o, 7)
  pub others :
      (x : ℕ)
      → x < 2 ^ 32
      → (x < k.kernel_base) ⊎ (k.free_ram_end ≤ x)
      → x / 4096 ≢ 0x10001
      → walk word root x ≡ none

-- What the tables of a new process leave behind.
pub record IsTables (k : Symbols) (root : ℕ) (r r' : Ram) : Type 0 where
  pub space : IsSpace k r' root
  pub bump : IsBump k r'
  pub taken : (frontier k r ≤ frontier k r') × (frontier k r' ≤ frontier k r + 36 * 4096)
  pub kept : (a : ℕ) → a < frontier k r → (r'.word a ≡ r.word a) × IsClear k r' root a
  pub kernel : IsKernel k root r'.word

module _ (k : Symbols) (linked : IsLinked k) where
  abbrev count : ℕ
  count = (k.free_ram_end - k.kernel_base + 4095) / 4096

  whole : k.kernel_base + 4096 * count ≡ k.free_ram_end
  whole = omega (arith, linked.base, linked.size, linked.aligned, linked.above)

  device-IsRequest : IsRequest 0x10001000 0x10001000 6
  device-IsRequest = record {
    va_aligned = refl;
    pa_aligned = refl;
    va_fits = omega arith;
    pa_fits = omega arith;
    small = omega arith;
    leaf = omega arith;
  }

  module _ {top root : ℕ} {r1 r2 r3 : Ram}
      (none1 : (va : ℕ) → va < 2 ^ 32 → walk r1.word root va ≡ none)
      (m2 : IsRange k top root 14 count k.kernel_base k.kernel_base r1 r2)
      (m3 : IsMapped k root 0x10001000 0x10001000 6 r2 r3) where
    tables-IsKernel : IsKernel k root r3.word
    tables-IsKernel = record {
      kernel = λ x lo hi.
          m3.miss x (omega (arith, linked.size, linked.room)) (omega (arith, linked.base))
          ∙ ap (walk r2.word root) (omega arith)
          ∙ m2.hit (x - k.kernel_base) (omega (arith, whole))
          ∙ ap (λ (y : ℕ). some (y, 15)) (omega arith);
      device = λ o h. m3.hit o h;
      others = λ x fits out ne.
          m3.miss x fits (omega arith)
          ∙ m2.miss x fits (elim out [ inl h ↦ inl h | inr h ↦ inr (omega (arith, whole)) ])
          ∙ none1 x fits;
    }

  -- The tables that a new process starts with.
  pub tables_lem :
      (r : Ram)
      → IsBump k r
      → frontier k r + 36 * 4096 ≤ k.free_ram_end
      → (root : ℕ) × (r1 : Ram) × (r2 : Ram) × (r3 : Ram) × (new_table k r ≡ ok (root, r1))
        × (map_identity k root 14 count k.kernel_base r1 ≡ ok r2)
        × (map_page k root 0x10001000 0x10001000 6 r2 ≡ ok r3)
        × IsTables k root r r3
  tables_lem r bump room =
      let (root, r1, made, space1, bump1, taken1, kept1, none1) =
        new_table-IsSpace k r linked bump (omega arith) in
      let (r2, ran, m2) =
        map_range_lem k linked (frontier k r + 36 * 4096) room root 14 544 (omega arith)
          (omega arith) count k.kernel_base k.kernel_base r1 bump1 space1
          (omega (arith, linked.base)) (omega (arith, whole, linked.size, linked.room))
          (omega (arith, whole, linked.size, linked.room)) (inr (omega (arith, linked.base))) in
      let (r3, mapped, m3) =
        map_page-IsMapped k linked r2 m2.bump root m2.space 0x10001000 0x10001000 6 device-IsRequest
          (omega (arith, m2.room, room)) in
      (
        root,
        r1,
        r2,
        r3,
        made,
        map_identity-map_range k root 14 count k.kernel_base r1 ∙ ran,
        mapped,
        record {
          space = m3.space;
          bump = m3.bump;
          taken = omega (arith, m3.taken, m2.above, m2.room, taken1);
          kept = λ a lo.
              let (same1, c1) = kept1 a lo in
              let (same2, c2) = m2.clear a c1 in
              let (same3, c3) = m3.clear a c2 in (same3 ∙ same2 ∙ same1, c3);
          kernel = tables-IsKernel none1 m2 m3;
        },
      )

-- A new process behind the tables that `r'` has: the words handed out before stay as they are, but
-- for the frame of 17 words at `sp`.
pub record IsFramed (k : Symbols) (sp : ℕ) (regs : List ℕ) (r r' : Ram) : Type 0 where
  pub bump : IsBump k r'
  pub kept : (a : ℕ) → a < frontier k r → (a < sp) ⊎ (sp + 68 ≤ a) → r'.word a ≡ r.word a
  pub frame : words r'.word sp 17 ≡ regs

-- A frame below the free RAM leaves the tables as they are.
put_words-IsSpace :
    {k : Symbols} {r : Ram} {root : ℕ}
    → IsSpace k r root
    → (sp : ℕ) (regs : List ℕ) → sp + 4 * length regs ≤ k.free_ram
    → IsSpace k (record r { word = put_words r.word sp regs }) root
put_words-IsSpace {k} {r} space sp regs below =
    agree-IsSpace space (record r { word = put_words r.word sp regs }) (omega arith)
      (λ a lo hi. put_words-outside r.word sp regs a (inr (omega arith)))

module _ {k : Symbols} {r r3 : Ram} (bump' : IsBump k r3)
    (kept : (a : ℕ) → a < frontier k r → r3.word a ≡ r.word a) where
  pub put_words-IsFramed :
      (sp : ℕ) (regs : List ℕ)
      → length regs ≡ 17
      → IsFramed k sp regs r (record r3 { word = put_words r3.word sp regs })
  put_words-IsFramed sp regs long = record {
    bump = record {
      free = bump'.free;
      low = bump'.low;
      high = bump'.high;
      aligned = bump'.aligned;
    };
    kept = λ a lo out. put_words-outside r3.word sp regs a (rw long out) ∙ kept a lo;
    frame = ap (words (put_words r3.word sp regs) sp) (sym long) ∙ words-put_words r3.word sp regs;
  }

-- A new kernel process, its frame of 17 words at `sp`.
pub record IsCreated (k : Symbols) (sp entry sstatus root : ℕ) (r r' : Ram) : Type 0 where
  pub taken : (frontier k r ≤ frontier k r') × (frontier k r' ≤ frontier k r + 36 * 4096)
  pub space : IsSpace k r' root
  pub tables : IsKernel k root r'.word
  pub framed : IsFramed k sp (first_regs entry 0 0 sstatus (bit_or satp_sv32 (root / 4096))) r r'

pub IsKernel-agree :
    {k : Symbols} {root : ℕ} {word word' : ℕ → ℕ}
    → IsLinked k
    → ((va : ℕ) → va < 2 ^ 32 → walk word' root va ≡ walk word root va)
    → IsKernel k root word
    → IsKernel k root word'
IsKernel-agree linked agree tables = record {
  kernel = λ x lo hi. agree x (omega (arith, linked.size, linked.room)) ∙ tables.kernel x lo hi;
  device = λ o h. agree (0x10001000 + o) (omega arith) ∙ tables.device o h;
  others = λ x fits out ne. agree x fits ∙ tables.others x fits out ne;
}

module _ (k : Symbols) (linked : IsLinked k) (grow : ℕ → ℕ → ℕ) (stack : ℕ → ℕ)
    (sstatus entry image : ℕ) where
  -- With the linked layout, a ready allocator with 36 pages left, an unused slot `i` as the first
  -- one, and stacks below the free RAM, `create_process` without an image does not panic and
  -- returns i + 1, with 36 pages taken at most. Slot `i`, and no other, changes: it is runnable
  -- under that pid. Its page table maps the kernel and the free RAM to themselves, and the block
  -- device, and nothing else. The top 17 words of its stack, to which its `sp` points, are the
  -- frame that `switch_context` restores: the entry point for `ra`, the interrupt state of the
  -- creator, and the page table for `satp`. No other word that was handed out before changes.
  pub create_process-kernel :
      (ps : List Process) (i : ℕ) (r : Ram)
      → IsBump k r
      → frontier k r + 36 * 4096 ≤ k.free_ram_end
      → first_unused ps ≡ some i
      → stack i + 8192 ≤ k.free_ram
      → (root : ℕ) × (r' : Ram) × (create_process k grow stack sstatus entry image 0 (new ps) r
          ≡ ok (
            i + 1,
            new (
                set ps i (record {
                  pid = i + 1;
                  state = runnable;
                  sp = stack i + 8124;
                  page_table = some root;
                })),
            r',
          ))
        × IsCreated k (stack i + 8124) entry sstatus root r r'
  unfolding create_process lock drop_guard
  create_process-kernel ps i r bump room slot below =
      let (root, r1, r2, r3, made, ran, mapped, t) = tables_lem k linked r bump room in
      let regs = first_regs entry 0 0 sstatus (bit_or satp_sv32 (root / 4096)) in
      (
        root,
        record r3 { word = put_words r3.word (stack i + 8124) regs },
        rw (slot, made) (rw ran (rw mapped refl)),
        record {
          taken = t.taken;
          space = put_words-IsSpace t.space (stack i + 8124) regs (omega arith);
          tables =
              IsKernel-agree linked
                (walk-agree t.space (put_words r3.word (stack i + 8124) regs) (λ a lo hi.
                  put_words-outside r3.word (stack i + 8124) regs a (inr (omega arith))))
                t.kernel;
          framed = put_words-IsFramed t.bump (λ a lo. (t.kept a lo).0) (stack i + 8124) regs refl;
        },
      )
