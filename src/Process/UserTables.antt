-- ===== src/Process/UserTables.antt =====
-- What `create_process` of kernel/src/process.rs sets up for a user process.
use beyond_os1k.Base.{
  ℕ, ◌+◌, ◌*◌, ◌/◌, ◌%◌, ◌^◌, ◌≤◌, ◌<◌, ◌≡◌, ◌≢◌, refl, ◌∙◌, ◌⊎◌, inr, arith, none, some, List, set,
  bit_or, ok, ne→==,
}
use beyond_os1k.SpinLock.{new, lock, drop_guard}
use beyond_os1k.Allocator.{Symbols, IsLinked, Ram}
use beyond_os1k.Allocator.Bump.{frontier, IsBump, pages}
use beyond_os1k.Page.Agree.{walk-agree}
use beyond_os1k.Page.Walk.{walk}
use beyond_os1k.Scheduler.{Process, runnable}
use beyond_os1k.Riscv.Blocks.{put_words, put_words-outside}
use beyond_os1k.Process.{create_process, first_unused, first_regs, satp_sv32, sstatus_sum, byte}
use beyond_os1k.Process.Bytes.{byte-agree}
use beyond_os1k.Process.KernelTables.{IsTables, IsFramed, tables_lem, put_words-IsFramed}
use beyond_os1k.Process.Load.{IsUser, IsLoaded, map_image_lem}

-- Page tables for a user: those of the kernel, the pages of the image at USER_BASE, and no more.
pub record IsUserSpace (k : Symbols) (image image_size q root : ℕ) (word word' : ℕ → ℕ)
    : Type 0 where
  pub kernel : (x : ℕ) → k.kernel_base ≤ x → x < k.free_ram_end → walk word' root x ≡ some (x, 15)
  pub device : (o : ℕ) → o < 4096 → walk word' root (0x10001000 + o) ≡ some (0x10001000 + o, 7)
  pub user : IsUser image image_size q root word word'
  pub others :
      (x : ℕ)
      → x < 2 ^ 32
      → (x < k.kernel_base) ⊎ (k.free_ram_end ≤ x)
      → x / 4096 ≢ 0x10001
      → (x < 0x1000000) ⊎ (0x1000000 + pages image_size ≤ x)
      → walk word' root x ≡ none

-- A new user process: its frame of 17 words at `sp`, on a stack that ends at `end`.
pub record IsUserCreated (k : Symbols) (top sp end entry sstatus image image_size q root : ℕ)
    (r r' : Ram) : Type 0 where
  pub taken : (frontier k r ≤ q) × (q + pages image_size ≤ frontier k r') × (frontier k r' ≤ top)
  pub aligned : q % 4096 ≡ 0
  pub tables : IsUserSpace k image image_size q root r.word r'.word
  pub framed :
      IsFramed k sp
        (first_regs entry end 0x1000000
          (bit_or sstatus sstatus_sum)
          (bit_or satp_sv32 (root / 4096)))
        r
        r'

module _ (k : Symbols) (linked : IsLinked k) (top : ℕ) (within : top ≤ k.free_ram_end)
    (image image_size : ℕ) where
  module _ {q root : ℕ} {r r3 r4 : Ram} (small : image_size ≤ 0x400000)
      (source : image + image_size ≤ k.free_ram) (bump : IsBump k r) (t : IsTables k root r r3)
      (l : IsLoaded k top image image_size q root r3 r4) where
    -- The stack of the process stands below the free RAM.
    module _ (word : ℕ → ℕ) (same : (a : ℕ) → k.free_ram ≤ a → word a ≡ r4.word a) where
      agree : (x : ℕ) → x < 2 ^ 32 → walk word root x ≡ walk r4.word root x
      agree = walk-agree l.space word (λ a lo hi. same a lo)

      loaded-byte : (x : ℕ) → byte word (q + x) ≡ byte r4.word (q + x)
      loaded-byte x =
          byte-agree r4.word word (q + x) (same _ (omega (arith, l.start, l.aligned, t.bump.low)))

      source-byte : (x : ℕ) → x < image_size → byte r3.word (image + x) ≡ byte r.word (image + x)
      source-byte x h = byte-agree r.word r3.word (image + x) (t.kept _ (omega (arith, bump.low))).0

      loaded-IsUserSpace : IsUserSpace k image image_size q root r.word word
      loaded-IsUserSpace = record {
        kernel = λ x lo hi.
            agree x (omega (arith, linked.size, linked.room))
            ∙ l.others x (omega (arith, linked.size, linked.room))
                (inr (omega (arith, linked.base)))
            ∙ t.kernel.kernel x lo hi;
        device = λ o h.
            agree (0x10001000 + o) (omega arith)
            ∙ l.others (0x10001000 + o) (omega arith) (inr (omega arith))
            ∙ t.kernel.device o h;
        user = record {
          mapped = λ o h. agree (0x1000000 + o) (omega arith) ∙ l.user.mapped o h;
          content = λ x h. loaded-byte x ∙ l.user.content x h ∙ source-byte x h;
          zeros = λ x lo hi. loaded-byte x ∙ l.user.zeros x lo hi;
        };
        others = λ x fits out ne free.
            agree x fits ∙ l.others x fits free ∙ t.kernel.others x fits out ne;
      }

    module _ (sp end entry sstatus : ℕ) (below : sp + 68 ≤ k.free_ram) where
      abbrev regs : List ℕ
      regs =
          first_regs entry end 0x1000000 (bit_or sstatus sstatus_sum)
            (bit_or satp_sv32 (root / 4096))

      abbrev framed_ram : Ram
      framed_ram = record r4 { word = put_words r4.word sp regs }

      framed-IsUserCreated :
          IsUserCreated k top sp end entry sstatus image image_size q root r framed_ram
      framed-IsUserCreated = record {
        taken = omega (arith, t.taken, l.start, l.end, l.room);
        aligned = l.aligned;
        tables =
            loaded-IsUserSpace (put_words r4.word sp regs)
              (λ a lo. put_words-outside r4.word sp regs a (inr (omega arith)));
        framed =
            put_words-IsFramed l.bump
              (λ a lo. let (kept, c) = t.kept a lo in (l.clear a c).0 ∙ kept) sp regs refl;
      }

module _ (k : Symbols) (linked : IsLinked k) (grow : ℕ → ℕ → ℕ) (stack : ℕ → ℕ)
    (sstatus entry image image_size : ℕ) where
  -- the end of the free RAM that the creation may take: 38 pages, and three copies of the image
  abbrev pub taken_up_to : Ram → ℕ
  taken_up_to r =
      frontier k r + 38 * 4096 + 2 * pages image_size + pages (grow image_size (pages image_size))

  -- With the linked layout, a ready allocator with room for 38 pages and the copies of the image,
  -- a `Vec` that grows to what it needs, an image of at least one byte and at most 4 MB below the
  -- free RAM, an unused slot `i` as the first one, and stacks below the free RAM, `create_process`
  -- does not panic and returns i + 1. Slot `i`, and no other, changes: it is runnable under that
  -- pid. Its page table maps the kernel and the free RAM to themselves, the block device, and at
  -- USER_BASE the pages of a new block, open to the user, and nothing else; the block holds the
  -- bytes of the image, with zeros behind it. The top 17 words of its stack are the frame that
  -- `switch_context` restores: the entry point for `ra`, the end of the stack for `sscratch`,
  -- USER_BASE for `sepc`, the interrupt state of the creator with SUM, and the page table for
  -- `satp`. No other word that was handed out before changes.
  pub create_process-user :
      (ps : List Process) (i : ℕ) (r : Ram)
      → IsBump k r
      → taken_up_to r ≤ k.free_ram_end
      → pages image_size ≤ grow image_size (pages image_size)
      → image_size ≢ 0
      → image_size ≤ 0x400000
      → image + image_size ≤ k.free_ram
      → first_unused ps ≡ some i
      → stack i + 8192 ≤ k.free_ram
      → (root : ℕ) × (q : ℕ) × (r' : Ram) × (create_process k grow stack sstatus entry image
            image_size
            (new ps)
            r
          ≡ ok (
            i + 1,
            new (
                set ps i (record {
                  pid = i + 1;
                  state = runnable;
                  sp = stack i + 8124;
                  page_table = some root;
                })),
            r',
          ))
        × IsUserCreated k
            (taken_up_to r)
            (stack i + 8124)
            (stack i + 8192)
            entry
            sstatus
            image
            image_size
            q
            root
            r
            r'
  unfolding create_process lock drop_guard
  create_process-user ps i r bump room enough some_bytes small source slot below =
      let (root, r1, r2, r3, made, ran, mapped, t) = tables_lem k linked r bump (omega arith) in
      let (q, r4, loaded, l) =
        map_image_lem k linked (taken_up_to r) room image image_size root grow enough r3 t.bump
          t.space (omega (arith, t.bump.low)) small (omega (arith, t.taken)) in
      (
        root,
        q,
        framed_ram k linked (taken_up_to r) room image image_size small source bump t l
            (stack i + 8124) (stack i + 8192) entry sstatus (omega arith),
        rw (slot, made) (rw ran (rw mapped (rw (ne→== image_size 0 some_bytes, loaded) refl))),
        framed-IsUserCreated k linked (taken_up_to r) room image image_size small source bump t l
            (stack i + 8124) (stack i + 8192) entry sstatus (omega arith),
      )
