-- ===== src/Process.antt =====
-- `create_process` of kernel/src/process.rs. The page tables, the heap and the kernel stacks of the
-- processes stand in one RAM; `stack i` is the address of the stack of PROCS[i].
pub mod Alive
pub mod Bytes
pub mod Image
pub mod Load
pub mod Range
pub mod KernelTables
pub mod Start
pub mod UserTables
use beyond_os1k.Base.{
  ℕ, zero, suc, ◌+◌, ◌-◌, ◌*◌, ◌/◌, ◌%◌, ◌^◌, ◌==◌, ltb, leb, ◌&&◌, if◌then◌else◌, bit_or, min,
  Option, none, some, List, [], ◌∷◌, replicate, ◌++◌, get_elem?, set, Outcome, ok, expect_some,
  ◌>>=◌,
}
use beyond_os1k.Address.{align_up}
use beyond_os1k.SpinLock.{SpinLock, lock, write, drop_guard}
use beyond_os1k.Allocator.{Symbols, Ram, page_size, alloc}
use beyond_os1k.Page.{map_page, new_table, page_r, page_w, page_x, page_u}
use beyond_os1k.Scheduler.{Process, State, unused, runnable, exited}
use beyond_os1k.Virtio.Device.{virtio_blk_paddr}
use beyond_os1k.Riscv.Blocks.{put_words}

abbrev pub user_base : ℕ
user_base = 0x1000000

abbrev pub sstatus_sum : ℕ
sstatus_sum = 2 ^ 18

abbrev pub satp_sv32 : ℕ
satp_sv32 = 2 ^ 31

abbrev pub stack_size : ℕ
stack_size = 8192

-- The `find` over the enumerated table.
unfoldable pub first_unused : List Process → Option ℕ
first_unused [] = none
first_unused (p ∷ ps) =
    let rest : Option ℕ = elim (first_unused ps) [ none ↦ none | some i ↦ some (suc i) ] in
    elim p.state [ unused ↦ some 0 | runnable ↦ rest | exited ↦ rest ]

-- Bytes of the RAM: the byte at `a`, and words with the bytes `g` in the `n` places from `p` on.
abbrev pub byte : (ℕ → ℕ) → ℕ → ℕ
byte word a = word (a - a % 4) / 256 ^ (a % 4) % 256

abbrev pub put_bytes : (ℕ → ℕ) → (p n : ℕ) → (ℕ → ℕ) → ℕ → ℕ
put_bytes word p n g a =
    let b : ℕ → ℕ = λ x. if leb p x && ltb x (p + n) then g x else byte word x in
    if leb (p - p % 4) a && ltb a (p + n)
    then b a + 256 * b (a + 1) + 65536 * b (a + 2) + 16777216 * b (a + 3)
    else word a

abbrev pub copy : (ℕ → ℕ) → (dst src n : ℕ) → ℕ → ℕ
copy word dst src n = put_bytes word dst n (λ x. byte word (src + (x - dst)))

-- `callee_saved_regs`
abbrev pub first_regs : (entry sscratch sepc sstatus satp : ℕ) → List ℕ
first_regs entry sscratch sepc sstatus satp =
    entry ∷ (replicate 12 0 ++ (sscratch ∷ sepc ∷ sstatus ∷ satp ∷ []))

module _ (k : Symbols) where
  -- `n` pages from `paddr` on, each mapped to itself.
  unfoldable pub map_identity : (root flags n paddr : ℕ) → Ram → Outcome Ram
  map_identity root flags zero paddr r = ok r
  map_identity root flags (suc n) paddr r = do
    r' ← map_page k root paddr paddr flags r
    map_identity root flags n (paddr + page_size) r'

  -- The loop over the chunks of the image: `n` of them, from the i-th on.
  unfoldable pub map_chunks : (root image_data n i : ℕ) → Ram → Outcome Ram
  map_chunks root image_data zero i r = ok r
  map_chunks root image_data (suc n) i r = do
    r' ←
        map_page k root (user_base + i * page_size) (image_data + i * page_size)
          (bit_or page_u (bit_or page_r (bit_or page_w page_x))) r
    map_chunks root image_data n (i + 1) r'

  -- `GlobalAlloc::realloc`, as the trait provides it
  unfoldable pub realloc : (p old size : ℕ) → Ram → Outcome (ℕ × Ram)
  realloc p old size r = do
    (q, r') ← alloc k size r
    ok (q, record r' { word = copy r'.word q p (min old size) })

  -- `grow` is the capacity that a `Vec` takes when it holds too little.
  module _ (grow : (capacity needed : ℕ) → ℕ) where
    -- `to_vec`, `resize` and `into_boxed_slice`: where the image's copy stands.
    unfoldable pub copy_image : (image image_size aligned_size : ℕ) → Ram → Outcome (ℕ × Ram)
    copy_image image image_size aligned_size r = do
      (p, r1) ← alloc k image_size r
      let copied = record r1 { word = copy r1.word p image image_size }
      if ltb image_size aligned_size
          then (do
            let capacity = grow image_size aligned_size
            (q, r2) ← realloc p image_size capacity copied
            let resized = record r2 {
              word = put_bytes r2.word (q + image_size) (aligned_size - image_size) (λ x. 0);
            }
            if ltb aligned_size capacity
                then realloc q capacity aligned_size resized
                else ok (q, resized))
          else ok (p, copied)

    unfoldable pub map_image : (root image image_size : ℕ) → Ram → Outcome Ram
    unfolding align_up
    map_image root image image_size r = do
      let aligned_size = align_up image_size page_size
      (image_data, r') ← copy_image image image_size aligned_size r
      map_chunks root image_data (aligned_size / page_size) 0 r'

    -- `sstatus` is what the CSR holds.
    unfoldable pub create_process :
        (stack : ℕ → ℕ) (sstatus entry image image_size : ℕ)
        → SpinLock (List Process)
        → Ram
        → Outcome (ℕ × SpinLock (List Process) × Ram)
    unfolding lock drop_guard
    create_process stack sstatus entry image image_size procs r = do
      procs ← lock procs
      i ← expect_some (first_unused procs.value)
      (page_table, r) ← new_table k r
      r ←
          map_identity page_table (bit_or page_r (bit_or page_w page_x))
            ((k.free_ram_end - k.kernel_base + 4095) / page_size) k.kernel_base r
      r ← map_page k page_table virtio_blk_paddr virtio_blk_paddr (bit_or page_r page_w) r
      r ← if image_size == 0 then ok r else map_image page_table image image_size r
      let satp = bit_or satp_sv32 (page_table / page_size)
      let sscratch = if image_size == 0 then 0 else stack i + stack_size
      let sepc = if image_size == 0 then 0 else user_base
      let first_sstatus = if image_size == 0 then sstatus else bit_or sstatus sstatus_sum
      let sp = stack i + (stack_size - 17 * 4)
      let regs = first_regs entry sscratch sepc first_sstatus satp
      let process : Process = record {
        pid = i + 1;
        state = runnable;
        sp = sp;
        page_table = some page_table;
      }
      ok (
        i + 1,
        drop_guard (write procs (set procs.value i process)),
        record r { word = put_words r.word sp regs },
      )
