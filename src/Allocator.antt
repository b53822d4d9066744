-- ===== src/Allocator.antt =====
-- kernel/src/allocator.rs: the global bump allocator, over a word-addressed RAM.
pub mod Bump
use beyond_os1k.Base.{
  ℕ, ◌+◌, ◌-◌, ◌*◌, ◌%◌, ◌^◌, ◌≤◌, ◌<◌, ◌≡◌, Bool, ◌&&◌, Option, none, some, Outcome, ok, panic,
  out_of_memory, fault, guard, ◌>>=◌, ◌>>◌, leb, ltb, if◌then◌else◌, not,
}
use beyond_os1k.Address.{align_up}
use beyond_os1k.SpinLock.{SpinLock, new, lock, write, drop_guard}

abbrev pub page_size : ℕ
page_size = 4096

-- The addresses of the linker's symbols.
pub record Symbols : Type 0 where
  pub kernel_base : ℕ
  pub free_ram : ℕ
  pub free_ram_end : ℕ

-- What kernel.ld says of them: the kernel starts at 0x80200000, and 64 MB of free RAM begin at a
-- page boundary behind it (64 MB more is the room of the image).
pub record IsLinked (k : Symbols) : Type 0 where
  pub base : k.kernel_base ≡ 0x80200000
  pub above : k.kernel_base ≤ k.free_ram
  pub room : k.free_ram ≤ 0x84200000
  pub aligned : k.free_ram % 4096 ≡ 0
  pub size : k.free_ram_end ≡ k.free_ram + 64 * 1024 * 1024

-- `word a` is the 32-bit word at the address `a`, a multiple of 4. `next` is the static ALLOCATOR.
pub record Ram : Type 0 where
  pub next : SpinLock (Option ℕ)
  pub word : ℕ → ℕ

-- `write_bytes(p, 0x55, n)`, word by word
abbrev pub fill : (ℕ → ℕ) → ℕ → ℕ → ℕ → ℕ
fill word p n a = if leb p a && ltb a (p + n) then 0x55555555 else word a

abbrev pub or_insert : Option ℕ → ℕ → ℕ
or_insert none v = v
or_insert (some p) v = p

module _ (k : Symbols) where
  -- `GlobalAlloc::alloc` for a layout of `size` bytes; its alignment is not looked at.
  -- There is no RAM up to the end of the address space, where a write that reaches it faults.
  unfoldable pub alloc : ℕ → Ram → Outcome (ℕ × Ram)
  unfolding lock drop_guard align_up
  alloc size r = do
    guard_next ← lock r.next
    let paddr = or_insert guard_next.value k.free_ram
    let aligned_size = align_up size page_size
    let new_paddr = (paddr + aligned_size) % 2 ^ 32
    guard (not (ltb k.free_ram_end new_paddr)) out_of_memory
    guard (ltb (paddr + aligned_size) (2 ^ 32)) fault
    ok (
      paddr,
      record {
        next = drop_guard (write guard_next (some new_paddr));
        word = fill r.word paddr aligned_size;
      },
    )

  -- `dealloc` has an empty body.
  unfoldable pub dealloc : ℕ → Ram → Ram
  dealloc p r = r
