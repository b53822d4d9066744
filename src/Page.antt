-- ===== src/Page.antt =====
-- kernel/src/page.rs: Sv32 page tables. A table is 1024 words of RAM; `Box::new` takes its page
-- from the allocator of kernel/src/allocator.rs.
pub mod Agree
pub mod Entry
pub mod Walk
pub mod Space
pub mod Leaf
pub mod Fresh
pub mod Mapping
use beyond_os1k.Base.{
  ℕ, ◌+◌, ◌-◌, ◌*◌, ◌/◌, ◌%◌, ◌^◌, Bool, ◌&&◌, Outcome, ok, assertion, guard, ◌>>=◌, ◌>>◌, bit_and,
  bit_or, leb, ltb, ◌==◌, if◌then◌else◌,
}
use beyond_os1k.Address.{is_aligned}
use beyond_os1k.Allocator.{Symbols, Ram, alloc, page_size}

abbrev pub page_v : ℕ
page_v = 1

abbrev pub page_r : ℕ
page_r = 2

abbrev pub page_w : ℕ
page_w = 4

abbrev pub page_x : ℕ
page_x = 8

abbrev pub page_u : ℕ
page_u = 16

unfoldable pub vpn0 : ℕ → ℕ
vpn0 vaddr = bit_and (vaddr / 2 ^ 12) 0x3ff

unfoldable pub vpn1 : ℕ → ℕ
vpn1 vaddr = bit_and (vaddr / 2 ^ 22) 0x3ff

unfoldable pub ppn : ℕ → ℕ
ppn paddr = paddr / page_size * 2 ^ 10 % 2 ^ 32

unfoldable pub from_ppn : ℕ → ℕ
from_ppn pte = pte / 2 ^ 10 * page_size % 2 ^ 32

-- entry `vpn` of the table at the address `table`
abbrev pub entry : Ram → ℕ → ℕ → ℕ
entry r table vpn = r.word (table + 4 * vpn)

abbrev pub store : (ℕ → ℕ) → ℕ → ℕ → ℕ → ℕ
store word p v a = if a == p then v else word a

abbrev pub set_entry : Ram → ℕ → ℕ → ℕ → Ram
set_entry r table vpn pte = record r { word = store r.word (table + 4 * vpn) pte }

-- the 1024 words of a table set to 0
abbrev pub clear : (ℕ → ℕ) → ℕ → ℕ → ℕ
clear word p a = if leb p a && ltb a (p + 4096) then 0 else word a

module _ (k : Symbols) where
  -- `Box::into_raw(Box::new(PageTable::new()))`
  unfoldable pub new_table : Ram → Outcome (ℕ × Ram)
  new_table r = do (p, r') ← alloc k 4096 r; ok (p, record r' { word = clear r'.word p })

  -- The second-level table behind an entry, made if the entry is not valid.
  unfoldable pub first_level : ℕ → ℕ → Ram → Outcome Ram
  unfolding new_table ppn
  first_level table1 vpn r =
      if bit_and (entry r table1 vpn) page_v == 0
      then (do
        (table0, r') ← new_table r
        ok (set_entry r' table1 vpn (bit_or (ppn table0) page_v)))
      else ok r

  unfoldable pub map_page : ℕ → ℕ → ℕ → ℕ → Ram → Outcome Ram
  map_page table1 vaddr paddr flags r = do
    vaddr_ok ← is_aligned vaddr page_size
    guard vaddr_ok assertion
    paddr_ok ← is_aligned paddr page_size
    guard paddr_ok assertion
    r' ← first_level table1 (vpn1 vaddr) r
    let table0 = from_ppn (entry r' table1 (vpn1 vaddr))
    ok (set_entry r' table0 (vpn0 vaddr) (bit_or (bit_or (ppn paddr) flags) page_v))
