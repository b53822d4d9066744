-- ===== src/Examples/Memory.antt =====
-- kernel/src/address.rs, allocator.rs and page.rs at concrete inputs; the tests are those of the
-- source files.
use beyond_os1k.Base.{
  ℕ, ◌+◌, ◌%◌, ◌^◌, ◌≤◌, ◌<◌, ◌≡◌, refl, inl, arith, true, false, none, some, [], ◌∷◌, ok, panic,
  out_of_memory, fault, ◌==◌,
}
use beyond_os1k.SpinLock.{new}
use beyond_os1k.Address.{align_up, is_aligned}
use beyond_os1k.Address.Align.{align_up_least, is_aligned_lem}
use beyond_os1k.Allocator.{Symbols, IsLinked, Ram, fill, alloc}
use beyond_os1k.Allocator.Bump.{
  frontier, IsBump, Block, InOrder, allocs, alloc-Block, alloc-out_of_memory, alloc_wraps,
  allocs-InOrder,
}
use beyond_os1k.Page.{vpn0, vpn1, ppn, from_ppn, new_table, map_page}
use beyond_os1k.Page.Walk.{walk}
use beyond_os1k.Page.Space.{IsSpace, IsClear}
use beyond_os1k.Page.Mapping.{IsMapped, map_page-IsMapped, new_table-IsSpace}

is_address_aligned : (is_aligned 0x10000000 512 ≡ ok true) × (is_aligned 0x10000001 1024 ≡ ok false)
unfolding is_aligned
is_address_aligned = (refl, refl)

align_address_up : align_up 0x10000001 512 ≡ 0x10000200
unfolding align_up
align_address_up = refl

vaddr_to_vpn : (vpn0 0x10008000 ≡ 8) × (vpn1 0x10008000 ≡ 0x40)
unfolding vpn0 vpn1
vaddr_to_vpn = (refl, refl)

paddr_to_ppn : (ppn 0x87654321 ≡ 0x21d95000) × (from_ppn 0x21d95000 ≡ 0x87654000)
unfolding ppn from_ppn
paddr_to_ppn = (refl, refl)

abbrev pub linker : Symbols
linker = record { kernel_base = 0x80200000; free_ram = 0x80300000; free_ram_end = 0x84300000 }

pub linker-IsLinked : IsLinked linker
linker-IsLinked = omega arith

abbrev pub boot_ram : Ram
boot_ram = record { next = new none; word = λ a. 0 }

pub boot_ram-IsBump : IsBump linker boot_ram
boot_ram-IsBump = record { free = refl; low = omega arith; high = omega arith; aligned = refl }

align_up_least_example :
    (align_up 0x10000001 (2 ^ 9) % 2 ^ 9 ≡ 0)
    × (0x10000001 ≤ align_up 0x10000001 (2 ^ 9))
    × (align_up 0x10000001 (2 ^ 9) < 0x10000001 + 2 ^ 9)
align_up_least_example = align_up_least 9 (omega arith) 0x10000001 (omega arith)

is_aligned_example : is_aligned 0x10000001 (2 ^ 10) ≡ ok (0x10000001 % 2 ^ 10 == 0)
is_aligned_example = is_aligned_lem 10 (omega arith) 0x10000001

alloc-Block_example :
    (p : ℕ) × (r' : Ram) × (alloc linker 5000 boot_ram ≡ ok (p, r'))
    × Block linker 5000 boot_ram p r'
alloc-Block_example = alloc-Block linker linker-IsLinked boot_ram boot_ram-IsBump 5000 (omega arith)

alloc-out_of_memory_example : alloc linker 0x4000001 boot_ram ≡ panic out_of_memory
alloc-out_of_memory_example =
    alloc-out_of_memory linker linker-IsLinked boot_ram boot_ram-IsBump 0x4000001 (omega arith)
      (omega arith)

alloc_wraps_example :
    (linker.free_ram_end < frontier linker boot_ram + 0x7ff00000)
    × (alloc linker 0x7ff00000 boot_ram ≡ panic fault)
alloc_wraps_example =
    alloc_wraps linker linker-IsLinked boot_ram boot_ram-IsBump 0x7ff00000 (omega arith)
      (omega arith)

abbrev two_blocks : Ram
two_blocks = record {
  next = new (some 0x80303000);
  word = fill (fill (λ a. 0) 0x80300000 4096) 0x80301000 8192;
}

two_requests :
    allocs linker (12 ∷ 4097 ∷ []) boot_ram
    ≡ ok ((0x80300000, 12) ∷ (0x80301000, 4097) ∷ [], two_blocks)
unfolding allocs alloc
two_requests = refl

allocs-InOrder_example :
    InOrder 0x84300000 0x80300000 ((0x80300000, 12) ∷ (0x80301000, 4097) ∷ [])
    × IsBump linker two_blocks
allocs-InOrder_example =
    allocs-InOrder linker (12 ∷ 4097 ∷ []) boot_ram linker-IsLinked boot_ram-IsBump (omega arith)
      two_requests

new_table-IsSpace_example :
    (root : ℕ) × (r' : Ram) × (new_table linker boot_ram ≡ ok (root, r'))
    × IsSpace linker r' root
    × IsBump linker r'
    × (frontier linker r' ≡ frontier linker boot_ram + 4096)
    × ((a : ℕ) → a < frontier linker boot_ram → (r'.word a ≡ 0) × IsClear linker r' root a)
    × ((va : ℕ) → va < 2 ^ 32 → walk r'.word root va ≡ none)
new_table-IsSpace_example =
    new_table-IsSpace linker boot_ram linker-IsLinked boot_ram-IsBump (omega arith)

-- a root table in the first page
abbrev one_page : Ram
one_page = record { next = new (some 0x80301000); word = λ a. 0 }

one_page-IsBump : IsBump linker one_page
one_page-IsBump = record { free = refl; low = omega arith; high = omega arith; aligned = refl }

one_page-IsSpace : IsSpace linker one_page 0x80300000
one_page-IsSpace = record {
  page = record { aligned = refl; low = omega arith; high = omega arith };
  entries = λ i hi. inl refl;
  apart = λ i j hi hj ne. inl refl;
}

map_page-IsMapped_example :
    (r' : Ram) × (map_page linker 0x80300000 0x12345000 0x87654000 0xf one_page ≡ ok r')
    × IsMapped linker 0x80300000 0x12345000 0x87654000 0xf one_page r'
map_page-IsMapped_example =
    map_page-IsMapped linker linker-IsLinked one_page one_page-IsBump 0x80300000 one_page-IsSpace
      0x12345000 0x87654000 0xf
      (record {
        va_aligned = refl;
        pa_aligned = refl;
        va_fits = omega arith;
        pa_fits = omega arith;
        small = omega arith;
        leaf = omega arith;
      })
      (omega arith)
