-- ===== src/Page/Leaf.antt =====
-- The second write of `map_page` in kernel/src/page.rs, seen through the translation: it maps one
-- page and no other.
use beyond_os1k.Base.{ℕ, ◌+◌, ◌*◌, ◌/◌, ◌%◌, ◌^◌, ◌<◌, ◌≡◌, ◌≢◌, ◌⊎◌, arith, some}
use beyond_os1k.Allocator.{Symbols, Ram}
use beyond_os1k.Page.{entry}
use beyond_os1k.Page.Walk.{walk}
use beyond_os1k.Page.Space.{IsSpace, target, slots_apart, written, entry-written}

module _ {k : Symbols} {r : Ram} {root : ℕ} (space : IsSpace k r root) where
  module _ (i j pte : ℕ) (hi : i < 1024) (hj : j < 1024) (set : entry r root i ≢ 0) where
    abbrev pub after : Ram
    after = written space i j pte hi hj set

    pub walk-written_self :
        (va : ℕ)
        → va / 2 ^ 22 ≡ i
        → va / 4096 % 1024 ≡ j
        → pte % 2 ≡ 1
        → pte / 2 % 8 ≢ 0
        → walk after.word root va ≡ some (pte / 1024 * 4096 + va % 4096, pte % 1024)
    unfolding walk
    walk-written_self va ei ej is_valid is_leaf = ground (
      arith,
      entry-written space i j pte hi hj set (va / 2 ^ 22) (omega arith),
      space.entries i hi,
    )

    pub walk-written_other :
        (va : ℕ)
        → va < 2 ^ 32
        → (va / 2 ^ 22 ≢ i) ⊎ (va / 4096 % 1024 ≢ j)
        → walk after.word root va ≡ walk r.word root va
    unfolding walk
    walk-written_other va fits ne = ground (
      arith,
      entry-written space i j pte hi hj set (va / 2 ^ 22) (omega arith),
      space.entries i hi,
      space.entries (va / 2 ^ 22) (omega arith),
      space.apart i (va / 2 ^ 22) hi (omega arith),
      slots_apart (target (entry r root (va / 2 ^ 22))) (target (entry r root i)) (va / 4096 % 1024)
          j,
    )
