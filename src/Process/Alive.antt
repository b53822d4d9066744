-- ===== src/Process/Alive.antt =====
-- What `create_process` of kernel/src/process.rs set up for one process, while others are created.
use beyond_os1k.Base.{ℕ, ◌+◌, ◌/◌, ◌≤◌, ◌<◌, ◌≡◌, inl, inr, arith, ◌∙◌, List, bit_or}
use beyond_os1k.Allocator.{Symbols, IsLinked, Ram}
use beyond_os1k.Allocator.Bump.{frontier, IsBump}
use beyond_os1k.Page.Agree.{walk-agree, agree-IsSpace}
use beyond_os1k.Page.Space.{IsSpace}
use beyond_os1k.Riscv.Blocks.{words, words-agree}
use beyond_os1k.Process.{first_regs, satp_sv32}
use beyond_os1k.Process.KernelTables.{IsKernel, IsKernel-agree, IsFramed, IsCreated}

-- A kernel process with its tables, and with the frame `regs` on its stack.
pub record IsAlive (k : Symbols) (sp : ℕ) (regs : List ℕ) (root : ℕ) (r : Ram) : Type 0 where
  pub space : IsSpace k r root
  pub tables : IsKernel k root r.word
  pub frame : words r.word sp 17 ≡ regs

pub IsCreated-IsAlive :
    {k : Symbols} {sp entry sstatus root : ℕ} {r r' : Ram}
    → IsCreated k sp entry sstatus root r r'
    → IsAlive k sp (first_regs entry 0 0 sstatus (bit_or satp_sv32 (root / 4096))) root r'
IsCreated-IsAlive created = record {
  space = created.space;
  tables = created.tables;
  frame = created.framed.frame;
}

-- The creation of another process, with its stack higher up, leaves it alive.
pub IsAlive-kept :
    {k : Symbols} {sp sp' root : ℕ} {regs regs' : List ℕ} {r r' : Ram}
    → IsLinked k
    → IsBump k r
    → IsAlive k sp regs root r
    → IsFramed k sp' regs' r r'
    → frontier k r ≤ frontier k r'
    → sp + 68 ≤ sp'
    → sp' + 68 ≤ k.free_ram
    → IsAlive k sp regs root r'
IsAlive-kept {k} {sp} {sp'} {root} {regs} {regs'} {r} {r'} linked bump alive framed grown apart
      below =
    let same : (a : ℕ) → k.free_ram ≤ a → a < frontier k r → r'.word a ≡ r.word a =
      λ a lo hi. framed.kept a hi (inr (omega arith)) in
    record {
      space = agree-IsSpace alive.space r' grown same;
      tables = IsKernel-agree linked (walk-agree alive.space r'.word same) alive.tables;
      frame =
          words-agree r.word r'.word sp 17
            (λ a lo hi. framed.kept a (omega (arith, bump.low)) (inl (omega arith)))
          ∙ alive.frame;
    }
