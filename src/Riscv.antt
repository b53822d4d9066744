-- ===== src/Riscv.antt =====
-- The instructions that the assembly of kernel/src/entry.rs and kernel/src/scheduler.rs uses, as
-- far as the RV32 manuals define them. Registers and CSRs go by their numbers. Memory is addressed
-- by words; the kernel's stacks stand at the same addresses in every page table. The code is
-- straight but for jumps forward to labels, and a run ends at `ret` or `sret`.
pub mod Blocks
use beyond_os1k.Base.{ℕ, suc, ◌+◌, ◌%◌, ◌^◌, List, [], ◌∷◌, ◌==◌, if◌then◌else◌, bit_and, bit_or}
use beyond_os1k.Address.{bit_not}
use beyond_os1k.Page.{store}
pub mod Reg
pub mod Csr

pub record Machine : Type 0 where
  pub x : ℕ → ℕ
  pub csr : ℕ → ℕ
  pub mem : ℕ → ℕ

-- Destinations stand first, as in the assembly; in `lw` and `sw` the offset and the base are last.
pub data Instr : Type 0 where
  addi : (rd rs imm : ℕ) → Instr
  lw sw : (r offset base : ℕ) → Instr
  mv : (rd rs : ℕ) → Instr
  csrr : (rd csr : ℕ) → Instr
  csrw : (csr rs : ℕ) → Instr
  csrrw : (rd csr rs : ℕ) → Instr
  csrrci : (rd csr imm : ℕ) → Instr
  csrsi : (csr imm : ℕ) → Instr
  beq : (r s to : ℕ) → Instr
  beqz bnez : (r to : ℕ) → Instr
  jump : (to : ℕ) → Instr
  label : ℕ → Instr
  call sfence_vma ret sret : Instr

-- The state of a run: at the next instruction, on the way to a label, or ended.
pub data Course : Type 0 where
  running : Course
  seeking : (to : ℕ) → Course
  ended : Course

-- Register 0 is the constant 0.
abbrev pub reg : Machine → ℕ → ℕ
reg m r = if r == 0 then 0 else m.x r

abbrev pub set_reg : ℕ → ℕ → Machine → Machine
set_reg r v m = if r == 0 then m else record m { x = store m.x r v }

abbrev pub set_csr : ℕ → ℕ → Machine → Machine
set_csr c v m = record m { csr = store m.csr c v }

abbrev pub at : Machine → (base offset : ℕ) → ℕ
at m base offset = (reg m base + offset) % 2 ^ 32

module _ (callee : Machine → Machine) where
  -- One instruction of a run; `call` runs the callee up to its return.
  abbrev pub perform : Instr → Machine → Course × Machine
  perform (addi rd rs imm) m = (running, set_reg rd ((reg m rs + imm) % 2 ^ 32) m)
  perform (lw r offset base) m = (running, set_reg r (m.mem (at m base offset)) m)
  perform (sw r offset base) m =
      (running, record m { mem = store m.mem (at m base offset) (reg m r) })
  perform (mv rd rs) m = (running, set_reg rd (reg m rs) m)
  perform (csrr rd csr) m = (running, set_reg rd (m.csr csr) m)
  perform (csrw csr rs) m = (running, set_csr csr (reg m rs) m)
  perform (csrrw rd csr rs) m = (running, set_reg rd (m.csr csr) (set_csr csr (reg m rs) m))
  perform (csrrci rd csr imm) m =
      (running, set_reg rd (m.csr csr) (set_csr csr (bit_and (m.csr csr) (bit_not imm)) m))
  perform (csrsi csr imm) m = (running, set_csr csr (bit_or (m.csr csr) imm) m)
  perform (beq r s to) m = (if reg m r == reg m s then seeking to else running, m)
  perform (beqz r to) m = (if reg m r == 0 then seeking to else running, m)
  perform (bnez r to) m = (if reg m r == 0 then running else seeking to, m)
  perform (jump to) m = (seeking to, m)
  perform (label k) m = (running, m)
  perform call m = (running, callee m)
  perform sfence_vma m = (running, m)
  perform ret m = (ended, m)
  perform sret m = (ended, m)

  -- On the way to a label all else is passed over.
  abbrev pub step : Course → Instr → Machine → Course × Machine
  step running i m = perform i m
  step (seeking to) (label k) m = (if k == to then running else seeking to, m)
  step (seeking to) i m = (seeking to, m)
  step ended i m = (ended, m)

  unfoldable pub run : Course → List Instr → Machine → Course × Machine
  run c [] m = (c, m)
  run c (i ∷ is) m = let (c', m') = step c i m in run c' is m'
