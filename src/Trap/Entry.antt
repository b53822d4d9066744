-- ===== src/Trap/Entry.antt =====
-- `kernel_entry` of kernel/src/entry.rs, the code that a trap runs.
pub mod Save
pub mod Restore
use beyond_os1k.Base.{ℕ, ◌-◌, ◌*◌, ◌^◌, List, [], ◌∷◌}
use beyond_os1k.Riscv.{
  Machine, Instr, addi, lw, sw, mv, csrr, csrw, csrrw, csrrci, csrsi, beqz, bnez, jump, label, call,
  sret, Course, running, run,
}
use beyond_os1k.Riscv.Reg.{
  zero_reg, sp, ra, gp, tp, t0, t1, t2, t3, t4, t5, t6, a0, a1, a2, a3, a4, a5, a6, a7, s0, s1, s2,
  s3, s4, s5, s6, s7, s8, s9, s10, s11,
}
use beyond_os1k.Riscv.Csr.{sstatus, sscratch}
use beyond_os1k.Scheduler.Context.{sstatus_sie}

abbrev pub kernel_entry : List Instr
kernel_entry =
    csrrw sp sscratch sp
    ∷ bnez sp 1
    ∷ csrr sp sscratch
    ∷ label 1
    ∷ addi sp sp (2 ^ 32 - 4 * 32)
    ∷ sw ra (4 * 0) sp
    ∷ sw gp (4 * 1) sp
    ∷ sw tp (4 * 2) sp
    ∷ sw t0 (4 * 3) sp
    ∷ sw t1 (4 * 4) sp
    ∷ sw t2 (4 * 5) sp
    ∷ sw t3 (4 * 6) sp
    ∷ sw t4 (4 * 7) sp
    ∷ sw t5 (4 * 8) sp
    ∷ sw t6 (4 * 9) sp
    ∷ sw a0 (4 * 10) sp
    ∷ sw a1 (4 * 11) sp
    ∷ sw a2 (4 * 12) sp
    ∷ sw a3 (4 * 13) sp
    ∷ sw a4 (4 * 14) sp
    ∷ sw a5 (4 * 15) sp
    ∷ sw a6 (4 * 16) sp
    ∷ sw a7 (4 * 17) sp
    ∷ sw s0 (4 * 18) sp
    ∷ sw s1 (4 * 19) sp
    ∷ sw s2 (4 * 20) sp
    ∷ sw s3 (4 * 21) sp
    ∷ sw s4 (4 * 22) sp
    ∷ sw s5 (4 * 23) sp
    ∷ sw s6 (4 * 24) sp
    ∷ sw s7 (4 * 25) sp
    ∷ sw s8 (4 * 26) sp
    ∷ sw s9 (4 * 27) sp
    ∷ sw s10 (4 * 28) sp
    ∷ sw s11 (4 * 29) sp
    ∷ csrr a0 sscratch
    ∷ bnez a0 2
    ∷ sw sp (4 * 30) sp
    ∷ sw zero_reg (4 * 31) sp
    ∷ jump 3
    ∷ label 2
    ∷ sw a0 (4 * 30) sp
    ∷ addi a0 sp (4 * 32)
    ∷ sw a0 (4 * 31) sp
    ∷ label 3
    ∷ csrw sscratch zero_reg
    ∷ mv a0 sp
    ∷ call
    ∷ csrrci t0 sstatus sstatus_sie
    ∷ lw a0 (31 * 4) sp
    ∷ csrw sscratch a0
    ∷ lw ra (4 * 0) sp
    ∷ lw gp (4 * 1) sp
    ∷ lw tp (4 * 2) sp
    ∷ lw t1 (4 * 4) sp
    ∷ lw t2 (4 * 5) sp
    ∷ lw t3 (4 * 6) sp
    ∷ lw t4 (4 * 7) sp
    ∷ lw t5 (4 * 8) sp
    ∷ lw t6 (4 * 9) sp
    ∷ lw a0 (4 * 10) sp
    ∷ lw a1 (4 * 11) sp
    ∷ lw a2 (4 * 12) sp
    ∷ lw a3 (4 * 13) sp
    ∷ lw a4 (4 * 14) sp
    ∷ lw a5 (4 * 15) sp
    ∷ lw a6 (4 * 16) sp
    ∷ lw a7 (4 * 17) sp
    ∷ lw s0 (4 * 18) sp
    ∷ lw s1 (4 * 19) sp
    ∷ lw s2 (4 * 20) sp
    ∷ lw s3 (4 * 21) sp
    ∷ lw s4 (4 * 22) sp
    ∷ lw s5 (4 * 23) sp
    ∷ lw s6 (4 * 24) sp
    ∷ lw s7 (4 * 25) sp
    ∷ lw s8 (4 * 26) sp
    ∷ lw s9 (4 * 27) sp
    ∷ lw s10 (4 * 28) sp
    ∷ lw s11 (4 * 29) sp
    ∷ beqz t0 4
    ∷ lw t0 (4 * 3) sp
    ∷ lw sp (4 * 30) sp
    ∷ csrsi sstatus sstatus_sie
    ∷ jump 5
    ∷ label 4
    ∷ lw t0 (4 * 3) sp
    ∷ lw sp (4 * 30) sp
    ∷ label 5
    ∷ sret
    ∷ []

-- The run of a trap up to its `sret`, over `handle_trap`.
unfoldable pub trap : (handle_trap : Machine → Machine) → Machine → Course × Machine
trap handle_trap m = run handle_trap running kernel_entry m

-- The first 30 words of a `TrapFrame`, by their registers.
abbrev pub trap_regs : List ℕ
trap_regs =
    ra ∷ gp ∷ tp ∷ t0 ∷ t1 ∷ t2 ∷ t3 ∷ t4 ∷ t5 ∷ t6 ∷ a0 ∷ a1 ∷ a2 ∷ a3 ∷ a4 ∷ a5 ∷ a6 ∷ a7 ∷ s0
    ∷ s1 ∷ s2 ∷ s3 ∷ s4 ∷ s5 ∷ s6 ∷ s7 ∷ s8 ∷ s9 ∷ s10 ∷ s11 ∷ []
