-- ===== src/Scheduler/Context.antt =====
-- `switch_context` of kernel/src/scheduler.rs, and what a call of it does to the machine.
pub mod Resume
pub mod Roundtrip
use beyond_os1k.Base.{
  ℕ, ◌+◌, ◌-◌, ◌*◌, ◌%◌, ◌^◌, ◌≤◌, ◌<◌, ◌≡◌, ◌≢◌, refl, sym, ap, ◌∙◌, ◌⊎◌, inl, inr, arith, List,
  [], ◌∷◌, ◌++◌, map, length, ◌==◌, if◌then◌else◌, Bool-cases, eq→==, ne→==, ==→eq, bit_and, bit_or,
}
use beyond_os1k.Address.{bit_not}
use beyond_os1k.Page.{store}
use beyond_os1k.Riscv.{
  Machine, Instr, addi, lw, sw, csrr, csrw, csrrci, csrsi, beq, beqz, label, sfence_vma, ret,
  Course, running, ended, run,
}
use beyond_os1k.Riscv.Blocks.{
  put_words, words, put_regs, through, through-other, run-saves, run-loads, run-csr_saves,
  run-csr_loads,
}
use beyond_os1k.Riscv.Reg.{ra, sp, t0, s0, s1, a0, a1, s2, s3, s4, s5, s6, s7, s8, s9, s10, s11}
use beyond_os1k.Riscv.Csr.{sstatus, sscratch, sepc, satp}

-- `SSTATUS_SIE`
abbrev pub sstatus_sie : ℕ
sstatus_sie = 2

abbrev pub switch_context : List Instr
switch_context =
    csrrci t0 sstatus sstatus_sie
    ∷ addi sp sp (2 ^ 32 - 17 * 4)
    ∷ sw ra (0 * 4) sp
    ∷ sw s0 (1 * 4) sp
    ∷ sw s1 (2 * 4) sp
    ∷ sw s2 (3 * 4) sp
    ∷ sw s3 (4 * 4) sp
    ∷ sw s4 (5 * 4) sp
    ∷ sw s5 (6 * 4) sp
    ∷ sw s6 (7 * 4) sp
    ∷ sw s7 (8 * 4) sp
    ∷ sw s8 (9 * 4) sp
    ∷ sw s9 (10 * 4) sp
    ∷ sw s10 (11 * 4) sp
    ∷ sw s11 (12 * 4) sp
    ∷ csrr s0 sscratch
    ∷ sw s0 (13 * 4) sp
    ∷ csrr s0 sepc
    ∷ sw s0 (14 * 4) sp
    ∷ csrr s0 sstatus
    ∷ sw s0 (15 * 4) sp
    ∷ csrr s0 satp
    ∷ sw s0 (16 * 4) sp
    ∷ sw sp 0 a0
    ∷ lw sp 0 a1
    ∷ lw s0 (16 * 4) sp
    ∷ csrr s1 satp
    ∷ beq s0 s1 1
    ∷ csrw satp s0
    ∷ sfence_vma
    ∷ label 1
    ∷ lw s0 (13 * 4) sp
    ∷ csrw sscratch s0
    ∷ lw s0 (14 * 4) sp
    ∷ csrw sepc s0
    ∷ lw s0 (15 * 4) sp
    ∷ csrw sstatus s0
    ∷ lw ra (0 * 4) sp
    ∷ lw s0 (1 * 4) sp
    ∷ lw s1 (2 * 4) sp
    ∷ lw s2 (3 * 4) sp
    ∷ lw s3 (4 * 4) sp
    ∷ lw s4 (5 * 4) sp
    ∷ lw s5 (6 * 4) sp
    ∷ lw s6 (7 * 4) sp
    ∷ lw s7 (8 * 4) sp
    ∷ lw s8 (9 * 4) sp
    ∷ lw s9 (10 * 4) sp
    ∷ lw s10 (11 * 4) sp
    ∷ lw s11 (12 * 4) sp
    ∷ addi sp sp (17 * 4)
    ∷ beqz t0 2
    ∷ csrsi sstatus sstatus_sie
    ∷ label 2
    ∷ ret
    ∷ []

-- It calls nothing.
unfoldable pub switch_call : Machine → Course × Machine
unfolding run
switch_call m = run (λ m. m) running switch_context m

-- The registers that a call keeps for its caller, but for the stack pointer.
abbrev pub callee_saved : List ℕ
callee_saved = ra ∷ s0 ∷ s1 ∷ s2 ∷ s3 ∷ s4 ∷ s5 ∷ s6 ∷ s7 ∷ s8 ∷ s9 ∷ s10 ∷ s11 ∷ []

abbrev pub saved_csrs : List ℕ
saved_csrs = sscratch ∷ sepc ∷ sstatus ∷ satp ∷ []

-- The interrupt bit taken out of `sstatus`.
abbrev pub masked : ℕ → ℕ
masked s = bit_and s (bit_not sstatus_sie)

-- Memory with the caller's frame of 17 words under `top`, and `*prev_sp` pointing to it.
abbrev pub suspended : Machine → (top : ℕ) → ℕ → ℕ
suspended m top =
    let regs : List ℕ = map m.x callee_saved in
    let csrs : List ℕ = m.csr sscratch ∷ m.csr sepc ∷ masked (m.csr sstatus) ∷ m.csr satp ∷ [] in
    store (put_words (put_words m.mem (top - 68) regs) (top - 68 + 52) csrs) (m.x a0) (top - 68)
