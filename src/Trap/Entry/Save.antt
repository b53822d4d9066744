-- ===== src/Trap/Entry/Save.antt =====
-- `kernel_entry` up to its call of `handle_trap`.
use beyond_os1k.Base.{
  ℕ, ◌+◌, ◌-◌, ◌*◌, ◌%◌, ◌^◌, ◌≤◌, ◌<◌, ◌≡◌, ◌≢◌, refl, ap, ◌∙◌, ◌⊎◌, inl, inr, arith, true, false,
  Bool, List, [], ◌∷◌, ◌++◌, map, ◌==◌, if◌then◌else◌, Bool-cases, ne→==,
}
use mathlib.Core.Path.{fun_ext}
use beyond_os1k.Page.{store}
use beyond_os1k.Riscv.{
  Machine, Instr, addi, lw, sw, mv, csrr, csrw, csrrw, csrrci, csrsi, beqz, bnez, jump, label, call,
  sret, running, seeking, run,
}
use beyond_os1k.Riscv.Blocks.{loads, put_words, run-saves}
use beyond_os1k.Riscv.Reg.{zero_reg, sp, ra, gp, tp, t0, a0}
use beyond_os1k.Riscv.Csr.{sstatus, sscratch}
use beyond_os1k.Scheduler.Context.{sstatus_sie}
use beyond_os1k.Trap.Entry.{trap, trap_regs}

-- the registers that are loaded in one go
abbrev pub later_regs : List ℕ
later_regs =
    6 ∷ 7 ∷ 28 ∷ 29 ∷ 30 ∷ 31 ∷ 10 ∷ 11 ∷ 12 ∷ 13 ∷ 14 ∷ 15 ∷ 16 ∷ 17 ∷ 8 ∷ 9 ∷ 18 ∷ 19 ∷ 20 ∷ 21
    ∷ 22 ∷ 23 ∷ 24 ∷ 25 ∷ 26 ∷ 27 ∷ []

abbrev pub finish : List Instr
finish =
    beqz t0 4
    ∷ lw t0 (4 * 3) sp
    ∷ lw sp (4 * 30) sp
    ∷ csrsi sstatus sstatus_sie
    ∷ jump 5
    ∷ label 4
    ∷ lw t0 (4 * 3) sp
    ∷ lw sp (4 * 30) sp
    ∷ label 5
    ∷ sret
    ∷ []

-- What follows the call.
abbrev pub leave : List Instr
leave =
    csrrci t0 sstatus sstatus_sie
    ∷ lw a0 (31 * 4) sp
    ∷ csrw sscratch a0
    ∷ (loads 0 (ra ∷ gp ∷ tp ∷ []) ++ (loads 4 later_regs ++ finish))

-- From the stores of `sp` and `sscratch` on.
abbrev pub rest_of_save : List Instr → List Instr
rest_of_save rest =
    csrr a0 sscratch
    ∷ bnez a0 2
    ∷ sw sp (4 * 30) sp
    ∷ sw zero_reg (4 * 31) sp
    ∷ jump 3
    ∷ label 2
    ∷ sw a0 (4 * 30) sp
    ∷ addi a0 sp (4 * 32)
    ∷ sw a0 (4 * 31) sp
    ∷ label 3
    ∷ csrw sscratch zero_reg
    ∷ mv a0 sp
    ∷ call
    ∷ rest

-- The stack that a trap uses: from `sscratch`, or the current one if that is 0.
abbrev pub stack_of : Machine → ℕ
stack_of m = if m.csr sscratch == 0 then m.x sp else m.csr sscratch

-- A trap with room for its frame of 32 words, and a stack pointer that is not 0.
pub record IsTrap (m : Machine) (top : ℕ) : Type 0 where
  pub stack : stack_of m ≡ top
  pub room : 128 ≤ top
  pub word : top < 2 ^ 32
  pub nonzero : m.x sp ≢ 0

store-store : (x : ℕ → ℕ) (k u v : ℕ) → store (store x k u) k v ≡ store x k v
store-store x k u v = fun_ext (λ r. cases r (Bool-cases (r == k)))
  where
    cases :
        (r : ℕ) → ((r == k) ≡ true) ⊎ ((r == k) ≡ false) → store (store x k u) k v r ≡ store x k v r
    cases r (inl e) = rw e
    cases r (inr e) = rw e

module _ (handle_trap : Machine → Machine) (rest : List Instr) (m : Machine) where
  run-choose :
      run handle_trap running
        (csrrw sp sscratch sp ∷ bnez sp 1 ∷ csrr sp sscratch ∷ label 1 ∷ rest)
        m
      ≡ run handle_trap running rest
          (record m { x = store m.x 2 (stack_of m); csr = store m.csr sscratch (m.x 2) })
  unfolding run
  run-choose = elim (Bool-cases (m.csr sscratch == 0)) [
    | inl kernel ↦ rw kernel (
        ap
          (λ (x : ℕ → ℕ).
            run handle_trap running rest (record m { x = x; csr = store m.csr sscratch (m.x 2) }))
          (store-store m.x 2 (m.csr sscratch) (m.x 2)))
    | inr user ↦ rw user
  ]

  run-push :
      {top : ℕ}
      → m.x 2 ≡ top
      → 128 ≤ top
      → top < 2 ^ 32
      → run handle_trap running (addi sp sp (2 ^ 32 - 4 * 32) ∷ rest) m
        ≡ run handle_trap running rest (record m { x = store m.x 2 (top - 128) })
  unfolding run
  run-push {top} e room word =
      let down : (m.x 2 + 4294967168) % 2 ^ 32 ≡ top - 128 = omega arith in
      ap (λ v. run handle_trap running rest (record m { x = store m.x 2 v })) down

  -- The stores of the last two words, and the arguments of the call.
  run-last :
      {p : ℕ}
      → m.x 2 ≡ p
      → p + 128 < 2 ^ 32
      → m.csr sscratch ≢ 0
      → run handle_trap running (rest_of_save rest) m
        ≡ run handle_trap running (call ∷ rest) (record m {
          x = store (store (store m.x 10 (m.csr sscratch)) 10 (p + 128)) 10 p;
          csr = store m.csr sscratch 0;
          mem = store (store m.mem (p + 120) (m.csr sscratch)) (p + 124) (p + 128);
        })
  unfolding run
  run-last {p} e fits user =
      let a : (m.x 2 + 120) % 2 ^ 32 ≡ p + 120 = omega arith in
      let b : (m.x 2 + 124) % 2 ^ 32 ≡ p + 124 = omega arith in
      let d : (m.x 2 + 128) % 2 ^ 32 ≡ p + 128 = omega arith in
      ap
        (λ (t : Bool).
          run handle_trap (if t then running else seeking 2)
            (sw sp (4 * 30) sp
              ∷ sw zero_reg (4 * 31) sp
              ∷ jump 3
              ∷ label 2
              ∷ sw a0 (4 * 30) sp
              ∷ addi a0 sp (4 * 32)
              ∷ sw a0 (4 * 31) sp
              ∷ label 3
              ∷ csrw sscratch zero_reg
              ∷ mv a0 sp
              ∷ call
              ∷ rest)
            (record m { x = store m.x 10 (m.csr sscratch) }))
        (ne→== (m.csr sscratch) 0 user)
      ∙ ap
          (λ (v : ℕ × ℕ × ℕ × ℕ). run handle_trap running (call ∷ rest) (record m {
            x = store (store (store m.x 10 (m.csr sscratch)) 10 v.2) 10 v.3;
            csr = store m.csr sscratch 0;
            mem = store (store m.mem v.0 (m.csr sscratch)) v.1 v.2;
          }))
          (λ i. (a i, b i, d i, e i))

module _ (handle_trap : Machine → Machine) {m : Machine} {top : ℕ} (c : IsTrap m top) where
  -- At the call: the frame stands under `top`, and the stack pointer points to it.
  abbrev pub trapped : Machine
  trapped =
      let p : ℕ = top - 128 in
      record m {
        x =
            store (store (store (store (store m.x 2 (stack_of m)) 2 p) 10 (m.x 2)) 10 (p + 128)) 10
              p;
        csr = store (store m.csr sscratch (m.x 2)) sscratch 0;
        mem =
            store (store (put_words m.mem p (map m.x trap_regs)) (p + 120) (m.x 2)) (p + 124)
              (p + 128);
      }

  pub run-save : trap handle_trap m ≡ run handle_trap running (call ∷ leave) trapped
  unfolding trap
  run-save =
      let p = top - 128 in
      run-choose handle_trap _ m
      ∙ run-push handle_trap _ _ c.stack c.room c.word
      ∙ run-saves handle_trap 0 trap_regs _ _ p (omega arith) (omega (arith, c.room, c.word))
      ∙ run-last handle_trap leave _ refl (omega (arith, c.room, c.word)) c.nonzero
