-- ===== src/Trap/Entry/Restore.antt =====
-- `kernel_entry` from the return of `handle_trap` on.
pub mod Whole
use beyond_os1k.Base.{
  ℕ, ◌+◌, ◌-◌, ◌*◌, ◌%◌, ◌^◌, ◌≤◌, ◌<◌, ◌≡◌, ◌≢◌, refl, sym, ap, ◌∙◌, ◌⊎◌, inl, inr, arith, Bool,
  List, [], ◌∷◌, ◌++◌, map, length, ◌==◌, if◌then◌else◌, Bool-cases, ne→==, bit_or,
}
use beyond_os1k.Page.{store}
use beyond_os1k.Riscv.{Machine, Instr, lw, csrw, csrrci, Course, running, ended, run}
use beyond_os1k.Riscv.Blocks.{loads, words, put_regs, run-loads}
use beyond_os1k.Riscv.Reg.{sp, ra, gp, tp, t0, a0}
use beyond_os1k.Riscv.Csr.{sstatus, sscratch}
use beyond_os1k.Scheduler.Context.{sstatus_sie, masked}
use beyond_os1k.Trap.Entry.{trap_regs}
use beyond_os1k.Trap.Entry.Save.{later_regs, finish, leave}

-- The machine `n'` at `sret`, from the frame at `p` that the handler left and the CSRs that it left.
pub record Left (n : Machine) (p : ℕ) (n' : Machine) : Type 0 where
  pub regs : map n'.x trap_regs ≡ words n.mem p 30
  pub stack : n'.x sp ≡ n.mem (p + 120)
  pub scratch : n'.csr sscratch ≡ n.mem (p + 124)
  pub status :
      n'.csr sstatus
      ≡ (if n.csr sstatus == 0 then masked (n.csr sstatus) else bit_or (masked (n.csr sstatus)) 2)
  pub others : (k : ℕ) → k ≢ sstatus → k ≢ sscratch → n'.csr k ≡ n.csr k
  pub memory : n'.mem ≡ n.mem

module _ (h : Machine → Machine) where
  -- Both ways to the end load `t0` and the stack pointer.
  run-finish :
      (m : Machine) {p : ℕ}
      → m.x 2 ≡ p
      → p + 128 < 2 ^ 32
      → run h running finish m ≡ (
        ended,
        record m {
          x = store (store m.x 5 (m.mem (p + 4 + 4 + 4))) 2 (m.mem (p + 120));
          csr = if m.x 5 == 0 then m.csr else store m.csr sstatus (bit_or (m.csr sstatus) 2);
        },
      )
  unfolding run
  run-finish m {p} e fits =
      let a : (m.x 2 + 12) % 2 ^ 32 ≡ p + 4 + 4 + 4 = omega arith in
      let b : (m.x 2 + 120) % 2 ^ 32 ≡ p + 120 = omega arith in
      elim (Bool-cases (m.x 5 == 0)) [ inl off ↦ rw (off, a, b) | inr on ↦ rw (on, a, b) ]

  run-csrs :
      (rest : List Instr) (n : Machine) {p : ℕ}
      → n.x 2 ≡ p
      → p + 128 < 2 ^ 32
      → run h running
          (csrrci t0 sstatus sstatus_sie ∷ lw a0 (31 * 4) sp ∷ csrw sscratch a0 ∷ rest)
          n
        ≡ run h running rest (record n {
          x = store (store n.x 5 (n.csr sstatus)) 10 (n.mem (p + 124));
          csr = store (store n.csr sstatus (masked (n.csr sstatus))) sscratch (n.mem (p + 124));
        })
  unfolding run
  run-csrs rest n {p} e fits =
      let a : (n.x 2 + 124) % 2 ^ 32 ≡ p + 124 = omega arith in
      ap
        (λ v. run h running rest (record n {
          x = store (store n.x 5 (n.csr sstatus)) 10 (n.mem v);
          csr = store (store n.csr sstatus (masked (n.csr sstatus))) sscratch (n.mem v);
        }))
        a

module _ (h : Machine → Machine) (n : Machine) (p : ℕ) (e : n.x 2 ≡ p)
    (fits : p + 128 < 2 ^ 32) where
  abbrev status_set : Machine
  status_set = record n {
    x = store (store n.x 5 (n.csr sstatus)) 10 (n.mem (p + 124));
    csr = store (store n.csr sstatus (masked (n.csr sstatus))) sscratch (n.mem (p + 124));
  }

  abbrev refilled : Machine
  refilled = record status_set {
    x =
        put_regs (put_regs status_set.x (ra ∷ gp ∷ tp ∷ []) (words n.mem p 3)) later_regs
          (words n.mem (p + 4 + 4 + 4 + 4) 26);
  }

  abbrev left : Machine
  left = record refilled {
    x = store (store refilled.x 5 (n.mem (p + 4 + 4 + 4))) 2 (n.mem (p + 120));
    csr =
        if n.csr sstatus == 0
        then status_set.csr
        else store status_set.csr sstatus (bit_or (masked (n.csr sstatus)) 2);
  }

  run-leave : run h running leave n ≡ (ended, left)
  run-leave =
      run-csrs h _ n e fits
      ∙ run-loads h 0 (ra ∷ gp ∷ tp ∷ []) _ status_set p (omega arith) (omega arith) (omega arith)
      ∙ run-loads h 4 later_regs finish _ (p + 4 + 4 + 4 + 4) (omega arith) (omega arith)
          (omega arith)
      ∙ run-finish h refilled e fits

  left-Left : Left n p left
  left-Left = elim (Bool-cases (n.csr sstatus == 0)) [
    | inl off ↦ record {
      regs = refl;
      stack = refl;
      scratch = rw off refl;
      status = rw off refl;
      others = λ k s t. rw off (rw (ne→== k 0x140 t, ne→== k 0x100 s) refl);
      memory = refl;
    }
    | inr on ↦ record {
      regs = refl;
      stack = refl;
      scratch = rw on refl;
      status = rw on refl;
      others = λ k s t. rw on (rw (ne→== k 0x140 t, ne→== k 0x100 s) refl);
      memory = refl;
    }
  ]

  pub leave_lem : (n' : Machine) × (run h running leave n ≡ (ended, n')) × Left n p n'
  leave_lem = (left, run-leave, left-Left)
