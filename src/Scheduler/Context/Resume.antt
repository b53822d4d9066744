-- ===== src/Scheduler/Context/Resume.antt =====
-- `switch_context` step by step: the caller is suspended, and the callee resumed.
use beyond_os1k.Base.{
  ℕ, ◌+◌, ◌*◌, ◌%◌, ◌^◌, ◌<◌, ◌≡◌, ◌≢◌, refl, sym, ap, ◌∙◌, inl, inr, arith, List, [], ◌∷◌, ◌++◌,
  map, ◌==◌, if◌then◌else◌, Bool-cases, ==→eq, ne→==, bit_or,
}
use beyond_os1k.Page.{store}
use beyond_os1k.Riscv.{
  Machine, Instr, addi, lw, csrr, csrw, csrsi, beq, beqz, label, sfence_vma, ret, running, ended,
  run,
}
use beyond_os1k.Riscv.Blocks.{loads, csr_loads, words, put_regs, through, run-loads, run-csr_loads}
use beyond_os1k.Riscv.Reg.{sp, t0, s0, s1}
use beyond_os1k.Riscv.Csr.{sstatus, sscratch, sepc, satp}
use beyond_os1k.Scheduler.Context.{sstatus_sie, callee_saved}

abbrev pub idle_callee : Machine → Machine
idle_callee m = m

-- The end of the code: the interrupt bit set again unless `t0` is 0.
abbrev pub ending : List Instr
ending = beqz t0 2 ∷ csrsi sstatus sstatus_sie ∷ label 2 ∷ ret ∷ []

-- From the restore of the CSRs on.
abbrev pub restore : List Instr
restore =
    csr_loads 13 (sscratch ∷ sepc ∷ sstatus ∷ [])
    ++ (loads 0 callee_saved ++ (addi sp sp (17 * 4) ∷ ending))

-- From the switch of the page table on.
abbrev pub resume : List Instr
resume =
    lw s0 (16 * 4) sp ∷ csrr s1 satp ∷ beq s0 s1 1 ∷ csrw satp s0 ∷ sfence_vma ∷ label 1 ∷ restore

abbrev reenabled : ℕ → (ℕ → ℕ) → ℕ → ℕ
reenabled t csr = if t == 0 then csr else store csr sstatus (bit_or (csr sstatus) 2)

run-ending :
    (m : Machine)
    → run idle_callee running ending m ≡ (ended, record m { csr = reenabled (m.x 5) m.csr })
unfolding run
run-ending m = elim (Bool-cases (m.x 5 == 0)) [ inl off ↦ rw off | inr on ↦ rw on ]

run-satp :
    (rest : List Instr) (m : Machine)
    → (csr : ℕ → ℕ) × (run idle_callee running
          (beq s0 s1 1 ∷ csrw satp s0 ∷ sfence_vma ∷ label 1 ∷ rest)
          m
        ≡ run idle_callee running rest (record m { csr = csr }))
      × (m.x 9 ≡ m.csr satp → csr satp ≡ m.x 8)
      × ((c : ℕ) → c ≢ satp → csr c ≡ m.csr c)
unfolding run
run-satp rest m = elim (Bool-cases (m.x 8 == m.x 9)) [
  | inl same ↦ (m.csr, rw same, λ e. sym (==→eq (m.x 8) (m.x 9) same ∙ e), λ c ne. refl)
  | inr apart ↦ (store m.csr satp (m.x 8), rw apart, λ e. refl, λ c ne. rw (ne→== c 0x180 ne) refl)
]

-- The machine `n'` that goes on from the frame at `q` in `mem`; `t` is what `t0` held.
pub record Resumed (mem : ℕ → ℕ) (t q : ℕ) (n' : Machine) : Type 0 where
  pub regs : map n'.x callee_saved ≡ words mem q 13
  pub stack : n'.x sp ≡ q + 68
  pub scratch : n'.csr sscratch ≡ mem (q + 52)
  pub epc : n'.csr sepc ≡ mem (q + 56)
  pub status : n'.csr sstatus ≡ (if t == 0 then mem (q + 60) else bit_or (mem (q + 60)) 2)
  pub page_table : n'.csr satp ≡ mem (q + 64)
  pub memory : n'.mem ≡ mem

module _ (n : Machine) (q : ℕ) (here : n.x 2 ≡ q) (fits : q + 68 < 2 ^ 32) where
  -- the frame's registers, and three of its CSRs
  abbrev regs : List ℕ
  regs = words n.mem q 13

  abbrev csrs : List ℕ
  csrs = words n.mem (q + 52) 3

  abbrev peeked : Machine
  peeked = record n { x = store (store n.x 8 (n.mem (q + 64))) 9 (n.csr satp) }

  abbrev refilled : (ℕ → ℕ) → Machine
  refilled csr = record n {
    x = put_regs (through peeked.x csrs) callee_saved regs;
    csr = put_regs csr (sscratch ∷ sepc ∷ sstatus ∷ []) csrs;
  }

  run-peek :
      (rest : List Instr)
      → run idle_callee running (lw s0 (16 * 4) sp ∷ csrr s1 satp ∷ rest) n
        ≡ run idle_callee running rest peeked
  unfolding run
  run-peek rest =
      let inside : (n.x 2 + 64) % 2 ^ 32 ≡ q + 64 = omega arith in
      ap
        (λ a.
          run idle_callee running rest
            (record n { x = store (store n.x 8 (n.mem a)) 9 (n.csr satp) }))
        inside

  run-restore :
      (csr : ℕ → ℕ)
      → run idle_callee running restore (record peeked { csr = csr })
        ≡ run idle_callee running (addi sp sp (17 * 4) ∷ ending) (refilled csr)
  run-restore csr =
      run-csr_loads idle_callee 13 (sscratch ∷ sepc ∷ sstatus ∷ []) _ (record peeked { csr = csr })
        (q + 52) (omega arith) (omega arith)
      ∙ run-loads idle_callee 0 callee_saved _ _ q (omega arith) (omega arith) (omega arith)

  run-pop :
      (csr : ℕ → ℕ)
      → run idle_callee running (addi sp sp (17 * 4) ∷ ending) (refilled csr)
        ≡ run idle_callee running ending
            (record (refilled csr) { x = store (refilled csr).x 2 (q + 68) })
  unfolding run
  run-pop csr =
      let inside : (n.x 2 + 68) % 2 ^ 32 ≡ q + 68 = omega arith in
      ap
        (λ a.
          run idle_callee running ending (record (refilled csr) { x = store (refilled csr).x 2 a }))
        inside

  pub run-resume :
      (n' : Machine) × (run idle_callee running resume n ≡ (ended, n'))
      × Resumed n.mem (n.x t0) q n'
  run-resume =
      let (csr, e, told, others) = run-satp restore peeked in
      let filled = refilled csr in
      let status : filled.csr sstatus ≡ n.mem (q + 60) = ap n.mem (omega arith) in
      (
        record filled { x = store filled.x 2 (q + 68); csr = reenabled (n.x 5) filled.csr },
        run-peek _ ∙ e ∙ run-restore csr ∙ run-pop csr ∙ run-ending _,
        elim (Bool-cases (n.x 5 == 0)) [
          | inl off ↦ record {
            regs = refl;
            stack = refl;
            scratch = rw off refl;
            epc = rw off (ap n.mem (omega arith));
            status = rw off status;
            page_table = rw off (told refl);
            memory = refl;
          }
          | inr on ↦ record {
            regs = refl;
            stack = refl;
            scratch = rw on refl;
            epc = rw on (ap n.mem (omega arith));
            status = rw on (ap (λ s. bit_or s 2) status);
            page_table = rw on (told refl);
            memory = refl;
          }
        ],
      )
