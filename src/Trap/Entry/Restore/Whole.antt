-- ===== src/Trap/Entry/Restore/Whole.antt =====
-- `kernel_entry` as a whole: what the handler is given, and what the trap leaves behind.
use beyond_os1k.Base.{
  ℕ, ◌+◌, ◌-◌, ◌≤◌, ◌<◌, ◌≡◌, ◌≢◌, refl, ap, ◌∙◌, arith, List, ◌∷◌, map, set, ◌==◌, if◌then◌else◌,
  eq→==, ne→==, bit_or,
}
use beyond_os1k.Page.{store}
use beyond_os1k.Riscv.{Machine, Instr, call, running, ended, run}
use beyond_os1k.Riscv.Blocks.{put_words, words, words-put_words, words-agree, words-set}
use beyond_os1k.Riscv.Reg.{sp, a0}
use beyond_os1k.Riscv.Csr.{sstatus, sscratch}
use beyond_os1k.Scheduler.Context.{masked}
use beyond_os1k.Trap.Entry.{trap, trap_regs}
use beyond_os1k.Trap.Entry.Save.{IsTrap, trapped, leave, run-save}
use beyond_os1k.Trap.Entry.Restore.{leave_lem}

-- What `handle_trap` finds.
pub record IsEntered (m : Machine) (top : ℕ) (n : Machine) : Type 0 where
  pub frame : n.x a0 ≡ top - 128
  pub stack : n.x sp ≡ top - 128
  pub regs : words n.mem (top - 128) 30 ≡ map m.x trap_regs
  pub old_sp : n.mem (top - 128 + 120) ≡ m.x sp
  pub old_sscratch : n.mem (top - 128 + 124) ≡ top
  pub kernel : n.csr sscratch ≡ 0
  pub others : (k : ℕ) → k ≢ sscratch → n.csr k ≡ m.csr k

-- `handle_trap` gives the stack pointer back, and has changed the frame at most at `a0`.
pub record KeepsFrame (n r : Machine) (p : ℕ) : Type 0 where
  pub stack : r.x sp ≡ n.x sp
  pub frame : (a : ℕ) → p ≤ a → a < p + 128 → a ≢ p + 40 → r.mem a ≡ n.mem a

-- At `sret`, after the handler returned as `r`.
pub record IsBack (m : Machine) (top : ℕ) (r n' : Machine) : Type 0 where
  pub regs : map n'.x trap_regs ≡ set (map m.x trap_regs) 10 (r.mem (top - 128 + 40))
  pub stack : n'.x sp ≡ m.x sp
  pub scratch : n'.csr sscratch ≡ top
  pub status :
      n'.csr sstatus
      ≡ (if r.csr sstatus == 0 then masked (r.csr sstatus) else bit_or (masked (r.csr sstatus)) 2)
  pub others : (k : ℕ) → k ≢ sstatus → k ≢ sscratch → n'.csr k ≡ r.csr k
  pub memory : n'.mem ≡ r.mem

store-same : (mem : ℕ → ℕ) (a v : ℕ) → store mem a v a ≡ v
store-same mem a v = rw (eq→== a a refl) refl

store-under : (mem : ℕ → ℕ) (a b v w : ℕ) → a ≢ b → store (store mem a v) b w a ≡ v
store-under mem a b v w ne = rw (ne→== a b ne, eq→== a a refl) refl

run-call :
    (h : Machine → Machine) (rest : List Instr) (n : Machine)
    → run h running (call ∷ rest) n ≡ run h running rest (h n)
unfolding run
run-call h rest n = refl

module _ (h : Machine → Machine) {m : Machine} {top : ℕ} (c : IsTrap m top) where
  trapped-IsEntered : IsEntered m top (trapped h c)
  trapped-IsEntered =
      let p = top - 128 in
      let mem = put_words m.mem p (map m.x trap_regs) in
      record {
        frame = refl;
        stack = refl;
        regs =
            words-agree mem (trapped h c).mem p 30 (λ a lo hi.
              rw (ne→== a (p + 124) (omega arith), ne→== a (p + 120) (omega arith)) refl)
            ∙ words-put_words m.mem p (map m.x trap_regs);
        old_sp = store-under mem (p + 120) (p + 124) (m.x 2) (p + 128) (omega arith);
        old_sscratch =
            store-same (store mem (p + 120) (m.x 2)) (p + 124) (p + 128) ∙ omega (arith, c.room);
        kernel = refl;
        others = λ k s. rw (ne→== k 0x140 s) refl;
      }

  -- A trap with room for its frame on the kernel stack, from a nonzero stack pointer: `handle_trap`
  -- is called with a pointer to a frame that holds all registers, the stack pointer among them, and
  -- `sscratch` is 0. If the handler keeps the frame but for `a0`, the trap ends with every
  -- register as before and `a0` as in the frame. `sscratch` holds the stack that the trap used:
  -- after a trap from a process in user mode as before, after one from the kernel not 0, but the
  -- interrupted stack pointer. The interrupt bit is set unless the handler left an `sstatus` of 0.
  pub kernel_entry_lem :
      IsEntered m top (trapped h c)
      × (KeepsFrame (trapped h c) (h (trapped h c)) (top - 128)
          → (n' : Machine) × (trap h m ≡ (ended, n')) × IsBack m top (h (trapped h c)) n')
  kernel_entry_lem = (
    trapped-IsEntered,
    λ keeps.
        let p = top - 128 in
        let r = h (trapped h c) in
        let old = trapped-IsEntered in
        let (n', e, left) = leave_lem h r p keeps.stack (omega (arith, c.room, c.word)) in
        (
          n',
          run-save h c ∙ run-call h leave (trapped h c) ∙ e,
          record {
            regs =
                left.regs
                ∙ words-set (trapped h c).mem r.mem p 10 30
                    (λ a lo hi. keeps.frame a lo (omega arith))
                ∙ ap (λ l. set l 10 (r.mem (p + 40))) old.regs;
            stack =
                left.stack
                ∙ keeps.frame (p + 120) (omega arith) (omega arith) (omega arith)
                ∙ old.old_sp;
            scratch =
                left.scratch
                ∙ keeps.frame (p + 124) (omega arith) (omega arith) (omega arith)
                ∙ old.old_sscratch;
            status = left.status;
            others = left.others;
            memory = left.memory;
          },
        ),
  )
