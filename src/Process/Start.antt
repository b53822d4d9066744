-- ===== src/Process/Start.antt =====
-- The first switch to a process that `create_process` of kernel/src/process.rs made.
use beyond_os1k.Base.{
  ℕ, ◌+◌, ◌-◌, ◌*◌, ◌^◌, ◌≤◌, ◌<◌, ◌≡◌, ◌≢◌, ap, ◌∙◌, ◌⊎◌, inl, inr, arith, [], ◌∷◌, map, replicate,
  take, drop,
}
use beyond_os1k.Allocator.{Symbols, Ram}
use beyond_os1k.Riscv.{Machine, ended}
use beyond_os1k.Riscv.Blocks.{words, words-agree}
use beyond_os1k.Riscv.Reg.{sp, a0, a1}
use beyond_os1k.Riscv.Csr.{sscratch, sepc, satp}
use beyond_os1k.Scheduler.Context.{switch_call, suspended, callee_saved}
use beyond_os1k.Scheduler.Context.Roundtrip.{
  IsCall, switch_context_lem, suspended-outside, ne-of-apart, four-injective,
}
use beyond_os1k.Process.{first_regs}
use beyond_os1k.Process.KernelTables.{IsFramed}

-- The last four words of a frame.
csrs_of :
    (mem : ℕ → ℕ) (p : ℕ) {entry a b c d : ℕ}
    → words mem p 17 ≡ first_regs entry a b c d
    → (mem (p + 52) ≡ a) × (mem (p + 56) ≡ b) × (mem (p + 60) ≡ c) × (mem (p + 64) ≡ d)
csrs_of mem p {a = a} {b = b} {c = c} {d = d} e =
    let tail : words mem (p + 52) 4 ≡ a ∷ b ∷ c ∷ d ∷ [] =
      ap (λ q. words mem q 4) (omega arith) ∙ ap (drop 13) e in
    let (x, y, z, w) = four-injective tail in
    (x, ap mem (omega arith) ∙ y, ap mem (omega arith) ∙ z, ap mem (omega arith) ∙ w)

-- The call switches to the frame at `p`, which lies apart from what the call writes.
pub record IsFirst (m : Machine) (top p : ℕ) : Type 0 where
  pub next : m.mem (m.x a1) ≡ p
  pub next_ne : m.x a1 ≢ m.x a0
  pub next_apart : (m.x a1 < top - 68) ⊎ (top ≤ m.x a1)
  pub frames : (p + 68 ≤ top - 68) ⊎ (top ≤ p)
  pub prev_apart : (m.x a0 < p) ⊎ (p + 68 ≤ m.x a0)
  pub fits : p + 68 < 2 ^ 32

module _ {m : Machine} {top p : ℕ} (c : IsCall m top) (f : IsFirst m top p) where
  target : suspended m top (m.x a1) ≡ p
  target = suspended-outside c (m.x a1) f.next_ne f.next_apart ∙ f.next

  frame_kept : (a : ℕ) → p ≤ a → a < p + 4 * 17 → suspended m top a ≡ m.mem a
  frame_kept a lo hi =
      suspended-outside c a (ne-of-apart a p (p + 68) lo hi f.prev_apart)
        (elim f.frames [ inl below ↦ inl (omega arith) | inr above ↦ inr (omega arith) ])

  frame_words : words (suspended m top) p 17 ≡ words m.mem p 17
  frame_words = words-agree m.mem (suspended m top) p 17 frame_kept

  -- A call of `switch_context` to the frame of a process that `create_process` made, for the kernel
  -- or for a user, while the frame is as it was made, ends in a return to the entry point of the
  -- process. The other callee-saved registers are 0, the stack is empty, and `sscratch`, `sepc`
  -- and the page table are those that the process was given.
  pub create_process-switch_context :
      {k : Symbols} {entry scratch epc status table : ℕ} {r r' : Ram}
      → IsFramed k p (first_regs entry scratch epc status table) r r'
      → words m.mem p 17 ≡ words r'.word p 17
      → (n' : Machine) × (switch_call m ≡ (ended, n'))
        × (map n'.x callee_saved ≡ entry ∷ replicate 12 0)
        × (n'.x sp ≡ p + 68)
        × (n'.csr sscratch ≡ scratch)
        × (n'.csr sepc ≡ epc)
        × (n'.csr satp ≡ table)
  create_process-switch_context {k} {entry} {scratch} {epc} {status} {table} {r} {r'} framed same =
      let frame : words (suspended m top) p 17 ≡ first_regs entry scratch epc status table =
        frame_words ∙ same ∙ framed.frame in
      let (n', e, done) = switch_context_lem c (omega (arith, target, f.fits)) in
      let (given_scratch, given_epc, given_status, given_table) =
        csrs_of (suspended m top) p frame in
      (
        n',
        e,
        done.regs ∙ ap (λ q. words (suspended m top) q 13) target ∙ ap (take 13) frame,
        done.stack ∙ ap (λ q. q + 68) target,
        done.scratch ∙ ap (λ q. suspended m top (q + 52)) target ∙ given_scratch,
        done.epc ∙ ap (λ q. suspended m top (q + 56)) target ∙ given_epc,
        done.page_table ∙ ap (λ q. suspended m top (q + 64)) target ∙ given_table,
      )
