-- ===== src/Scheduler/Context/Roundtrip.antt =====
-- `switch_context` as a whole, and a process that is switched away from and back to.
use beyond_os1k.Base.{
  ℕ, ◌+◌, ◌-◌, ◌%◌, ◌^◌, ◌≤◌, ◌<◌, ◌≡◌, ◌≢◌, refl, sym, ap, ◌∙◌, ◌⊎◌, inl, inr, arith, List, [],
  ◌∷◌, ◌++◌, map, ◌==◌, if◌then◌else◌, eq→==, ne→==, bit_or,
}
use beyond_os1k.Page.{store}
use beyond_os1k.Riscv.{Machine, Instr, lw, sw, running, ended, run}
use beyond_os1k.Riscv.Blocks.{
  saves, csr_saves, put_words, words, through, put_words-outside, words-put_words, words-agree,
  run-saves, run-csr_saves,
}
use beyond_os1k.Riscv.Reg.{sp, a0, a1}
use beyond_os1k.Riscv.Csr.{sstatus, sscratch, sepc, satp}
use beyond_os1k.Scheduler.Context.{switch_call, callee_saved, saved_csrs, masked, suspended}
use beyond_os1k.Scheduler.Context.Resume.{resume, Resumed, run-resume}

-- A call of `switch_context(prev, next)` with the stack pointer at `top` and room for the frame
-- under it, of which `prev` is no part.
pub record IsCall (m : Machine) (top : ℕ) : Type 0 where
  pub stack : m.x sp ≡ top
  pub room : 68 ≤ top
  pub word : top < 2 ^ 32
  pub prev : m.x a0 < 2 ^ 32
  pub next : m.x a1 < 2 ^ 32
  pub apart : (m.x a0 < top - 68) ⊎ (top ≤ m.x a0)

pub ne-of-apart : (a lo hi : ℕ) {s : ℕ} → lo ≤ a → a < hi → (s < lo) ⊎ (hi ≤ s) → a ≢ s
ne-of-apart a lo hi from to (inl h) = omega arith
ne-of-apart a lo hi from to (inr h) = omega arith

pub four-injective :
    {a b c d a' b' c' d' : ℕ}
    → ◌≡◌ {A = List ℕ} (a ∷ b ∷ c ∷ d ∷ []) (a' ∷ b' ∷ c' ∷ d' ∷ [])
    → (a ≡ a') × (b ≡ b') × (c ≡ c') × (d ≡ d')
four-injective e = (cc, cc, cc, cc)

module _ {m : Machine} {top : ℕ} (c : IsCall m top) where
  abbrev csrs : List ℕ
  csrs = m.csr sscratch ∷ m.csr sepc ∷ masked (m.csr sstatus) ∷ m.csr satp ∷ []

  -- with the stack pointer moved down
  abbrev entered : Machine
  entered = record m {
    x = store (store m.x 5 (m.csr sstatus)) 2 (top - 68);
    csr = store m.csr sstatus (masked (m.csr sstatus));
  }

  abbrev loaded : Machine
  loaded = record entered {
    x = store (through entered.x csrs) 2 (suspended m top (m.x a1));
    mem = suspended m top;
  }

  abbrev swap : List Instr
  swap = sw sp 0 a0 ∷ lw sp 0 a1 ∷ resume

  run-enter :
      switch_call m
      ≡ run (λ m. m) running (saves 0 callee_saved ++ (csr_saves 13 saved_csrs ++ swap)) entered
  unfolding switch_call run
  run-enter =
      let down : (m.x 2 + 4294967228) % 2 ^ 32 ≡ top - 68 =
        omega (arith, c.stack, c.room, c.word) in
      ap
        (λ v.
          run (λ m. m) running (saves 0 callee_saved ++ (csr_saves 13 saved_csrs ++ swap))
            (record entered { x = store (store m.x 5 (m.csr sstatus)) 2 v }))
        down

  run-save :
      run (λ m. m) running (saves 0 callee_saved ++ (csr_saves 13 saved_csrs ++ swap)) entered
      ≡ run
          (λ m. m)
          running
          swap
          (record entered {
            x = through entered.x csrs;
            mem =
                put_words (put_words m.mem (top - 68) (map m.x callee_saved)) (top - 68 + 52) csrs;
          })
  run-save =
      run-saves (λ m. m) 0 callee_saved _ entered (top - 68) (omega arith)
        (omega (arith, c.room, c.word))
      ∙ run-csr_saves (λ m. m) 13 saved_csrs swap
          (record entered { mem = put_words m.mem (top - 68) (map m.x callee_saved) })
          (top - 68 + 52) (omega arith) (omega (arith, c.room, c.word))

  run-swap :
      run
        (λ m. m)
        running
        swap
        (record entered {
          x = through entered.x csrs;
          mem = put_words (put_words m.mem (top - 68) (map m.x callee_saved)) (top - 68 + 52) csrs;
        })
      ≡ run (λ m. m) running resume loaded
  unfolding run
  run-swap =
      let p : (m.x 10 + 0) % 2 ^ 32 ≡ m.x 10 = omega (arith, c.prev) in
      let q : (m.x 11 + 0) % 2 ^ 32 ≡ m.x 11 = omega (arith, c.next) in rw (p, q) refl

  -- On such a call `switch_context` puts the callee-saved registers and four CSRs, `sstatus`
  -- without its interrupt bit, into the 17 words under the stack pointer, and their address into
  -- `*prev`. It returns with what the 17 words at `*next` hold, the stack pointer behind them, and
  -- the interrupt bit set as well unless `sstatus` was 0 at the call.
  pub switch_context_lem :
      suspended m top (m.x a1) + 68 < 2 ^ 32
      → (m' : Machine) × (switch_call m ≡ (ended, m'))
        × Resumed (suspended m top) (m.csr sstatus) (suspended m top (m.x a1)) m'
  switch_context_lem fits =
      let (m', e, done) = run-resume loaded (suspended m top (m.x a1)) refl fits in
      (m', run-enter ∙ run-save ∙ run-swap ∙ e, done)

  -- Elsewhere memory is as it was.
  pub suspended-outside :
      (a : ℕ) → a ≢ m.x a0 → (a < top - 68) ⊎ (top ≤ a) → suspended m top a ≡ m.mem a
  suspended-outside a ne out = rw (ne→== a (m.x 10) ne) (
      put_words-outside (put_words m.mem (top - 68) (map m.x callee_saved)) (top - 68 + 52) csrs a
        (high out)
      ∙ put_words-outside m.mem (top - 68) (map m.x callee_saved) a (low out))
    where
      high : (a < top - 68) ⊎ (top ≤ a) → (a < top - 68 + 52) ⊎ (top - 68 + 52 + 16 ≤ a)
      high (inl h) = inl (omega arith)
      high (inr h) = inr (omega (arith, c.room))

      low : (a < top - 68) ⊎ (top ≤ a) → (a < top - 68) ⊎ (top - 68 + 52 ≤ a)
      low (inl h) = inl (omega arith)
      low (inr h) = inr (omega (arith, c.room))

  -- The frame holds the registers and the CSRs.
  frame_regs : words (suspended m top) (top - 68) 13 ≡ map m.x callee_saved
  frame_regs =
      let both =
        put_words (put_words m.mem (top - 68) (map m.x callee_saved)) (top - 68 + 52) csrs in
      words-agree both (suspended m top) (top - 68) 13 (λ a lo hi.
        rw (ne→== a (m.x 10) (ne-of-apart a (top - 68) top lo (omega (arith, c.room)) c.apart))
          refl)
      ∙ words-agree (put_words m.mem (top - 68) (map m.x callee_saved)) both (top - 68) 13
          (λ a lo hi.
            put_words-outside (put_words m.mem (top - 68) (map m.x callee_saved)) (top - 68 + 52)
              csrs a (inl (omega arith)))
      ∙ words-put_words m.mem (top - 68) (map m.x callee_saved)

  frame_csrs : words (suspended m top) (top - 68 + 52) 4 ≡ csrs
  frame_csrs =
      let both =
        put_words (put_words m.mem (top - 68) (map m.x callee_saved)) (top - 68 + 52) csrs in
      words-agree both (suspended m top) (top - 68 + 52) 4 (λ a lo hi.
        rw
          (ne→== a (m.x 10)
            (ne-of-apart a (top - 68) top (omega arith) (omega (arith, c.room)) c.apart))
          refl)
      ∙ words-put_words (put_words m.mem (top - 68) (map m.x callee_saved)) (top - 68 + 52) csrs

  slot : suspended m top (m.x a0) ≡ top - 68
  slot = rw (eq→== (m.x 10) (m.x 10) refl) refl

-- The first call, by a process that goes on later, and a call back to it: what it left in memory
-- has stood since, and the frame of the second caller and its `prev` lie elsewhere.
pub record IsReturn (m : Machine) (top : ℕ) (n : Machine) (top' : ℕ) : Type 0 where
  pub back : n.x a1 ≡ m.x a0
  pub stood : (a : ℕ) → top - 68 ≤ a → a < top → n.mem a ≡ suspended m top a
  pub slot_stood : n.mem (m.x a0) ≡ suspended m top (m.x a0)
  pub frames : (top ≤ top' - 68) ⊎ (top' ≤ top - 68)
  pub slot_apart : (m.x a0 < top' - 68) ⊎ (top' ≤ m.x a0)
  pub prev_apart : (n.x a0 < top - 68) ⊎ (top ≤ n.x a0)
  pub prev_ne : n.x a0 ≢ m.x a0

-- What the first caller has again, but for `sstatus`.
pub record IsRestored (m n' : Machine) : Type 0 where
  pub regs : map n'.x callee_saved ≡ map m.x callee_saved
  pub stack : n'.x sp ≡ m.x sp
  pub scratch : n'.csr sscratch ≡ m.csr sscratch
  pub epc : n'.csr sepc ≡ m.csr sepc
  pub page_table : n'.csr satp ≡ m.csr satp

module _ {m n : Machine} {top top' : ℕ} (c : IsCall m top) (d : IsCall n top')
    (r : IsReturn m top n top') where
  kept : (a : ℕ) → top - 68 ≤ a → a < top → suspended n top' a ≡ suspended m top a
  kept a lo hi =
      suspended-outside d a (ne-of-apart a (top - 68) top lo hi r.prev_apart) (out r.frames)
      ∙ r.stood a lo hi
    where
      out : (top ≤ top' - 68) ⊎ (top' ≤ top - 68) → (a < top' - 68) ⊎ (top' ≤ a)
      out (inl h) = inl (omega arith)
      out (inr h) = inr (omega arith)

  target : suspended n top' (n.x a1) ≡ top - 68
  target =
      ap (suspended n top') r.back
      ∙ suspended-outside d (m.x a0) (λ e. r.prev_ne (sym e)) r.slot_apart
      ∙ r.slot_stood
      ∙ slot c

  -- A process that `switch_context` switched away from, and to whose frame a later call by another
  -- process switches, returns from its own call with its callee-saved registers, its stack
  -- pointer, and its `sscratch`, `sepc` and `satp`. In its `sstatus` the interrupt bit is set
  -- unless the other process called with an `sstatus` of 0, and the other bits are its own.
  pub switch_context-return :
      (n' : Machine) × (switch_call n ≡ (ended, n'))
      × IsRestored m n'
      × (n'.csr sstatus ≡ (
          if n.csr sstatus == 0 then masked (m.csr sstatus) else bit_or (masked (m.csr sstatus)) 2))
  switch_context-return =
      let p = top - 68 in
      let (n', e, done) = switch_context_lem d (omega (arith, target, c.room, c.word)) in
      let regs =
        words-agree (suspended m top) (suspended n top') p 13
          (λ a lo hi. kept a lo (omega (arith, c.room)))
        ∙ frame_regs c in
      let csrs =
        words-agree (suspended m top) (suspended n top') (p + 52) 4
          (λ a lo hi. kept a (omega arith) (omega (arith, c.room)))
        ∙ frame_csrs c in
      let (w0, w1, w2, w3) = four-injective csrs in
      (
        n',
        e,
        record {
          regs = done.regs ∙ ap (λ q. words (suspended n top') q 13) target ∙ regs;
          stack = done.stack ∙ ap (λ q. q + 68) target ∙ omega (arith, c.room, c.stack);
          scratch = done.scratch ∙ ap (λ q. suspended n top' (q + 52)) target ∙ w0;
          epc = done.epc ∙ at 56 (p + 52 + 4) (omega arith) ∙ w1;
          page_table = done.page_table ∙ at 64 (p + 52 + 4 + 4 + 4) (omega arith) ∙ w3;
        },
        done.status
            ∙ ap (λ w. if n.csr sstatus == 0 then w else bit_or w 2)
                (at 60 (p + 52 + 4 + 4) (omega arith) ∙ w2),
      )
    where
      at :
          (k a : ℕ)
          → top - 68 + k ≡ a
          → suspended n top' (suspended n top' (n.x a1) + k) ≡ suspended n top' a
      at k a e = ap (λ q. suspended n top' (q + k)) target ∙ ap (suspended n top') e
