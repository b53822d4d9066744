-- ===== src/Riscv/Blocks.antt =====
-- Runs of stores and of loads at the stack pointer, as a save or a restore of registers makes them.
use beyond_os1k.Base.{
  ℕ, zero, suc, ◌+◌, ◌*◌, ◌%◌, ◌^◌, ◌≤◌, ◌<◌, ◌≡◌, ◌≢◌, refl, sym, ap, ◌∙◌, ◌⊎◌, inl, inr, arith,
  List, [], ◌∷◌, ◌++◌, map, length, set, All, eq→==, ne→==,
}
use beyond_os1k.Page.{store}
use beyond_os1k.Riscv.{Machine, Instr, lw, sw, csrr, csrw, running, reg, set_reg, run}
use beyond_os1k.Riscv.Reg.{sp, s0}

-- Register after register to, and from, the words above the stack pointer.
abbrev pub saves : ℕ → List ℕ → List Instr
saves n [] = []
saves n (r ∷ rs) = sw r (4 * n) sp ∷ saves (n + 1) rs

abbrev pub loads : ℕ → List ℕ → List Instr
loads n [] = []
loads n (r ∷ rs) = lw r (4 * n) sp ∷ loads (n + 1) rs

abbrev pub put_words : (ℕ → ℕ) → ℕ → List ℕ → ℕ → ℕ
put_words mem p [] = mem
put_words mem p (w ∷ ws) = put_words (store mem p w) (p + 4) ws

abbrev pub words : (ℕ → ℕ) → (p n : ℕ) → List ℕ
words mem p zero = []
words mem p (suc n) = mem p ∷ words mem (p + 4) n

abbrev pub put_regs : (ℕ → ℕ) → List ℕ → List ℕ → ℕ → ℕ
put_regs x [] ws = x
put_regs x (r ∷ rs) [] = x
put_regs x (r ∷ rs) (w ∷ ws) = put_regs (store x r w) rs ws

pub put_words-outside :
    (mem : ℕ → ℕ) (p : ℕ) (ws : List ℕ) (a : ℕ)
    → (a < p) ⊎ (p + 4 * length ws ≤ a)
    → put_words mem p ws a ≡ mem a
put_words-outside mem p [] a h = refl
put_words-outside mem p (w ∷ ws) a h =
    put_words-outside (store mem p w) (p + 4) ws a (beyond h) ∙ rw (ne→== a p (apart h)) refl
  where
    beyond : (a < p) ⊎ (p + 4 * suc (length ws) ≤ a) → (a < p + 4) ⊎ (p + 4 + 4 * length ws ≤ a)
    beyond (inl h) = inl (omega arith)
    beyond (inr h) = inr (omega arith)

    apart : (a < p) ⊎ (p + 4 * suc (length ws) ≤ a) → a ≢ p
    apart (inl h) = omega arith
    apart (inr h) = omega arith

pub words-put_words :
    (mem : ℕ → ℕ) (p : ℕ) (ws : List ℕ) → words (put_words mem p ws) p (length ws) ≡ ws
words-put_words mem p [] = refl
words-put_words mem p (w ∷ ws) =
    ap (λ v. v ∷ words (put_words (store mem p w) (p + 4) ws) (p + 4) (length ws))
      (put_words-outside (store mem p w) (p + 4) ws p (inl (omega arith))
        ∙ rw (eq→== p p refl) refl)
    ∙ ap (λ vs. w ∷ vs) (words-put_words (store mem p w) (p + 4) ws)

-- Words read alike where the memories agree.
pub words-agree :
    (mem mem' : ℕ → ℕ) (p n : ℕ)
    → ((a : ℕ) → p ≤ a → a < p + 4 * n → mem' a ≡ mem a)
    → words mem' p n ≡ words mem p n
words-agree mem mem' p zero h = refl
words-agree mem mem' p (suc n) h =
    ap (λ v. v ∷ words mem' (p + 4) n) (h p (omega arith) (omega arith))
    ∙ ap (λ vs. mem p ∷ vs)
        (words-agree mem mem' (p + 4) n (λ a lo hi. h a (omega arith) (omega arith)))

set_reg_lem : (r v : ℕ) (m : Machine) → r ≢ 0 → set_reg r v m ≡ record m { x = store m.x r v }
set_reg_lem r v m h = rw (ne→== r 0 h)

module _ (callee : Machine → Machine) where
  -- Stores at the stack pointer put the registers into the words above it.
  pub run-saves :
      (n : ℕ) (rs : List ℕ) (rest : List Instr) (m : Machine) (p : ℕ)
      → p ≡ m.x 2 + 4 * n
      → p + 4 * length rs ≤ 2 ^ 32
      → run callee running (saves n rs ++ rest) m
        ≡ run callee running rest (record m { mem = put_words m.mem p (map (reg m) rs) })
  unfolding run
  run-saves n [] rest m p at fits = refl
  run-saves n (r ∷ rs) rest m p at fits =
      let inside : (m.x 2 + 4 * n) % 2 ^ 32 ≡ p = omega arith in
      let m' : Machine = record m { mem = store m.mem ((m.x 2 + 4 * n) % 2 ^ 32) (reg m r) } in
      run-saves (n + 1) rs rest m' (p + 4) (omega arith) (omega arith) ∙ rw inside refl

  -- Loads at the stack pointer put the words above it into the registers.
  pub run-loads :
      (n : ℕ) (rs : List ℕ) (rest : List Instr) (m : Machine) (p : ℕ)
      → p ≡ m.x 2 + 4 * n
      → p + 4 * length rs ≤ 2 ^ 32
      → All (λ r. (r ≢ 0) × (r ≢ 2)) rs
      → run callee running (loads n rs ++ rest) m
        ≡ run callee running rest (record m { x = put_regs m.x rs (words m.mem p (length rs)) })
  unfolding run
  run-loads n [] rest m p at fits ok = refl
  run-loads n (r ∷ rs) rest m p at fits ((r0, r2), ok) =
      let inside : (m.x 2 + 4 * n) % 2 ^ 32 ≡ p = omega arith in
      let m' : Machine = record m { x = store m.x r (m.mem p) } in
      let still : m'.x 2 ≡ m.x 2 = rw (ne→== 2 r (λ e. r2 (sym e))) refl in
      ap (λ (m'' : Machine). run callee running (loads (n + 1) rs ++ rest) m'')
        (set_reg_lem r (m.mem ((m.x 2 + 4 * n) % 2 ^ 32)) m r0
          ∙ ap (λ a. record m { x = store m.x r (m.mem a) }) inside)
      ∙ run-loads (n + 1) rs rest m' (p + 4) (omega arith) (omega arith) ok

-- CSR after CSR to, and from, the words above the stack pointer, through `s0`.
abbrev pub csr_saves : ℕ → List ℕ → List Instr
csr_saves n [] = []
csr_saves n (c ∷ cs) = csrr s0 c ∷ sw s0 (4 * n) sp ∷ csr_saves (n + 1) cs

abbrev pub csr_loads : ℕ → List ℕ → List Instr
csr_loads n [] = []
csr_loads n (c ∷ cs) = lw s0 (4 * n) sp ∷ csrw c s0 ∷ csr_loads (n + 1) cs

-- The registers while values pass through `s0`.
abbrev pub through : (ℕ → ℕ) → List ℕ → ℕ → ℕ
through x [] = x
through x (w ∷ ws) = through (store x s0 w) ws

pub through-other : (x : ℕ → ℕ) (ws : List ℕ) (r : ℕ) → r ≢ 8 → through x ws r ≡ x r
through-other x [] r h = refl
through-other x (w ∷ ws) r h = through-other (store x 8 w) ws r h ∙ rw (ne→== r 8 h) refl

module _ (callee : Machine → Machine) where
  pub run-csr_saves :
      (n : ℕ) (cs : List ℕ) (rest : List Instr) (m : Machine) (p : ℕ)
      → p ≡ m.x 2 + 4 * n
      → p + 4 * length cs ≤ 2 ^ 32
      → run callee running (csr_saves n cs ++ rest) m
        ≡ run callee running rest
            (record m { x = through m.x (map m.csr cs); mem = put_words m.mem p (map m.csr cs) })
  unfolding run
  run-csr_saves n [] rest m p at fits = refl
  run-csr_saves n (c ∷ cs) rest m p at fits =
      let inside : (m.x 2 + 4 * n) % 2 ^ 32 ≡ p = omega arith in
      let m' : Machine = record m {
        x = store m.x 8 (m.csr c);
        mem = store m.mem ((m.x 2 + 4 * n) % 2 ^ 32) (m.csr c);
      } in
      run-csr_saves (n + 1) cs rest m' (p + 4) (omega arith) (omega arith) ∙ rw inside refl

  pub run-csr_loads :
      (n : ℕ) (cs : List ℕ) (rest : List Instr) (m : Machine) (p : ℕ)
      → p ≡ m.x 2 + 4 * n
      → p + 4 * length cs ≤ 2 ^ 32
      → run callee running (csr_loads n cs ++ rest) m
        ≡ run callee running rest (record m {
          x = through m.x (words m.mem p (length cs));
          csr = put_regs m.csr cs (words m.mem p (length cs));
        })
  unfolding run
  run-csr_loads n [] rest m p at fits = refl
  run-csr_loads n (c ∷ cs) rest m p at fits =
      let inside : (m.x 2 + 4 * n) % 2 ^ 32 ≡ p = omega arith in
      let m' : Machine = record m { x = store m.x 8 (m.mem p); csr = store m.csr c (m.mem p) } in
      ap
        (λ a.
          run callee running (csr_loads (n + 1) cs ++ rest)
            (record m { x = store m.x 8 (m.mem a); csr = store m.csr c (m.mem a) }))
        inside
      ∙ run-csr_loads (n + 1) cs rest m' (p + 4) (omega arith) (omega arith)

-- Where the memories agree but for one word, the words read differ by that word.
pub words-set :
    (mem mem' : ℕ → ℕ) (p i n : ℕ)
    → ((a : ℕ) → p ≤ a → a < p + 4 * n → a ≢ p + 4 * i → mem' a ≡ mem a)
    → words mem' p n ≡ set (words mem p n) i (mem' (p + 4 * i))
words-set mem mem' p i zero h = refl
words-set mem mem' p zero (suc n) h =
    ap (λ v. v ∷ words mem' (p + 4) n) (ap mem' (omega arith))
    ∙ ap (λ vs. mem' (p + 4 * 0) ∷ vs)
        (words-agree mem mem' (p + 4) n (λ a lo hi. h a (omega arith) (omega arith) (omega arith)))
words-set mem mem' p (suc i) (suc n) h =
    ap (λ v. v ∷ words mem' (p + 4) n) (h p (omega arith) (omega arith) (omega arith))
    ∙ ap (λ vs. mem p ∷ vs)
        (words-set mem mem' (p + 4) i n
            (λ a lo hi ne. h a (omega arith) (omega arith) (omega arith))
          ∙ ap (λ a. set (words mem (p + 4) n) i (mem' a)) (omega arith))
