-- ===== src/Scheduler/Fair.antt =====
-- `get_next` of kernel/src/scheduler.rs turn after turn: no eligible process is left out.
use beyond_os1k.Base.{
  ℕ, zero, suc, ◌+◌, ◌-◌, ◌%◌, ◌≤◌, ◌<◌, ◌≡◌, ◌≢◌, sym, ap, ◌∙◌, inl, inr, arith, true, some, List,
  get_elem?, get_elem?-lt, length, Outcome, ok, ◌>>=◌, ◌==◌, Bool-cases, ==→eq, ==→ne,
  true-ne-false,
}
use native.Mathlib.Decide.{dec_lt}
use beyond_os1k.SpinLock.{new}
use beyond_os1k.Scheduler.{Process, eligible, position, get_next}
use beyond_os1k.Scheduler.Yield.{position_sound}
use beyond_os1k.Scheduler.Next.{place, get_next-IsNext}

-- The process after `n` turns from `pid`, over a table that stands still.
unfoldable pub after_turns : ℕ → List Process → ℕ → Outcome ℕ
after_turns zero ps pid = ok pid
after_turns (suc n) ps pid = do (next, procs) ← get_next (new ps) pid; after_turns n ps next

-- No eligible entry shares its pid with an entry before it.
abbrev pub Distinct : List Process → Type 0
Distinct ps =
    (k : ℕ) (p : Process) → get_elem? ps k ≡ some p → eligible p ≡ true → position ps p.pid ≡ some k

position-lt : (ps : List Process) (pid i : ℕ) → position ps pid ≡ some i → i < length ps
position-lt ps pid i h = let (p, at, _) = position_sound ps pid i h in get_elem?-lt ps i at

module _ (ps : List Process) (full : length ps ≡ 8) (distinct : Distinct ps) (k : ℕ) (p : Process)
    (at : get_elem? ps k ≡ some p) (good : eligible p ≡ true) where
  -- The distance `d` to the entry falls with each turn until it is chosen.
  approach :
      (bound pid i d : ℕ)
      → position ps pid ≡ some i
      → i < 8
      → d < bound
      → d < 8
      → place i d ≡ k
      → (n : ℕ) × (n ≤ d) × (after_turns (suc n) ps pid ≡ ok p.pid)
  unfolding after_turns
  approach zero pid i d found hi hd h8 there = absurd (omega arith)
  approach (suc bound) pid i d found hi hd h8 there =
      let (next, e, turn) = get_next-IsNext ps pid i full found hi in
      let here : get_elem? ps (place i d) ≡ some p = ap (get_elem? ps) there ∙ at in
      elim turn [
        | inl (j, q, hj, at', good', same, before) ↦ elim (dec_lt d j) [
          | yes past ↦ absurd (true-ne-false (sym good ∙ before d p past here))
          | no reached ↦ elim (Bool-cases (j == d)) [
            | inl hit ↦
                let q_is_p = ap (get_elem? ps) (ap (place i) (sym (==→eq j d hit))) in
                (0, omega arith, rw e (ap ok (same ∙ pid_inj (sym at' ∙ sym q_is_p ∙ here))))
            | inr miss ↦
                let before_d : j ≢ d = ==→ne j d miss in
                let (n, few, ran) =
                  approach bound q.pid (place i j) (d - j - 1) (distinct (place i j) q at' good')
                    (omega arith) (omega arith) (omega arith) (omega arith) in
                (suc n, omega arith, rw e (ap (after_turns (suc n) ps) same ∙ ran))
          ]
        ]
        | inr (idle, all) ↦
            absurd
              (true-ne-false (sym good ∙ all k p (omega (arith, get_elem?-lt ps k at, full)) at))
      ]
    where
      pid_inj : {q p : Process} → some q ≡ some p → q.pid ≡ p.pid
      pid_inj e = cc

  -- Where the table stands still and has eight entries, and no eligible entry shares its pid with an
  -- entry before it, every eligible process is chosen within eight turns, whoever runs first.
  pub get_next-fair :
      (pid i : ℕ)
      → position ps pid ≡ some i
      → (n : ℕ) × (n < 8) × (after_turns (suc n) ps pid ≡ ok p.pid)
  get_next-fair pid i found =
      let hi : i < 8 = omega (arith, position-lt ps pid i found, full) in
      let hk = get_elem?-lt ps k at in
      let d = (k + 7 - i) % 8 in
      let (n, few, ran) =
        approach 8 pid i d found hi (omega arith) (omega arith) (omega (arith, full)) in
      (n, omega arith, ran)
