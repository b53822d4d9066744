-- ===== src/Scheduler/Next.antt =====
-- `get_next` of kernel/src/scheduler.rs picks the next process in turn.
use beyond_os1k.Base.{
  ℕ, zero, suc, ◌+◌, ◌-◌, ◌%◌, ◌<◌, ◌≡◌, refl, sym, ap, ◌∙◌, ◌⊎◌, inl, inr, arith, true, false,
  some, List, [], ◌∷◌, ◌++◌, drop, get_elem?, get_elem?-lt, get_elem?-take, get_elem?-drop,
  get_elem?-append, get_elem?-append_right, length, length-take, Bool-cases, ok, some-injective,
}
use native.Mathlib.Decide.{dec_lt}
use beyond_os1k.SpinLock.{new}
use beyond_os1k.Scheduler.{
  Process, eligible, position, first_eligible, cycle_part, get_next, idle_pid,
}

-- The first eligible process of a list, or none.
first_eligible_lem :
    (ps : List Process)
    → ((j : ℕ) × (p : Process) × (get_elem? ps j ≡ some p)
        × (eligible p ≡ true)
        × (first_eligible ps ≡ p.pid)
        × ((i : ℕ) (q : Process) → i < j → get_elem? ps i ≡ some q → eligible q ≡ false))
      ⊎ ((first_eligible ps ≡ idle_pid)
          × ((i : ℕ) (q : Process) → get_elem? ps i ≡ some q → eligible q ≡ false))
unfolding first_eligible
first_eligible_lem [] = inr (refl, λ i q e. cc)
first_eligible_lem (p ∷ ps) = elim (Bool-cases (eligible p)) [
  | inl e ↦ inl (0, p, refl, e, rw e refl, λ i q lt h. absurd (omega arith))
  | inr n ↦ elim (first_eligible_lem ps) [
    | inl (j, q, at, good, first, before) ↦
        inl (suc j, q, at, good, rw n first, later p ps j n before)
    | inr (idle, all) ↦ inr (rw n idle, everywhere p ps n all)
  ]
]
  where
    later :
        (p : Process) (ps : List Process) (j : ℕ)
        → eligible p ≡ false
        → ((i : ℕ) (q : Process) → i < j → get_elem? ps i ≡ some q → eligible q ≡ false)
        → (i : ℕ) (q : Process) → i < suc j
        → get_elem? (p ∷ ps) i ≡ some q
        → eligible q ≡ false
    later p ps j n before zero q lt h = ap eligible (some-injective (sym h)) ∙ n
    later p ps j n before (suc i) q lt h = before i q (omega arith) h

    everywhere :
        (p : Process) (ps : List Process)
        → eligible p ≡ false
        → ((i : ℕ) (q : Process) → get_elem? ps i ≡ some q → eligible q ≡ false)
        → (i : ℕ) (q : Process) → get_elem? (p ∷ ps) i ≡ some q
        → eligible q ≡ false
    everywhere p ps n all zero q h = ap eligible (some-injective (sym h)) ∙ n
    everywhere p ps n all (suc i) q h = all i q h

-- Place `j` of the cycle after `i` is the place `(i + 1 + j) % 8` of the table.
cycle_place :
    (ps : List Process) (i j : ℕ)
    → length ps ≡ 8
    → i < 8
    → j < 8
    → get_elem? (cycle_part (i + 1) 8 ps) j ≡ get_elem? ps ((i + 1 + j) % 8)
cycle_place ps i j full hi hj =
    get_elem?-take 8 j (drop (i + 1) (ps ++ ps)) hj
    ∙ get_elem?-drop (i + 1) j (i + 1 + j) (ps ++ ps) refl
    ∙ (elim (dec_lt (i + 1 + j) 8) [
      | yes lt ↦ get_elem?-append ps ps (i + 1 + j) (omega arith) ∙ ap (get_elem? ps) (omega arith)
      | no ge ↦ get_elem?-append_right ps ps (i + 1 + j) ((i + 1 + j) % 8) (omega arith)
    ])

-- places of the table, from the place after `i` on
abbrev pub place : ℕ → ℕ → ℕ
place i j = (i + 1 + j) % 8

-- Who is next after the process at `i`: the first eligible one in cyclic order, or the idle
-- process if there is none.
abbrev pub IsNext : List Process → ℕ → ℕ → Type 0
IsNext ps i pid =
    ((j : ℕ) × (p : Process) × (j < 8)
      × (get_elem? ps (place i j) ≡ some p)
      × (eligible p ≡ true)
      × (pid ≡ p.pid)
      × ((m : ℕ) (q : Process) → m < j → get_elem? ps (place i m) ≡ some q → eligible q ≡ false))
    ⊎ ((pid ≡ idle_pid)
        × ((m : ℕ) (q : Process) → m < 8 → get_elem? ps m ≡ some q → eligible q ≡ false))

first-IsNext :
    (ps : List Process) (i : ℕ)
    → length ps ≡ 8
    → i < 8
    → IsNext ps i (first_eligible (cycle_part (i + 1) 8 ps))
first-IsNext ps i full hi = elim (first_eligible_lem (cycle_part (i + 1) 8 ps)) [
  | inl (j, p, at, good, first, before) ↦
      let hj : j < 8 = omega (
        arith,
        get_elem?-lt (cycle_part (i + 1) 8 ps) j at,
        length-take 8 (drop (i + 1) (ps ++ ps)),
      ) in
      inl (
        j,
        p,
        hj,
        sym (cycle_place ps i j full hi hj) ∙ at,
        good,
        first,
        λ m q lt h. before m q lt (cycle_place ps i m full hi (omega arith) ∙ h),
      )
  | inr (idle, all) ↦ inr (
    idle,
    λ m q lt h. all ((m + 7 - i) % 8) q (
        cycle_place ps i ((m + 7 - i) % 8) full hi (omega arith)
        ∙ ap (get_elem? ps) (omega arith)
        ∙ h),
  )
]

-- With eight entries and a free lock, `get_next` of a process of the table does not panic,
-- frees the lock, leaves the table alone, and answers the next eligible process in turn: the
-- first runnable one with a pid other than 0 behind the current entry in cyclic order, the
-- current entry last; 0 if there is none.
pub get_next-IsNext :
    (ps : List Process) (pid i : ℕ)
    → length ps ≡ 8
    → position ps pid ≡ some i
    → i < 8
    → (next : ℕ) × (get_next (new ps) pid ≡ ok (next, new ps)) × IsNext ps i next
unfolding get_next
get_next-IsNext ps pid i full found hi =
    (first_eligible (cycle_part (i + 1) 8 ps), rw found refl, first-IsNext ps i full hi)
