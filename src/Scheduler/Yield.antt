-- ===== src/Scheduler/Yield.antt =====
-- `yield_now` of kernel/src/scheduler.rs: up to the call of `switch_context`.
use beyond_os1k.Base.{
  ℕ, zero, suc, ◌+◌, ◌%◌, ◌<◌, ◌≡◌, ◌≢◌, refl, sym, ap, ◌∙◌, ◌⊎◌, inl, inr, arith, false, none,
  some, List, [], ◌∷◌, get_elem?, get_elem?-lt, length, ◌==◌, if◌then◌else◌, Bool-cases,
  Option-cases, ok, eq→==, ne→==, ==→eq, ==→ne, lt→ltb, none-ne-some, some-injective,
}
use beyond_os1k.SpinLock.{new}
use beyond_os1k.Scheduler.{
  Process, position, try_get_index, get_next, idle_pid, Sched, stay, switch, yield_now,
}
use beyond_os1k.Scheduler.Next.{IsNext, get_next-IsNext}

-- `position` finds an entry with that pid.
pub position_sound :
    (ps : List Process) (pid i : ℕ)
    → position ps pid ≡ some i
    → (p : Process) × (get_elem? ps i ≡ some p) × (p.pid ≡ pid)
unfolding position
position_sound [] pid i h = absurd (none-ne-some h)
position_sound (p ∷ ps) pid i h = elim (Bool-cases (p.pid == pid)) [
  | inl e ↦ (p, ap (get_elem? (p ∷ ps)) (first (rw e at h)), ==→eq p.pid pid e)
  | inr ne ↦ elim (Option-cases (position ps pid)) [
    | inl lost ↦ absurd (none-ne-some (rw (ne, lost) at h))
    | inr (k, found) ↦
        let (q, at, same) = position_sound ps pid k found in
        (q, ap (get_elem? (p ∷ ps)) (later (rw (ne, found) at h)) ∙ at, same)
  ]
]
  where
    first : {i : ℕ} → some 0 ≡ some i → i ≡ 0
    first e = cc

    later : {k i : ℕ} → some (suc k) ≡ some i → i ≡ suc k
    later e = cc

-- and finds one wherever there is one
pub position_complete :
    (ps : List Process) (k : ℕ) (p : Process)
    → get_elem? ps k ≡ some p
    → (i : ℕ) × (position ps p.pid ≡ some i)
unfolding position
position_complete [] k p h = absurd (none-ne-some h)
position_complete (q ∷ ps) zero p h =
    (0, rw (eq→== q.pid p.pid (ap (λ (r : Process). r.pid) (same h))) refl)
  where
    same : {q p : Process} → some q ≡ some p → q ≡ p
    same e = cc
position_complete (q ∷ ps) (suc k) p h = elim (Bool-cases (q.pid == p.pid)) [
  | inl e ↦ (0, rw e refl)
  | inr ne ↦ let (i, found) = position_complete ps k p h in (suc i, rw (ne, found) refl)
]

try_get_index-found :
    (ps : List Process) (pid i : ℕ)
    → position ps pid ≡ some i
    → try_get_index (new ps) pid ≡ ok (some i, new ps)
unfolding try_get_index
try_get_index-found ps pid i e = rw e refl

-- Between calls: the locks are free, the table has its eight entries, a process with pid 0 is in
-- it, and so is the current one, at the index `i`.
pub record IsSettled (s : Sched) (ps : List Process) (pid i : ℕ) : Type 0 where
  pub procs : s.procs ≡ new ps
  pub current : s.current ≡ new (some pid)
  pub full : length ps ≡ 8
  pub here : position ps pid ≡ some i
  pub idle : (z : ℕ) × (position ps idle_pid ≡ some z)

module _ {s : Sched} {ps : List Process} {pid i : ℕ} (h : IsSettled s ps pid i) where
  here-lt : i < 8
  here-lt =
      let (p, at, e) = position_sound ps pid i h.here in omega (arith, get_elem?-lt ps i at, h.full)

  -- whoever is next is in the table
  next_found : (next : ℕ) → IsNext ps i next → (j : ℕ) × (position ps next ≡ some j)
  next_found next (inl (j, p, hj, at, good, same, before)) =
      let (k, found) = position_complete ps ((i + 1 + j) % 8) p at in
      (k, ap (position ps) same ∙ found)
  next_found next (inr (same, all)) = let (k, found) = h.idle in (k, ap (position ps) same ∙ found)

  -- at another index, if it is another pid
  next_apart : (next j : ℕ) → next ≢ pid → position ps next ≡ some j → j ≢ i
  next_apart next j ne found e =
      let (p, at, same) = position_sound ps pid i h.here in
      let (q, at', same') = position_sound ps next j found in
      ne (
        sym same'
        ∙ ap (λ (r : Process). r.pid) (some-injective (sym at' ∙ ap (get_elem? ps) e ∙ at))
        ∙ same)

  abbrev pub switched : ℕ → Sched
  switched next = record { procs = new ps; current = new (some next); first_switch = false }

  yield_now-switch :
      (next j : ℕ)
      → get_next (new ps) pid ≡ ok (next, new ps)
      → next ≢ pid
      → position ps next ≡ some j
      → yield_now s ≡ ok (switch (if s.first_switch then none else some i) j, switched next)
  unfolding yield_now
  yield_now-switch next j e ne found =
      let (p, at, _) = position_sound ps next j found in
      let inside : j < 8 = omega (arith, get_elem?-lt ps j at, h.full) in
      rw (h.current, h.procs)
        (rw (e, ne→== next pid ne)
          (rw (try_get_index-found ps next j found, try_get_index-found ps pid i h.here)
            (rw
              (
                ne→== j i (next_apart next j ne found),
                lt→ltb j (length ps) (omega (arith, h.full)),
                lt→ltb i (length ps) (omega (arith, h.full, here-lt)),
              )
              refl)))

  yield_now-stay :
      (next : ℕ)
      → get_next (new ps) pid ≡ ok (next, new ps)
      → next ≡ pid
      → yield_now s ≡ ok (stay, s)
  unfolding yield_now
  yield_now-stay next e same = rw (h.current, h.procs) (rw (e, eq→== next pid same) refl)

  -- From a settled state `yield_now` does not panic. Let `next` be the next eligible process in
  -- turn, or 0. If it is the current one nothing changes. Otherwise `switch_context` is called from
  -- the current entry (from none on the first switch) to an entry whose pid is `next`, which is the
  -- current process from then on, and the state is settled again: all locks are free.
  pub yield_now_lem :
      (next : ℕ) × IsNext ps i next
      × (((next ≡ pid) × (yield_now s ≡ ok (stay, s)))
          ⊎ ((next ≢ pid)
              × (j : ℕ) × (yield_now s
                  ≡ ok (switch (if s.first_switch then none else some i) j, switched next))
              × IsSettled (switched next) ps next j))
  yield_now_lem =
      let (next, e, turn) = get_next-IsNext ps pid i h.full h.here here-lt in
      (
        next,
        turn,
        elim (Bool-cases (next == pid)) [
          | inl same ↦ inl (==→eq next pid same, yield_now-stay next e (==→eq next pid same))
          | inr other ↦
              let ne = ==→ne next pid other in
              let (j, found) = next_found next turn in
              inr (
                ne,
                j,
                yield_now-switch next j e ne found,
                record { procs = refl; current = refl; full = h.full; here = found; idle = h.idle },
              )
        ],
      )
