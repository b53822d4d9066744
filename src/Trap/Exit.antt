-- ===== src/Trap/Exit.antt =====
-- SYS_EXIT in kernel/src/trap.rs: the process is marked and left.
use beyond_os1k.Base.{
  ℕ, zero, suc, ◌≡◌, ◌≢◌, refl, sym, ap, ◌∙◌, inl, inr, false, none, some, List, [], ◌∷◌, get_elem?,
  set, length, get_elem?-set_self, get_elem?-set_ne, get_elem?-lt, ◌==◌, if◌then◌else◌, Bool-cases,
  Option-cases, ok, ==→eq, ==→ne, none-ne-some, true-ne-false,
}
use beyond_os1k.SpinLock.{new}
use beyond_os1k.Scheduler.{Process, exited, eligible, position, idle_pid, Sched, switch}
use beyond_os1k.Scheduler.Next.{IsNext, place}
use beyond_os1k.Scheduler.Yield.{IsSettled, switched, position_sound, yield_now_lem}
use beyond_os1k.Trap.{Kernel, gone, mark_exited, sys_exit_call}

length-mark_exited : (ps : List Process) (pid : ℕ) → length (mark_exited ps pid) ≡ length ps
unfolding mark_exited
length-mark_exited [] pid = refl
length-mark_exited (p ∷ ps) pid = elim (Bool-cases (p.pid == pid)) [
  | inl e ↦ rw e
  | inr ne ↦ rw (ne, length-mark_exited ps pid)
]

-- No process changes its place.
position-mark_exited :
    (ps : List Process) (pid other : ℕ) → position (mark_exited ps pid) other ≡ position ps other
unfolding mark_exited position
position-mark_exited [] pid other = refl
position-mark_exited (p ∷ ps) pid other = elim (Bool-cases (p.pid == pid)) [
  | inl e ↦ rw e
  | inr ne ↦ rw (ne, position-mark_exited ps pid other)
]

place_later :
    (p : Process) (ps : List Process) (pid i : ℕ)
    → (p.pid == pid) ≡ false
    → position (p ∷ ps) pid ≡ some (suc i)
    → position ps pid ≡ some i
unfolding position
place_later p ps pid i ne here = elim (Option-cases (position ps pid)) [
  | inl lost ↦ absurd (none-ne-some (rw (ne, lost) at here))
  | inr (k, found) ↦ found ∙ down (rw (ne, found) at here)
]
  where
    down : {k i : ℕ} → some (suc k) ≡ some (suc i) → some k ≡ some i
    down e = cc

pub mark_exited-set :
    (ps : List Process) (pid i : ℕ) (p : Process)
    → position ps pid ≡ some i
    → get_elem? ps i ≡ some p
    → mark_exited ps pid ≡ set ps i (record p { state = exited })
unfolding mark_exited position
mark_exited-set [] pid i p here at = absurd (none-ne-some here)
mark_exited-set (q ∷ ps) pid zero p here at = elim (Bool-cases (q.pid == pid)) [
  | inl e ↦ rw e (ap (λ (r : Process). record r { state = exited } ∷ ps) (same at))
  | inr ne ↦ elim (Option-cases (position ps pid)) [
    | inl lost ↦ absurd (none-ne-some (rw (ne, lost) at here))
    | inr (k, found) ↦ absurd (suc-ne-zero (rw (ne, found) at here))
  ]
]
  where
    same : some q ≡ some p → q ≡ p
    same e = cc

    suc-ne-zero : {k : ℕ} → some (suc k) ≡ some 0 → ⊥
    suc-ne-zero e = cc
mark_exited-set (q ∷ ps) pid (suc i) p here at = elim (Bool-cases (q.pid == pid)) [
  | inl e ↦ absurd (zero-ne-suc (rw e at here))
  | inr ne ↦ rw ne (
      ap (λ (t : List Process). q ∷ t)
        (mark_exited-set ps pid i p (place_later q ps pid i ne here) at))
]
  where
    zero-ne-suc : some 0 ≡ some (suc i) → ⊥
    zero-ne-suc e = cc

module _ {s : Sched} {ps : List Process} {pid i : ℕ} (h : IsSettled s ps pid i) where
  unfoldable pub marked : Sched
  marked = record {
    procs = new (mark_exited ps pid);
    current = new (some pid);
    first_switch = s.first_switch;
  }

  pub marked-IsSettled : IsSettled marked (mark_exited ps pid) pid i
  unfolding marked
  marked-IsSettled = record {
    procs = refl;
    current = refl;
    full = length-mark_exited ps pid ∙ h.full;
    here = position-mark_exited ps pid pid ∙ h.here;
    idle = let (z, e) = h.idle in (z, position-mark_exited ps pid idle_pid ∙ e);
  }

module _ {s : Sched} {ps : List Process} {pid i : ℕ} (h : IsSettled s ps pid i)
    (only : (m : ℕ) (q : Process) → get_elem? ps m ≡ some q → q.pid ≡ pid → m ≡ i)
    (user : pid ≢ idle_pid) where
  -- Whoever has the pid in the new table has exited.
  marked_exited :
      (m : ℕ) (q : Process)
      → get_elem? (mark_exited ps pid) m ≡ some q
      → q.pid ≡ pid
      → q.state ≡ exited
  marked_exited m q at same =
      let (p, was, e) = position_sound ps pid i h.here in
      let p' : Process = record p { state = exited } in
      let here : get_elem? (set ps i p') m ≡ some q =
        sym (ap (λ (t : List Process). get_elem? t m) (mark_exited-set ps pid i p h.here was))
        ∙ at in
      elim (Bool-cases (m == i)) [
        | inl e ↦
            let there : some p' ≡ some q =
              sym (get_elem?-set_self ps i p' (get_elem?-lt ps i was))
              ∙ sym (ap (get_elem? (set ps i p')) (==→eq m i e))
              ∙ here in
            sym (state_inj there)
        | inr ne ↦ absurd (
            ==→ne m i ne
              (only m q (sym (get_elem?-set_ne ps i m p' (λ e. ==→ne m i ne (sym e))) ∙ here) same))
      ]
    where
      state_inj : {p q : Process} → some p ≡ some q → p.state ≡ q.state
      state_inj e = cc

  next-ne-pid : (next : ℕ) → IsNext (mark_exited ps pid) i next → next ≢ pid
  next-ne-pid next (inl (j, q, hj, at, good, same, before)) e =
      true-ne-false (sym good ∙ exited-ineligible q (marked_exited (place i j) q at (sym same ∙ e)))
    where
      exited-ineligible : (q : Process) → q.state ≡ exited → eligible q ≡ false
      exited-ineligible q e = rw e
  next-ne-pid next (inr (idle, all)) e = user (sym e ∙ idle)

  -- From a settled state whose current process has a pid other than 0 that no other entry has,
  -- SYS_EXIT does not panic. The process is marked as exited, in its entry and nowhere else, and
  -- left for good: `switch_context` is called to the next eligible process in turn, or to the idle
  -- one, which has another pid; the state is settled again, with that process as the current one.
  pub sys_exit_call_lem :
      {S C : Type 0} (k : Kernel S C)
      → k.sched ≡ s
      → (next : ℕ) × (j : ℕ) × IsNext (mark_exited ps pid) i next
        × (next ≢ pid)
        × (sys_exit_call k
            ≡ ok (
                gone
                  (switch (if s.first_switch then none else some i) j)
                  (record k { sched = switched (marked-IsSettled h) next })))
        × IsSettled (switched (marked-IsSettled h) next) (mark_exited ps pid) next j
        × ((m : ℕ) → m ≢ i → get_elem? (mark_exited ps pid) m ≡ get_elem? ps m)
        × ((m : ℕ) (q : Process)
            → get_elem? (mark_exited ps pid) m ≡ some q
            → q.pid ≡ pid
            → q.state ≡ exited)
  unfolding sys_exit_call marked
  sys_exit_call_lem k at_s =
      let (next, turn, moved) = yield_now_lem (marked-IsSettled h) in
      let (p, was, _) = position_sound ps pid i h.here in
      elim moved [
        | inl (same, _) ↦ absurd (next-ne-pid next turn same)
        | inr (apart, j, e, settled) ↦ (
          next,
          j,
          turn,
          apart,
          rw (at_s, h.current, h.procs) (rw e refl),
          settled,
          λ m ne.
              ap (λ (t : List Process). get_elem? t m) (mark_exited-set ps pid i p h.here was)
              ∙ get_elem?-set_ne ps i m _ (λ e. ne (sym e)),
          marked_exited,
        )
      ]
