-- ===== src/Life/Reached.antt =====
-- The scheduler after any sequence of operations.
use beyond_os1k.Base.{
  ℕ, suc, arith, ◌≡◌, ◌≢◌, sym, ap, ◌∙◌, inl, inr, false, some, Option, List, get_elem?, ok,
  some-injective, true-ne-false,
}
use beyond_os1k.SpinLock.{SpinLock}
use beyond_os1k.Scheduler.{Process, exited, eligible, Switch, stay, Sched, yield_now}
use beyond_os1k.Scheduler.Next.{IsNext, place}
use beyond_os1k.Scheduler.Yield.{yield_now_lem}
use beyond_os1k.Trap.{Kernel, gone, sys_exit_call}
use beyond_os1k.Trap.Exit.{sys_exit_call_lem}
use beyond_os1k.Life.{Reach, begin, more, IsSound}
use beyond_os1k.Life.Table.{exited-ne-unused, index_of}
use beyond_os1k.Life.Sound.{IsMoved, only, Step-IsMoved}

module _ {S C : Type 0} {s : Sched} (h : IsSound s) where
  reached : {t : Sched} → Reach S C s t → IsSound t
  reached begin = h
  reached (more r st) = (Step-IsMoved st (reached r)).after

  -- From a scheduler in order, any sequence of yields, exits of processes other than the idle one,
  -- and creations of processes that do not panic leads to one in order: the locks are free, the
  -- table has its eight entries, the pid of a used entry says where it stands, and the current
  -- process and the idle one are in the table. There neither a yield panics nor, in a process other
  -- than the idle one, SYS_EXIT.
  pub Reach-IsSound :
      {t : Sched}
      → Reach S C s t
      → IsSound t
        × ((to : Switch) × (t' : Sched) × (yield_now t ≡ ok (to, t')))
        × ((k : Kernel S C)
            → k.sched ≡ t
            → t.current.value ≢ some 0
            → (to : Switch) × (k' : Kernel S C) × (sys_exit_call k ≡ ok (gone to k')))
  Reach-IsSound r = let g = reached r in (g, yields_on g, λ k at user. exits_on g k at user)
    where
      yields_on :
          {t : Sched} → IsSound t → (to : Switch) × (t' : Sched) × (yield_now t ≡ ok (to, t'))
      yields_on g =
          let (pid, turn, moved) = yield_now_lem g.settled in
          elim moved [ inl (same, e) ↦ (stay, _, e) | inr (apart, j, e, settled) ↦ (_, _, e) ]

      exits_on :
          {t : Sched} (g : IsSound t) (k : Kernel S C)
          → k.sched ≡ t
          → t.current.value ≢ some 0
          → (to : Switch) × (k' : Kernel S C) × (sys_exit_call k ≡ ok (gone to k'))
      exits_on g k at user =
          let ne : g.pid ≢ 0 =
            λ z. user (ap (λ (l : SpinLock (Option ℕ)). l.value) g.settled.current ∙ ap some z) in
          let (pid, j, turn, apart, e, _, _, _) = sys_exit_call_lem g.settled (only g ne) ne k at in
          (_, _, e)

-- Entry `m` of the table is a process that has exited, and it is not the current one.
record IsGone (m : ℕ) {s : Sched} (h : IsSound s) : Type 0 where
  process : Process
  at : get_elem? h.table m ≡ some process
  dead : process.state ≡ exited
  user : process.pid ≢ 0
  away : h.pid ≢ process.pid

-- Nobody else has its pid, so it is not the next one.
next_apart :
    {s : Sched} (h : IsSound s) (m : ℕ) (p : Process)
    → get_elem? h.table m ≡ some p
    → p.state ≡ exited
    → p.pid ≢ 0
    → (i : ℕ) → IsNext h.table i h.pid
    → h.pid ≢ p.pid
next_apart h m p at dead user i (inl (j, q, hj, there, good, same, before)) e =
    let other : q.pid ≢ 0 = λ z. user (sym e ∙ same ∙ z) in
    let place_eq : place i j ≡ m = omega (
      arith,
      index_of h.ordered m p at user,
      index_of h.ordered (place i j) q there other,
      same,
      e,
    ) in
    let q_is_p = some-injective (sym there ∙ ap (get_elem? h.table) place_eq ∙ at) in
    true-ne-false (sym good ∙ ineligible q (ap (λ (x : Process). x.state) q_is_p ∙ dead))
  where
    ineligible : (q : Process) → q.state ≡ exited → eligible q ≡ false
    ineligible q e = rw e
next_apart h m p at dead user i (inr (idle, all)) e = user (sym e ∙ idle)

moved-IsGone :
    {s s' : Sched} (h : IsSound s) (v : IsMoved h s') (m : ℕ) → IsGone m h → IsGone m v.after
moved-IsGone h v m g =
    let (p, at, dead, same) = v.kept m g.process g.at g.dead in
    let user : p.pid ≢ 0 = λ z. g.user (sym same ∙ z) in
    record {
      process = p;
      at = at;
      dead = dead;
      user = user;
      away = elim v.turn [
        | inl still ↦ λ e. g.away (sym still ∙ e ∙ same)
        | inr (i, turn) ↦ next_apart v.after m p at dead user i turn
      ];
    }

module _ {S C : Type 0} {s : Sched} (h : IsSound s) (m : ℕ) (g : IsGone m h) where
  reached-IsGone : {t : Sched} → Reach S C s t → (h' : IsSound t) × IsGone m h'
  reached-IsGone begin = (h, g)
  reached-IsGone (more r st) =
      let (h', g') = reached-IsGone r in
      let v = Step-IsMoved st h' in (v.after, moved-IsGone h' v m g')

-- From a scheduler in order in which some process behind the first entry has exited and is not the
-- current one: after any sequence of yields, exits of processes other than the idle one, and
-- creations that do not panic, its entry is still that of an exited process, and it is still not
-- the current one.
pub Reach-exited :
    {S C : Type 0} {s t : Sched} (h : IsSound s) (m : ℕ) (p : Process)
    → get_elem? s.procs.value (suc m) ≡ some p
    → p.state ≡ exited
    → s.current.value ≢ some p.pid
    → Reach S C s t
    → (p' : Process) × (get_elem? t.procs.value (suc m) ≡ some p')
      × (p'.state ≡ exited)
      × (t.current.value ≢ some p'.pid)
Reach-exited {S} {C} {s} {t} h m p at dead away r =
    let table = ap (λ (l : SpinLock (List Process)). get_elem? l.value (suc m)) h.settled.procs in
    let user : p.pid ≢ 0 = elim (h.ordered.rest m p (sym table ∙ at)) [
      | inl (z, fresh) ↦ absurd (exited-ne-unused (sym dead ∙ fresh))
      | inr (e, _) ↦ omega (arith, e)
    ] in
    let (h', g) =
      reached-IsGone h (suc m)
        (record {
          process = p;
          at = sym table ∙ at;
          dead = dead;
          user = user;
          away =
              λ e. away (ap (λ (l : SpinLock (Option ℕ)). l.value) h.settled.current ∙ ap some e);
        })
        r in
    (
      g.process,
      ap (λ (l : SpinLock (List Process)). get_elem? l.value (suc m)) h'.settled.procs ∙ g.at,
      g.dead,
      λ e.
          g.away (
            some-injective
              (sym (ap (λ (l : SpinLock (Option ℕ)). l.value) h'.settled.current) ∙ e)),
    )
