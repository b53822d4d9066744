-- ===== src/Examples/Processes.antt =====
-- kernel/src/scheduler.rs at concrete inputs.
use beyond_os1k.Base.{
  ℕ, zero, suc, ◌<◌, sym, ap, ◌∙◌, ◌≡◌, ◌≢◌, ◌⊎◌, refl, arith, true, false, none, some, List, [],
  ◌∷◌, ok, none-ne-some,
}
use beyond_os1k.SpinLock.{new}
use beyond_os1k.Scheduler.{
  Process, unused, runnable, exited, first_eligible, eligible, get_next, position, Sched, stay,
  switch, yield_now,
}
use beyond_os1k.Scheduler.Fair.{Distinct, after_turns, get_next-fair}
use beyond_os1k.Scheduler.Next.{IsNext, get_next-IsNext}
use beyond_os1k.Scheduler.Yield.{IsSettled, switched, yield_now_lem}

abbrev process : ℕ → Process
process pid = record { pid = pid; state = runnable; sp = 0; page_table = none }

abbrev free_slot : Process
free_slot = record { pid = 0; state = unused; sp = 0; page_table = none }

-- the idle process, two that run and one that has ended
abbrev pub procs : List Process
procs =
    process 0
    ∷ process 2
    ∷ record (process 3) { state = exited }
    ∷ process 4
    ∷ free_slot
    ∷ free_slot
    ∷ free_slot
    ∷ free_slot
    ∷ []

abbrev pub sched : Sched
sched = record { procs = new procs; current = new (some 4); first_switch = false }

pub sched-IsSettled : IsSettled sched procs 4 3
unfolding position
sched-IsSettled = record {
  procs = refl;
  current = refl;
  full = refl;
  here = refl;
  idle = (0, refl);
}

after_4_comes_2 : get_next (new procs) 4 ≡ ok (2, new procs)
unfolding get_next position first_eligible
after_4_comes_2 = refl

position_of_4 : position procs 4 ≡ some 3
unfolding position
position_of_4 = refl

get_next-IsNext_example :
    (next : ℕ) × (get_next (new procs) 4 ≡ ok (next, new procs)) × IsNext procs 3 next
get_next-IsNext_example = get_next-IsNext procs 4 3 refl position_of_4 (omega arith)

yield_now_lem_example :
    (next : ℕ) × IsNext procs 3 next
    × (((next ≡ 4) × (yield_now sched ≡ ok (stay, sched)))
        ⊎ ((next ≢ 4)
            × (j : ℕ) × (yield_now sched ≡ ok (switch (some 3) j, switched sched-IsSettled next))
            × IsSettled (switched sched-IsSettled next) procs next j))
yield_now_lem_example = yield_now_lem sched-IsSettled

-- What holds of an entry holds of the one that the table shows there.
at_entry :
    {q p : Process} (k : ℕ)
    → (eligible q ≡ true → position procs q.pid ≡ some k)
    → some q ≡ some p
    → eligible p ≡ true
    → position procs p.pid ≡ some k
at_entry {q = q} {p = p} k holds same good =
    let e : q ≡ p = cc in
    ap (λ (r : Process). position procs r.pid) (sym e) ∙ holds (ap eligible e ∙ good)

false-ne-true : false ≡ true → ⊥
false-ne-true e = cc

procs-Distinct : Distinct procs
unfolding position
procs-Distinct zero p at good = at_entry 0 (λ e. absurd (false-ne-true e)) at good
procs-Distinct (suc zero) p at good = at_entry 1 (λ e. refl) at good
procs-Distinct (suc (suc zero)) p at good = at_entry 2 (λ e. absurd (false-ne-true e)) at good
procs-Distinct (suc (suc (suc zero))) p at good = at_entry 3 (λ e. refl) at good
procs-Distinct (suc (suc (suc (suc zero)))) p at good =
    at_entry 4 (λ e. absurd (false-ne-true e)) at good
procs-Distinct (suc (suc (suc (suc (suc zero))))) p at good =
    at_entry 5 (λ e. absurd (false-ne-true e)) at good
procs-Distinct (suc (suc (suc (suc (suc (suc zero)))))) p at good =
    at_entry 6 (λ e. absurd (false-ne-true e)) at good
procs-Distinct (suc (suc (suc (suc (suc (suc (suc zero))))))) p at good =
    at_entry 7 (λ e. absurd (false-ne-true e)) at good
procs-Distinct (suc (suc (suc (suc (suc (suc (suc (suc k)))))))) p at good =
    absurd (none-ne-some at)

get_next-fair_example : (n : ℕ) × (n < 8) × (after_turns (suc n) procs 4 ≡ ok 2)
get_next-fair_example =
    get_next-fair procs refl procs-Distinct 1 (process 2) refl refl 4 3 position_of_4
