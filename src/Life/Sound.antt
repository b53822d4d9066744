-- ===== src/Life/Sound.antt =====
-- Every operation of the scheduler keeps its statics in order, and none brings back a process that
-- has exited.
use beyond_os1k.Base.{
  ℕ, ◌==◌, ◌≡◌, ◌≢◌, refl, sym, ap, ◌∙◌, ◌⊎◌, inl, inr, arith, some, Option, List, get_elem?, set,
  get_elem?-set_self, get_elem?-set_ne, get_elem?-lt, Bool-cases, ==→eq, ==→ne, ok, ok-injective,
  some-injective,
}
use mathlib.Core.Path.{subst}
use beyond_os1k.SpinLock.{SpinLock}
use beyond_os1k.Allocator.{Symbols, Ram}
use beyond_os1k.Scheduler.{Process, exited, Switch, Sched, yield_now}
use beyond_os1k.Scheduler.Next.{IsNext}
use beyond_os1k.Scheduler.Yield.{position_sound, yield_now_lem}
use beyond_os1k.Process.{create_process}
use beyond_os1k.Trap.{Kernel, Progress, returned, waiting, gone, mark_exited, sys_exit_call}
use beyond_os1k.Trap.Exit.{mark_exited-set, sys_exit_call_lem}
use beyond_os1k.Life.{Step, yields, exits, creates, IsTable, IsSound}
use beyond_os1k.Life.Table.{exited-ne-unused, index_of, used_state}
use beyond_os1k.Life.Created.{
  create_process-ok, first_unused_sound, marked-IsTable, made-IsTable, position_kept, made-kept,
}

-- An operation from a sound state: the state is sound again, the exited processes stay as they are,
-- and the current process is the same or the next one in some turn.
pub record IsMoved {s : Sched} (h : IsSound s) (s' : Sched) : Type 0 where
  pub after : IsSound s'
  pub kept :
      (m : ℕ) (p : Process)
      → get_elem? h.table m ≡ some p
      → p.state ≡ exited
      → (p' : Process) × (get_elem? after.table m ≡ some p')
        × (p'.state ≡ exited)
        × (p'.pid ≡ p.pid)
  pub turn : (after.pid ≡ h.pid) ⊎ ((i : ℕ) × IsNext after.table i after.pid)

module _ {s : Sched} (h : IsSound s) where
  yields-IsMoved : (to : Switch) (s' : Sched) → yield_now s ≡ ok (to, s') → IsMoved h s'
  yields-IsMoved to s' ran =
      let (next, turn, moved) = yield_now_lem h.settled in
      elim moved [
        | inl (same, e) ↦
            subst (λ x. IsMoved h x) (ap (λ (x : Switch × Sched). x.1) (ok-injective (sym e ∙ ran)))
              (record { after = h; kept = λ m p at dead. (p, at, dead, refl); turn = inl refl })
        | inr (apart, j, e, settled) ↦
            subst (λ x. IsMoved h x) (ap (λ (x : Switch × Sched). x.1) (ok-injective (sym e ∙ ran)))
              (record {
                after = record {
                  table = h.table;
                  pid = next;
                  index = j;
                  settled = settled;
                  ordered = h.ordered;
                };
                kept = λ m p at dead. (p, at, dead, refl);
                turn = inr (h.index, turn);
              })
      ]

  -- the current process, if it is not the idle one
  pub only :
      h.pid ≢ 0 → (m : ℕ) (q : Process) → get_elem? h.table m ≡ some q → q.pid ≡ h.pid → m ≡ h.index
  only user m q at same =
      let (p, here, mine) = position_sound h.table h.pid h.index h.settled.here in
      omega (
        arith,
        index_of h.ordered m q at (λ e. user (sym same ∙ e)),
        index_of h.ordered h.index p here (λ e. user (sym mine ∙ e)),
        same,
        mine,
      )

  marked-ordered : h.pid ≢ 0 → IsTable (mark_exited h.table h.pid)
  marked-ordered user =
      let (p, here, mine) = position_sound h.table h.pid h.index h.settled.here in
      subst (λ (t : List Process). IsTable t)
        (sym (mark_exited-set h.table h.pid h.index p h.settled.here here))
        (marked-IsTable h.ordered h.index p here (λ e. user (sym mine ∙ e)))

  marked_dead :
      (m : ℕ) (p : Process)
      → get_elem? h.table m ≡ some p
      → p.state ≡ exited
      → (p' : Process) × (get_elem? (mark_exited h.table h.pid) m ≡ some p')
        × (p'.state ≡ exited)
        × (p'.pid ≡ p.pid)
  marked_dead m p at dead =
      let (c, here, mine) = position_sound h.table h.pid h.index h.settled.here in
      let marked =
        ap (λ (t : List Process). get_elem? t m)
          (mark_exited-set h.table h.pid h.index c h.settled.here here) in
      elim (Bool-cases (m == h.index)) [
        | inl e ↦
            let there : m ≡ h.index = ==→eq m h.index e in
            (
              record c { state = exited },
              marked
                  ∙ ap (get_elem? (set h.table h.index (record c { state = exited }))) there
                  ∙ get_elem?-set_self h.table h.index (record c { state = exited })
                      (get_elem?-lt h.table h.index here),
              refl,
              ap (λ (x : Process). x.pid)
                  (some-injective (sym here ∙ ap (get_elem? h.table) (sym there) ∙ at)),
            )
        | inr ne ↦ (
          p,
          marked ∙ get_elem?-set_ne h.table h.index m _ (λ e. ==→ne m h.index ne (sym e)) ∙ at,
          dead,
          refl,
        )
      ]

  exits-IsMoved :
      {S C : Type 0} (k k' : Kernel S C) (to : Switch)
      → k.sched ≡ s
      → h.pid ≢ 0
      → sys_exit_call k ≡ ok (gone to k')
      → IsMoved h k'.sched
  exits-IsMoved k k' to at_s user ran =
      let (next, j, turn, apart, e, settled, _, _) =
        sys_exit_call_lem h.settled (only user) user k at_s in
      subst (λ x. IsMoved h x) (gone_to (ok-injective (sym e ∙ ran)))
        (record {
          after = record {
            table = mark_exited h.table h.pid;
            pid = next;
            index = j;
            settled = settled;
            ordered = marked-ordered user;
          };
          kept = marked_dead;
          turn = inr (h.index, turn);
        })
    where
      gone_to :
          {S C : Type 0} {a b : Switch} {x y : Kernel S C}
          → ◌≡◌ {A = Progress S C} (gone a x) (gone b y)
          → x.sched ≡ y.sched
      gone_to e = ap progressed e
        where
          progressed : {S C : Type 0} → Progress S C → Sched
          progressed (returned f k) = k.sched
          progressed (waiting to k) = k.sched
          progressed (gone to k) = k.sched

  creates-IsMoved :
      (k : Symbols) (grow : ℕ → ℕ → ℕ) (stack : ℕ → ℕ) (sstatus entry image image_size : ℕ)
      (r r' : Ram) (pid : ℕ) (procs : SpinLock (List Process))
      → create_process k grow stack sstatus entry image image_size s.procs r ≡ ok (pid, procs, r')
      → IsMoved h (record s { procs = procs })
  creates-IsMoved k grow stack sstatus entry image image_size r r' pid procs ran =
      let (i, p, found, made, named, st) =
        create_process-ok k grow stack sstatus entry image image_size h.table r (
          ap (λ l. create_process k grow stack sstatus entry image image_size l r)
            (sym h.settled.procs)
          ∙ ran) in
      let (q, at, u) = first_unused_sound h.table i found in
      let ordered = made-IsTable h.ordered i q p at u named st in
      let used = made-kept h.ordered i q p at u in
      let place =
        position_kept h.ordered ordered
          (λ m c there ne. used m c there (used_state h.ordered m c there ne)) in
      record {
        after = record {
          table = set h.table i p;
          pid = h.pid;
          index = h.index;
          settled = record {
            procs = made;
            current = h.settled.current;
            full = ordered.full;
            here = place h.pid h.index h.settled.here;
            idle = let (z, e) = h.settled.idle in (z, place 0 z e);
          };
          ordered = ordered;
        };
        kept = λ m c there dead.
            (c, used m c there (λ e. exited-ne-unused (sym dead ∙ e)), dead, refl);
        turn = inl refl;
      }

pub Step-IsMoved : {S C : Type 0} {s s' : Sched} → Step S C s s' → (h : IsSound s) → IsMoved h s'
Step-IsMoved (yields {s} {s'} to ran) h = yields-IsMoved h to s' ran
Step-IsMoved (exits {s} {s'} k k' to at_s user ran to_s) h =
    subst (λ x. IsMoved h x) to_s
      (exits-IsMoved h k k' to at_s
        (λ z. user (ap (λ (l : SpinLock (Option ℕ)). l.value) h.settled.current ∙ ap some z)) ran)
Step-IsMoved (creates {s} {s'} k grow stack sstatus entry image image_size r r' pid procs ran to_s)
      h =
    subst (λ x. IsMoved h x) to_s
      (creates-IsMoved h k grow stack sstatus entry image image_size r r' pid procs ran)
