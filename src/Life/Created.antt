-- ===== src/Life/Created.antt =====
-- What `create_process` of kernel/src/process.rs, and SYS_EXIT, do to a process table in order.
use beyond_os1k.Base.{
  ℕ, zero, suc, ◌+◌, ◌-◌, ◌/◌, ◌==◌, if◌then◌else◌, ◌≡◌, ◌≢◌, refl, sym, ap, ◌∙◌, inl, inr, arith,
  some, none, List, get_elem?, set, get_elem?-set_ne, Bool-cases, ==→eq, ==→ne, ok, ok-injective,
  >>=-eq-ok, [], ◌∷◌, Option-cases, none-ne-some, panic-ne-ok, some-injective,
}
use beyond_os1k.SpinLock.{SpinLock, new, lock, drop_guard}
use beyond_os1k.Allocator.{Symbols, Ram}
use beyond_os1k.Scheduler.{Process, State, unused, runnable, exited, position}
use beyond_os1k.Scheduler.Yield.{position_sound}
use beyond_os1k.Page.{new_table, map_page}
use beyond_os1k.Process.{map_identity, map_image, first_unused, create_process}
use beyond_os1k.Life.{IsTable}
use beyond_os1k.Life.Table.{
  exited-ne-unused, runnable-ne-unused, first_pid, index_of, position_idle, position_used,
  set-IsTable,
}

-- The slot that is found is unused.
pub first_unused_sound :
    (ps : List Process) (i : ℕ)
    → first_unused ps ≡ some i
    → (p : Process) × (get_elem? ps i ≡ some p) × (p.state ≡ unused)
unfolding first_unused
first_unused_sound [] i found = absurd (none-ne-some found)
first_unused_sound (p ∷ ps) i found = go p.state refl (first_unused_sound ps)
  where
    Found : List Process → ℕ → Type 0
    Found qs j = (q : Process) × (get_elem? qs j ≡ some q) × (q.state ≡ unused)

    later :
        (elim (first_unused ps) [ none ↦ none | some j ↦ some (suc j) ]) ≡ some i
        → ((j : ℕ) → first_unused ps ≡ some j → Found ps j)
        → Found (p ∷ ps) i
    later e behind = elim (Option-cases (first_unused ps)) [
      | inl lost ↦ absurd (none-ne-some (rw lost at e))
      | inr (j, there) ↦
          let (q, at, u) = behind j there in
          (q, ap (get_elem? (p ∷ ps)) (sym (some-injective (rw there at e))) ∙ at, u)
    ]

    zero_at : some 0 ≡ some i → p.state ≡ unused → Found (p ∷ ps) i
    zero_at e u = (p, ap (get_elem? (p ∷ ps)) (sym (some-injective e)), u)

    go :
        (st : State)
        → p.state ≡ st
        → ((j : ℕ) → first_unused ps ≡ some j → Found ps j)
        → (q : Process) × (get_elem? (p ∷ ps) i ≡ some q) × (q.state ≡ unused)
    go unused u behind = zero_at (rw u at found) u
    go runnable u behind = later (rw u at found) behind
    go exited u behind = later (rw u at found) behind

-- What `create_process` did if it did not panic.
pub create_process-ok :
    (k : Symbols) (grow : ℕ → ℕ → ℕ) (stack : ℕ → ℕ) (sstatus entry image image_size : ℕ)
    (ps : List Process) (r : Ram) {pid : ℕ} {procs : SpinLock (List Process)} {r' : Ram}
    → create_process k grow stack sstatus entry image image_size (new ps) r ≡ ok (pid, procs, r')
    → (i : ℕ) × (p : Process) × (first_unused ps ≡ some i)
      × (procs ≡ new (set ps i p))
      × (p.pid ≡ i + 1)
      × (p.state ≡ runnable)
unfolding create_process lock drop_guard
create_process-ok k grow stack sstatus entry image image_size ps r done =
    elim (Option-cases (first_unused ps)) [
      | inl full ↦ absurd (panic-ne-ok (rw full at done))
      | inr (i, found) ↦
          let ((root, r1), e1, d1) = >>=-eq-ok (new_table k r) _ (rw found at done) in
          let (r2, e2, d2) =
            >>=-eq-ok
              (map_identity k root 14 ((k.free_ram_end - k.kernel_base + 4095) / 4096) k.kernel_base
                r1)
              _ d1 in
          let (r3, e3, d3) = >>=-eq-ok (map_page k root 0x10001000 0x10001000 6 r2) _ d2 in
          let (r4, e4, d4) =
            >>=-eq-ok (if image_size == 0 then ok r3 else map_image k grow root image image_size r3)
              _ d3 in
          (
            i,
            _,
            found,
            sym (ap (λ (x : ℕ × SpinLock (List Process) × Ram). x.1) (ok-injective d4)),
            refl,
            refl,
          )
    ]

-- The entry of a process that exits.
pub marked-IsTable :
    {ps : List Process} (t : IsTable ps) (i : ℕ) (p : Process)
    → get_elem? ps i ≡ some p
    → p.pid ≢ 0
    → IsTable (set ps i (record p { state = exited }))
marked-IsTable t zero p at ne = absurd (ne (omega (arith, index_of t 0 p at ne, first_pid t p at)))
marked-IsTable t (suc i) p at ne =
    set-IsTable t i (record p { state = exited }) (omega (arith, index_of t (suc i) p at ne))
      exited-ne-unused

-- The entry of a process that is created.
pub made-IsTable :
    {ps : List Process} (t : IsTable ps) (i : ℕ) (q p : Process)
    → get_elem? ps i ≡ some q
    → q.state ≡ unused
    → p.pid ≡ i + 1
    → p.state ≡ runnable
    → IsTable (set ps i p)
made-IsTable t zero q p at u pid st =
    absurd
      (t.first_idle.1 (ap (λ (x : Process). x.state) (some-injective (sym t.at_first ∙ at)) ∙ u))
made-IsTable t (suc i) q p at u pid st =
    set-IsTable t i p (omega arith) (λ e. runnable-ne-unused (sym st ∙ e))

-- Where the used entries keep their places, so does the current process.
pub position_kept :
    {ps ps' : List Process} (t : IsTable ps) (t' : IsTable ps')
    → ((m : ℕ) (p : Process) → get_elem? ps m ≡ some p → p.pid ≢ 0 → get_elem? ps' m ≡ some p)
    → (pid i : ℕ) → position ps pid ≡ some i
    → position ps' pid ≡ some i
position_kept {ps} {ps'} t t' kept pid i found = elim (Bool-cases (pid == 0)) [
  | inl z ↦
      let idle : pid ≡ 0 = ==→eq pid 0 z in
      ap (position ps') idle
      ∙ position_idle t'
      ∙ sym (position_idle t)
      ∙ ap (position ps) (sym idle)
      ∙ found
  | inr ne ↦
      let (p, at, same) = position_sound ps pid i found in
      let user : p.pid ≢ 0 = λ e. ==→ne pid 0 ne (sym same ∙ e) in
      ap (position ps') (sym same) ∙ position_used t' i p (kept i p at user) user
]

-- A created process leaves the used entries alone.
pub made-kept :
    {ps : List Process} (t : IsTable ps) (i : ℕ) (q p : Process)
    → get_elem? ps i ≡ some q
    → q.state ≡ unused
    → (m : ℕ) (c : Process) → get_elem? ps m ≡ some c
    → c.state ≢ unused
    → get_elem? (set ps i p) m ≡ some c
made-kept {ps} t i q p at u m c there used =
    get_elem?-set_ne ps i m p (λ e. used (
      ap (λ (x : Process). x.state) (some-injective (sym there ∙ ap (get_elem? ps) (sym e) ∙ at))
      ∙ u))
    ∙ there
