-- ===== src/Life/Table.antt =====
-- Process tables that are in order.
use beyond_os1k.Base.{
  ℕ, zero, suc, ◌+◌, ◌≡◌, ◌≢◌, refl, sym, ap, ◌∙◌, ◌⊎◌, inl, inr, arith, some, List, [], ◌∷◌,
  get_elem?, set, get_elem?-set_self, get_elem?-set_ne, get_elem?-lt, length-set, Bool-cases, ◌==◌,
  ==→eq, ==→ne, eq→==, none-ne-some, some-injective,
}
use mathlib.Core.Path.{subst}
use beyond_os1k.Scheduler.{Process, unused, runnable, exited, position}
use beyond_os1k.Scheduler.Yield.{position_sound, position_complete}
use beyond_os1k.Life.{IsTable}

pub exited-ne-unused : exited ≢ unused
exited-ne-unused e = cc

pub runnable-ne-unused : runnable ≢ unused
runnable-ne-unused e = cc

module _ {ps : List Process} (t : IsTable ps) where
  pub first_pid : (p : Process) → get_elem? ps 0 ≡ some p → p.pid ≡ 0
  first_pid p at =
      ap (λ (q : Process). q.pid) (some-injective (sym at ∙ t.at_first)) ∙ t.first_idle.0

  -- An entry with another pid is used.
  pub used_state : (m : ℕ) (p : Process) → get_elem? ps m ≡ some p → p.pid ≢ 0 → p.state ≢ unused
  used_state zero p at ne = absurd (ne (first_pid p at))
  used_state (suc m) p at ne = elim (t.rest m p at) [
    | inl (z, _) ↦ absurd (ne z)
    | inr (_, used) ↦ used
  ]

  -- A pid other than 0 says which entry it is.
  pub index_of : (m : ℕ) (p : Process) → get_elem? ps m ≡ some p → p.pid ≢ 0 → p.pid ≡ m + 1
  index_of zero p at ne = absurd (ne (first_pid p at))
  index_of (suc m) p at ne = elim (t.rest m p at) [
    | inl (z, _) ↦ absurd (ne z)
    | inr (e, _) ↦ omega (arith, e)
  ]

  -- and every used entry is found under its pid
  pub position_idle : position ps 0 ≡ some 0
  unfolding position
  position_idle = go ps t.at_first
    where
      go : (qs : List Process) → get_elem? qs 0 ≡ some t.first → position qs 0 ≡ some 0
      go [] at = absurd (none-ne-some at)
      go (q ∷ qs) at =
          rw (eq→== q.pid 0 (ap (λ (r : Process). r.pid) (some-injective at) ∙ t.first_idle.0)) refl

  pub position_used :
      (m : ℕ) (p : Process) → get_elem? ps m ≡ some p → p.pid ≢ 0 → position ps p.pid ≡ some m
  position_used m p at ne =
      let (j, found) = position_complete ps m p at in
      let (q, there, same) = position_sound ps p.pid j found in
      let a = index_of m p at ne in
      let b = index_of j q there (λ e. ne (sym same ∙ e)) in
      found ∙ ap some (omega (arith, a, b, same))

  -- A change of one entry behind the first that keeps it in order.
  pub set-IsTable :
      (i : ℕ) (q : Process) → q.pid ≡ i + 2 → q.state ≢ unused → IsTable (set ps (suc i) q)
  set-IsTable i q pid used = record {
    full = length-set ps (suc i) q ∙ t.full;
    first = t.first;
    at_first = get_elem?-set_ne ps (suc i) 0 q (omega arith) ∙ t.at_first;
    first_idle = t.first_idle;
    rest = λ m p at. elim (Bool-cases (m == i)) [
      | inl e ↦
          let there : m ≡ i = ==→eq m i e in
          let lt = get_elem?-lt (set ps (suc i) q) (suc m) at in
          let self : get_elem? (set ps (suc i) q) (suc m) ≡ some q =
            ap (λ n. get_elem? (set ps (suc i) q) (suc n)) there
            ∙ get_elem?-set_self ps (suc i) q (omega (arith, length-set ps (suc i) q)) in
          subst
            (λ (x : Process).
              ((x.pid ≡ 0) × (x.state ≡ unused)) ⊎ ((x.pid ≡ m + 2) × (x.state ≢ unused)))
            (some-injective (sym self ∙ at)) (inr (omega arith, used))
      | inr ne ↦
          t.rest m p
            (sym (get_elem?-set_ne ps (suc i) (suc m) q (ground (arith, ==→ne m i ne))) ∙ at)
    ];
  }
