-- ===== src/Life/Booted.antt =====
-- The scheduler as `kernel_main` of kernel/src/main.rs leaves it is in order.
use beyond_os1k.Base.{
  ℕ, zero, suc, ◌+◌, ◌≡◌, ◌≢◌, refl, ◌⊎◌, inl, inr, some, get_elem?, some-injective,
}
use mathlib.Core.Path.{subst}
use beyond_os1k.Scheduler.{Process, unused, runnable, Sched}
use beyond_os1k.Scheduler.Yield.{IsSettled}
use beyond_os1k.Boot.Main.Processes.{table}
use beyond_os1k.Life.{IsSound}
use beyond_os1k.Life.Table.{runnable-ne-unused}

module _ (stack : ℕ → ℕ) (idle a b shell : ℕ) where
  abbrev IsPlaced : ℕ → Process → Type 0
  IsPlaced m p = ((p.pid ≡ 0) × (p.state ≡ unused)) ⊎ ((p.pid ≡ m + 2) × (p.state ≢ unused))

  -- by the eight entries
  table_rest :
      (m : ℕ) (p : Process) → get_elem? (table stack idle a b shell) (suc m) ≡ some p → IsPlaced m p
  table_rest zero p at = subst (IsPlaced 0) (some-injective at) (inr (refl, runnable-ne-unused))
  table_rest (suc zero) p at =
      subst (IsPlaced 1) (some-injective at) (inr (refl, runnable-ne-unused))
  table_rest (suc (suc zero)) p at =
      subst (IsPlaced 2) (some-injective at) (inr (refl, runnable-ne-unused))
  table_rest (suc (suc (suc zero))) p at = subst (IsPlaced 3) (some-injective at) (inl (refl, refl))
  table_rest (suc (suc (suc (suc zero)))) p at =
      subst (IsPlaced 4) (some-injective at) (inl (refl, refl))
  table_rest (suc (suc (suc (suc (suc zero))))) p at =
      subst (IsPlaced 5) (some-injective at) (inl (refl, refl))
  table_rest (suc (suc (suc (suc (suc (suc zero)))))) p at =
      subst (IsPlaced 6) (some-injective at) (inl (refl, refl))
  table_rest (suc (suc (suc (suc (suc (suc (suc m))))))) p at = cc

  pub booted-IsSound : {s : Sched} → IsSettled s (table stack idle a b shell) 2 1 → IsSound s
  booted-IsSound settled = record {
    table = table stack idle a b shell;
    pid = 2;
    index = 1;
    settled = settled;
    ordered = record {
      full = refl;
      first = record { pid = 0; state = runnable; sp = stack 0 + 8124; page_table = some idle };
      at_first = refl;
      first_idle = (refl, runnable-ne-unused);
      rest = table_rest;
    };
  }
