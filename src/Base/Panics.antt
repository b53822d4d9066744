-- ===== src/Base/Panics.antt =====
-- Code that may panic. `.cargo/config.toml` passes `-O` to rustc, which turns off overflow checks
-- and `debug_assert!`, so arithmetic wraps; `assert!`, `expect`, slice bounds and `panic!` remain.
use mathlib.Core.Path.{◌≡◌, refl}
use mathlib.Core.Bool.{Bool, true, false}
use mathlib.Core.Option.{Option, none, some}

-- What stops the kernel; `spinning` is a wait loop whose fuel has run out, and
-- `fault` a write where there is no RAM.
pub data Panic : Type 0 where
  assertion out_of_bounds length_mismatch expect locked out_of_memory explicit unreachable spinning
        fault :
      Panic

pub data Outcome {ℓ} (T : Type ℓ) : Type ℓ where
  panic : Panic → Outcome T
  ok : (value : T) → Outcome T

-- `Option::expect`
abbrev pub expect_some {ℓ} : {T : Type ℓ} → Option T → Outcome T
expect_some (some x) = ok x
expect_some none = panic expect

-- `assert!`, and the checks that panic in the same way
abbrev pub guard : (holds : Bool) (why : Panic) → Outcome (Unit {0})
guard false why = panic why
guard true why = ok tt

infixl 5 ◌>>◌ ◌>>=◌
-- What follows runs only without a panic.
abbrev pub ◌>>=◌ {ℓ κ} :
    {T : Type ℓ} {U : Type κ} (first : Outcome T) (k : T → Outcome U) → Outcome U
panic why >>= k = panic why
ok x >>= k = k x

abbrev pub ◌>>◌ {ℓ} : {U : Type ℓ} (first : Outcome (Unit {0})) (after : Outcome U) → Outcome U
panic why >> after = panic why
ok tt >> after = after

-- Where a sequence ends without a panic, so did its first part.
pub >>=-eq-ok {ℓ κ} :
    {T : Type ℓ} {U : Type κ} (first : Outcome T) (k : T → Outcome U) {y : U}
    → (first >>= k) ≡ ok y
    → (x : T) × (first ≡ ok x) × (k x ≡ ok y)
>>=-eq-ok (panic why) k done = cc
>>=-eq-ok (ok x) k done = (x, refl, done)

pub panic-ne-ok {ℓ} : {A : Type ℓ} {why : Panic} {a : A} → panic why ≡ ok a → ⊥
panic-ne-ok e = cc

-- What holds of every end of the second part holds of every end of the whole.
pub >>=-keeps {ℓ κ μ} :
    {T : Type ℓ} {U : Type κ} (P : U → Type μ) (first : Outcome T) {k : T → Outcome U}
    → ((x : T) (y : U) → k x ≡ ok y → P y)
    → {y : U} → (first >>= k) ≡ ok y
    → P y
>>=-keeps P (panic why) then_so done = absurd (panic-ne-ok done)
>>=-keeps P (ok x) then_so done = then_so x _ done

pub ok-injective {ℓ} : {A : Type ℓ} {a b : A} → ok a ≡ ok b → a ≡ b
ok-injective e = cc
