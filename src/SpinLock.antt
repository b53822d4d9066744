-- ===== src/SpinLock.antt =====
-- kernel/src/spinlock.rs. One hart runs the kernel, so a lock is its flag and its value; the
-- guard is the duty to call `drop_guard`, which Rust inserts where the guard goes out of scope.
use beyond_os1k.Base.{Bool, true, false, Outcome, ok, panic, locked, if◌then◌else◌}

pub record SpinLock {ℓ} (T : Type ℓ) : Type ℓ where
  pub is_locked : Bool
  pub value : T

module _ {ℓ} {T : Type ℓ} where
  abbrev pub new : T → SpinLock T
  new v = record { is_locked = false; value = v }

  -- `lock`: the flag is swapped in; if it was set already, the body of the loop panics.
  unfoldable pub lock : SpinLock T → Outcome (SpinLock T)
  lock l = if l.is_locked then panic locked else ok (record l { is_locked = true })

  -- a write through the guard (`DerefMut`)
  abbrev pub write : SpinLock T → T → SpinLock T
  write l v = record l { value = v }

  -- `Drop for Guard`
  unfoldable pub drop_guard : SpinLock T → SpinLock T
  drop_guard l = record l { is_locked = false }
