-- ===== src/Life.antt =====
-- The life of the processes: sequences of the operations that change the scheduler's statics, which
-- are `yield_now` of kernel/src/scheduler.rs, SYS_EXIT of kernel/src/trap.rs, and `create_process`
-- of kernel/src/process.rs.
pub mod Table
pub mod Created
pub mod Sound
pub mod Reached
pub mod Booted
use beyond_os1k.Base.{ℕ, suc, ◌+◌, ◌≡◌, ◌≢◌, ◌⊎◌, some, List, length, get_elem?, ok}
use beyond_os1k.SpinLock.{SpinLock}
use beyond_os1k.Allocator.{Symbols, Ram}
use beyond_os1k.Scheduler.{Process, unused, Switch, Sched, yield_now}
use beyond_os1k.Scheduler.Yield.{IsSettled}
use beyond_os1k.Process.{create_process}
use beyond_os1k.Trap.{Kernel, gone, sys_exit_call}

-- One operation, wherever it is called: a yield, the exit of a process other than the idle one, or
-- the creation of a process, in any RAM.
pub data Step (S C : Type 0) : Sched → Sched → Type 0 where
  yields : {s s' : Sched} (to : Switch) → yield_now s ≡ ok (to, s') → Step S C s s'
  exits :
      {s s' : Sched} (k k' : Kernel S C) (to : Switch)
      → k.sched ≡ s
      → s.current.value ≢ some 0
      → sys_exit_call k ≡ ok (gone to k')
      → k'.sched ≡ s'
      → Step S C s s'
  creates :
      {s s' : Sched} (k : Symbols) (grow : ℕ → ℕ → ℕ) (stack : ℕ → ℕ)
      (sstatus entry image image_size : ℕ) (r r' : Ram) (pid : ℕ) (procs : SpinLock (List Process))
      → create_process k grow stack sstatus entry image image_size s.procs r ≡ ok (pid, procs, r')
      → record s { procs = procs } ≡ s'
      → Step S C s s'

pub data Reach (S C : Type 0) (s : Sched) : Sched → Type 0 where
  begin : Reach S C s s
  more : {t u : Sched} → Reach S C s t → Step S C t u → Reach S C s u

-- The pid of a used entry is one more than its index, but for the idle process, whose pid is 0 and
-- which is the first entry. An unused entry has the pid 0.
pub record IsTable (ps : List Process) : Type 0 where
  pub full : length ps ≡ 8
  pub first : Process
  pub at_first : get_elem? ps 0 ≡ some first
  pub first_idle : (first.pid ≡ 0) × (first.state ≢ unused)
  pub rest :
      (m : ℕ) (p : Process)
      → get_elem? ps (suc m) ≡ some p
      → ((p.pid ≡ 0) × (p.state ≡ unused)) ⊎ ((p.pid ≡ m + 2) × (p.state ≢ unused))

-- a settled scheduler with such a table
pub record IsSound (s : Sched) : Type 0 where
  pub table : List Process
  pub pid : ℕ
  pub index : ℕ
  pub settled : IsSettled s table pid index
  pub ordered : IsTable table
