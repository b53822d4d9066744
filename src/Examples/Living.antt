-- ===== src/Examples/Living.antt =====
-- Operations of the scheduler, one after the other, behind the start of the kernel.
use beyond_os1k.Base.{ℕ, ◌+◌, ◌≡◌, ◌≢◌, refl, some, false, [], set, get_elem?, ok}
use beyond_os1k.SpinLock.{new, lock, drop_guard}
use beyond_os1k.Scheduler.{
  Process, exited, Switch, switch, Sched, position, try_get_index, first_eligible, get_next,
  yield_now,
}
use beyond_os1k.Scheduler.Yield.{IsSettled}
use beyond_os1k.Tar.Archive.{zeros}
use beyond_os1k.Trap.{Kernel, gone, mark_exited, sys_exit_call}
use beyond_os1k.Boot.Main.Processes.{table}
use beyond_os1k.Life.{Reach, begin, more, yields, exits, IsSound}
use beyond_os1k.Life.Booted.{booted-IsSound}
use beyond_os1k.Life.Reached.{Reach-IsSound, Reach-exited}
use beyond_os1k.Examples.Disk.{Disk, blk}
use beyond_os1k.Examples.Creating.{stack}

-- A runs, with idle, B and the shell.
abbrev booted : Sched
booted = record {
  procs = new (table stack 0x80304000 0x80328000 0x8034c000 0x80370000);
  current = new (some 2);
  first_switch = false;
}

booted-settled : IsSettled booted (table stack 0x80304000 0x80328000 0x8034c000 0x80370000) 2 1
unfolding position
booted-settled = record { procs = refl; current = refl; full = refl; here = refl; idle = (0, refl) }

abbrev kernel : Sched → Kernel Disk ℕ
kernel s = record {
  sched = s;
  fs = record { files = new []; disk = new (zeros 2560); blk = blk };
  console = 0;
  memory = λ a. 0;
}

abbrev a : Process
a = record { pid = 2; state = exited; sp = stack 1 + 8124; page_table = some 0x80328000 }

-- A has exited, and B runs.
abbrev left : Sched
left = record {
  procs = new (set (table stack 0x80304000 0x80328000 0x8034c000 0x80370000) 1 a);
  current = new (some 3);
  first_switch = false;
}

exit_of_a : sys_exit_call (kernel booted) ≡ ok (gone (switch (some 1) 2) (kernel left))
unfolding sys_exit_call mark_exited yield_now get_next try_get_index first_eligible position lock
    drop_guard
exit_of_a = refl

-- then the shell does
yield_of_b : yield_now left ≡ ok (switch (some 2) 3, record left { current = new (some 4) })
unfolding yield_now get_next try_get_index first_eligible position lock drop_guard
yield_of_b = refl

after_exit : Reach Disk ℕ booted left
after_exit =
    more begin (exits (kernel booted) (kernel left) (switch (some 1) 2) refl user exit_of_a refl)
  where
    user : booted.current.value ≢ some 0
    user e = cc

after_yield : Reach Disk ℕ left (record left { current = new (some 4) })
after_yield = more begin (yields (switch (some 2) 3) yield_of_b)

Reach-IsSound_example :
    IsSound left
    × ((to : Switch) × (t' : Sched) × (yield_now left ≡ ok (to, t')))
    × ((k : Kernel Disk ℕ)
        → k.sched ≡ left
        → left.current.value ≢ some 0
        → (to : Switch) × (k' : Kernel Disk ℕ) × (sys_exit_call k ≡ ok (gone to k')))
Reach-IsSound_example =
    Reach-IsSound (booted-IsSound stack 0x80304000 0x80328000 0x8034c000 0x80370000 booted-settled)
      after_exit

left_sound : IsSound left
left_sound =
    (Reach-IsSound (booted-IsSound stack 0x80304000 0x80328000 0x8034c000 0x80370000 booted-settled)
      after_exit).0

left_user : left.current.value ≢ some 2
left_user e = cc

Reach-exited_example :
    (p' : Process) × (get_elem?
        (set (table stack 0x80304000 0x80328000 0x8034c000 0x80370000) 1 a)
        1
      ≡ some p')
    × (p'.state ≡ exited)
    × (some 4 ≢ some p'.pid)
Reach-exited_example = Reach-exited left_sound 0 a refl refl left_user after_yield
