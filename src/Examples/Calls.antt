-- ===== src/Examples/Calls.antt =====
-- kernel/src/timer.rs and kernel/src/trap.rs at concrete inputs.
use beyond_os1k.Base.{
  ℕ, true, inl, locked, zero, suc, ◌+◌, ◌*◌, ◌-◌, ◌^◌, ◌≤◌, ◌<◌, ◌≡◌, ◌≢◌, ◌⊎◌, refl, arith, none,
  some, List, [], ◌∷◌, get_elem?, replicate, slice, copy_into, ok, panic, expect, ◌==◌,
  if◌then◌else◌,
}
use beyond_os1k.Base.Utf8.{is_utf8}
use beyond_os1k.SpinLock.{new, lock, drop_guard}
use beyond_os1k.Scheduler.{Process, exited, switch}
use beyond_os1k.Scheduler.Next.{IsNext}
use beyond_os1k.Scheduler.Yield.{IsSettled, switched}
use beyond_os1k.Timer.{Sbi, get_timer, set_deadline}
use beyond_os1k.Timer.Reading.{IsClock, get_timer_lem, set_deadline_lem}
use beyond_os1k.Tar.Files.{File, zeroed_file, has_name, fs_lookup, pack, store_file}
use beyond_os1k.Tar.Header.{make_header, unsigned_header, as_bytes, sum_bytes}
use beyond_os1k.Tar.Ustar.{ustar_header}
use beyond_os1k.Tar.Octal.{int2oct}
use beyond_os1k.Tar.Archive.{archive}
use beyond_os1k.Tar.Fs.{fs_flush, store_sectors, sector_io}
use beyond_os1k.Virtio.Driver.{read_write_disk}
use beyond_os1k.Trap.{
  TrapFrame, Kernel, returned, gone, bytes, mark_exited, sys_exit_call, handle_syscall, file_call,
  write_call, overwrite,
}
use beyond_os1k.Trap.Handler.{Hart, back, away, handle_trap}
use beyond_os1k.Trap.Preempt.{handle_trap-held}
use beyond_os1k.Trap.Tick.{ticked, handle_trap-timer}
use beyond_os1k.Trap.Exit.{marked-IsSettled, sys_exit_call_lem}
use beyond_os1k.Trap.Transfer.{Names, readfile_lem, writefile-readfile}
use beyond_os1k.Examples.Processes.{procs, sched, sched-IsSettled}
use beyond_os1k.Examples.Disk.{Disk, prompt_device, blk}
use beyond_os1k.Examples.Files.{meow, meow_name}

-- A counter whose high word has just changed at the second reading.
abbrev pub clock : ℕ → ℕ
clock n = if n == 0 then 2 ^ 32 - 1 else 2 ^ 32

carry_seen : get_timer clock 2 0 ≡ ok (2 ^ 32, 6)
unfolding get_timer
carry_seen = refl

pub clock-IsClock : IsClock clock
clock-IsClock = record {
  word = λ n. ground arith;
  onward = λ n m h. ground arith;
  slow = λ n. ground arith;
}

get_timer_lem_example :
    (m : ℕ) × (next : ℕ) × (get_timer clock 2 0 ≡ ok (clock m, next))
    × (0 ≤ m)
    × (m < next)
    × (next ≤ 0 + 6)
get_timer_lem_example = get_timer_lem clock clock-IsClock 0 0

abbrev pub sbi : Sbi ℕ
sbi = record {
  set_timer_call = λ lo hi c. (0, hi * 2 ^ 32 + lo);
  putchar_call = λ b c. (0, c);
  getchar_call = λ c. (0xffffffff, c);
}

set_deadline_lem_example :
    (m : ℕ) × (next : ℕ) × (lo : ℕ) × (hi : ℕ) × (0 ≤ m)
    × (m < next)
    × (lo < 2 ^ 32)
    × (hi * 2 ^ 32 + lo ≡ clock m + 500 * 10000)
    × (set_deadline sbi clock 2 500 0 7
        ≡ (if 0 == 0 then ok (next, hi * 2 ^ 32 + lo) else panic expect))
set_deadline_lem_example =
    set_deadline_lem clock clock-IsClock sbi 0 500 0 7 (omega arith) (λ m. ground arith)

-- The bytes of "meow.txt" at 100 and of "hi" at 200.
abbrev memory : ℕ → ℕ
memory a = elim (get_elem? meow_name (a - 100)) [ none ↦ 0 | some b ↦ b ]

abbrev kernel : Kernel Disk ℕ
kernel = record {
  sched = sched;
  fs = record {
    files = new (meow ∷ zeroed_file ∷ []);
    disk = new (replicate 2560 0);
    blk = record blk { capacity = new (some 0) };
  };
  console = 0;
  memory = memory;
}

abbrev call : ℕ → TrapFrame
call n = record { a0 = 100; a1 = 8; a2 = 100; a3 = 4; a7 = n }

call-Names : (n : ℕ) → Names (call n) kernel (meow ∷ zeroed_file ∷ []) 0 meow
unfolding is_utf8 has_name
call-Names n = record {
  files = refl;
  text = refl;
  found = refl;
  file_at = refl;
  fits = omega arith;
}

readfile_lem_example :
    (memory' : ℕ → ℕ) × (handle_syscall prompt_device 1 sbi (call 4) kernel
      ≡ ok (returned (record (call 4) { a0 = 4 }) (record kernel { memory = memory' })))
    × (bytes memory' 100 4 ≡ b'm' ∷ b'e' ∷ b'o' ∷ b'w' ∷ [])
    × ((a : ℕ) → (a < 100) ⊎ (100 + 4 ≤ a) → memory' a ≡ memory a)
readfile_lem_example =
    readfile_lem prompt_device 1 sbi (call 4) kernel (meow ∷ zeroed_file ∷ []) 0 meow (call-Names 4)
      refl

-- The file with its first four bytes written anew.
abbrev table : List File
table = record meow { size = 4 } ∷ zeroed_file ∷ []

abbrev flushed : Kernel Disk ℕ
flushed = record kernel {
  fs = record kernel.fs { files = new table; disk = new (archive 2560 table) };
}

meow_written :
    handle_syscall prompt_device 1 sbi (call 5) kernel
    ≡ ok (returned (record (call 5) { a0 = 4 }) flushed)
unfolding handle_syscall file_call write_call overwrite fs_lookup fs_flush store_sectors sector_io
    read_write_disk slice copy_into lock drop_guard is_utf8 has_name pack store_file make_header
    unsigned_header as_bytes int2oct archive ustar_header sum_bytes
meow_written = refl

writefile-readfile_example :
    (k' : Kernel Disk ℕ) × (returned (record (call 5) { a0 = 4 }) flushed
      ≡ returned (record (call 5) { a0 = 4 }) k')
    × ((g : TrapFrame) (memory : ℕ → ℕ)
        → g.a7 ≡ 4
        → g.a3 ≡ 4
        → bytes memory g.a0 g.a1 ≡ bytes kernel.memory 100 8
        → (memory' : ℕ → ℕ) × (handle_syscall prompt_device 1 sbi g (record k' { memory = memory })
            ≡ ok (returned (record g { a0 = g.a3 }) (record k' { memory = memory' })))
          × (bytes memory' g.a2 g.a3 ≡ bytes kernel.memory 100 4))
writefile-readfile_example =
    writefile-readfile prompt_device 1 sbi (call 5) kernel (meow ∷ zeroed_file ∷ []) 0 meow
      (call-Names 5) refl meow_written

only_4 : (m : ℕ) (q : Process) → get_elem? procs m ≡ some q → q.pid ≡ 4 → m ≡ 3
only_4 zero q at e = cc
only_4 (suc zero) q at e = cc
only_4 (suc (suc zero)) q at e = cc
only_4 (suc (suc (suc zero))) q at e = refl
only_4 (suc (suc (suc (suc zero)))) q at e = cc
only_4 (suc (suc (suc (suc (suc zero))))) q at e = cc
only_4 (suc (suc (suc (suc (suc (suc zero)))))) q at e = cc
only_4 (suc (suc (suc (suc (suc (suc (suc zero))))))) q at e = cc
only_4 (suc (suc (suc (suc (suc (suc (suc (suc m)))))))) q at e = cc

sys_exit_call_lem_example :
    (next : ℕ) × (j : ℕ) × IsNext (mark_exited procs 4) 3 next
    × (next ≢ 4)
    × (sys_exit_call kernel
        ≡ ok (
            gone
              (switch (some 3) j)
              (record kernel { sched = switched (marked-IsSettled sched-IsSettled) next })))
    × IsSettled (switched (marked-IsSettled sched-IsSettled) next) (mark_exited procs 4) next j
    × ((m : ℕ) → m ≢ 3 → get_elem? (mark_exited procs 4) m ≡ get_elem? procs m)
    × ((m : ℕ) (q : Process)
        → get_elem? (mark_exited procs 4) m ≡ some q
        → q.pid ≡ 4
        → q.state ≡ exited)
sys_exit_call_lem_example = sys_exit_call_lem sched-IsSettled only_4 (omega arith) kernel refl

-- A timer interrupt while process 4 runs.
abbrev hart : Hart Disk ℕ
hart = record { csr = λ c. if c == 0x142 then 0x80000005 else 0; kernel = kernel; readings = 0 }

abbrev frame : TrapFrame
frame = record { a0 = 1; a1 = 2; a2 = 3; a3 = 4; a7 = 5 }

handle_trap-timer_example :
    (m : ℕ) × (readings : ℕ) × (lo : ℕ) × (hi : ℕ) × (next : ℕ) × (0 ≤ m)
    × (m < readings)
    × (hi * 2 ^ 32 + lo ≡ clock m + 500 * 10000)
    × IsNext procs 3 next
    × (((next ≡ 4)
          × (handle_trap prompt_device 1 sbi clock 2 frame hart
              ≡ ok (back frame (ticked hart (hi * 2 ^ 32 + lo) sched readings))))
        ⊎ ((next ≢ 4)
            × (j : ℕ) × (handle_trap prompt_device 1 sbi clock 2 frame hart
                ≡ ok (
                    away
                      (switch (some 3) j)
                      (ticked hart (hi * 2 ^ 32 + lo) (switched sched-IsSettled next) readings)))
            × IsSettled (switched sched-IsSettled next) procs next j))
handle_trap-timer_example =
    handle_trap-timer prompt_device 1 sbi clock clock-IsClock (λ m. ground arith) (λ lo hi c. refl)
      frame hart procs 4 3 refl sched-IsSettled

-- The same interrupt while PROCS is locked.
abbrev busy_hart : Hart Disk ℕ
busy_hart = record hart {
  kernel = record kernel {
    sched = record sched { procs = record { is_locked = true; value = procs } };
  };
}

handle_trap-held_example : handle_trap prompt_device 1 sbi clock 2 frame busy_hart ≡ panic locked
unfolding lock
handle_trap-held_example =
    handle_trap-held prompt_device 1 sbi clock clock-IsClock (λ m. ground arith) (λ lo hi c. refl)
      frame busy_hart 4 refl refl (inl (new procs, refl))
