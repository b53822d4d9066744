-- ===== src/Trap.antt =====
-- `handle_syscall` of kernel/src/trap.rs, over the scheduler, the files and the firmware. The
-- system call numbers are those of common/src/lib.rs.
pub mod Exit
pub mod Transfer
pub mod Entry
pub mod Handler
pub mod Tick
pub mod Preempt
use beyond_os1k.Base.{
  ℕ, zero, suc, ◌+◌, ◌%◌, Bool, Option, none, some, List, [], ◌∷◌, get_elem?, set, length, ◌==◌,
  if◌then◌else◌, Outcome, ok, panic, expect, unreachable, explicit, out_of_bounds, guard,
  expect_some, ◌>>=◌, ◌>>◌, slice, copy_into,
}
use beyond_os1k.Base.Utf8.{is_utf8}
use beyond_os1k.SpinLock.{SpinLock, lock, write, drop_guard}
use beyond_os1k.Scheduler.{Process, exited, Sched, Switch, stay, switch, yield_now}
use beyond_os1k.Timer.{Sbi, success, failure, put_byte, get_char}
use beyond_os1k.Virtio.Device.{Device}
use beyond_os1k.Tar.Files.{File, fs_lookup}
use beyond_os1k.Tar.Fs.{Fs, fs_flush}

abbrev pub sys_putbyte : ℕ
sys_putbyte = 1

abbrev pub sys_getchar : ℕ
sys_getchar = 2

abbrev pub sys_exit : ℕ
sys_exit = 3

abbrev pub sys_readfile : ℕ
sys_readfile = 4

abbrev pub sys_writefile : ℕ
sys_writefile = 5

-- The registers of `TrapFrame` that a system call reads or writes.
pub record TrapFrame : Type 0 where
  pub a0 : ℕ
  pub a1 : ℕ
  pub a2 : ℕ
  pub a3 : ℕ
  pub a7 : ℕ

-- The statics, the firmware's state, and the bytes of the address space of the current process.
pub record Kernel (S C : Type 0) : Type 0 where
  pub sched : Sched
  pub fs : Fs S
  pub console : C
  pub memory : ℕ → ℕ

-- How far a call has come: it returns to the process; or the loop of SYS_GETCHAR has called
-- `yield_now` and goes round again once the process runs; or the process has been left for good.
pub data Progress (S C : Type 0) : Type 0 where
  returned : TrapFrame → Kernel S C → Progress S C
  waiting gone : Switch → Kernel S C → Progress S C

-- `slice::from_raw_parts(p, n)`
abbrev pub bytes : (ℕ → ℕ) → (p n : ℕ) → List ℕ
bytes memory p zero = []
bytes memory p (suc n) = memory p ∷ bytes memory (p + 1) n

-- a write through `slice::from_raw_parts_mut(p, n)`
abbrev pub put_bytes : (ℕ → ℕ) → ℕ → List ℕ → ℕ → ℕ
put_bytes memory p [] = memory
put_bytes memory p (b ∷ bs) = put_bytes (λ a. if a == p then b else memory a) (p + 1) bs

-- The first process with that pid gets the state `Exited`.
unfoldable pub mark_exited : List Process → ℕ → List Process
mark_exited [] pid = []
mark_exited (p ∷ ps) pid =
    let rest = mark_exited ps pid in
    if p.pid == pid then record p { state = exited } ∷ ps else p ∷ rest

-- The content of the file at `i` replaced: what SYS_WRITEFILE does before it flushes.
unfoldable pub overwrite : ℕ → List ℕ → SpinLock (List File) → Outcome (SpinLock (List File))
unfolding lock drop_guard
overwrite i buf l = do
  files ← lock l
  file ← elim (get_elem? files.value i) [ none ↦ panic out_of_bounds | some file ↦ ok file ]
  data_bytes ← copy_into file.data_bytes 0 (length buf) buf
  let file = record file { data_bytes = data_bytes; size = length buf }
  ok (drop_guard (write files (set files.value i file)))

module _ {S C : Type 0} where
  unfoldable pub sys_exit_call : Kernel S C → Outcome (Progress S C)
  unfolding lock drop_guard
  sys_exit_call k = do
    current ← lock k.sched.current
    pid ← expect_some current.value
    procs ← lock k.sched.procs
    let marked = drop_guard (write procs (mark_exited procs.value pid))
    let ready = record k.sched { current = drop_guard current; procs = marked }
    (next, sched) ← yield_now ready
    elim next [
      | stay ↦ panic unreachable
      | switch from to ↦ ok (gone (switch from to) (record k { sched = sched }))
    ]

  -- SYS_READFILE, with the file found at `i`
  unfoldable pub read_call : ℕ → TrapFrame → Kernel S C → Outcome (Progress S C)
  unfolding lock drop_guard
  read_call i f k = do
    files ← lock k.fs.files
    file ← elim (get_elem? files.value i) [ none ↦ panic out_of_bounds | some file ↦ ok file ]
    read ← slice file.data_bytes 0 f.a3
    ok (
        returned (record f { a0 = f.a3 })
          (record k {
            fs = record k.fs { files = drop_guard files };
            memory = put_bytes k.memory f.a2 read;
          }))

  module _ (device : Device S) (fuel : ℕ) where
    unfoldable pub write_call : ℕ → TrapFrame → Kernel S C → Outcome (Progress S C)
    write_call i f k = do
      files ← overwrite i (bytes k.memory f.a2 f.a3) k.fs.files
      fs ← fs_flush device fuel (record k.fs { files = files })
      ok (returned (record f { a0 = f.a3 }) (record k { fs = fs }))

    -- the arm SYS_READFILE | SYS_WRITEFILE
    unfoldable pub file_call : TrapFrame → Kernel S C → Outcome (Progress S C)
    file_call f k = do
      let filename = bytes k.memory f.a0 f.a1
      guard (is_utf8 filename) expect
      (found, files) ← fs_lookup filename k.fs.files
      let k = record k { fs = record k.fs { files = files } }
      elim found [
        | none ↦ ok (returned (record f { a0 = 0xffffffff }) k)
        | some i ↦ if f.a7 == sys_writefile then write_call i f k else read_call i f k
      ]

    module _ (sbi : Sbi C) where
      unfoldable pub putbyte_call : TrapFrame → Kernel S C → Outcome (Progress S C)
      putbyte_call f k =
          let (answer, console) = put_byte sbi (f.a0 % 256) k.console in
          let a0 : ℕ = elim answer [ success r ↦ 0 | failure e ↦ e ] in
          ok (returned (record f { a0 = a0 }) (record k { console = console }))

      -- One round of the loop of SYS_GETCHAR.
      unfoldable pub getchar_round : TrapFrame → Kernel S C → Outcome (Progress S C)
      getchar_round f k =
          let (answer, console) = get_char sbi k.console in
          let k = record k { console = console } in
          elim answer [
            | success ch ↦ ok (returned (record f { a0 = ch }) k)
            | failure e ↦ do
              (next, sched) ← yield_now k.sched
              ok (waiting next (record k { sched = sched }))
          ]

      unfoldable pub handle_syscall : TrapFrame → Kernel S C → Outcome (Progress S C)
      handle_syscall f k =
          if f.a7 == sys_putbyte
          then putbyte_call f k
          else if f.a7 == sys_getchar
          then getchar_round f k
          else if f.a7 == sys_exit
          then sys_exit_call k
          else if f.a7 == sys_readfile
          then file_call f k
          else if f.a7 == sys_writefile
          then file_call f k
          else panic explicit
