-- ===== src/Lib.antt =====
-- A verification library for the kernel of beyond-os1k, a small operating system for 32-bit
-- RISC-V under QEMU.
--
-- The parts and how they interact. kernel/src/allocator.rs hands out pages of the free RAM;
-- kernel/src/page.rs builds Sv32 page tables from such pages; kernel/src/scheduler.rs chooses the
-- next process round robin and switches to it; kernel/src/virtio.rs reads and writes sectors of a
-- block device; kernel/src/tar.rs keeps two files in memory, reads them from a tar archive on that
-- device at start-up and writes them back. kernel/src/spinlock.rs guards the statics of all of
-- them, kernel/src/address.rs rounds addresses. kernel/src/trap.rs serves the system calls of user
-- processes with the scheduler, the files and the firmware's console.
--
-- Which file models which part.
--   Base: results with panics, Boolean tests, slices of lists, bit operations, UTF-8.
--   Address: `align_up`, `is_aligned`; Address.Align: their laws.
--   SpinLock: `lock` takes a free lock and `drop_guard` frees it.
--   Allocator: `alloc`; Allocator.Bump: its laws, and runs of requests.
--   Page: `vpn0`, `vpn1`, `ppn`, `from_ppn`, `PageTable::new` in a `Box` and `map_page`.
--     Page.Walk is the address translation of the hardware, Page.Space the well-formedness of the
--     tables in RAM, Page.Leaf and Page.Fresh the two writes, Page.Mapping their composition,
--     Page.Agree the tables while other memory changes.
--   Riscv: the instructions of the kernel's assembly as runs over registers, CSRs and memory;
--     Riscv.Blocks: blocks of stores and loads.
--   Scheduler: `try_get_index`, `get_next`, `yield_now`; Scheduler.Next, Scheduler.Yield and
--     Scheduler.Fair: the next process, and the turns of all.
--     Scheduler.Context: `switch_context`, instruction by instruction; Scheduler.Context.Resume and
--     Scheduler.Context.Roundtrip: the process that is left and the one that is resumed.
--   Virtio.Reg, Virtio.Device, Virtio.Driver: the registers, the structures shared with the device,
--     and the driver from `virtio_blk_init` to `read_write_disk`; Virtio.Protocol: what the virtio
--     specification says of the device; Virtio.Serves and Virtio.Init: the driver's requests and its
--     start.
--   Tar.Octal, Tar.Header, Tar.Files, Tar.Fs: `oct2int`, `int2oct`, `TarHeader`, the loops of
--     `fs_init` and `fs_flush` over the files, and the two functions as a whole.
--     Tar.OctalLaws, Tar.Ustar, Tar.HeaderLaws, Tar.Archive, Tar.RoundTrip, Tar.Overrun: their laws.
--     Tar.Sectors, Tar.Persist: the disk's sectors, a flush, a restart and the next start.
--   Timer: `put_byte`, `get_char`, `set_timer` of kernel/src/sbi.rs, `get_timer` and `Timer::set` of
--     kernel/src/timer.rs; Timer.Reading: the time that is read and the alarm that is set.
--     Timer.Console: the firmware's console, and the kernel's printing on it.
--   Panic: the panic handler of kernel/src/panic.rs; Panic.Announce: what it shows.
--   Trap: `handle_syscall` of kernel/src/trap.rs; Trap.Exit, Trap.Transfer: its arms for the end of
--     a process and for files. Trap.Entry: `kernel_entry` of kernel/src/entry.rs, instruction by
--     instruction; Trap.Entry.Save and Trap.Entry.Restore: the ways in and out of a trap.
--     Trap.Handler: `handle_trap`; Trap.Tick: its timer interrupts; Trap.Preempt: one that comes
--     while the kernel holds a lock of the scheduler.
--   Process: `create_process` of kernel/src/process.rs; Process.Range and Process.KernelTables:
--     its page tables for the kernel; Process.Bytes, Process.Image, Process.Load and
--     Process.UserTables: the image of a user process and its pages; Process.Alive: a process while
--     others are created; Process.Start: the first switch to a new process.
--   Boot: `scheduler_init` of kernel/src/scheduler.rs; Boot.Idle: the state that it leaves.
--     Boot.Main: `kernel_main` of kernel/src/main.rs; Boot.Main.Devices, Boot.Main.Processes and
--     Boot.Main.Up: what it sets up; Boot.Main.Enter: its run from reset to the first switch.
--   Life: sequences of yields, exits and creations, as a relation on the scheduler's statics; Life.Table
--     and Life.Created: process tables in order; Life.Sound: one operation; Life.Reached: any number;
--     Life.Booted: the table that `kernel_main` leaves.
--   User: user/src/lib.rs and the printing of common/src/print.rs, programs over `handle_syscall`.
--     User.Shell: user/src/bin/shell.rs; User.Shell.Console and User.Shell.Line: characters between
--     the shell and the console, and its command line; User.Shell.Answer: what it answers.
--   Examples: runs on concrete inputs.
--
-- State is passed explicitly: the statics of a file are the fields of a record. RAM is a function
-- from addresses that are multiples of 4 to 32-bit words. A panic is a value of `Outcome`. The
-- build compiles with -O, so debug assertions and overflow checks are off and arithmetic wraps
-- (`% 2 ^ 32`); assertions, `expect` and bounds checks stay. There is one hart:
-- taking a lock that is held panics, as `lock` does. An operation is modelled as it runs without a
-- timer interrupt inside it; Trap.Preempt looks at such an interrupt.
--
-- Parameters. The linker symbols, of which `IsLinked` says what kernel/kernel.ld fixes. The device,
-- of which `IsBlock` and `Serves` of Virtio.Protocol say what the specification promises a driver that
-- has set it up and posted a request; they are stated for QEMU's legacy device, whose queue address is
-- in bytes and whose alignment of 0 is the default. The firmware, `Sbi`, and the time
-- counter, of which `IsClock` says that it does not run backwards or too fast. For `kernel_entry` the handler it
-- calls, which keeps the frame but for `a0`. The console of the firmware, of which `IsConsole` says
-- that it gives out what was typed and shows what it is given. The growth of a `Vec`.
--
-- Bounds and fuel. All loops but three are structural: over the two files, the five sectors, the eight
-- processes, the pages of a process, the bytes of a field. The wait for the device has fuel, one unit per poll; a device
-- that serves a request within `bound` polls needs no more than `bound` units. The loop that reads
-- the time has fuel, one unit per round, of which two are enough. Each round of the loop of
-- SYS_GETCHAR is a step of its own, since other processes run in between. The loop of the shell over
-- the characters of a line has fuel, of which one more than the line is long is enough.
--
-- Not modelled: the kernel's messages other than those of its panic handler, whose formatting is
-- core::fmt; the panic handler of user/src/lib.rs, which ends the process; the boot stub and the two
-- demonstration processes of kernel/src/main.rs; traps inside a handler.
mod Base
pub mod Address
pub mod SpinLock
pub mod Allocator
pub mod Page
pub mod Scheduler
pub mod Virtio
pub mod Tar
pub mod Timer
pub mod Trap
pub mod User
pub mod Process
pub mod Boot
pub mod Panic
pub mod Life
pub mod Riscv
mod Examples
