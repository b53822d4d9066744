-- ===== src/Boot/Main/Processes.antt =====
-- The processes that `kernel_main` of kernel/src/main.rs creates, and its first switch.
use beyond_os1k.Base.{
  ℕ, ◌+◌, ◌/◌, ◌%◌, ◌≤◌, ◌<◌, ◌≡◌, ◌⊎◌, refl, ◌∙◌, true, false, none, some, List, ◌∷◌, replicate,
  bit_or, ok,
}
use beyond_os1k.SpinLock.{new, lock, drop_guard}
use beyond_os1k.Allocator.{Symbols, Ram}
use beyond_os1k.Allocator.Bump.{IsBump}
use beyond_os1k.Scheduler.{
  Process, runnable, switch, yield_now, position, try_get_index, get_next, first_eligible,
}
use beyond_os1k.Riscv.Blocks.{words}
use beyond_os1k.Process.{first_regs, satp_sv32, sstatus_sum, byte}
use beyond_os1k.Process.Alive.{IsAlive}
use beyond_os1k.Process.UserTables.{IsUserSpace}
use beyond_os1k.Boot.{zeroed_process}
use beyond_os1k.Boot.Main.{Image}

abbrev entry_of : (pid sp root : ℕ) → Process
entry_of pid sp root = record { pid = pid; state = runnable; sp = sp; page_table = some root }

-- The process table, with the roots of the page tables.
abbrev pub table : (stack : ℕ → ℕ) (idle a b shell : ℕ) → List Process
table stack idle a b shell =
    entry_of 0 (stack 0 + 8124) idle
    ∷ entry_of 2 (stack 1 + 8124) a
    ∷ entry_of 3 (stack 2 + 8124) b
    ∷ entry_of 4 (stack 3 + 8124) shell
    ∷ replicate 4 zeroed_process

-- and before it is full
abbrev pub with_a : (stack : ℕ → ℕ) (idle a : ℕ) → List Process
with_a stack idle a =
    entry_of 0 (stack 0 + 8124) idle ∷ entry_of 2 (stack 1 + 8124) a ∷ replicate 6 zeroed_process

abbrev pub with_b : (stack : ℕ → ℕ) (idle a b : ℕ) → List Process
with_b stack idle a b =
    entry_of 0 (stack 0 + 8124) idle
    ∷ entry_of 2 (stack 1 + 8124) a
    ∷ entry_of 3 (stack 2 + 8124) b
    ∷ replicate 5 zeroed_process

-- The first switch goes from nowhere to process A.
pub yield_now-table :
    (stack : ℕ → ℕ) (idle a b shell : ℕ)
    → yield_now (record {
      procs = new (table stack idle a b shell);
      current = new (some 0);
      first_switch = true;
    })
      ≡ ok (
        switch none 1,
        record {
          procs = new (table stack idle a b shell);
          current = new (some 2);
          first_switch = false;
        },
      )
unfolding yield_now get_next try_get_index first_eligible position lock drop_guard
yield_now-table stack idle a b shell = refl

-- The linker's order: the image of the shell in .data, the stacks of the processes one behind the
-- other in .bss, and the free RAM.
pub record IsLayout (k : Symbols) (i : Image) (stack : ℕ → ℕ) : Type 0 where
  pub loaded : i.shell_start + i.shell_size ≤ i.bss
  pub aligned : i.bss % 4 ≡ 0
  pub first : i.bss ≤ stack 0
  pub apart : (n : ℕ) → n < 7 → stack n + 8192 ≤ stack (n + 1)
  pub last : stack 7 + 8192 ≤ i.bss_end
  pub behind : i.bss_end ≤ k.free_ram

-- The word at `x` is not one of the first frame on the stack `n`.
abbrev pub Outside : (stack : ℕ → ℕ) (n x : ℕ) → Type 0
Outside stack n x = (x < stack n + 8124) ⊎ (stack n + 8192 ≤ x)

abbrev pub kernel_regs : (entry status root : ℕ) → List ℕ
kernel_regs entry status root = first_regs entry 0 0 status (bit_or satp_sv32 (root / 4096))

-- The four processes in the RAM `r`: idle, A, B, and the shell, whose image is that of `word`.
pub record IsUp (k : Symbols) (i : Image) (stack : ℕ → ℕ) (status0 status : ℕ) (word : ℕ → ℕ)
    (idle a b shell : ℕ) (r : Ram) : Type 0 where
  pub idle_alive : IsAlive k (stack 0 + 8124) (kernel_regs i.idle_process status0 idle) idle r
  pub a_alive : IsAlive k (stack 1 + 8124) (kernel_regs i.proc_a_entry status a) a r
  pub b_alive : IsAlive k (stack 2 + 8124) (kernel_regs i.proc_b_entry status b) b r
  pub image : ℕ
  pub shell_space : IsUserSpace k i.shell_start i.shell_size image shell word r.word
  pub shell_frame :
      words r.word (stack 3 + 8124) 17
      ≡ first_regs i.user_entry
          (stack 3 + 8192)
          0x1000000
          (bit_or status sstatus_sum)
          (bit_or satp_sv32 (shell / 4096))
  pub bump : IsBump k r

pub IsUserSpace-from :
    {k : Symbols} {image image_size q root : ℕ} {word word' word0 : ℕ → ℕ}
    → ((x : ℕ) → x < image_size → byte word (image + x) ≡ byte word0 (image + x))
    → IsUserSpace k image image_size q root word word'
    → IsUserSpace k image image_size q root word0 word'
IsUserSpace-from same u = record {
  kernel = u.kernel;
  device = u.device;
  user = record {
    mapped = u.user.mapped;
    content = λ x h. u.user.content x h ∙ same x h;
    zeros = u.user.zeros;
  };
  others = u.others;
}
