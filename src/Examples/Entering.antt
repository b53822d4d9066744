-- ===== src/Examples/Entering.antt =====
-- `kernel_main` of kernel/src/main.rs at a concrete machine: the disk holds an archive of two
-- files, and the shell has an image of five bytes.
use beyond_os1k.Base.{ℕ, ◌+◌, ◌*◌, true, none, some, [], part, ◌==◌, if◌then◌else◌}
use beyond_os1k.SpinLock.{new}
use beyond_os1k.Virtio.Protocol.{reset_config}
use beyond_os1k.Tar.Archive.{archive}
use beyond_os1k.Boot.Main.{Image, Kernel}
use beyond_os1k.Boot.Main.Processes.{table as process_table}
use beyond_os1k.Examples.Disk.{Disk}
use beyond_os1k.Examples.Files.{table}
use beyond_os1k.Examples.Loading.{loaded_ram}

abbrev image : Image
image = record {
  bss = 0x80210000;
  bss_end = 0x80220000;
  kernel_entry = 0x80200100;
  idle_process = 0x80200400;
  proc_a_entry = 0x80200500;
  proc_b_entry = 0x80200600;
  user_entry = 0x80200700;
  shell_start = 0x80208000;
  shell_size = 5;
}

-- .bss is not clear yet: the locks of its statics seem to be held.
abbrev reset : Kernel ℕ Disk
reset = record {
  start = record {
    csr = λ c. if c == 0x100 then 0x100 else 0;
    sched = record {
      procs = record { is_locked = true; value = [] };
      current = new (some 0);
      first_switch = true;
    };
    ram = record loaded_ram { next = record { is_locked = true; value = some 7 } };
    console = 0;
    readings = 0;
  };
  fs = record {
    files = record { is_locked = true; value = [] };
    disk = record { is_locked = true; value = [] };
    blk = record {
      vq = record { is_locked = true; value = none };
      req = record { is_locked = true; value = none };
      capacity = record { is_locked = true; value = some 1 };
      dev = record {
        sectors = λ i. part (i * 512) (i * 512 + 512) (archive 2560 table);
        config = record reset_config { status = 4 };
      };
    };
  };
}
