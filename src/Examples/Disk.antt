-- ===== src/Examples/Disk.antt =====
-- kernel/src/virtio.rs with a device that serves each request at once.
use beyond_os1k.Base.{
  ℕ, ◌+◌, ◌%◌, ◌^◌, refl, arith, none, some, List, replicate, ◌==◌, ne→==, if◌then◌else◌,
}
use beyond_os1k.SpinLock.{new}
use beyond_os1k.Virtio.Device.{Device, VirtioVirtq, zeroed_virtq, VirtioBlkReq, zeroed_req}
use beyond_os1k.Virtio.Driver.{Box, Blk}
use beyond_os1k.Virtio.Protocol.{
  Config, reset_config, set_register, View, IsBlock, Serves, serve, answer,
}
use beyond_os1k.Virtio.Serves.{IsIdle}

-- its sectors, and its registers
pub record Disk : Type 0 where
  pub sectors : ℕ → List ℕ
  pub config : Config

abbrev pub disk_view : View Disk
disk_view = record { disk = λ s. s.sectors; sectors = 20; config = λ s. s.config }

-- A legacy block device of 20 sectors; by the first poll it has taken the entry and served it.
abbrev pub prompt_device : Device Disk
prompt_device = record {
  read32 = λ offset s.
      if offset == 0
      then 0x74726976
      else if offset == 4
      then 1
      else if offset == 8
      then 2
      else s.config.status;
  read64 = λ offset s. 20;
  write32 = λ offset value s.
      if offset == 0x50 then s else record s { config = set_register offset value s.config };
  run = λ queue_addr req_addr (vq, req, s). (
    record vq { used = (vq.used + 1) % 2 ^ 16 },
    answer s.sectors req,
    record { sectors = serve s.sectors req; config = record s.config { taken = vq.avail_index } },
  );
}

pub prompt_device-Serves : Serves prompt_device 1 disk_view
prompt_device-Serves = record {
  delay = λ queue_addr req_addr vq req s. 0;
  soon = λ queue_addr req_addr vq req s. omega arith;
  waiting = λ queue_addr req_addr vq req s n posted h. absurd (omega arith);
  served = λ queue_addr req_addr vq req s posted. (
    record { sectors = serve s.sectors req; config = record s.config { taken = vq.avail_index } },
    refl,
    (λ i. refl),
    refl,
  );
}

pub prompt_device-IsBlock : IsBlock prompt_device disk_view
prompt_device-IsBlock = record {
  magic = λ s. refl;
  version = λ s. refl;
  device_id = λ s. refl;
  capacity = λ s. refl;
  status = λ s. refl;
  written = λ offset value s other. rw (ne→== offset 0x50 other) refl;
  keeps = λ offset value s i other. rw (ne→== offset 0x50 other) refl;
}

-- After the set-up with the queue of `vq`, before any request.
abbrev pub set_up : Config
set_up = record reset_config { status = 4; queue_num = 16; queue_pfn = 0x80301000 }

abbrev pub vq : Box VirtioVirtq
vq = record { addr = 0x80301000; content = zeroed_virtq }

abbrev pub req : Box VirtioBlkReq
req = record { addr = 0x80304000; content = zeroed_req }

abbrev pub blk : Blk Disk
blk = record {
  vq = new (some vq);
  req = new (some req);
  capacity = new (some 10240);
  dev = record { sectors = λ i. replicate 512 i; config = set_up };
}

pub blk-IsIdle : IsIdle disk_view blk vq req 10240
blk-IsIdle = record {
  vq_set = refl;
  req_set = refl;
  cap_set = refl;
  seen = refl;
  index = omega arith;
  even = refl;
  live = record { driver_ok = refl; size = refl; align = refl; pfn = refl };
  taken = refl;
  done = refl;
  queue = refl;
  table = refl;
  ring = refl;
  whole = omega arith;
  within = omega arith;
}

abbrev pub blk_at_reset : Blk Disk
blk_at_reset = record {
  vq = new none;
  req = new none;
  capacity = new none;
  dev = record { sectors = λ i. replicate 512 i; config = reset_config };
}
