-- ===== src/Virtio/Reg.antt =====
-- The register offsets of kernel/src/virtio.rs.
use beyond_os1k.Base.{ℕ}

abbrev pub magic : ℕ
magic = 0x00

abbrev pub version : ℕ
version = 0x04

abbrev pub device_id : ℕ
device_id = 0x08

abbrev pub queue_sel : ℕ
queue_sel = 0x30

abbrev pub queue_num : ℕ
queue_num = 0x38

abbrev pub queue_align : ℕ
queue_align = 0x3c

abbrev pub queue_pfn : ℕ
queue_pfn = 0x40

abbrev pub queue_notify : ℕ
queue_notify = 0x50

abbrev pub device_status : ℕ
device_status = 0x70

abbrev pub device_config : ℕ
device_config = 0x100
