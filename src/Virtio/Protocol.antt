-- ===== src/Virtio/Protocol.antt =====
-- What the virtio specification says of a legacy block device behind memory-mapped registers, apart
-- from the driver: its registers, the queue that it reads, and the requests that it serves. The
-- register offsets are those of the specification.
use beyond_os1k.Base.{
  ℕ, suc, ◌+◌, ◌/◌, ◌%◌, ◌^◌, ◌<◌, ◌≡◌, ◌≢◌, ◌⊎◌, some, List, get_elem?, ◌==◌, if◌then◌else◌,
}
use beyond_os1k.Virtio.Device.{Device, VirtqDesc, VirtioVirtq, VirtioBlkReq, polled}

-- What the registers have told the device of its one queue, and how many entries of the available
-- ring it has taken, modulo 2 ^ 16.
pub record Config : Type 0 where
  pub status : ℕ
  pub queue_sel : ℕ
  pub queue_num : ℕ
  pub queue_align : ℕ
  pub queue_pfn : ℕ
  pub taken : ℕ

abbrev pub reset_config : Config
reset_config = record {
  status = 0;
  queue_sel = 0;
  queue_num = 0;
  queue_align = 0;
  queue_pfn = 0;
  taken = 0;
}

-- A write of Status; 0 resets the device. The registers of a queue are those of the selected one.
unfoldable pub set_register : (offset value : ℕ) → Config → Config
set_register offset value c =
    if offset == 0x70
    then (if value == 0 then reset_config else record c { status = value })
    else if offset == 0x30
    then record c { queue_sel = value }
    else if c.queue_sel == 0
    then (if offset == 0x38
        then record c { queue_num = value }
        else if offset == 0x3c
        then record c { queue_align = value }
        else if offset == 0x40
        then record c { queue_pfn = value }
        else c)
    else c

-- What is seen of a device: its sectors, their number, and its configuration.
pub record View (S : Type 0) : Type 0 where
  pub disk : S → ℕ → List ℕ
  pub sectors : ℕ
  pub config : S → Config

-- The device is in operation, with a queue of 16 entries at that address. QEMU's device counts
-- pages of one byte while no guest page size is set, and takes an alignment of 0 for 4096.
pub record IsLive (c : Config) (queue_addr : ℕ) : Type 0 where
  pub driver_ok : c.status / 4 % 2 ≡ 1
  pub size : c.queue_num ≡ 16
  pub align : c.queue_align ≡ 0
  pub pfn : c.queue_pfn ≡ queue_addr

-- A chain of three descriptors from `head` on: the request's header of 16 bytes, which the device
-- reads; 512 bytes of data, which it reads for a request of type 1 and writes for one of type 0; and
-- the status byte, which it writes. Flag 1 says that another one follows, flag 2 that the device
-- writes. The three stand where the fields of the request at `req_addr` do.
pub record IsChain (req_addr : ℕ) (req : VirtioBlkReq) (descs : List VirtqDesc) (head : ℕ)
    : Type 0 where
  pub header : VirtqDesc
  pub payload : VirtqDesc
  pub status : VirtqDesc
  pub at_head : get_elem? descs head ≡ some header
  pub at_payload : get_elem? descs header.next ≡ some payload
  pub at_status : get_elem? descs payload.next ≡ some status
  pub header_place : (header.addr ≡ req_addr) × (header.len ≡ 16)
  pub header_flags : header.flags ≡ 1
  pub payload_place : (payload.addr ≡ req_addr + 16) × (payload.len ≡ 512)
  pub payload_flags :
      ((req.req_type ≡ 0) × (payload.flags ≡ 3)) ⊎ ((req.req_type ≡ 1) × (payload.flags ≡ 1))
  pub status_place : (status.addr ≡ req_addr + 528) × (status.len ≡ 1)
  pub status_flags : status.flags ≡ 2

-- The device has used every entry that it has taken, and the driver has made one more entry of the
-- available ring known, with the head of such a chain, for a sector that the device has.
pub record IsPosted {S : Type 0} (view : View S) (queue_addr req_addr : ℕ) (vq : VirtioVirtq)
    (req : VirtioBlkReq) (s : S) : Type 0 where
  pub live : IsLive (view.config s) queue_addr
  pub done : vq.used ≡ (view.config s).taken
  pub one : vq.avail_index ≡ ((view.config s).taken + 1) % 2 ^ 16
  pub head : ℕ
  pub entry : get_elem? vq.avail_ring ((view.config s).taken % 16) ≡ some head
  pub chain : IsChain req_addr req vq.descs head
  pub inside : req.sector < view.sectors

-- The sectors of a disk after a request.
abbrev pub serve : (ℕ → List ℕ) → VirtioBlkReq → ℕ → List ℕ
serve disk req i =
    if req.req_type == 1 then (if i == req.sector then req.data_bytes else disk i) else disk i

-- the request as the device gives it back
abbrev pub answer : (ℕ → List ℕ) → VirtioBlkReq → VirtioBlkReq
answer disk req = record req {
  data_bytes = if req.req_type == 1 then req.data_bytes else disk req.sector;
  status = 0;
}

-- A device that finishes a request within `bound` polls after a write of 0, the number of the
-- queue, to QueueNotify. Of the queue it changes the used index, which advances by one.
pub record Serves {S : Type 0} (dev : Device S) (bound : ℕ) (view : View S) : Type 0 where
  pub delay : (queue_addr req_addr : ℕ) → VirtioVirtq → VirtioBlkReq → S → ℕ
  pub soon :
      (queue_addr req_addr : ℕ) (vq : VirtioVirtq) (req : VirtioBlkReq) (s : S)
      → delay queue_addr req_addr vq req s < bound
  pub waiting :
      (queue_addr req_addr : ℕ) (vq : VirtioVirtq) (req : VirtioBlkReq) (s : S) (n : ℕ)
      → IsPosted view queue_addr req_addr vq req s
      → n < delay queue_addr req_addr vq req s
      → (polled dev queue_addr req_addr (suc n) (vq, req, dev.write32 0x50 0 s)).0 ≡ vq
  pub served :
      (queue_addr req_addr : ℕ) (vq : VirtioVirtq) (req : VirtioBlkReq) (s : S)
      → IsPosted view queue_addr req_addr vq req s
      → (s' : S) × (polled dev queue_addr req_addr
            (suc (delay queue_addr req_addr vq req s))
            (vq, req, dev.write32 0x50 0 s)
          ≡ (record vq { used = (vq.used + 1) % 2 ^ 16 }, answer (view.disk s) req, s'))
        × ((i : ℕ) → view.disk s' i ≡ serve (view.disk s) req i)
        × (view.config s' ≡ record (view.config s) { taken = vq.avail_index })

-- A legacy block device that identifies itself, keeps its sectors, and whose registers work.
pub record IsBlock {S : Type 0} (dev : Device S) (view : View S) : Type 0 where
  pub magic : (s : S) → dev.read32 0x00 s ≡ 0x74726976
  pub version : (s : S) → dev.read32 0x04 s ≡ 1
  pub device_id : (s : S) → dev.read32 0x08 s ≡ 2
  pub capacity : (s : S) → dev.read64 0x100 s ≡ view.sectors
  pub status : (s : S) → dev.read32 0x70 s ≡ (view.config s).status
  pub written :
      (offset value : ℕ) (s : S)
      → offset ≢ 0x50
      → view.config (dev.write32 offset value s) ≡ set_register offset value (view.config s)
  pub keeps :
      (offset value : ℕ) (s : S) (i : ℕ)
      → offset ≢ 0x50
      → view.disk (dev.write32 offset value s) i ≡ view.disk s i
