-- ===== src/Virtio/Driver.antt =====
-- `virtio_blk_init`, `virtq_init`, `virtq_kick`, `virtq_is_busy` and `read_write_disk` of
-- kernel/src/virtio.rs. The statics are the fields of `Blk`; messages are not modelled.
use beyond_os1k.Base.{
  ℕ, zero, suc, ◌+◌, ◌*◌, ◌/◌, ◌%◌, ◌^◌, Bool, not, Option, some, List, set, length, Outcome, ok,
  panic, assertion, explicit, spinning, length_mismatch, guard, expect_some, ◌>>=◌, ◌>>◌, bit_or,
  leb, ◌==◌, ◌||◌, if◌then◌else◌,
}
use beyond_os1k.SpinLock.{SpinLock, lock, write, drop_guard}
use beyond_os1k.Allocator.{Symbols, Ram, alloc}
use beyond_os1k.Virtio.Reg
use beyond_os1k.Virtio.Device.{
  Device, VirtqDesc, VirtioVirtq, zeroed_virtq, VirtioBlkReq, zeroed_req, sector_size,
  virtq_entry_num, virtio_reg_read32, virtio_reg_read64, virtio_reg_write32,
  virtio_reg_fetch_and_or32,
}

-- a `Box`: where it lies, and what is in it
pub record Box (T : Type 0) : Type 0 where
  pub addr : ℕ
  pub content : T

-- The statics BLK_REQUEST_VQ, BLK_REQ and BLK_CAPACITY, and the device.
pub record Blk (S : Type 0) : Type 0 where
  pub vq : SpinLock (Option (Box VirtioVirtq))
  pub req : SpinLock (Option (Box VirtioBlkReq))
  pub capacity : SpinLock (Option ℕ)
  pub dev : S

abbrev pub size_of_virtq : ℕ
size_of_virtq = 12288

abbrev pub size_of_req : ℕ
size_of_req = 529

-- The three descriptors that `read_write_disk` writes for a request at the address `p`.
unfoldable pub request_descs : ℕ → Bool → List VirtqDesc → List VirtqDesc
request_descs p is_write descs =
    let header : VirtqDesc = record { addr = p; len = 4 * 2 + 8; flags = 1; next = 1 } in
    let payload : VirtqDesc = record {
      addr = (p + 16) % 2 ^ 32;
      len = sector_size;
      flags = bit_or 1 (if is_write then 0 else 2);
      next = 2;
    } in
    let status : VirtqDesc = record { addr = (p + 528) % 2 ^ 32; len = 1; flags = 2; next = 0 } in
    set (set (set descs 0 header) 1 payload) 2 status

module _ {S : Type 0} (device : Device S) where
  unfoldable pub virtq_kick : VirtioVirtq → ℕ → S → Outcome (VirtioVirtq × S)
  unfolding virtio_reg_write32
  virtq_kick vq desc_index s = do
    let index = vq.avail_index % virtq_entry_num
    s' ← virtio_reg_write32 device Reg.queue_notify vq.queue_index s
    ok (
      record vq {
        avail_ring = set vq.avail_ring index desc_index;
        avail_index = (vq.avail_index + 1) % 2 ^ 16;
        last_used_index = (vq.last_used_index + 1) % 2 ^ 16;
      },
      s',
    )

  -- the test, on the used index as it was read
  abbrev pub virtq_is_busy : VirtioVirtq → Bool
  virtq_is_busy vq = not (vq.last_used_index == vq.used)

  -- The wait loop; before each read of the used index the device has run.
  unfoldable pub wait :
      (queue_addr req_addr fuel : ℕ)
      → VirtioVirtq × VirtioBlkReq × S
      → Outcome (VirtioVirtq × VirtioBlkReq × S)
  wait queue_addr req_addr zero m = panic spinning
  wait queue_addr req_addr (suc fuel) m = do
    let m' = device.run queue_addr req_addr m
    guard (m'.0.used_index % 2 == 0) assertion
    if virtq_is_busy m'.0 then wait queue_addr req_addr fuel m' else ok m'

  unfoldable pub virtq_init : Symbols → ℕ → Ram → S → Outcome (Box VirtioVirtq × Ram × S)
  unfolding virtio_reg_write32
  virtq_init k index r s = do
    (p, r') ← alloc k size_of_virtq r
    s ← virtio_reg_write32 device Reg.queue_sel index s
    s ← virtio_reg_write32 device Reg.queue_num virtq_entry_num s
    s ← virtio_reg_write32 device Reg.queue_align 0 s
    s ← virtio_reg_write32 device Reg.queue_pfn p s
    let vq = record zeroed_virtq { queue_index = index % 2 ^ 16; used_index = (p + 4098) % 2 ^ 32 }
    ok (record { addr = p; content = vq }, r', s)

  unfoldable pub virtio_blk_init : Symbols → Ram → Blk S → Outcome (Ram × Blk S)
  unfolding virtq_init virtio_reg_read32 virtio_reg_read64 virtio_reg_write32
      virtio_reg_fetch_and_or32 lock drop_guard
  virtio_blk_init k r b = do
    magic ← virtio_reg_read32 device Reg.magic b.dev
    guard (magic == 0x74726976) explicit
    version ← virtio_reg_read32 device Reg.version b.dev
    guard (version == 1) explicit
    device_id ← virtio_reg_read32 device Reg.device_id b.dev
    guard (device_id == 2) explicit
    s ← virtio_reg_write32 device Reg.device_status 0 b.dev
    s ← virtio_reg_fetch_and_or32 device Reg.device_status 1 s
    s ← virtio_reg_fetch_and_or32 device Reg.device_status 2 s
    s ← virtio_reg_fetch_and_or32 device Reg.device_status 8 s
    (vq, r', s) ← virtq_init k 0 r s
    vq_guard ← lock b.vq
    s ← virtio_reg_write32 device Reg.device_status 4 s
    sectors ← virtio_reg_read64 device Reg.device_config s
    capacity_guard ← lock b.capacity
    (q, r'') ← alloc k size_of_req r'
    req_guard ← lock b.req
    ok (
      r'',
      record {
        vq = drop_guard (write vq_guard (some vq));
        req = drop_guard (write req_guard (some (record { addr = q; content = zeroed_req })));
        capacity = drop_guard (write capacity_guard (some (sectors * sector_size % 2 ^ 64)));
        dev = s;
      },
    )

  -- The part of `read_write_disk` that holds the locks; `fuel` bounds the polls.
  unfoldable pub transfer : ℕ → List ℕ → ℕ → Bool → Blk S → Outcome (List ℕ × Blk S)
  unfolding lock drop_guard virtq_kick
  transfer fuel buf sector is_write b = do
    br_guard ← lock b.req
    br ← expect_some br_guard.value
    guard (not is_write || length buf == sector_size) length_mismatch
    let req = record br.content {
      sector = sector;
      req_type = if is_write then 1 else 0;
      data_bytes = if is_write then buf else br.content.data_bytes;
    }
    vq_guard ← lock b.vq
    vq ← expect_some vq_guard.value
    let described = record vq.content { descs = request_descs br.addr is_write vq.content.descs }
    (kicked, s) ← virtq_kick described 0 b.dev
    (vq', req', s') ← wait vq.addr br.addr fuel (kicked, req, s)
    let b' = record b {
      vq = drop_guard (write vq_guard (some (record vq { content = vq' })));
      req = drop_guard (write br_guard (some (record br { content = req' })));
      dev = s';
    }
    if not (req'.status == 0)
        then ok (buf, b')
        else if is_write
        then ok (buf, b')
        else do guard (length buf == sector_size) length_mismatch; ok (req'.data_bytes, b')

  -- A sector beyond the capacity is reported, and nothing is done.
  unfoldable pub read_write_disk : ℕ → List ℕ → ℕ → Bool → Blk S → Outcome (List ℕ × Blk S)
  unfolding lock drop_guard
  read_write_disk fuel buf sector is_write b = do
    capacity_guard ← lock b.capacity
    blk_capacity ← expect_some capacity_guard.value
    let b' = record b { capacity = drop_guard capacity_guard }
    if leb (blk_capacity / sector_size) sector
        then ok (buf, b')
        else transfer fuel buf sector is_write b'
