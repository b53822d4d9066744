-- ===== src/Virtio/Device.antt =====
-- The structures that the driver of kernel/src/virtio.rs shares with the device, and the device
-- itself, which is not part of the repository: its registers, and what it does to the shared
-- memory between two reads of the used index.
use beyond_os1k.Base.{
  ℕ, zero, suc, ◌+◌, ◌%◌, ◌^◌, List, replicate, Outcome, ok, assertion, guard, ◌>>=◌, ◌>>◌, bit_or,
  ◌==◌,
}

abbrev pub sector_size : ℕ
sector_size = 512

abbrev pub virtq_entry_num : ℕ
virtq_entry_num = 16

abbrev pub virtio_blk_paddr : ℕ
virtio_blk_paddr = 0x10001000

pub record VirtqDesc : Type 0 where
  pub addr : ℕ
  pub len : ℕ
  pub flags : ℕ
  pub next : ℕ

abbrev pub zeroed_desc : VirtqDesc
zeroed_desc = record { addr = 0; len = 0; flags = 0; next = 0 }

-- `VirtioVirtq`; the used ring's elements are not read by the driver and are left out.
pub record VirtioVirtq : Type 0 where
  pub descs : List VirtqDesc
  pub avail_flags : ℕ
  pub avail_index : ℕ
  pub avail_ring : List ℕ
  pub used_flags : ℕ
  pub used : ℕ
  pub queue_index : ℕ
  pub used_index : ℕ
  pub last_used_index : ℕ

abbrev pub zeroed_virtq : VirtioVirtq
zeroed_virtq = record {
  descs = replicate 16 zeroed_desc;
  avail_flags = 0;
  avail_index = 0;
  avail_ring = replicate 16 0;
  used_flags = 0;
  used = 0;
  queue_index = 0;
  used_index = 0;
  last_used_index = 0;
}

pub record VirtioBlkReq : Type 0 where
  pub req_type : ℕ
  pub reserved : ℕ
  pub sector : ℕ
  pub data_bytes : List ℕ
  pub status : ℕ

abbrev pub zeroed_req : VirtioBlkReq
zeroed_req = record {
  req_type = 0;
  reserved = 0;
  sector = 0;
  data_bytes = replicate 512 0;
  status = 0;
}

-- The device: `S` is its state. `run` is what it has done to the shared memory, which holds a queue
-- at one address and a request at another, when the driver next reads the used index.
pub record Device (S : Type 0) : Type 0 where
  pub read32 : ℕ → S → ℕ
  pub read64 : ℕ → S → ℕ
  pub write32 : ℕ → ℕ → S → S
  pub run :
      (queue_addr req_addr : ℕ) → VirtioVirtq × VirtioBlkReq × S → VirtioVirtq × VirtioBlkReq × S

module _ {S : Type 0} (dev : Device S) where
  unfoldable pub virtio_reg_read32 : ℕ → S → Outcome ℕ
  virtio_reg_read32 offset s = do
    guard ((virtio_blk_paddr + offset) % 2 ^ 32 % 4 == 0) assertion
    ok (dev.read32 offset s)

  unfoldable pub virtio_reg_read64 : ℕ → S → Outcome ℕ
  virtio_reg_read64 offset s = do
    guard ((virtio_blk_paddr + offset) % 2 ^ 32 % 8 == 0) assertion
    ok (dev.read64 offset s)

  unfoldable pub virtio_reg_write32 : ℕ → ℕ → S → Outcome S
  virtio_reg_write32 offset value s = do
    guard ((virtio_blk_paddr + offset) % 2 ^ 32 % 4 == 0) assertion
    ok (dev.write32 offset value s)

  unfoldable pub virtio_reg_fetch_and_or32 : ℕ → ℕ → S → Outcome S
  unfolding virtio_reg_read32 virtio_reg_write32
  virtio_reg_fetch_and_or32 offset value s = do
    old ← virtio_reg_read32 offset s
    virtio_reg_write32 offset (bit_or old value) s

  -- `n` reads of the used index.
  abbrev pub polled :
      (queue_addr req_addr n : ℕ) → VirtioVirtq × VirtioBlkReq × S → VirtioVirtq × VirtioBlkReq × S
  polled queue_addr req_addr zero m = m
  polled queue_addr req_addr (suc n) m =
      polled queue_addr req_addr n (dev.run queue_addr req_addr m)
