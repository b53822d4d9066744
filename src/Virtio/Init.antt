-- ===== src/Virtio/Init.antt =====
-- What `virtio_blk_init` of kernel/src/virtio.rs leaves behind on a legacy block device.
use beyond_os1k.Base.{
  ℕ, ◌+◌, ◌*◌, ◌%◌, ◌^◌, ◌≤◌, ◌<◌, ◌≡◌, ◌≢◌, refl, ap, ◌∙◌, inl, arith, none, some, bit_or, ok,
}
use beyond_os1k.SpinLock.{new, lock, drop_guard}
use beyond_os1k.Allocator.{Symbols, IsLinked, Ram}
use beyond_os1k.Allocator.Bump.{frontier, IsBump, alloc-Block}
use beyond_os1k.Virtio.Device.{
  Device, VirtioVirtq, VirtioBlkReq, zeroed_virtq, zeroed_req, virtio_reg_read32, virtio_reg_read64,
  virtio_reg_write32, virtio_reg_fetch_and_or32,
}
use beyond_os1k.Virtio.Driver.{Box, Blk, virtio_blk_init, virtq_init}
use beyond_os1k.Virtio.Protocol.{Config, reset_config, set_register, View, IsLive, IsBlock}
use beyond_os1k.Virtio.Serves.{IsIdle}

module _ {S : Type 0} (dev : Device S) where
  -- A bit more in the status register: its old value is read, and written with the bit.
  abbrev pub noted : ℕ → S → S
  noted bit s = dev.write32 0x70 (bit_or (dev.read32 0x70 s) bit) s

  -- Status after the steps 1, 2, 3 and 5 of the specification's initialisation, and QueueSel.
  abbrev pub selected : S → S
  selected s = dev.write32 0x30 0 (noted 8 (noted 2 (noted 1 (dev.write32 0x70 0 s))))

  -- The device with the queue at `p`: QueueNum, QueueAlign, QueuePFN and Status, in this order.
  abbrev pub started : ℕ → S → S
  started p s =
      dev.write32 0x70 4
        (dev.write32 0x40 p (dev.write32 0x3c 0 (dev.write32 0x38 16 (selected s))))

  module _ (view : View S) (block : IsBlock dev view) where
    selected-keeps : (s : S) (i : ℕ) → view.disk (selected s) i ≡ view.disk s i
    selected-keeps s i =
        block.keeps 0x30 0 _ i (omega arith)
        ∙ block.keeps 0x70 _ _ i (omega arith)
        ∙ block.keeps 0x70 _ _ i (omega arith)
        ∙ block.keeps 0x70 _ _ i (omega arith)
        ∙ block.keeps 0x70 0 s i (omega arith)

    started-keeps : (p : ℕ) (s : S) (i : ℕ) → view.disk (started p s) i ≡ view.disk s i
    started-keeps p s i =
        block.keeps 0x70 4 _ i (omega arith)
        ∙ block.keeps 0x40 p _ i (omega arith)
        ∙ block.keeps 0x3c 0 _ i (omega arith)
        ∙ block.keeps 0x38 16 _ i (omega arith)
        ∙ selected-keeps s i

    noted-config :
        (bit : ℕ) (s : S) {c : Config}
        → view.config s ≡ c
        → view.config (noted bit s) ≡ set_register 0x70 (bit_or c.status bit) c
    noted-config bit s e =
        block.written 0x70 _ s (omega arith)
        ∙ ap (λ t. set_register 0x70 (bit_or t bit) (view.config s)) (block.status s)
        ∙ ap (λ c. set_register 0x70 (bit_or c.status bit) c) e

    written-config :
        (offset value : ℕ) (s : S) {c : Config}
        → offset ≢ 0x50
        → view.config s ≡ c
        → view.config (dev.write32 offset value s) ≡ set_register offset value c
    written-config offset value s other e =
        block.written offset value s other ∙ ap (set_register offset value) e

    -- ACKNOWLEDGE, DRIVER and FEATURES_OK are set.
    selected-config : (s : S) → view.config (selected s) ≡ record reset_config { status = 11 }
    unfolding set_register
    selected-config s = written-config 0x30 0 _ (omega arith) (
        noted-config 8 _
          (noted-config 2 _ (noted-config 1 _ (block.written 0x70 0 s (omega arith)))))

    started-config :
        (p : ℕ) (s : S)
        → view.config (started p s)
          ≡ record reset_config { status = 4; queue_num = 16; queue_pfn = p }
    unfolding set_register
    started-config p s = written-config 0x70 4 _ (omega arith) (
        written-config 0x40 p _ (omega arith) (
          written-config 0x3c 0 _ (omega arith)
            (written-config 0x38 16 _ (omega arith) (selected-config s))))

    started-IsLive : (p : ℕ) (s : S) → IsLive (view.config (started p s)) p
    started-IsLive p s =
        rw (started-config p s) (record { driver_ok = refl; size = refl; align = refl; pfn = refl })

module _ (k : Symbols) (linked : IsLinked k) {S : Type 0} (dev : Device S) (view : View S)
    (block : IsBlock dev view) where
  pub virtio_blk_init_lem :
      (r : Ram) (b : Blk S)
      → IsBump k r
      → frontier k r + 4 * 4096 ≤ k.free_ram_end
      → b.vq ≡ new none
      → b.req ≡ new none
      → b.capacity ≡ new none
      → (r' : Ram) × (b' : Blk S) × (vq : Box VirtioVirtq) × (req : Box VirtioBlkReq)
        × (virtio_blk_init dev k r b ≡ ok (r', b'))
        × IsIdle view b' vq req (view.sectors * 512 % 2 ^ 64)
        × IsBump k r'
        × (frontier k r' ≡ frontier k r + 4 * 4096)
        × ((a : ℕ) → a < frontier k r → r'.word a ≡ r.word a)
        × (vq.addr ≡ frontier k r)
        × (req.addr ≡ frontier k r + 3 * 4096)
        × (b'.dev ≡ started dev (frontier k r) b.dev)
        × IsLive (view.config b'.dev) vq.addr
        × ((i : ℕ) → view.disk b'.dev i ≡ view.disk b.dev i)
  unfolding virtio_blk_init virtq_init virtio_reg_read32 virtio_reg_read64 virtio_reg_write32
      virtio_reg_fetch_and_or32 lock drop_guard
  virtio_blk_init_lem r b bump room vq_free req_free cap_free =
      let (p, r1, first, b1) = alloc-Block k linked r bump 12288 (omega arith) in
      let (q, r2, second, b2) =
        alloc-Block k linked r1 b1.after 529 (omega (arith, b1.next, b1.start)) in
      let vq : Box VirtioVirtq = record {
        addr = p;
        content = record zeroed_virtq { queue_index = 0; used_index = (p + 4098) % 2 ^ 32 };
      } in
      let req : Box VirtioBlkReq = record { addr = q; content = zeroed_req } in
      let b' : Blk S = record {
        vq = new (some vq);
        req = new (some req);
        capacity = new (some (view.sectors * 512 % 2 ^ 64));
        dev = started dev p b.dev;
      } in
      (
        r2,
        b',
        vq,
        req,
        rw (block.magic b.dev, block.version b.dev, block.device_id b.dev)
            (rw (first, vq_free)
              (rw (block.capacity (started dev p b.dev), cap_free) (rw (second, req_free) refl))),
        record {
          vq_set = refl;
          req_set = refl;
          cap_set = refl;
          seen = refl;
          index = omega arith;
          even = omega (arith, b1.start, bump.aligned);
          live = started-IsLive dev view block p b.dev;
          taken = ap (λ c. c.taken) (started-config dev view block p b.dev);
          done = refl;
          queue = refl;
          table = refl;
          ring = refl;
          whole = omega (arith, b1.next, b1.start, b2.start, linked.room, linked.size);
          within = omega arith;
        },
        b2.after,
        omega (arith, b1.next, b1.start, b2.start, b2.next),
        λ a lo.
            b2.kept a (inl (omega (arith, b1.next, b1.start, b2.start)))
            ∙ b1.kept a (inl (omega (arith, b1.start))),
        b1.start,
        omega (arith, b1.next, b1.start, b2.start),
        ap (λ x. started dev x b.dev) b1.start,
        started-IsLive dev view block p b.dev,
        started-keeps dev view block p b.dev,
      )
