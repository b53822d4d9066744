-- ===== src/Virtio/Serves.antt =====
-- `read_write_disk` of kernel/src/virtio.rs on a device that behaves as Virtio.Protocol says: it
-- ends, and moves a sector.
use beyond_os1k.Base.{
  ℕ, zero, suc, ◌+◌, ◌/◌, ◌%◌, ◌^◌, ◌≤◌, ◌<◌, ◌≡◌, ◌⊎◌, refl, sym, ap, ◌∙◌, inl, inr, arith, bit_or,
  Bool, true, false, some, List, set, length, length-set, get_elem?, get_elem?-set_self,
  get_elem?-set_ne, ok, if◌then◌else◌, ◌==◌, leb, eq→==, lt→leb,
}
use beyond_os1k.SpinLock.{new}
use beyond_os1k.Virtio.Device.{Device, VirtqDesc, VirtioVirtq, VirtioBlkReq, polled}
use beyond_os1k.Virtio.Driver.{
  Box, Blk, request_descs, virtq_is_busy, wait, transfer, read_write_disk,
}
use beyond_os1k.Virtio.Protocol.{View, IsLive, IsChain, IsPosted, serve, answer, Serves}

-- The loop stops at the first poll that finds the used index advanced.
wait-polled :
    {S : Type 0} (dev : Device S) (A B n fuel : ℕ) (m : VirtioVirtq × VirtioBlkReq × S)
    → n < fuel
    → ((j : ℕ)
        → j < n
        → (virtq_is_busy dev (polled dev A B (suc j) m).0 ≡ true)
          × ((polled dev A B (suc j) m).0.used_index % 2 ≡ 0))
    → virtq_is_busy dev (polled dev A B (suc n) m).0 ≡ false
    → (polled dev A B (suc n) m).0.used_index % 2 ≡ 0
    → wait dev A B fuel m ≡ ok (polled dev A B (suc n) m)
unfolding wait
wait-polled dev A B n zero m lt busy done even = absurd (omega arith)
wait-polled dev A B zero (suc fuel) m lt busy done even = rw (even, done) refl
wait-polled dev A B (suc n) (suc fuel) m lt busy done even =
    let (b0, e0) = busy 0 (omega arith) in
    rw (e0, b0)
      (wait-polled dev A B n fuel (dev.run A B m) (omega arith) (λ j h. busy (suc j) (omega arith))
        done even)

-- Between requests: no lock is held, the statics are set up, the device is in operation with this
-- queue and has taken and used every entry that was made available, and the driver has seen every request
-- that the device has used.
pub record IsIdle {S : Type 0} (view : View S) (b : Blk S) (vq : Box VirtioVirtq)
    (req : Box VirtioBlkReq) (bytes : ℕ) : Type 0 where
  pub vq_set : b.vq ≡ new (some vq)
  pub req_set : b.req ≡ new (some req)
  pub cap_set : b.capacity ≡ new (some bytes)
  pub seen : vq.content.used ≡ vq.content.last_used_index
  pub index : vq.content.used < 2 ^ 16
  pub even : vq.content.used_index % 2 ≡ 0
  pub live : IsLive (view.config b.dev) vq.addr
  pub taken : (view.config b.dev).taken ≡ vq.content.avail_index
  pub done : vq.content.used ≡ vq.content.avail_index
  pub queue : vq.content.queue_index ≡ 0
  pub table : length vq.content.descs ≡ 16
  pub ring : length vq.content.avail_ring ≡ 16
  pub whole : req.addr + 529 ≤ 2 ^ 32
  pub within : bytes / 512 ≤ view.sectors

-- The three descriptors that the driver writes are a chain for the request.
request_descs-IsChain :
    (p : ℕ) (req : VirtioBlkReq) (w : Bool) (descs : List VirtqDesc)
    → length descs ≡ 16
    → p + 529 ≤ 2 ^ 32
    → req.req_type ≡ (if w then 1 else 0)
    → IsChain p req (request_descs p w descs) 0
unfolding request_descs
request_descs-IsChain p req w descs full whole kind = record {
  header = record { addr = p; len = 16; flags = 1; next = 1 };
  payload = record {
    addr = (p + 16) % 2 ^ 32;
    len = 512;
    flags = bit_or 1 (if w then 0 else 2);
    next = 2;
  };
  status = record { addr = (p + 528) % 2 ^ 32; len = 1; flags = 2; next = 0 };
  at_head =
      get_elem?-set_ne _ 2 0 _ (omega arith)
      ∙ get_elem?-set_ne _ 1 0 _ (omega arith)
      ∙ get_elem?-set_self descs 0 _ (omega arith);
  at_payload =
      get_elem?-set_ne _ 2 1 _ (omega arith)
      ∙ get_elem?-set_self _ 1 _ (omega (arith, length-set descs 0 _));
  at_status =
      get_elem?-set_self _ 2 _
        (omega (arith, length-set (set descs 0 _) 1 _, length-set descs 0 _));
  header_place = (refl, refl);
  header_flags = refl;
  payload_place = (omega arith, refl);
  payload_flags = flags w kind;
  status_place = (omega arith, refl);
  status_flags = refl;
}
  where
    flags :
        (w : Bool)
        → req.req_type ≡ (if w then 1 else 0)
        → ((req.req_type ≡ 0) × (bit_or 1 (if w then 0 else 2) ≡ 3))
          ⊎ ((req.req_type ≡ 1) × (bit_or 1 (if w then 0 else 2) ≡ 1))
    flags true e = inr (e, refl)
    flags false e = inl (e, refl)

length-request_descs :
    (p : ℕ) (w : Bool) (descs : List VirtqDesc) → length (request_descs p w descs) ≡ length descs
unfolding request_descs
length-request_descs p w descs =
    length-set (set (set descs 0 _) 1 _) 2 _ ∙ length-set (set descs 0 _) 1 _ ∙ length-set descs 0 _

module _ {S : Type 0} (dev : Device S) (bound : ℕ) (view : View S) (serves : Serves dev bound view)
    (fuel : ℕ) (enough : bound ≤ fuel) where
  -- the loop after a kick
  wait-served :
      (A B : ℕ) (vq : VirtioVirtq) (req : VirtioBlkReq) (s : S)
      → IsPosted view A B vq req s
      → vq.used < 2 ^ 16
      → vq.last_used_index ≡ (vq.used + 1) % 2 ^ 16
      → vq.used_index % 2 ≡ 0
      → (s' : S) × (wait dev A B fuel (vq, req, dev.write32 0x50 0 s)
          ≡ ok (record vq { used = (vq.used + 1) % 2 ^ 16 }, answer (view.disk s) req, s'))
        × ((i : ℕ) → view.disk s' i ≡ serve (view.disk s) req i)
        × (view.config s' ≡ record (view.config s) { taken = vq.avail_index })
  wait-served A B vq req s posted small last even =
      let (s', run, after, now) = serves.served A B vq req s posted in
      let n = serves.delay A B vq req s in
      let m : VirtioVirtq × VirtioBlkReq × S = (vq, req, dev.write32 0x50 0 s) in
      (
        s',
        wait-polled dev A B n fuel m (omega (arith, serves.soon A B vq req s))
              (λ j h. rw (serves.waiting A B vq req s j posted h) (ground arith, even))
              (rw run (ground arith)) (rw run even)
            ∙ ap ok run,
        after,
        now,
      )

  abbrev kicked : VirtioVirtq → ℕ → Bool → VirtioVirtq
  kicked vq p is_write = record vq {
    descs = request_descs p is_write vq.descs;
    avail_ring = set vq.avail_ring (vq.avail_index % 16) 0;
    avail_index = (vq.avail_index + 1) % 2 ^ 16;
    last_used_index = (vq.last_used_index + 1) % 2 ^ 16;
  }

  abbrev asked : VirtioBlkReq → List ℕ → ℕ → Bool → VirtioBlkReq
  asked req buf sector is_write = record req {
    sector = sector;
    req_type = if is_write then 1 else 0;
    data_bytes = if is_write then buf else req.data_bytes;
  }

  abbrev settled : Box VirtioVirtq → Box VirtioBlkReq → ℕ → List ℕ → ℕ → Bool → Blk S → S → Blk S
  settled vq req bytes buf sector w b s' =
      let v = kicked vq.content req.addr w in
      record {
        vq = new (some (record vq { content = record v { used = (v.used + 1) % 2 ^ 16 } }));
        req = new (
            some
              (record req { content = answer (view.disk b.dev) (asked req.content buf sector w) }));
        capacity = new (some bytes);
        dev = s';
      }

  read_write_disk-run :
      (b : Blk S) (vq : Box VirtioVirtq) (req : Box VirtioBlkReq) (bytes : ℕ) (buf : List ℕ)
      (sector : ℕ) (w : Bool) (s' : S)
      → IsIdle view b vq req bytes
      → (length buf == 512) ≡ true
      → leb (bytes / 512) sector ≡ false
      → (let v = kicked vq.content req.addr w in
          let q = asked req.content buf sector w in
          wait dev vq.addr req.addr fuel (v, q, dev.write32 0x50 v.queue_index b.dev)
          ≡ ok (record v { used = (v.used + 1) % 2 ^ 16 }, answer (view.disk b.dev) q, s'))
      → read_write_disk dev fuel buf sector w b
        ≡ ok ((if w then buf else view.disk b.dev sector), settled vq req bytes buf sector w b s')
  unfolding read_write_disk transfer
  read_write_disk-run b vq req bytes buf sector true s' idle full below run =
      rw (idle.cap_set, idle.req_set, idle.vq_set, below) (rw full (rw run refl))
  read_write_disk-run b vq req bytes buf sector false s' idle full below run =
      rw (idle.cap_set, idle.req_set, idle.vq_set, below) (rw run (rw full refl))

  serve-asked :
      (req : VirtioBlkReq) (buf : List ℕ) (sector : ℕ) (w : Bool) (b : Blk S) (i : ℕ)
      → serve (view.disk b.dev) (asked req buf sector w) i
        ≡ (if w then (if i == sector then buf else view.disk b.dev i) else view.disk b.dev i)
  serve-asked req buf sector true b i = refl
  serve-asked req buf sector false b i = refl

  -- What the driver leaves in the shared memory is a request as the device expects it.
  posting :
      (b : Blk S) (vq : Box VirtioVirtq) (req : Box VirtioBlkReq) (bytes : ℕ) (buf : List ℕ)
      (sector : ℕ) (w : Bool)
      → IsIdle view b vq req bytes
      → sector < bytes / 512
      → IsPosted view vq.addr req.addr
          (kicked vq.content req.addr w)
          (asked req.content buf sector w)
          b.dev
  posting b vq req bytes buf sector w idle below = record {
    live = idle.live;
    done = idle.done ∙ sym idle.taken;
    one = rw idle.taken refl;
    head = 0;
    entry =
        ap (λ t. get_elem? (kicked vq.content req.addr w).avail_ring (t % 16)) idle.taken
        ∙ get_elem?-set_self vq.content.avail_ring (vq.content.avail_index % 16) 0
            (omega (arith, idle.ring));
    chain =
        request_descs-IsChain req.addr (asked req.content buf sector w) w vq.content.descs
          idle.table idle.whole refl;
    inside = omega (arith, idle.within);
  }

  pub read_write_disk_lem :
      (b : Blk S) (vq : Box VirtioVirtq) (req : Box VirtioBlkReq) (bytes : ℕ) (buf : List ℕ)
      (sector : ℕ) (w : Bool)
      → IsIdle view b vq req bytes
      → length buf ≡ 512
      → sector < bytes / 512
      → (b' : Blk S) × (vq' : Box VirtioVirtq) × (req' : Box VirtioBlkReq) × (read_write_disk dev
            fuel buf sector w b
          ≡ ok ((if w then buf else view.disk b.dev sector), b'))
        × IsIdle view b' vq' req' bytes
        × ((i : ℕ)
            → view.disk b'.dev i
              ≡ (if w then (if i == sector then buf else view.disk b.dev i) else view.disk b.dev i))
  read_write_disk_lem b vq req bytes buf sector w idle full below =
      let v = kicked vq.content req.addr w in
      let q = asked req.content buf sector w in
      let posted = posting b vq req bytes buf sector w idle below in
      let (s', run, after, now) =
        wait-served vq.addr req.addr v q b.dev posted idle.index (rw idle.seen refl) idle.even in
      (
        settled vq req bytes buf sector w b s',
        record vq { content = record v { used = (v.used + 1) % 2 ^ 16 } },
        record req { content = answer (view.disk b.dev) q },
        read_write_disk-run b vq req bytes buf sector w s' idle (eq→== _ 512 full)
            (lt→leb (bytes / 512) sector below)
            (ap (λ t. wait dev vq.addr req.addr fuel (v, q, dev.write32 0x50 t b.dev)) idle.queue
              ∙ run),
        record {
          vq_set = refl;
          req_set = refl;
          cap_set = refl;
          seen = rw idle.seen refl;
          index = omega arith;
          even = idle.even;
          live = rw now (record {
            driver_ok = idle.live.driver_ok;
            size = idle.live.size;
            align = idle.live.align;
            pfn = idle.live.pfn;
          });
          taken = rw now refl;
          done = rw idle.done refl;
          queue = idle.queue;
          table = length-request_descs req.addr w vq.content.descs ∙ idle.table;
          ring = length-set vq.content.avail_ring _ 0 ∙ idle.ring;
          whole = idle.whole;
          within = idle.within;
        },
        λ i. after i ∙ serve-asked req.content buf sector w b i,
      )
