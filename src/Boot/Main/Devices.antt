-- ===== src/Boot/Main/Devices.antt =====
-- The device and the files, as `kernel_main` of kernel/src/main.rs finds them and sets them up.
use beyond_os1k.Base.{ℕ, ◌+◌, ◌*◌, ◌/◌, ◌%◌, ◌^◌, ◌≤◌, ◌<◌, ◌≡◌, ◌∙◌, none, List, map, length, ok}
use beyond_os1k.SpinLock.{new}
use beyond_os1k.Allocator.{Symbols, IsLinked, Ram}
use beyond_os1k.Allocator.Bump.{frontier, IsBump}
use beyond_os1k.Virtio.Device.{Device}
use beyond_os1k.Virtio.Driver.{Blk, virtio_blk_init}
use beyond_os1k.Virtio.Init.{virtio_blk_init_lem}
use beyond_os1k.Virtio.Protocol.{View, IsBlock, Serves}
use beyond_os1k.Tar.Files.{File, zeroed_file}
use beyond_os1k.Tar.Archive.{Fits, archive}
use beyond_os1k.Tar.Fs.{Fs, fs_init}
use beyond_os1k.Tar.Sectors.{Holds, IsReady}
use beyond_os1k.Tar.Persist.{init_lem}

-- The statics of the driver and of the file system at reset, with a table for the files `fl`.
pub record IsFsReset {S : Type 0} (fs : Fs S) (fl : List File) : Type 0 where
  pub vq : fs.blk.vq ≡ new none
  pub req : fs.blk.req ≡ new none
  pub capacity : fs.blk.capacity ≡ new none
  pub files : fs.files ≡ new (map (λ _. zeroed_file) fl)
  pub image : List ℕ
  pub disk : fs.disk ≡ new image
  pub full : length image ≡ 2560

-- a block device of at least five sectors that serves requests within `bound` polls
pub record IsDisk {S : Type 0} (device : Device S) (bound : ℕ) (view : View S) : Type 0 where
  pub block : IsBlock device view
  pub serves : Serves device bound view
  pub room : 5 ≤ view.sectors * 512 % 2 ^ 64 / 512

module _ (k : Symbols) (linked : IsLinked k) {S : Type 0} (device : Device S) (bound : ℕ)
    (view : View S) (is_disk : IsDisk device bound view) (fuel : ℕ) (enough : bound ≤ fuel) where
  -- The driver and then the files are ready, and the RAM below the driver's four pages is as it was.
  pub devices_lem :
      (r : Ram) (fs : Fs S) (fl : List File)
      → IsBump k r
      → frontier k r + 4 * 4096 ≤ k.free_ram_end
      → IsFsReset fs fl
      → Fits 2560 fl
      → Holds (view.disk fs.blk.dev) (archive 2560 fl) 5
      → (r' : Ram) × (blk : Blk S) × (blk' : Blk S) × (virtio_blk_init device k r fs.blk
          ≡ ok (r', blk))
        × (fs_init device fuel (record fs { blk = blk })
            ≡ ok (record { files = new fl; disk = new (archive 2560 fl); blk = blk' }))
        × IsReady view (view.sectors * 512 % 2 ^ 64) blk'
        × IsBump k r'
        × (frontier k r' ≡ frontier k r + 4 * 4096)
        × ((a : ℕ) → a < frontier k r → r'.word a ≡ r.word a)
  devices_lem r fs fl bump room reset fit holds =
      let (r', blk, vq, req, e, idle, bump', grown, kept, _, _, _, _, same) =
        virtio_blk_init_lem k linked device view is_disk.block r fs.blk bump room reset.vq reset.req
          reset.capacity in
      let (blk', loaded, ready) =
        init_lem device bound view is_disk.serves fuel enough (view.sectors * 512 % 2 ^ 64)
          is_disk.room (record fs { blk = blk }) fl
          (record {
            files = reset.files;
            image = reset.image;
            disk_set = reset.disk;
            full = reset.full;
            ready = record { vq = vq; req = req; idle = idle };
          })
          fit (λ n h. same n ∙ holds n h) in
      (r', blk, blk', e, loaded, ready, bump', grown, kept)
