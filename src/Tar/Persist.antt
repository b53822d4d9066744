-- ===== src/Tar/Persist.antt =====
-- `fs_flush`, a restart, and `fs_init` of kernel/src/tar.rs, over the driver.
use beyond_os1k.Base.{
  ℕ, ◌-◌, ◌/◌, ◌≤◌, ◌≡◌, refl, sym, ap, ◌∙◌, inl, inr, arith, List, [], ◌∷◌, ◌++◌, map, length,
  length-append, length-take, length-replicate, ok, ok-injective, take,
}
use beyond_os1k.SpinLock.{new}
use beyond_os1k.Virtio.Device.{Device}
use beyond_os1k.Virtio.Driver.{Blk}
use beyond_os1k.Virtio.Protocol.{View, Serves}
use beyond_os1k.Tar.HeaderLaws.{length-header}
use beyond_os1k.Tar.Files.{File, zeroed_file, unpack}
use beyond_os1k.Tar.Archive.{
  sectors, header, Fits, archive, archive-used, archive-unused, pack-archive,
}
use beyond_os1k.Tar.RoundTrip.{unpack-pack}
use beyond_os1k.Tar.Fs.{Fs, fs_init}
use beyond_os1k.Tar.Sectors.{Holds, IsReady, load_sectors_lem}

length-archive : (n : ℕ) (fl : List File) → Fits n fl → length (archive n fl) ≡ n
unfolding archive
length-archive n [] fit = length-replicate n 0
length-archive n (f ∷ fl) (inl (h, room, rest)) =
    let below = archive (n - 512 - sectors f.size) fl in
    let head = header f in
    let content = length-take (sectors f.size) f.data_bytes in
    rw (archive-used n f fl h.used) (
      omega (
        arith,
        length-append head (take (sectors f.size) f.data_bytes ++ below),
        length-append (take (sectors f.size) f.data_bytes) below,
        length-header f.name f.size h.named,
        content,
        h.room,
        h.fits,
        length-archive (n - 512 - sectors f.size) fl rest,
      ))
length-archive n (f ∷ fl) (inr (blank, room, rest)) =
    ap length (archive-unused n f fl blank) ∙ length-replicate n 0

unpack-image :
    (fl : List File)
    → Fits 2560 fl
    → unpack (new (archive 2560 fl)) 0 (map (λ _. zeroed_file) fl) ≡ ok (fl, new (archive 2560 fl))
unpack-image fl fit =
    let (image, packed, unpacked) = unpack-pack fl fit in
    let same : image ≡ archive 2560 fl =
      ok-injective (sym packed ∙ pack-archive fl [] 0 2560 refl refl fit) in
    rw (← same) unpacked

-- FILES holds these files, DISK 2560 bytes, both are free, and the driver is ready.
pub record IsBooted {S : Type 0} (view : View S) (bytes : ℕ) (fs : Fs S) (fl : List File)
    : Type 0 where
  pub files : fs.files ≡ new fl
  pub image : List ℕ
  pub disk_set : fs.disk ≡ new image
  pub full : length image ≡ 2560
  pub ready : IsReady view bytes fs.blk

module _ {S : Type 0} (dev : Device S) (bound : ℕ) (view : View S) (serves : Serves dev bound view)
    (fuel : ℕ) (enough : bound ≤ fuel) (bytes : ℕ) (room : 5 ≤ bytes / 512) where
  pub init_lem :
      (fs : Fs S) (fl : List File)
      → IsBooted view bytes fs (map (λ _. zeroed_file) fl)
      → Fits 2560 fl
      → Holds (view.disk fs.blk.dev) (archive 2560 fl) 5
      → (b : Blk S) × (fs_init dev fuel fs
          ≡ ok (record { files = new fl; disk = new (archive 2560 fl); blk = b }))
        × IsReady view bytes b
  unfolding fs_init
  init_lem fs fl boot fit holds =
      let (b, loaded, ready, _) =
        load_sectors_lem dev bound view serves fuel enough bytes room (archive 2560 fl)
          (length-archive 2560 fl fit) 5 0 fs boot.image refl boot.disk_set boot.full refl
          boot.ready holds in
      (b, rw (loaded, boot.files) (rw (unpack-image fl fit) refl), ready)
