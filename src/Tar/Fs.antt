-- ===== src/Tar/Fs.antt =====
-- `fs_init` and `fs_flush` of kernel/src/tar.rs, over the driver of kernel/src/virtio.rs. The
-- statics FILES and DISK are fields of `Fs`; messages are not modelled.
use beyond_os1k.Base.{
  ℕ, zero, suc, ◌+◌, ◌*◌, false, true, Bool, List, map, Outcome, ok, ◌>>=◌, slice, copy_into,
}
use beyond_os1k.SpinLock.{SpinLock, lock, write, drop_guard}
use beyond_os1k.Virtio.Device.{Device}
use beyond_os1k.Virtio.Driver.{Blk, read_write_disk}
use beyond_os1k.Tar.Files.{File, unpack, pack, sector_size}

pub record Fs (S : Type 0) : Type 0 where
  pub files : SpinLock (List File)
  pub disk : SpinLock (List ℕ)
  pub blk : Blk S

module _ {S : Type 0} (device : Device S) (fuel : ℕ) where
  -- `read_write_disk(&mut disk[offset..offset + SECTOR_SIZE], sector, is_write)`
  unfoldable pub sector_io : List ℕ → ℕ → Bool → Blk S → Outcome (List ℕ × Blk S)
  sector_io disk sector is_write blk = do
    let offset = sector * sector_size
    buf ← slice disk offset (offset + sector_size)
    (buf', blk') ← read_write_disk device fuel buf sector is_write blk
    disk' ← copy_into disk offset (offset + sector_size) buf'
    ok (disk', blk')

  -- The first loop of `fs_init`; the disk is locked anew in each round.
  unfoldable pub load_sectors : (left sector : ℕ) → Fs S → Outcome (Fs S)
  unfolding lock drop_guard
  load_sectors zero sector fs = ok fs
  load_sectors (suc left) sector fs = do
    disk ← lock fs.disk
    (bytes, blk) ← sector_io disk.value sector false fs.blk
    load_sectors left (sector + 1) (record fs { disk = drop_guard (write disk bytes); blk = blk })

  unfoldable pub fs_init : Fs S → Outcome (Fs S)
  unfolding lock drop_guard
  fs_init fs = do
    fs ← load_sectors 5 0 fs
    files ← lock fs.files
    (entries, disk) ← unpack fs.disk 0 files.value
    ok (record fs { files = drop_guard (write files entries); disk = disk })

  -- The second loop of `fs_flush`.
  unfoldable pub store_sectors : (left sector : ℕ) → List ℕ → Blk S → Outcome (List ℕ × Blk S)
  store_sectors zero sector disk blk = ok (disk, blk)
  store_sectors (suc left) sector disk blk = do
    (disk', blk') ← sector_io disk sector true blk
    store_sectors left (sector + 1) disk' blk'

  unfoldable pub fs_flush : Fs S → Outcome (Fs S)
  unfolding lock drop_guard
  fs_flush fs = do
    disk ← lock fs.disk
    let zeroed = map (λ _. 0) disk.value
    files ← lock fs.files
    packed ← pack zeroed 0 files.value
    (bytes, blk) ← store_sectors 5 0 packed fs.blk
    ok (record { files = drop_guard files; disk = drop_guard (write disk bytes); blk = blk })
