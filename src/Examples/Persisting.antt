-- ===== src/Examples/Persisting.antt =====
-- kernel/src/tar.rs over kernel/src/virtio.rs at a concrete disk.
use beyond_os1k.SpinLock.{new}
use beyond_os1k.Tar.Archive.{zeros}
use beyond_os1k.Tar.Fs.{Fs}
use beyond_os1k.Examples.Disk.{Disk, blk}
use beyond_os1k.Examples.Files.{table}

abbrev fs : Fs Disk
fs = record { files = new table; disk = new (zeros 2560); blk = blk }
