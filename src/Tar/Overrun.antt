-- ===== src/Tar/Overrun.antt =====
-- `fs_flush` of kernel/src/tar.rs with a long first file: it copies whole arrays.
use beyond_os1k.Base.{
  ℕ, ◌+◌, ◌<◌, ◌≡◌, refl, ◌∙◌, arith, List, [], ◌∷◌, ◌++◌, length, length-append, length-replicate,
  overlay, length-overlay, copy_into-ok, copy_into-overrun, panic, out_of_bounds,
}
use beyond_os1k.Tar.Ustar.{make_header-ustar}
use beyond_os1k.Tar.HeaderLaws.{length-header}
use beyond_os1k.Tar.Files.{File, next_header, store_file, pack}
use beyond_os1k.Tar.Archive.{zeros, header, IsFile, next_header_lem, store_file_lem}

-- A header at 1536 leaves 512 bytes for an array of 1024.
store_file-overrun :
    (disk : List ℕ) (g : File)
    → IsFile g
    → length disk ≡ 2560
    → store_file disk 1536 g ≡ panic out_of_bounds
unfolding store_file
store_file-overrun disk g h full =
    let head = length-header g.name g.size h.named in
    let size : length (overlay disk 1536 (header g)) ≡ 2560 =
      length-overlay disk 1536 (header g) (omega arith) ∙ full in
    rw
      (
        make_header-ustar g.name g.size,
        copy_into-ok disk 1536 2048 (header g) (omega arith) (omega arith),
      )
      (copy_into-overrun (overlay disk 1536 (header g)) 2048 (2048 + length g.data_bytes)
        g.data_bytes (omega arith) (omega (arith, h.room)))

-- Where the first two files are in use and well formed, and the first has more than 512 bytes, the
-- loop of `fs_flush` over a zeroed disk panics, whatever entries follow.
pub pack-overrun :
    (f g : File) (fs : List File)
    → IsFile f
    → IsFile g
    → 512 < f.size
    → pack (zeros 2560) 0 (f ∷ g ∷ fs) ≡ panic out_of_bounds
unfolding pack
pack-overrun f g fs hf hg long =
    let disk = header f ++ (f.data_bytes ++ zeros 1024) in
    let second : next_header 0 f.size ≡ 1536 =
      next_header_lem 0 f.size (omega arith) hf.fits ∙ omega (arith, hf.fits) in
    let full : length disk ≡ 2560 = omega (
      arith,
      length-append (header f) (f.data_bytes ++ zeros 1024),
      length-append f.data_bytes (zeros 1024),
      length-replicate {A = ℕ} 1024 0,
      length-header f.name f.size hf.named,
      hf.room,
    ) in
    rw (store_file_lem [] 0 2560 f hf refl (omega arith), second, hf.used)
      (rw (store_file-overrun disk g hg full, hg.used) refl)
