-- ===== src/Tar/RoundTrip.antt =====
-- `fs_init` reads back what `fs_flush` laid out (kernel/src/tar.rs).
use mathlib.Core.List.{append_assoc}
use mathlib.Core.Path.{subst}
use beyond_os1k.Base.{
  ℕ, zero, suc, ◌+◌, ◌-◌, ◌%◌, ◌^◌, ◌≤◌, ◌≡◌, refl, sym, ap, ◌∙◌, inl, inr, arith, true, false,
  some, List, [], ◌∷◌, ◌++◌, All, map, length, take, drop, le→leb, part, length-append,
  length-replicate, length-take, replicate-split, ap₂, copy_into, copy_into-ok, slice, slice-ok,
  part-middle, take-append_le, take-take, split_at, drop-append_eq, drop-replicate, ok,
}
use beyond_os1k.Base.Utf8.{is_utf8}
use beyond_os1k.SpinLock.{new, lock, drop_guard}
use beyond_os1k.Tar.Octal.{oct2int}
use beyond_os1k.Tar.Header.{name_field, size_field, magic_field, ustar}
use beyond_os1k.Tar.HeaderLaws.{length-header, header-name, header-size, header-magic}
use beyond_os1k.Tar.Files.{File, zeroed_file, no_name, load_file, unpack, pack, next_header, ◌=ᵇ◌}
use beyond_os1k.Tar.Archive.{
  zeros, IsFile, Fits, sectors, header, archive, archive-used, archive-unused, next_header_lem,
  regroup, pack-archive,
}

-- A round whose header, content and name are as they should be.
load_file-ok :
    (disk hdr source bytes : List ℕ) (off size : ℕ) (f : File)
    → part off (off + 512) disk ≡ hdr
    → magic_field hdr ≡ ustar
    → oct2int (size_field hdr) ≡ some size
    → (off + 512 + size) % 2 ^ 32 ≡ off + 512 + size
    → slice disk (off + 512) (off + 512 + size) ≡ ok source
    → copy_into f.data_bytes 0 size source ≡ ok bytes
    → is_utf8 (name_field hdr) ≡ true
    → load_file disk off f
      ≡ ok (record { in_use = true; name = name_field hdr; data_bytes = bytes; size = size })
unfolding load_file ◌=ᵇ◌
load_file-ok disk hdr source bytes off size f eh em es ew ed ec eu =
    rw (eh, em, es) (rw (ew, ed) (rw (ec, eu) refl))

-- The next header's round at a file: the code up to the recursive call.
unpack-named :
    (disk hdr : List ℕ) (off : ℕ) (f f' : File) (fs rest : List File)
    → off + 512 ≤ length disk
    → part off (off + 512) disk ≡ hdr
    → no_name (name_field hdr) ≡ false
    → load_file disk off f ≡ ok f'
    → unpack (new disk) (next_header off f'.size) fs ≡ ok (rest, new disk)
    → unpack (new disk) off (f ∷ fs) ≡ ok (f' ∷ rest, new disk)
unfolding unpack lock drop_guard
unpack-named disk hdr off f f' fs rest room eh en el er =
    rw (le→leb (off + 512) (length disk) room, eh, en) (rw el (rw er refl))

unpack-unnamed :
    (disk hdr : List ℕ) (off : ℕ) (f : File) (fs : List File)
    → off + 512 ≤ length disk
    → part off (off + 512) disk ≡ hdr
    → no_name (name_field hdr) ≡ true
    → unpack (new disk) off (f ∷ fs) ≡ ok (f ∷ fs, new disk)
unfolding unpack lock drop_guard
unpack-unnamed disk hdr off f fs room eh en =
    rw (le→leb (off + 512) (length disk) room, eh, en) refl

module _ (a : List ℕ) (off n : ℕ) (f : File) (rest : List ℕ) (h : IsFile f) (e : off ≡ length a)
    (low : off ≤ 2560) where
  abbrev taken : List ℕ
  taken = take (sectors f.size) f.data_bytes

  abbrev disk : List ℕ
  disk = a ++ (header f ++ (taken ++ rest))

  length-taken : length taken ≡ sectors f.size
  length-taken = omega (arith, length-take (sectors f.size) f.data_bytes, h.room, h.fits)

  length-disk : off + 512 + sectors f.size ≤ length disk
  length-disk = omega (
    arith,
    length-append a (header f ++ (taken ++ rest)),
    length-append (header f) (taken ++ rest),
    length-append taken rest,
    length-taken,
    length-header f.name f.size h.named,
  )

  read_header : part off (off + 512) disk ≡ header f
  read_header =
      part-middle off (off + 512) a (header f) (taken ++ rest) e
        (omega (arith, length-header f.name f.size h.named))

  read_content : slice disk (off + 512) (off + 512 + f.size) ≡ ok (take f.size f.data_bytes)
  read_content =
      let size = f.size in
      let n : off + 512 + size - (off + 512) ≡ size = omega arith in
      let split : disk ≡ (a ++ header f) ++ (taken ++ rest) =
        sym (append_assoc a (header f) (taken ++ rest)) in
      let behind : drop (off + 512) disk ≡ taken ++ rest =
        ap (drop (off + 512)) split
        ∙ drop-append_eq (off + 512) (a ++ header f) (taken ++ rest)
            (omega (arith, length-append a (header f), length-header f.name size h.named)) in
      slice-ok disk (off + 512) (off + 512 + size) (omega arith) (omega (arith, length-disk))
      ∙ ap ok (
          ap (λ t. take t (drop (off + 512) disk)) n
          ∙ ap (take size) behind
          ∙ take-append_le size taken rest (omega (arith, length-taken))
          ∙ take-take size (sectors size) f.data_bytes (omega arith))

  -- the content over a zeroed array is the array
  refill : copy_into (zeros 1024) 0 f.size (take f.size f.data_bytes) ≡ ok f.data_bytes
  refill =
      let l : length (take f.size f.data_bytes) ≡ f.size =
        omega (arith, length-take f.size f.data_bytes, h.room, h.fits) in
      let z : drop (0 + length (take f.size f.data_bytes)) (zeros 1024) ≡ zeros (1024 - f.size) =
        drop-replicate (0 + length (take f.size f.data_bytes)) 1024 0
        ∙ ap zeros (omega (arith, l)) in
      copy_into-ok (zeros 1024) 0 f.size (take f.size f.data_bytes) (omega (arith, l))
        (omega (arith, h.fits))
      ∙ ap ok (
          ap (λ t. take f.size f.data_bytes ++ t) (z ∙ sym h.clean)
          ∙ sym (split_at f.size f.data_bytes))

  load_file-restores : load_file disk off zeroed_file ≡ ok f
  load_file-restores =
      let named = header-name f.name f.size h.named in
      load_file-ok disk (header f) (take f.size f.data_bytes) f.data_bytes off f.size zeroed_file
        read_header (header-magic f.name f.size h.named)
        (header-size f.name f.size h.named (omega (arith, h.fits))) (omega (arith, h.fits))
        read_content refill (rw named h.text)
      ∙ ap ok (λ i. record f { in_use = sym h.used i; name = named i })

  -- The round at a file, given what the later rounds do behind its sectors.
  unpack-file :
      (bs fs : List File)
      → ((b : List ℕ)
          → off + 512 + sectors f.size ≡ length b
          → unpack (new (b ++ rest)) (off + 512 + sectors f.size) bs ≡ ok (fs, new (b ++ rest)))
      → unpack (new disk) off (zeroed_file ∷ bs) ≡ ok (f ∷ fs, new disk)
  unpack-file bs fs later =
      let b = a ++ (header f ++ taken) in
      let lb : off + 512 + sectors f.size ≡ length b = omega (
        arith,
        length-append a (header f ++ taken),
        length-append (header f) taken,
        length-header f.name f.size h.named,
        length-taken,
      ) in
      unpack-named disk (header f) off zeroed_file f bs fs (omega (arith, length-disk)) read_header
        (ap no_name (header-name f.name f.size h.named) ∙ h.begins) load_file-restores
        (subst (λ d. unpack (new d) (next_header off f.size) bs ≡ ok (fs, new d))
          (regroup a (header f) taken rest)
          (rw (next_header_lem off f.size low h.fits) (later b lb)))

head_zero : (m : ℕ) → 512 ≤ m → no_name (name_field (part 0 512 (zeros m))) ≡ true
head_zero zero h = absurd (omega arith)
head_zero (suc m) h = refl

-- At the end of the archive the first byte of a name is zero, and the loop stops.
unpack-end :
    (a : List ℕ) (off n : ℕ) (f : File) (fs : List File)
    → off ≡ length a
    → 512 ≤ n
    → unpack (new (a ++ zeros n)) off (f ∷ fs) ≡ ok (f ∷ fs, new (a ++ zeros n))
unpack-end a off n f fs e room =
    let z : zeros n ≡ zeros 512 ++ zeros (n - 512) =
      replicate-split 512 (n - 512) n 0 (omega arith) in
    unpack-unnamed (a ++ zeros n) (zeros 512) off f fs
      (omega (arith, length-append a (zeros n), length-replicate {A = ℕ} n 0))
      (ap (λ t. part off (off + 512) (a ++ t)) z
        ∙ part-middle off (off + 512) a (zeros 512) (zeros (n - 512)) e refl)
      refl

blanks : List File → List File
blanks fs = map (λ _. zeroed_file) fs

unpack-blank : (fs : List File) → All (λ g. g ≡ zeroed_file) fs → blanks fs ≡ fs
unfolding blanks
unpack-blank [] h = refl
unpack-blank (f ∷ fs) h = ap₂ ◌∷◌ (sym h.0) (unpack-blank fs h.1)

-- The loop of `fs_init` over the archive gives back the files.
unpack-archive :
    (fs : List File) (a : List ℕ) (off n : ℕ)
    → off ≡ length a
    → off + n ≡ 2560
    → Fits n fs
    → unpack (new (a ++ archive n fs)) off (blanks fs) ≡ ok (fs, new (a ++ archive n fs))
unfolding blanks
unpack-archive [] a off n e total fit = unfold unpack in refl
unpack-archive (f ∷ fs) a off n e total (inr (blank, room, rest)) =
    rw (archive-unused n f fs blank, unpack-blank fs rest, blank)
      (unpack-end a off n zeroed_file fs e room)
unpack-archive (f ∷ fs) a off n e total (inl (h, room, rest)) = rw (archive-used n f fs h.used) (
    unpack-file a off n f (archive (n - 512 - sectors f.size) fs) h e (omega arith) (blanks fs) fs
      λ b lb.
        unpack-archive fs b (off + 512 + sectors f.size) (n - 512 - sectors f.size) lb
          (omega (arith, h.fits)) rest)

-- What `fs_flush` lays out over a zeroed disk, `fs_init` reads back into a zeroed table: the same
-- files, with all their bytes. The table holds files and then unused entries; a file has a
-- name of text, at most 1024 bytes of content with zeros behind it, and room on the disk for its
-- header and its array at the place where the files before it end.
pub unpack-pack :
    (fs : List File)
    → Fits 2560 fs
    → (disk : List ℕ) × (pack (zeros 2560) 0 fs ≡ ok disk)
      × (unpack (new disk) 0 (map (λ _. zeroed_file) fs) ≡ ok (fs, new disk))
unfolding blanks
unpack-pack fs fit = (
  archive 2560 fs,
  pack-archive fs [] 0 2560 refl refl fit,
  unpack-archive fs [] 0 2560 refl refl fit,
)
