-- ===== src/Tar/Archive.antt =====
-- The archive that `fs_flush` of kernel/src/tar.rs lays out, stated apart from the code: for each
-- file its ustar header, and its content cut to whole sectors; zeros up to the end.
use mathlib.Core.List.{append_assoc}
use beyond_os1k.Base.{
  ℕ, ◌+◌, ◌-◌, ◌*◌, ◌/◌, ◌%◌, ◌^◌, ◌≤◌, ◌≡◌, refl, sym, ap, ◌∙◌, ◌⊎◌, inl, inr, arith, true, false,
  List, [], ◌∷◌, ◌++◌, All, length, take, drop, replicate, length-append, length-replicate,
  length-take, overlay, overlay-middle, copy_into, copy_into-ok, split_at, drop-drop,
  drop-replicate, replicate-split, ok, if◌then◌else◌,
}
use beyond_os1k.Base.Utf8.{is_utf8}
use beyond_os1k.Address.Align.{align_up_lem}
use beyond_os1k.Tar.Ustar.{ustar_header, make_header-ustar}
use beyond_os1k.Tar.HeaderLaws.{length-header}
use beyond_os1k.Tar.Files.{File, zeroed_file, no_name, next_header, store_file, pack}

abbrev pub zeros : ℕ → List ℕ
zeros n = replicate n 0

-- A file as the kernel keeps it: its arrays have their sizes, what lies behind its content is
-- zero, and its name is text that does not begin with a nul.
pub record IsFile (f : File) : Type 0 where
  pub used : f.in_use ≡ true
  pub named : length f.name ≡ 100
  pub begins : no_name f.name ≡ false
  pub text : is_utf8 f.name ≡ true
  pub room : length f.data_bytes ≡ 1024
  pub fits : f.size ≤ 1024
  pub clean : drop f.size f.data_bytes ≡ zeros (1024 - f.size)

-- The content sectors of a file of `size` bytes, in bytes.
abbrev pub sectors : ℕ → ℕ
sectors size = (size + 511) / 512 * 512

abbrev pub header : File → List ℕ
header f = ustar_header f.name f.size

-- `n` is the room that is left on the disk.
unfoldable pub archive : ℕ → List File → List ℕ
archive n [] = zeros n
archive n (f ∷ fs) =
    let rest = archive (n - 512 - sectors f.size) fs in
    if f.in_use then header f ++ (take (sectors f.size) f.data_bytes ++ rest) else zeros n

-- Files first, then unused entries; each file finds room for its header and its whole array.
abbrev pub Fits : ℕ → List File → Type 0
Fits n [] = Unit
Fits n (f ∷ fs) =
    (IsFile f × (1536 ≤ n) × Fits (n - 512 - sectors f.size) fs)
    ⊎ ((f ≡ zeroed_file) × (512 ≤ n) × All (λ g. g ≡ zeroed_file) fs)

pub next_header_lem :
    (off size : ℕ) → off ≤ 2560 → size ≤ 1024 → next_header off size ≡ off + 512 + sectors size
next_header_lem off size ho hs = omega (arith, align_up_lem 9 (omega arith) ((512 + size) % 2 ^ 32))

-- the array is its content sectors and zeros
data_split :
    (f : File)
    → IsFile f
    → f.data_bytes ≡ take (sectors f.size) f.data_bytes ++ zeros (1024 - sectors f.size)
data_split f h =
    let s = sectors f.size in
    let tail : drop s f.data_bytes ≡ zeros (1024 - s) =
      sym (drop-drop s f.size (s - f.size) f.data_bytes (omega arith))
      ∙ ap (drop (s - f.size)) h.clean
      ∙ drop-replicate (s - f.size) (1024 - f.size) 0
      ∙ ap zeros (omega arith) in
    split_at s f.data_bytes ∙ ap (λ t. take s f.data_bytes ++ t) tail

data_round :
    (b : List ℕ) (off n : ℕ) (content : List ℕ)
    → off ≡ length b
    → length content ≡ 1024
    → 1536 ≤ n
    → copy_into (b ++ zeros (n - 512)) off (off + length content) content
      ≡ ok (b ++ (content ++ zeros (n - 1536)))
data_round b off n content e full room =
    let z : zeros (n - 512) ≡ zeros 1024 ++ zeros (n - 1536) =
      replicate-split 1024 (n - 1536) (n - 512) 0 (omega arith) in
    let total : length (b ++ zeros (n - 512)) ≡ off + (n - 512) =
      omega (arith, length-append b (zeros (n - 512)), length-replicate {A = ℕ} (n - 512) 0) in
    copy_into-ok (b ++ zeros (n - 512)) off (off + length content) content refl (omega arith)
    ∙ ap ok (
        ap (λ t. overlay (b ++ t) off content) z
        ∙ overlay-middle off b (zeros 1024) content (zeros (n - 1536)) e (sym full))

-- One round of the loop over zeros: the header, the whole array, and zeros.
pub store_file_lem :
    (a : List ℕ) (off n : ℕ) (f : File)
    → IsFile f
    → off ≡ length a
    → 1536 ≤ n
    → store_file (a ++ zeros n) off f ≡ ok (a ++ (header f ++ (f.data_bytes ++ zeros (n - 1536))))
unfolding store_file
store_file_lem a off n f h e room =
    let hdr = header f in
    let lh = length-header f.name f.size h.named in
    let content = f.data_bytes in
    let z1 : zeros n ≡ zeros 512 ++ zeros (n - 512) =
      replicate-split 512 (n - 512) n 0 (omega arith) in
    let total : length (a ++ zeros n) ≡ off + n =
      omega (arith, length-append a (zeros n), length-replicate {A = ℕ} n 0) in
    let first : copy_into (a ++ zeros n) off (off + 512) hdr ≡ ok (a ++ (hdr ++ zeros (n - 512))) =
      copy_into-ok (a ++ zeros n) off (off + 512) hdr (omega arith) (omega arith)
      ∙ ap ok (
          ap (λ z. overlay (a ++ z) off hdr) z1
          ∙ overlay-middle off a (zeros 512) hdr (zeros (n - 512)) e (sym lh)) in
    let regroup : a ++ (hdr ++ zeros (n - 512)) ≡ (a ++ hdr) ++ zeros (n - 512) =
      sym (append_assoc a hdr (zeros (n - 512))) in
    let second =
      data_round (a ++ hdr) (off + 512) n content (omega (arith, length-append a hdr)) h.room
        room in
    rw (make_header-ustar f.name f.size, first, regroup)
      (second ∙ ap ok (append_assoc a hdr (content ++ zeros (n - 1536))))

-- the array and the zeros behind it, cut at the sectors
cut :
    (n : ℕ) (f : File)
    → IsFile f
    → 1536 ≤ n
    → f.data_bytes ++ zeros (n - 1536)
      ≡ take (sectors f.size) f.data_bytes ++ zeros (n - 512 - sectors f.size)
cut n f h room =
    let s = sectors f.size in
    let le : s ≤ 1024 = omega (arith, h.fits) in
    ap (λ t. t ++ zeros (n - 1536)) (data_split f h)
    ∙ append_assoc (take s f.data_bytes) (zeros (1024 - s)) (zeros (n - 1536))
    ∙ ap (λ t. take s f.data_bytes ++ t)
        (sym (replicate-split (1024 - s) (n - 1536) (n - 512 - s) 0 (omega arith)))

pub archive-used :
    (n : ℕ) (f : File) (fs : List File)
    → f.in_use ≡ true
    → archive n (f ∷ fs)
      ≡ header f ++ (take (sectors f.size) f.data_bytes ++ archive (n - 512 - sectors f.size) fs)
unfolding archive
archive-used n f fs h = rw h

pub archive-unused :
    (n : ℕ) (f : File) (fs : List File) → f ≡ zeroed_file → archive n (f ∷ fs) ≡ zeros n
unfolding archive
archive-unused n f fs h = rw h

pub regroup : (a h t r : List ℕ) → (a ++ (h ++ t)) ++ r ≡ a ++ (h ++ (t ++ r))
regroup a h t r = simp append_assoc

-- Where the disk image is 2560 bytes, zero from the offset on, and the files fit into that rest,
-- the loop of `fs_flush` does not panic and writes the archive of the files there:
-- for each file the ustar header with its name, size, mode, type and checksum, and its content.
pub pack-archive :
    (fs : List File) (a : List ℕ) (off n : ℕ)
    → off ≡ length a
    → off + n ≡ 2560
    → Fits n fs
    → pack (a ++ zeros n) off fs ≡ ok (a ++ archive n fs)
unfolding pack archive
pack-archive [] a off n e total fit = refl
pack-archive (f ∷ fs) a off n e total (inr (blank, room, rest)) = rw blank
pack-archive (f ∷ fs) a off n e total (inl (h, room, rest)) =
    let s = sectors f.size in
    let taken = take s f.data_bytes in
    let b = a ++ (header f ++ taken) in
    let m = n - 512 - s in
    let lt : length taken ≡ s = omega (arith, length-take s f.data_bytes, h.room, h.fits) in
    let lb : off + 512 + s ≡ length b = omega (
      arith,
      length-append a (header f ++ taken),
      length-append (header f) taken,
      length-header f.name f.size h.named,
      lt,
    ) in
    let shape : a ++ (header f ++ (f.data_bytes ++ zeros (n - 1536))) ≡ b ++ zeros m =
      ap (λ z. a ++ (header f ++ z)) (cut n f h room)
      ∙ sym (regroup a (header f) taken (zeros m)) in
    let ih = pack-archive fs b (off + 512 + s) m lb (omega (arith, h.fits)) rest in
    rw
      (
        store_file_lem a off n f h e room,
        next_header_lem off f.size (omega arith) h.fits,
        shape,
        h.used,
      )
      (ih ∙ ap ok (regroup a (header f) taken (archive m fs)))
