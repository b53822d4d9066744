-- ===== src/Tar/Files.antt =====
-- The file table of kernel/src/tar.rs, and its two images: files to disk bytes and back.
use beyond_os1k.Base.{
  ℕ, suc, ◌+◌, ◌*◌, ◌%◌, ◌^◌, ◌≡◌, refl, Bool, true, false, not, ◌&&◌, Option, none, some, List, [],
  ◌∷◌, replicate, length, leb, ◌==◌, if◌then◌else◌, Outcome, ok, assertion, explicit, expect, guard,
  expect_some, ◌>>=◌, ◌>>◌, slice, copy_into, part,
}
use beyond_os1k.Base.Utf8.{is_utf8}
use beyond_os1k.Address.{align_up}
use beyond_os1k.SpinLock.{SpinLock, lock, drop_guard}
use beyond_os1k.Tar.Octal.{oct2int}
use beyond_os1k.Tar.Header.{
  header_size, as_bytes, make_header, name_field, size_field, magic_field, ustar,
}

abbrev pub files_max : ℕ
files_max = 2

abbrev pub sector_size : ℕ
sector_size = 512

-- A `bool`, 100 and 1024 bytes and a `usize`, rounded up to the alignment 4.
abbrev pub size_of_file : ℕ
size_of_file = 1132

abbrev pub disk_max_size : ℕ
disk_max_size = 2560

disk_max_size-align_up : disk_max_size ≡ align_up (size_of_file * files_max) sector_size
unfolding align_up
disk_max_size-align_up = refl

pub record File : Type 0 where
  pub in_use : Bool
  pub name : List ℕ
  pub data_bytes : List ℕ
  pub size : ℕ

abbrev pub zeroed_file : File
zeroed_file = record {
  in_use = false;
  name = replicate 100 0;
  data_bytes = replicate 1024 0;
  size = 0;
}

-- `CStr::from_bytes_until_nul` and its bytes: an error unless there is a nul.
unfoldable pub c_str : List ℕ → Option (List ℕ)
c_str [] = none
c_str (b ∷ bs) =
    let rest = c_str bs in
    if b == 0 then some [] else elim rest [ none ↦ none | some s ↦ some (b ∷ s) ]

infix 50 ◌=ᵇ◌
unfoldable pub ◌=ᵇ◌ : List ℕ → List ℕ → Bool
[] =ᵇ [] = true
[] =ᵇ (y ∷ ys) = false
(x ∷ xs) =ᵇ [] = false
(x ∷ xs) =ᵇ (y ∷ ys) = x == y && xs =ᵇ ys

-- the closure of `position`
unfoldable pub has_name : List ℕ → File → Bool
unfolding c_str ◌=ᵇ◌ is_utf8
has_name name f = elim (c_str f.name) [ none ↦ false | some s ↦ is_utf8 s && s =ᵇ name ]

-- `iter().position(p)`
abbrev pub position {ℓ} : {A : Type ℓ} → (A → Bool) → List A → Option ℕ
position p [] = none
position p (x ∷ xs) =
    let rest = position p xs in
    if p x then some 0 else elim rest [ none ↦ none | some i ↦ some (suc i) ]

-- `fs_lookup`
unfoldable pub fs_lookup : List ℕ → SpinLock (List File) → Outcome (Option ℕ × SpinLock (List File))
unfolding lock drop_guard
fs_lookup name l = do files ← lock l; ok (position (has_name name) files.value, drop_guard files)

-- The offset of the header behind that of a file of `size` bytes.
abbrev pub next_header : ℕ → ℕ → ℕ
next_header off size = (off + align_up ((header_size + size) % 2 ^ 32) sector_size) % 2 ^ 32

-- The match on the magic: "ustar" and its nul, and no nul before.
abbrev pub check_magic : List ℕ → Outcome (Unit {0})
check_magic magic = guard (magic =ᵇ ustar) explicit

-- One round of the loop of `fs_init` whose header names a file: the entry, filled.
unfoldable pub load_file : List ℕ → ℕ → File → Outcome File
load_file disk off f = do
  let header = part off (off + header_size) disk
  check_magic (magic_field header)
  filesz ← expect_some (oct2int (size_field header))
  let data_offset = off + header_size
  source ← slice disk data_offset ((data_offset + filesz) % 2 ^ 32)
  bytes ← copy_into f.data_bytes 0 filesz source
  guard (is_utf8 (name_field header)) expect
  ok (record { in_use = true; name = name_field header; data_bytes = bytes; size = filesz })

-- `header.name[0] == b'\0'`
abbrev pub no_name : List ℕ → Bool
no_name [] = true
no_name (b ∷ bs) = b == 0

-- The second loop of `fs_init`; it locks the disk anew in each round.
unfoldable pub unpack : SpinLock (List ℕ) → ℕ → List File → Outcome (List File × SpinLock (List ℕ))
unfolding lock drop_guard
unpack l off [] = ok ([], l)
unpack l off (f ∷ fs) = do
  disk ← lock l
  guard (leb (off + header_size) (length disk.value)) assertion
  let header = part off (off + header_size) disk.value
  if no_name (name_field header) then ok (f ∷ fs, drop_guard disk) else do
    f' ← load_file disk.value off f
    (rest, l') ← unpack (drop_guard disk) (next_header off f'.size) fs
    ok (f' ∷ rest, l')

-- One round of the loop of `fs_flush`: header and data, always all 1024 bytes of it.
unfoldable pub store_file : List ℕ → ℕ → File → Outcome (List ℕ)
store_file disk off f = do
  let data_offset = off + header_size
  with_header ← copy_into disk off data_offset (as_bytes (make_header f.name f.size))
  copy_into with_header data_offset (data_offset + length f.data_bytes) f.data_bytes

-- The first loop of `fs_flush`.
unfoldable pub pack : List ℕ → ℕ → List File → Outcome (List ℕ)
pack disk off [] = ok disk
pack disk off (f ∷ fs) =
    if not f.in_use
    then ok disk
    else do disk' ← store_file disk off f; pack disk' (next_header off f.size) fs
