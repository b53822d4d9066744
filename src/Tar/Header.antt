-- ===== src/Tar/Header.antt =====
-- `TarHeader` of kernel/src/tar.rs, and the header that `fs_flush` writes for a file.
use beyond_os1k.Base.{ℕ, ◌+◌, ◌%◌, ◌^◌, List, [], ◌∷◌, ◌++◌, map, replicate, part}
use beyond_os1k.Tar.Octal.{int2oct}

pub record TarHeader : Type 0 where
  pub name : List ℕ
  pub mode : List ℕ
  pub uid : List ℕ
  pub gid : List ℕ
  pub size : List ℕ
  pub mtime : List ℕ
  pub checksum : List ℕ
  pub typeflag : ℕ
  pub linkname : List ℕ
  pub magic : List ℕ
  pub version : List ℕ
  pub uname : List ℕ
  pub gname : List ℕ
  pub devmajor : List ℕ
  pub devminor : List ℕ
  pub prefix : List ℕ
  pub padding : List ℕ

-- `size_of::<TarHeader>()`: the struct is packed.
abbrev pub header_size : ℕ
header_size = 512

abbrev pub zeroed : TarHeader
zeroed = record {
  name = replicate 100 0;
  mode = replicate 8 0;
  uid = replicate 8 0;
  gid = replicate 8 0;
  size = replicate 12 0;
  mtime = replicate 12 0;
  checksum = replicate 8 0;
  typeflag = 0;
  linkname = replicate 100 0;
  magic = replicate 6 0;
  version = replicate 2 0;
  uname = replicate 32 0;
  gname = replicate 32 0;
  devmajor = replicate 8 0;
  devminor = replicate 8 0;
  prefix = replicate 155 0;
  padding = replicate 12 0;
}

-- `as_bytes`: the fields in the order of the packed struct.
unfoldable pub as_bytes : TarHeader → List ℕ
as_bytes h =
    h.name
    ++ (h.mode
        ++ (h.uid
            ++ (h.gid
                ++ (h.size
                    ++ (h.mtime
                        ++ (h.checksum
                            ++ (h.typeflag
                                ∷ (h.linkname
                                    ++ (h.magic
                                        ++ (h.version
                                            ++ (h.uname
                                                ++ (h.gname
                                                    ++ (h.devmajor
                                                        ++ (h.devminor
                                                            ++ (h.prefix ++ h.padding)))))))))))))))

-- The fields that `fs_init` reads through the cast pointer.
abbrev pub name_field : List ℕ → List ℕ
name_field bytes = part 0 100 bytes

abbrev pub size_field : List ℕ → List ℕ
size_field bytes = part 124 136 bytes

abbrev pub magic_field : List ℕ → List ℕ
magic_field bytes = part 257 263 bytes

-- "ustar\0", "00000644" and "00"
abbrev pub ustar : List ℕ
ustar = b'u' ∷ b's' ∷ b't' ∷ b'a' ∷ b'r' ∷ 0 ∷ []

abbrev pub rw_mode : List ℕ
rw_mode = b'0' ∷ b'0' ∷ b'0' ∷ b'0' ∷ b'0' ∷ b'6' ∷ b'4' ∷ b'4' ∷ []

abbrev pub version_00 : List ℕ
version_00 = b'0' ∷ b'0' ∷ []

-- the `fold` over the bytes, in a `usize`
unfoldable pub sum_bytes : ℕ → List ℕ → ℕ
sum_bytes acc [] = acc
sum_bytes acc (b ∷ bs) = sum_bytes ((acc + b) % 2 ^ 32) bs

-- The header while its checksum field holds spaces.
unfoldable pub unsigned_header : List ℕ → ℕ → TarHeader
unsigned_header name size = record zeroed {
  name = name;
  mode = rw_mode;
  magic = ustar;
  version = version_00;
  typeflag = b'0';
  size = int2oct size zeroed.size;
  checksum = map (λ _. b' ') zeroed.checksum;
}

unfoldable pub make_header : List ℕ → ℕ → TarHeader
unfolding unsigned_header
make_header name size =
    let header = unsigned_header name size in
    let checksum = sum_bytes 0 (as_bytes header) in
    record header { checksum = int2oct checksum header.checksum }
