-- ===== src/Tar/Ustar.antt =====
-- The header of a regular file in the ustar format, as POSIX lays it out, apart from the code of
-- kernel/src/tar.rs; and the header that `fs_flush` makes is this one.
use beyond_os1k.Base.{
  ℕ, zero, suc, ◌+◌, ◌/◌, ◌%◌, ◌^◌, ◌<◌, ◌≡◌, refl, ap, ◌∙◌, arith, List, [], ◌∷◌, ◌++◌, replicate,
}
use beyond_os1k.Tar.Octal.{int2oct}
use beyond_os1k.Tar.Header.{as_bytes, sum_bytes, unsigned_header, make_header}

-- So many octal digits of a number, the highest first.
abbrev pub octal : (digits n : ℕ) → List ℕ
octal zero n = []
octal (suc digits) n = octal digits (n / 8) ++ ((n % 8 + b'0') ∷ [])

-- Its 17 fields, with these eight bytes in the checksum. Owner, group, time, link, devices and
-- prefix are zeros, the mode is 644, and the type flag is that of a regular file.
abbrev fields : (checksum name : List ℕ) (size : ℕ) → List ℕ
fields checksum name size =
    name
    ++ ((b'0' ∷ b'0' ∷ b'0' ∷ b'0' ∷ b'0' ∷ b'6' ∷ b'4' ∷ b'4' ∷ [])
        ++ (replicate 16 0
            ++ ((octal 11 size ++ (0 ∷ []))
                ++ (replicate 12 0
                    ++ (checksum
                        ++ (b'0'
                            ∷ (replicate 100 0
                                ++ (b'u'
                                    ∷ b's'
                                    ∷ b't'
                                    ∷ b'a'
                                    ∷ b'r'
                                    ∷ 0
                                    ∷ b'0'
                                    ∷ b'0'
                                    ∷ replicate 247 0))))))))

abbrev pub total : List ℕ → ℕ
total [] = 0
total (b ∷ bs) = b + total bs

-- The checksum is the sum of all bytes, with spaces in its place, in seven octal digits.
unfoldable pub ustar_header : (name : List ℕ) (size : ℕ) → List ℕ
ustar_header name size =
    let sum = total (fields (replicate 8 b' ') name size) % 2 ^ 32 in
    fields (octal 7 sum ++ (0 ∷ [])) name size

sum_bytes-total :
    (acc : ℕ) (bs : List ℕ) → acc < 2 ^ 32 → sum_bytes acc bs ≡ (acc + total bs) % 2 ^ 32
unfolding sum_bytes
sum_bytes-total acc [] small = omega arith
sum_bytes-total acc (b ∷ bs) small =
    sum_bytes-total ((acc + b) % 2 ^ 32) bs (omega arith) ∙ omega arith

sum_bytes-sum : (bs : List ℕ) → sum_bytes 0 bs ≡ total bs % 2 ^ 32
sum_bytes-sum bs = omega (arith, sum_bytes-total 0 bs (omega arith))

unsigned_header-fields :
    (name : List ℕ) (size : ℕ)
    → as_bytes (unsigned_header name size) ≡ fields (replicate 8 b' ') name size
unfolding as_bytes unsigned_header int2oct
unsigned_header-fields name size = refl

signed-fields :
    (name : List ℕ) (size sum : ℕ)
    → as_bytes (
        let header = unsigned_header name size in
        record header { checksum = int2oct sum header.checksum })
      ≡ fields (octal 7 sum ++ (0 ∷ [])) name size
unfolding as_bytes unsigned_header int2oct
signed-fields name size sum = refl

-- The header that the code makes.
pub make_header-ustar :
    (name : List ℕ) (size : ℕ) → as_bytes (make_header name size) ≡ ustar_header name size
unfolding make_header ustar_header
make_header-ustar name size =
    signed-fields name size (sum_bytes 0 (as_bytes (unsigned_header name size)))
    ∙ ap (λ sum. fields (octal 7 sum ++ (0 ∷ [])) name size)
        (ap (sum_bytes 0) (unsigned_header-fields name size)
          ∙ sum_bytes-sum (fields (replicate 8 b' ') name size))
