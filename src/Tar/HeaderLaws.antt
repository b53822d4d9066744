-- ===== src/Tar/HeaderLaws.antt =====
-- What `fs_init` reads in the header that `fs_flush` writes (kernel/src/tar.rs).
use beyond_os1k.Base.{
  ℕ, ◌^◌, ◌<◌, ◌≡◌, ap, ◌∙◌, arith, some, List, length, length-append, sym, take, drop-append_add,
  take-append_eq,
}
use mathlib.Core.Path.{subst}
use beyond_os1k.Tar.Ustar.{ustar_header, make_header-ustar}
use beyond_os1k.Tar.Octal.{int2oct, oct2int}
use beyond_os1k.Tar.OctalLaws.{length-int2oct, oct2int-int2oct}
use beyond_os1k.Tar.Header.{
  zeroed, as_bytes, make_header, unsigned_header, sum_bytes, name_field, size_field, magic_field,
  ustar,
}

module _ (name : List ℕ) (size : ℕ) (full : length name ≡ 100) where
  abbrev bytes : List ℕ
  bytes = as_bytes (make_header name size)

  -- the two fields that depend on the file, besides the name
  abbrev size_octal : List ℕ
  size_octal = int2oct size zeroed.size

  abbrev sum_octal : List ℕ
  sum_octal =
      int2oct (sum_bytes 0 (as_bytes (unsigned_header name size)))
        (unsigned_header name size).checksum

  length-size : length size_octal ≡ 12
  length-size = length-int2oct size zeroed.size

  length-sum : length sum_octal ≡ 8
  unfolding unsigned_header
  length-sum =
      length-int2oct (sum_bytes 0 (as_bytes (unsigned_header name size)))
        (unsigned_header name size).checksum

  length-made : length bytes ≡ 512
  unfolding as_bytes make_header
  length-made = omega (arith, length-append {0}, length-size, length-sum)

  made-name : name_field bytes ≡ name
  unfolding as_bytes make_header
  made-name = take-append_eq 100 name _ (sym full)

  made-magic : magic_field bytes ≡ ustar
  unfolding as_bytes make_header
  made-magic = ap (take 6) (
      drop-append_add 257 157 name _ (omega arith)
      ∙ drop-append_add 133 121 size_octal _ (omega (arith, length-size))
      ∙ drop-append_add 109 101 sum_octal _ (omega (arith, length-sum)))

  -- The size is read back, for every size of 32 bits.
  made-size : size < 2 ^ 32 → oct2int (size_field bytes) ≡ some size
  unfolding as_bytes make_header
  made-size small =
      ap oct2int (
        ap (take 12) (drop-append_add 124 24 name _ (omega arith))
        ∙ take-append_eq 12 size_octal _ (sym length-size))
      ∙ oct2int-int2oct size zeroed.size (omega arith) (omega arith) small

  -- the same of the header as the format lays it out
  same : as_bytes (make_header name size) ≡ ustar_header name size
  same = make_header-ustar name size

  pub length-header : length (ustar_header name size) ≡ 512
  length-header = subst (λ b. length b ≡ 512) same length-made

  pub header-name : name_field (ustar_header name size) ≡ name
  header-name = subst (λ b. name_field b ≡ name) same made-name

  pub header-magic : magic_field (ustar_header name size) ≡ ustar
  header-magic = subst (λ b. magic_field b ≡ ustar) same made-magic

  pub header-size : size < 2 ^ 32 → oct2int (size_field (ustar_header name size)) ≡ some size
  header-size small = subst (λ b. oct2int (size_field b) ≡ some size) same (made-size small)
