-- ===== src/Examples/Files.antt =====
-- kernel/src/tar.rs at concrete inputs.
use beyond_os1k.Base.{
  ℕ, ◌-◌, ◌%◌, ◌^◌, ◌≡◌, ◌↔◌, refl, inl, inr, arith, true, some, List, [], ◌∷◌, All, replicate, ok,
  panic, out_of_bounds, ◌++◌,
}
use beyond_os1k.Base.Utf8.{is_utf8}
use beyond_os1k.SpinLock.{new}
use beyond_os1k.Tar.Octal.{until_nul, oct2int, int2oct}
use beyond_os1k.Tar.OctalLaws.{IsOctal, value, oct2int-int2oct, oct2int-value}
use beyond_os1k.Tar.Files.{File, zeroed_file, has_name, fs_lookup, pack, unpack}
use beyond_os1k.Tar.Archive.{zeros, IsFile, Fits, archive, pack-archive}
use beyond_os1k.Tar.RoundTrip.{unpack-pack}
use beyond_os1k.Tar.Overrun.{pack-overrun}

check_oct2int_and_int2oct : oct2int (int2oct 987654321 (replicate 64 0)) ≡ some 987654321
unfolding oct2int int2oct
check_oct2int_and_int2oct = refl

-- eleven sevens are 2 ^ 33 - 1
size_wraps : oct2int (replicate 11 b'7') ≡ some (2 ^ 32 - 1)
unfolding oct2int
size_wraps = refl

oct2int-int2oct_example : oct2int (int2oct 1024 (zeros 12)) ≡ some 1024
oct2int-int2oct_example = oct2int-int2oct 1024 (zeros 12) (omega arith) (omega arith) (omega arith)

oct2int-value_example : (oct2int (b'1' ∷ b'7' ∷ 0 ∷ b'9' ∷ []) ≡ some 15) ↔ (
    All IsOctal (until_nul (b'1' ∷ b'7' ∷ 0 ∷ b'9' ∷ []))
    × (15 ≡ value 0 (until_nul (b'1' ∷ b'7' ∷ 0 ∷ b'9' ∷ [])) % 2 ^ 32))
oct2int-value_example = oct2int-value (b'1' ∷ b'7' ∷ 0 ∷ b'9' ∷ []) 15

abbrev pub meow_name : List ℕ
meow_name = b'm' ∷ b'e' ∷ b'o' ∷ b'w' ∷ b'.' ∷ b't' ∷ b'x' ∷ b't' ∷ replicate 92 0

-- disk/meow.txt
abbrev pub meow : File
meow = record {
  in_use = true;
  name = meow_name;
  data_bytes = b'm' ∷ b'e' ∷ b'o' ∷ b'w' ∷ b'!' ∷ 0x0a ∷ replicate 1018 0;
  size = 6;
}

meow-IsFile : IsFile meow
unfolding is_utf8
meow-IsFile = record {
  used = refl;
  named = refl;
  begins = refl;
  text = refl;
  room = refl;
  fits = omega arith;
  clean = refl;
}

abbrev pub table : List File
table = meow ∷ zeroed_file ∷ []

pub table-Fits : Fits 2560 table
table-Fits = inl (meow-IsFile, omega arith, inr (refl, omega arith, tt))

pack-archive_example : pack (zeros 2560) 0 table ≡ ok (archive 2560 table)
pack-archive_example = pack-archive table [] 0 2560 refl refl table-Fits

unpack-pack_example :
    (disk : List ℕ) × (pack (zeros 2560) 0 table ≡ ok disk)
    × (unpack (new disk) 0 (zeroed_file ∷ zeroed_file ∷ []) ≡ ok (table, new disk))
unpack-pack_example = unpack-pack table table-Fits

-- a file of 600 bytes
abbrev lorem : File
lorem = record meow { data_bytes = replicate 600 b'x' ++ replicate 424 0; size = 600 }

lorem-IsFile : IsFile lorem
unfolding is_utf8
lorem-IsFile = record {
  used = refl;
  named = refl;
  begins = refl;
  text = refl;
  room = refl;
  fits = omega arith;
  clean = refl;
}

pack-overrun_example : pack (zeros 2560) 0 (lorem ∷ meow ∷ []) ≡ panic out_of_bounds
pack-overrun_example = pack-overrun lorem meow [] lorem-IsFile meow-IsFile (omega arith)

-- An entry that is not in use is found under the empty name.
empty_name_found : fs_lookup [] (new table) ≡ ok (some 1, new table)
unfolding fs_lookup has_name
empty_name_found = refl
