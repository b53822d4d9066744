-- ===== src/Base/Text.antt =====
-- The texts that the source spells out, as the bytes of their UTF-8.
use Prim.Native.Nat.{ℕ}
use Prim.Native.Char.{code}
use Prim.Native.String.{String, [], ◌∷◌}
use mathlib.Core.List.{List, ◌++◌}
use mathlib.Core.List as L
use beyond_os1k.Base.Utf8.{char_bytes}

abbrev pub text : String → List ℕ
text [] = L.[]
text (c ∷ s) = char_bytes (code c) ++ text s
