-- ===== src/Base/Text.antt =====
-- A C++ `std::string` is the list of its bytes; a literal is written as a text.
use Prim.Native.Char.{code}
use Prim.Native.String.{String}
use Prim.Native.Nat.{ℕ}
use mathlib.Core.List.{List, [], ◌∷◌}
use mathlib.Core.Bool.{Bool, true, false}

abbrev pub Bytes : Type 0
Bytes = List ℕ

abbrev pub codes : String → Bytes
codes String.[] = []
codes (String.◌∷◌ c s) = code c ∷ codes s

-- `empty()` of a string.
abbrev pub is_empty : Bytes → Bool
is_empty [] = true
is_empty (c ∷ cs) = false
