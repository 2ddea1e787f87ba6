-- ===== src/Prelude/Text.antt =====
-- The text methods that the program calls.
use Prim.Native.Nat.{ℕ}
use Prim.Native.Char.{code}
use Prim.Native.String.{String, [], ◌∷◌, ◌++◌}
use mathlib.Core.Bool.{Bool, true, ◌&&◌, ◌||◌}
use mathlib.Core.List.{List}
use text.Mathlib.Text.{starts_with}
use canton_evmcrosschain.Prelude.Tests.{eqb, leb}

-- The characters that `trim` removes: the white space and line ends of ECMAScript.
abbrev pub is_space : ℕ → Bool
is_space c =
    (leb 9 c && leb c 13)
    || eqb c 32
    || eqb c 160
    || eqb c 0x1680
    || (leb 0x2000 c && leb c 0x200a)
    || eqb c 0x2028
    || eqb c 0x2029
    || eqb c 0x202f
    || eqb c 0x205f
    || eqb c 0x3000
    || eqb c 0xfeff

-- `s.trim() === ""`, and so `!s.trim()`
unfoldable pub is_blank : String → Bool
is_blank [] = true
is_blank (c ∷ s) = is_space (code c) && is_blank s

-- `s.startsWith(prefix)`
unfoldable pub has_prefix : String → String → Bool
has_prefix prefix s = starts_with s prefix

-- A template text of two parts.
unfoldable pub concat : String → String → String
concat s t = s ++ t

-- The code points of a text, which the regular expressions below walk.
abbrev pub codes : String → List ℕ
codes [] = List.[]
codes (c ∷ s) = List.◌∷◌ (code c) (codes s)

abbrev pub is_digit_code : ℕ → Bool
is_digit_code c = leb 48 c && leb c 57

abbrev pub is_upper_code : ℕ → Bool
is_upper_code c = leb 65 c && leb c 90

abbrev pub is_lower_code : ℕ → Bool
is_lower_code c = leb 97 c && leb c 122
