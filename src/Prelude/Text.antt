-- ===== src/Prelude/Text.antt =====
-- Go's strings as the program measures them: `len` counts the bytes of the UTF-8 encoding, and the
-- regular expressions are tests on each character.
use Prim.Native.Nat.{ℕ, ◌+◌}
use Prim.Native.Char.{code}
use Prim.Native.String.{String}
use mathlib.Core.Bool.{Bool, true, ◌&&◌, ◌||◌}
use mathlib.Core.List.{List, [], ◌∷◌}
use vehicle_positions.Prelude.Tests.{ltb, leb, ◌==◌, if◌then◌else◌}

abbrev pub codes : String → List ℕ
codes String.[] = []
codes (String.◌∷◌ c s) = code c ∷ codes s

-- the bytes of one character
abbrev utf8_width : ℕ → ℕ
utf8_width c = if ltb c 128 then 1 else if ltb c 2048 then 2 else if ltb c 65_536 then 3 else 4

abbrev width_of : List ℕ → ℕ
width_of [] = 0
width_of (c ∷ cs) = utf8_width c + width_of cs

abbrev pub byte_length : String → ℕ
byte_length s = width_of (codes s)

abbrev pub all_codes : (ℕ → Bool) → List ℕ → Bool
all_codes p [] = true
all_codes p (c ∷ cs) = p c && all_codes p cs

-- `[0-9]`
abbrev pub is_digit : ℕ → Bool
is_digit c = leb 48 c && leb c 57

-- `[a-zA-Z0-9._-]`
abbrev pub is_id_char : ℕ → Bool
is_id_char c =
    is_digit c || (leb 65 c && leb c 90) || (leb 97 c && leb c 122) || c == 46 || c == 95 || c == 45
