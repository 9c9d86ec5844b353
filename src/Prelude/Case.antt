-- ===== src/Prelude/Case.antt =====
-- `toUpperCase` and `toLowerCase` on the letters of ASCII, as the codes of currencies and languages
-- have them; other characters are left alone.
use Prim.Native.Char.{Char, code}
use Prim.Native.String.{String}
use mathlib.Core.List.{List, [], ◌∷◌}
use deptoflex_back.Prelude.Tests.{if◌then◌else◌, ◌==◌}

abbrev letters : List (Char × Char)
letters =
    ("a", "A")
    ∷ ("b", "B")
    ∷ ("c", "C")
    ∷ ("d", "D")
    ∷ ("e", "E")
    ∷ ("f", "F")
    ∷ ("g", "G")
    ∷ ("h", "H")
    ∷ ("i", "I")
    ∷ ("j", "J")
    ∷ ("k", "K")
    ∷ ("l", "L")
    ∷ ("m", "M")
    ∷ ("n", "N")
    ∷ ("o", "O")
    ∷ ("p", "P")
    ∷ ("q", "Q")
    ∷ ("r", "R")
    ∷ ("s", "S")
    ∷ ("t", "T")
    ∷ ("u", "U")
    ∷ ("v", "V")
    ∷ ("w", "W")
    ∷ ("x", "X")
    ∷ ("y", "Y")
    ∷ ("z", "Z")
    ∷ []

-- The other case of a character, by its place in the table.
unfoldable upper_by : List (Char × Char) → Char → Char
upper_by [] c = c
upper_by ((a, b) ∷ rest) c = let other = upper_by rest c in if code a == code c then b else other

unfoldable lower_by : List (Char × Char) → Char → Char
lower_by [] c = c
lower_by ((a, b) ∷ rest) c = let other = lower_by rest c in if code b == code c then a else other

unfoldable pub to_upper_case : String → String
unfolding upper_by
to_upper_case String.[] = ""
to_upper_case (String.◌∷◌ c s) = String.◌∷◌ (upper_by letters c) (to_upper_case s)

unfoldable pub to_lower_case : String → String
unfolding lower_by
to_lower_case String.[] = ""
to_lower_case (String.◌∷◌ c s) = String.◌∷◌ (lower_by letters c) (to_lower_case s)
