-- ===== src/Prelude/Text.antt =====
-- Texts: `text?.trim()` as a test (is there a text that is not blank?), comparison, and the form in
-- which e-mail addresses are compared.
use Prim.Native.Nat.{ℕ}
use Prim.Native.Char.{code}
use Prim.Native.String.{String}
use mathlib.Core.List.{List, [], ◌∷◌}
use mathlib.Core.Path.{◌≡◌, refl}
use native.Mathlib.Omega.{arith}
use mathlib.Core.Bool.{Bool, false, true, not, ◌&&◌, ◌||◌}
use mathlib.Core.Option.{Option, none, some}
use deptoflex_back.Prelude.Tests.{if◌then◌else◌, leb, ◌==◌}

-- The characters that `trim` removes: white space and line terminators.
unfoldable pub is_space : ℕ → Bool
is_space c =
    (leb 9 c && leb c 13)
    || c == 32
    || c == 160
    || c == 0x1680
    || (leb 0x2000 c && leb c 0x200a)
    || c == 0x2028
    || c == 0x2029
    || c == 0x202f
    || c == 0x205f
    || c == 0x3000
    || c == 0xfeff

unfoldable pub has_text : String → Bool
unfolding is_space
has_text String.[] = false
has_text (String.◌∷◌ c s) = not (is_space (code c)) || has_text s

unfoldable pub has_some_text : Option String → Bool
unfolding has_text
has_some_text none = false
has_some_text (some s) = has_text s

-- `text || null`
unfoldable pub text_or_null : Option String → Option String
text_or_null none = none
text_or_null (some String.[]) = none
text_or_null (some (String.◌∷◌ c s)) = some (String.◌∷◌ c s)

-- The codes of a text's characters, on which texts are compared.
unfoldable pub codes : String → List ℕ
codes String.[] = []
codes (String.◌∷◌ c s) = code c ∷ codes s

unfoldable pub same_codes : List ℕ → List ℕ → Bool
same_codes [] [] = true
same_codes [] (d ∷ ds) = false
same_codes (c ∷ cs) [] = false
same_codes (c ∷ cs) (d ∷ ds) = c == d && same_codes cs ds

unfoldable pub same_text : String → String → Bool
unfolding codes same_codes
same_text a b = same_codes (codes a) (codes b)

pub same_codes_self : (cs : List ℕ) → same_codes cs cs ≡ true
unfolding same_codes
same_codes_self [] = refl
same_codes_self (c ∷ cs) = ground (arith, same_codes_self cs)

pub same_text_self : (a : String) → same_text a a ≡ true
unfolding same_text
same_text_self a = same_codes_self (codes a)

-- `trim`
unfoldable pub trim_start : String → String
unfolding is_space
trim_start String.[] = ""
trim_start (String.◌∷◌ c s) =
    let rest = trim_start s in if is_space (code c) then rest else String.◌∷◌ c s

unfoldable pub trim_end : String → String
unfolding is_space has_text
trim_end String.[] = ""
trim_end (String.◌∷◌ c s) =
    let rest = trim_end s in if is_space (code c) && not (has_text s) then "" else String.◌∷◌ c rest

unfoldable pub trim : String → String
unfolding trim_start trim_end
trim s = trim_end (trim_start s)
