-- ===== src/Common/Units.antt =====
-- Texts as the platform's: white space, `trim`, and the order of `sort` without a comparator, by
-- units of UTF-16.
use Prim.Native.Nat.{ℕ, ◌+◌, ◌-◌, ◌/◌, ◌%◌}
use Prim.Native.String.{String}
use Prim.Native.Char.{code}
use mathlib.Core.Bool.{Bool, true, false, ◌&&◌, ◌||◌}
use mathlib.Core.Option.{Option, none, some}
use mathlib.Core.List.{List, [], ◌∷◌, ◌++◌}
use text.Mathlib.Text.{◌==◌}
use bek.Common.Tests.{ltb, leb, eqb, if◌then◌else◌}
use bek.Common.Sorting.{sort_with}

-- White space and the ends of lines, which `trim` takes off and `\s` matches.
unfoldable pub is_space : ℕ → Bool
is_space c =
    leb 9 c && leb c 13
    || eqb c 32
    || eqb c 160
    || eqb c 0x1680
    || leb 0x2000 c && leb c 0x200A
    || eqb c 0x2028
    || eqb c 0x2029
    || eqb c 0x202F
    || eqb c 0x205F
    || eqb c 0x3000
    || eqb c 0xFEFF

abbrev pub trim_start : String → String
trim_start String.[] = ""
trim_start (String.◌∷◌ c s) =
    let rest = trim_start s in if is_space (code c) then rest else String.◌∷◌ c s

-- White space that nothing follows is left out.
abbrev pub trim_end : String → String
trim_end String.[] = ""
trim_end (String.◌∷◌ c s) =
    let rest = trim_end s in if is_space (code c) && rest == "" then "" else String.◌∷◌ c rest

unfoldable pub trim : String → String
unfolding is_space
trim s = trim_end (trim_start s)

-- The units of a text: a character beyond 0xFFFF is a pair of surrogates.
abbrev pub units : String → List ℕ
units String.[] = []
units (String.◌∷◌ c s) =
    (if ltb (code c) 65536
      then code c ∷ []
      else (0xD800 + (code c - 65536) / 1024) ∷ (0xDC00 + (code c - 65536) % 1024) ∷ [])
    ++ units s

abbrev pub units_before : List ℕ → List ℕ → Bool
units_before xs [] = false
units_before [] (y ∷ ys) = true
units_before (x ∷ xs) (y ∷ ys) =
    let rest = units_before xs ys in if ltb x y then true else if ltb y x then false else rest

-- `a < b`
unfoldable pub text_before : String → String → Bool
text_before a b = units_before (units a) (units b)

-- `sort()`
unfoldable pub sort_texts : List String → List String
unfolding text_before
sort_texts xs = sort_with text_before xs

-- `value.trim() || undefined`
unfoldable pub trimmed : String → Option String
unfolding trim
trimmed s = let t = trim s in if t == "" then none else some t
