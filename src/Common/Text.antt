-- ===== src/Common/Text.antt =====
-- Template strings and numbers in decimal.
use Prim.Native.Nat.{ℕ, zero, suc, ◌+◌, ◌/◌, ◌%◌}
use Prim.Native.String
use Prim.Native.String.{String}
use mathlib.Core.List.{List, [], ◌∷◌}
use bek.Common.Tests.{eqb, if◌then◌else◌}

-- `${a}${b}…`
abbrev pub concat : List String → String
concat [] = ""
concat (s ∷ ss) = String.◌++◌ s (concat ss)

abbrev digit_from : List String → ℕ → String
digit_from [] d = ""
digit_from (s ∷ ss) zero = s
digit_from (s ∷ ss) (suc d) = digit_from ss d

abbrev digit : ℕ → String
digit = digit_from ("0" ∷ "1" ∷ "2" ∷ "3" ∷ "4" ∷ "5" ∷ "6" ∷ "7" ∷ "8" ∷ "9" ∷ [])

decimal_from : ℕ → ℕ → String → String
decimal_from zero n out = out
decimal_from (suc fuel) n out =
    let longer = String.◌++◌ (digit (n % 10)) out in
    let rest = decimal_from fuel (n / 10) longer in if eqb (n / 10) 0 then longer else rest

-- `String(n)`; a number has fewer digits than n + 1, which is the fuel.
unfoldable pub decimal : ℕ → String
unfolding decimal_from
decimal n = decimal_from (n + 1) n ""
