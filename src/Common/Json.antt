-- ===== src/Common/Json.antt =====
-- `JSON.stringify` of the values that the programs here build, and `String(n)`. A number that is no
-- integer does not occur; a field that is undefined is left out.
use Prim.Native.Char.{code, Char}
use Prim.Native.Nat.{ℕ, zero, suc, ◌/◌, ◌%◌}
use Prim.Native.String.{String}
use mathlib.Core.List.{List, [], ◌∷◌}
use pluto_agent_platform.Common.Tests.{ltb, nat_eq, if◌then◌else◌, or_else}
use pluto_agent_platform.Common.Lists.{get_elem?}
use pluto_agent_platform.Common.Int.{ℤ, pos, negsuc}
use pluto_agent_platform.Common.Text.{◌<>◌}

abbrev hex_digits : List String
hex_digits =
    "0" ∷ "1" ∷ "2" ∷ "3" ∷ "4" ∷ "5" ∷ "6" ∷ "7" ∷ "8" ∷ "9" ∷ "a" ∷ "b" ∷ "c" ∷ "d" ∷ "e" ∷ "f"
    ∷ []

abbrev digit : ℕ → String
digit n = or_else (get_elem? hex_digits n) ""

-- The fuel is the number itself and one: each round divides by ten.
abbrev decimal_rounds : ℕ → ℕ → String
decimal_rounds zero n = ""
decimal_rounds (suc fuel) n =
    let front = decimal_rounds fuel (n / 10) in
    if ltb n 10 then digit n else front <> digit (n % 10)

unfoldable pub decimal : ℕ → String
decimal n = decimal_rounds (suc n) n

unfoldable pub signed_decimal : ℤ → String
unfolding decimal
signed_decimal (pos n) = decimal n
signed_decimal (negsuc n) = "-" <> decimal (suc n)

abbrev escape : Char → String
escape c =
    let n = code c in
    if nat_eq n 34
    then "\\\""
    else if nat_eq n 92
    then "\\\\"
    else if nat_eq n 8
    then "\\b"
    else if nat_eq n 9
    then "\\t"
    else if nat_eq n 10
    then "\\n"
    else if nat_eq n 12
    then "\\f"
    else if nat_eq n 13
    then "\\r"
    else if ltb n 32
    then "\\u00" <> digit (n / 16) <> digit (n % 16)
    else String.◌∷◌ c String.[]

abbrev escaped : String → String
escaped String.[] = ""
escaped (String.◌∷◌ c s) = escape c <> escaped s

unfoldable pub json_text : String → String
json_text s = "\"" <> escaped s <> "\""
