-- ===== src/Go/Format.antt =====
-- The verbs %d and %q of fmt. Of the characters beyond ASCII %q is taken to print all.
use Prim.Native.Char.{code}
use Prim.Native.String.{String, [], ◌∷◌, ◌++◌, slice}
use cpa_codex_compact_bridge.Common.{ℕ, zero, suc, ◌/◌, ◌%◌, eqb, ltb, if◌then◌else◌}
use cpa_codex_compact_bridge.Common.Int.{ℤ, pos, negsuc}

-- A digit, from 0 to 15.
unfoldable pub digit : ℕ → String
digit n = slice "0123456789abcdef" n (suc n)

unfoldable pub decimal_from : ℕ → ℕ → String
unfolding digit
decimal_from zero n = ""
decimal_from (suc fuel) n =
    let front = decimal_from fuel (n / 10) in if ltb n 10 then digit n else front ++ digit (n % 10)

-- Fuel of one more than the number is enough, since the quotient falls.
unfoldable pub decimal : ℕ → String
unfolding decimal_from
decimal n = decimal_from (suc n) n

-- %d
unfoldable pub format_int : ℤ → String
unfolding decimal
format_int (pos n) = decimal n
format_int (negsuc n) = "-" ++ decimal (suc n)

escape : ℕ → String → String
unfolding digit
escape c plain =
    if eqb c b'"'
    then "\\\""
    else if eqb c b'\\'
    then "\\\\"
    else if eqb c 7
    then "\\a"
    else if eqb c 8
    then "\\b"
    else if eqb c 9
    then "\\t"
    else if eqb c 10
    then "\\n"
    else if eqb c 11
    then "\\v"
    else if eqb c 12
    then "\\f"
    else if eqb c 13
    then "\\r"
    else if ltb c 0x20
    then "\\x" ++ digit (c / 16) ++ digit (c % 16)
    else if eqb c 0x7f
    then "\\x7f"
    else plain

quote_from : String → String
unfolding escape
quote_from [] = "\""
quote_from (c ∷ s) = escape (code c) (c ∷ []) ++ quote_from s

-- %q
unfoldable pub quote : String → String
unfolding quote_from
quote s = "\"" ++ quote_from s
