-- ===== src/Itoa.antt =====
-- itoa of plugin/host.go: the decimal text of a 64-bit int, written from the end of a buffer of 20
-- bytes. A write before the buffer's start is a panic. A 64-bit int has 19 digits at most, so that
-- the fuel of 21 is enough.
pub mod Decimal
use Prim.Native.String.{◌++◌}
use cpa_codex_compact_bridge.Common.{
  ℕ, zero, suc, ◌-◌, ◌/◌, ◌%◌, String, Bool, true, false, Option, none, some, eqb, if◌then◌else◌,
}
use cpa_codex_compact_bridge.Common.Int.{ℤ, pos, negsuc, pos_part}
use cpa_codex_compact_bridge.Go.Format.{digit}

-- -2^63 is `negsuc max_int`.
abbrev pub max_int : ℕ
max_int = 9_223_372_036_854_775_807

-- `-n`, which wraps at the least integer.
abbrev pub negate : ℤ → ℤ
negate (pos zero) = pos 0
negate (pos (suc n)) = negsuc n
negate (negsuc n) = if eqb n max_int then negsuc n else pos (suc n)

-- The buffer from the index `i` on, or what went wrong.
pub data Buffer : Type 0 where
  from : (i : ℕ) → String → Buffer
  panics : Buffer
  out_of_fuel : Buffer

-- `i--; buf[i] = c`
abbrev pub put : String → Buffer → Buffer
put c (from i written) = if eqb i 0 then panics else from (i - 1) (c ++ written)
put c panics = panics
put c out_of_fuel = out_of_fuel

-- The loop, on the number if it is positive and else on 0.
unfoldable pub write_digits : ℕ → ℕ → Buffer → Buffer
unfolding digit
write_digits zero n buf = out_of_fuel
write_digits (suc fuel) n buf =
    let rest = write_digits fuel (n / 10) (put (digit (n % 10)) buf) in
    if eqb n 0 then buf else rest

abbrev pub empty_buffer : Buffer
empty_buffer = from 20 ""

abbrev is_negative : ℤ → Bool
is_negative (pos n) = false
is_negative (negsuc n) = true

abbrev is_zero : ℤ → Bool
is_zero (pos n) = eqb n 0
is_zero (negsuc n) = false

-- `string(buf[i:])`
abbrev pub text_of : Buffer → Option String
text_of (from i written) = some written
text_of panics = none
text_of out_of_fuel = none

-- No text stands for a panic.
unfoldable pub itoa : ℤ → Option String
itoa n =
    if is_zero n
    then some "0"
    else if is_negative n
    then text_of (put "-" (write_digits 21 (pos_part (negate n)) empty_buffer))
    else text_of (write_digits 21 (pos_part n) empty_buffer)
