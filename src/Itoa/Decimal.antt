-- ===== src/Itoa/Decimal.antt =====
-- itoa of plugin/host.go against the verb %d of fmt.

use Prim.Native.String.{◌++◌}
use Prim.Native.String.append
use text.Mathlib.TextLemmas.{append_assoc, append-nil}
use cpa_codex_compact_bridge.Common.{
  ◌≢◌, ℕ, zero, suc, ◌-◌, ◌*◌, ◌/◌, ◌%◌, ◌≤◌, ◌<◌, ◌≡◌, ap, sym, ◌∙◌, arith, inl, inr, Bool-cases,
  some, Bool, refl, String, false, eqb, ltb, if◌then◌else◌,
}
use cpa_codex_compact_bridge.Go.Format.{digit, decimal_from, decimal, format_int}
use cpa_codex_compact_bridge.Itoa.{
  Buffer, from, put, text_of, empty_buffer, max_int, write_digits, itoa,
}
use cpa_codex_compact_bridge.Common.Int.{ℤ, pos, negsuc, pos_part, neg_part}

-- The range of a 64-bit int.
abbrev pub IsInt64 : ℤ → Type 0
IsInt64 n = (pos_part n ≤ max_int) × (neg_part n ≤ suc max_int)

abbrev pub is_least : ℤ → Bool
is_least (pos n) = false
is_least (negsuc n) = eqb n max_int

abbrev pow10 : ℕ → ℕ
pow10 zero = 1
pow10 (suc k) = 10 * pow10 k

-- The digits of a number, and none of 0.
unfoldable digits : ℕ → ℕ → String
digits zero n = ""
digits (suc fuel) n =
    let front = digits fuel (n / 10) in if eqb n 0 then "" else front ++ digit (n % 10)

unfoldable digit_count : ℕ → ℕ → ℕ
digit_count zero n = 0
digit_count (suc fuel) n = let front = digit_count fuel (n / 10) in if eqb n 0 then 0 else suc front

lt-pow10 : (n : ℕ) → n < pow10 (suc n)
lt-pow10 zero = omega arith
lt-pow10 (suc n) = let h : n < pow10 (suc n) = lt-pow10 n in omega arith

digit_count_le : (k fuel n : ℕ) → n < pow10 k → digit_count fuel n ≤ k
unfolding digit_count
digit_count_le k zero n lt = omega arith
digit_count_le zero (suc fuel) n lt = ground arith
digit_count_le (suc k) (suc fuel) n lt =
    let h : digit_count fuel (n / 10) ≤ k = digit_count_le k fuel (n / 10) (omega arith) in
    ground arith

write_digits-zero : (fuel : ℕ) (buf : Buffer) → write_digits (suc fuel) 0 buf ≡ buf
unfolding write_digits
write_digits-zero fuel buf = refl

write_digits-positive :
    (fuel n i : ℕ) (tail : String)
    → 0 < n
    → 0 < i
    → write_digits (suc fuel) n (from i tail)
      ≡ write_digits fuel (n / 10) (from (i - 1) (digit (n % 10) ++ tail))
unfolding write_digits
write_digits-positive fuel n i tail positive room = ground arith

digits-positive :
    (fuel n : ℕ) → 0 < n → digits (suc fuel) n ≡ digits fuel (n / 10) ++ digit (n % 10)
unfolding digits
digits-positive fuel n positive = ground arith

digits-zero : (fuel : ℕ) → digits fuel 0 ≡ ""
unfolding digits
digits-zero zero = refl
digits-zero (suc fuel) = refl

digit_count-positive :
    (fuel n : ℕ) → 0 < n → digit_count (suc fuel) n ≡ suc (digit_count fuel (n / 10))
unfolding digit_count
digit_count-positive fuel n positive = ground arith

-- At 0 nothing is written.
write_digits-from_zero :
    (fuel i : ℕ) (tail : String)
    → write_digits (suc fuel) 0 (from i tail)
      ≡ from (i - digit_count (suc fuel) 0) (digits (suc fuel) 0 ++ tail)
unfolding write_digits digits digit_count
write_digits-from_zero fuel i tail =
    let start : i - 0 ≡ i = omega arith in cc (append.nil tail, start)

write_digits-from :
    (k fuel n i : ℕ)
    → (tail : String) → n < pow10 k
    → k < fuel
    → k ≤ i
    → write_digits fuel n (from i tail) ≡ from (i - digit_count fuel n) (digits fuel n ++ tail)
write_digits-from k zero n i tail lt enough room = ground arith
write_digits-from zero (suc fuel) zero i tail lt enough room = write_digits-from_zero fuel i tail
write_digits-from zero (suc fuel) (suc n) i tail lt enough room = ground arith
write_digits-from (suc k) (suc fuel) zero i tail lt enough room = write_digits-from_zero fuel i tail
write_digits-from (suc k) (suc fuel) (suc n) i tail lt enough room =
    let index : i - 1 - digit_count fuel (suc n / 10) ≡ i - suc (digit_count fuel (suc n / 10)) =
      omega arith in
    write_digits-positive fuel (suc n) i tail (omega arith) (omega arith)
    ∙ write_digits-from k fuel (suc n / 10) (i - 1) (digit (suc n % 10) ++ tail) (omega arith)
        (omega arith) (omega arith)
    ∙ cc (
      index,
      digits-positive fuel (suc n) (omega arith),
      digit_count-positive fuel (suc n) (omega arith),
      append_assoc (digits fuel (suc n / 10)) (digit (suc n % 10)) tail,
    )

decimal_from-small : (fuel n : ℕ) → n < 10 → decimal_from (suc fuel) n ≡ digit n
unfolding decimal_from
decimal_from-small fuel n lt = ground arith

decimal_from-large :
    (fuel n : ℕ) → 10 ≤ n → decimal_from (suc fuel) n ≡ decimal_from fuel (n / 10) ++ digit (n % 10)
unfolding decimal_from
decimal_from-large fuel n le = ground arith

decimal_from-positive :
    (fuel other n : ℕ)
    → 0 < n
    → n < pow10 fuel
    → n < pow10 other
    → decimal_from fuel n ≡ digits other n
decimal_from-positive zero other n positive lt lt' = ground arith
decimal_from-positive (suc fuel) zero n positive lt lt' = ground arith
decimal_from-positive (suc fuel) (suc other) n positive lt lt' = elim (Bool-cases (ltb n 10)) [
  | inl small ↦
      let lt_10 : n < 10 = ground arith in
      let none_before : n / 10 ≡ 0 = omega arith in
      let last : n % 10 ≡ n = omega arith in
      decimal_from-small fuel n lt_10
      ∙ cc (
        none_before,
        last,
        digits-positive other n positive,
        digits-zero other,
        append.nil (digit n),
      )
  | inr large ↦
      let ge_10 : 10 ≤ n = ground arith in
      decimal_from-large fuel n ge_10
      ∙ cc (
        digits-positive other n positive,
        decimal_from-positive fuel other (n / 10) (omega arith) (omega arith) (omega arith),
      )
]

-- The decimal text of a number that is not 0.
unsigned :
    (n : ℕ)
    → 0 < n
    → n ≤ suc max_int
    → write_digits 21 n empty_buffer ≡ from (20 - digit_count 21 n) (decimal n)
unfolding decimal
unsigned n positive le =
    write_digits-from 19 21 n 20 "" (omega arith) (omega arith) (omega arith)
    ∙ cc (
      append-nil (digits 21 n),
      decimal_from-positive (suc n) 21 n positive (lt-pow10 n) (omega arith),
    )

put-from : (c text : String) (i : ℕ) → 0 < i → put c (from i text) ≡ from (i - 1) (c ++ text)
put-from c text i positive = ground arith

signed :
    (n : ℕ)
    → n ≤ max_int
    → text_of (put "-" (write_digits 21 (suc n) empty_buffer)) ≡ some ("-" ++ decimal (suc n))
signed n le =
    let room : 0 < 20 - digit_count 21 (suc n) =
      let few : digit_count 21 (suc n) ≤ 19 = digit_count_le 19 21 (suc n) (omega arith) in
      omega arith in
    ap (λ buf. text_of (put "-" buf)) (unsigned (suc n) (omega arith) (omega arith))
    ∙ ap text_of (put-from "-" (decimal (suc n)) (20 - digit_count 21 (suc n)) room)

format_int-pos : (n : ℕ) → format_int (pos n) ≡ decimal n
unfolding format_int
format_int-pos n = refl

format_int-negsuc : (n : ℕ) → format_int (negsuc n) ≡ "-" ++ decimal (suc n)
unfolding format_int
format_int-negsuc n = refl

itoa-zero : itoa (pos 0) ≡ some (format_int (pos 0))
unfolding itoa format_int
itoa-zero = refl

itoa-pos : (n : ℕ) → itoa (pos (suc n)) ≡ text_of (write_digits 21 (suc n) empty_buffer)
unfolding itoa
itoa-pos n = ground arith

itoa-negsuc :
    (n : ℕ)
    → n ≢ max_int
    → itoa (negsuc n) ≡ text_of (put "-" (write_digits 21 (suc n) empty_buffer))
unfolding itoa
itoa-negsuc n other = ground arith

itoa-least : itoa (negsuc max_int) ≡ some "-"
unfolding itoa write_digits
itoa-least = refl

-- Each 64-bit int is printed as %d prints it, without a panic, but the least: the text of that is its sign.
pub itoa_lem : (n : ℤ) → IsInt64 n → itoa n ≡ some (if is_least n then "-" else format_int n)
itoa_lem (pos zero) bounds = itoa-zero
itoa_lem (pos (suc n)) bounds =
    itoa-pos n
    ∙ ap text_of (unsigned (suc n) (omega arith) (omega arith))
    ∙ ap some (sym (format_int-pos (suc n)))
itoa_lem (negsuc n) bounds = elim (Bool-cases (eqb n max_int)) [
  | inl e ↦
      let least : n ≡ max_int = ground arith in ap (λ k. itoa (negsuc k)) least ∙ itoa-least ∙ cc e
  | inr e ↦
      let other : n ≢ max_int = ground arith in
      itoa-negsuc n other ∙ signed n (omega arith) ∙ cc (format_int-negsuc n, e)
]
