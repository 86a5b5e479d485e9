-- ===== src/Go/Glob/Literal.antt =====
-- Patterns without special characters, and such a text with a star at its end: the forms of the
-- documentation.
use cpa_codex_compact_bridge.Common.{
  ℕ, zero, suc, ◌<◌, String, ◌≡◌, refl, Bool, true, false, ◌&&◌, not, [], ◌∷◌, ◌++◌, Option, none,
  some, arith, ap, subst, ◌∙◌, sym, eqb, length, length-append, any, All, if◌then◌else◌,
}
use cpa_codex_compact_bridge.Go.Glob.{
  Bytes, is_nil, ChunkResult, matched, no_match, match_chunk, drop_stars, scan, scan_chunk,
  MatchResult, verdict, check_rest, bad_chunk, err_bad_pattern, after_star, round, match_from,
  match,
}
use cpa_codex_compact_bridge.Go.Glob.Utf8.{utf8, encode_rune}
use mathlib.Core.List.{append_assoc}
use Prim.Native.Char.{code}
use Prim.Native.String
use Prim.Native.String.append

-- A byte that stands for itself.
abbrev pub is_plain : ℕ → Bool
is_plain b = not (eqb b b'*') && not (eqb b b'?') && not (eqb b b'[') && not (eqb b b'\\')

abbrev pub IsPlain : Bytes → Type 0
IsPlain = All (λ b. is_plain b ≡ true)

-- What follows a text in another that it begins.
abbrev pub after_prefix : Bytes → Bytes → Option Bytes
after_prefix [] s = some s
after_prefix (b ∷ p) [] = none
after_prefix (b ∷ p) (c ∷ s) = if eqb b c then after_prefix p s else none

scan_plain :
    (p rest : Bytes)
    → IsPlain p
    → scan false false (p ++ rest) ≡ (p ++ (scan false false rest).0, (scan false false rest).1)
unfolding scan
scan_plain [] rest h = refl
scan_plain (b ∷ p) rest (hb, h) = ground (arith, hb, scan_plain p rest h)

-- A chunk that has failed stays failed.
match_chunk_failed :
    (fuel : ℕ) (p s : Bytes) → IsPlain p → length p < fuel → match_chunk fuel p s true ≡ no_match
unfolding match_chunk
match_chunk_failed zero p s h f = absurd (omega arith)
match_chunk_failed (suc fuel) [] s h f = refl
match_chunk_failed (suc fuel) (b ∷ p) s (hb, h) f =
    ground (arith, hb, match_chunk_failed fuel p s h (omega arith))

abbrev chunk_of : Option Bytes → ChunkResult
chunk_of none = no_match
chunk_of (some t) = matched t

match_chunk_plain :
    (fuel : ℕ) (p s : Bytes)
    → IsPlain p
    → length p < fuel
    → match_chunk fuel p s false ≡ chunk_of (after_prefix p s)
unfolding match_chunk
match_chunk_plain zero p s h f = absurd (omega arith)
match_chunk_plain (suc fuel) [] s h f = refl
match_chunk_plain (suc fuel) (b ∷ p) [] (hb, h) f =
    ground (arith, hb, match_chunk_failed fuel p [] h (omega arith))
match_chunk_plain (suc fuel) (b ∷ p) (c ∷ s) (hb, h) f = ground (
  arith,
  hb,
  match_chunk_failed fuel p s h (omega arith),
  match_chunk_plain fuel p s h (omega arith),
)

abbrev pub is_empty_rest : Option Bytes → Bool
is_empty_rest none = false
is_empty_rest (some t) = is_nil t

-- No separator follows.
abbrev pub has_no_separator : Option Bytes → Bool
has_no_separator none = false
has_no_separator (some t) = not (any (eqb b'/') t)

drop_stars_plain :
    (p rest : Bytes) (b : ℕ) → is_plain b ≡ true → drop_stars (b ∷ p ++ rest) ≡ b ∷ p ++ rest
unfolding drop_stars
drop_stars_plain p rest b h = ground (arith, h)

append_nil : (p : Bytes) → p ++ [] ≡ p
append_nil [] = refl
append_nil (b ∷ p) = ap (λ q. b ∷ q) (append_nil p)

scan_chunk_lem :
    (b : ℕ) (p rest : Bytes)
    → IsPlain (b ∷ p)
    → scan_chunk (b ∷ p ++ rest)
      ≡ (false, b ∷ p ++ (scan false false rest).0, (scan false false rest).1)
unfolding scan_chunk drop_stars
scan_chunk_lem b p rest (hb, h) =
    let stays : eqb b b'*' ≡ false = ground (arith, hb) in
    let starts : eqb b'*' b ≡ false = ground (arith, hb) in
    let cut = scan_plain (b ∷ p) rest (hb, h) in rw (stays, starts, cut) refl

-- The rounds of a plain chunk, by what follows it in the name.
round_plain :
    (fuel : ℕ) (next : Bytes → Bytes → MatchResult) (name p rest : Bytes)
    → IsPlain p
    → round fuel next name (false, p, rest)
      ≡ (elim (after_star false p rest name (chunk_of (after_prefix p name))) [
        | matched t ↦ next rest t
        | no_match ↦ check_rest fuel rest
        | bad_chunk ↦ err_bad_pattern
        | ChunkResult.out_of_fuel ↦ MatchResult.out_of_fuel
      ])
unfolding round
round_plain fuel next name p rest h =
    rw (match_chunk_plain (suc (length p)) p name h (omega arith), round) refl

scan_chunk_plain : (b : ℕ) (p : Bytes) → IsPlain (b ∷ p) → scan_chunk (b ∷ p) ≡ (false, b ∷ p, [])
unfolding scan
scan_chunk_plain b p h =
    subst (λ q. scan_chunk (b ∷ q) ≡ (false, b ∷ q, [])) (append_nil p) (scan_chunk_lem b p [] h)

scan_chunk_star :
    (b : ℕ) (p : Bytes)
    → IsPlain (b ∷ p)
    → scan_chunk (b ∷ p ++ b'*' ∷ []) ≡ (false, b ∷ p, b'*' ∷ [])
unfolding scan
scan_chunk_star b p h =
    scan_chunk_lem b p (b'*' ∷ []) h ∙ ap (λ q. (false, b ∷ q, b'*' ∷ [])) (append_nil p)

-- The last chunk, and a chunk before a star.
module _ (fuel : ℕ) (p s : Bytes) where
  last_chunk :
      (o : Option Bytes)
      → (elim (after_star false p [] s (chunk_of o)) [
        | matched t ↦ match_from (suc fuel) [] t
        | no_match ↦ check_rest (suc (suc fuel)) []
        | bad_chunk ↦ err_bad_pattern
        | ChunkResult.out_of_fuel ↦ MatchResult.out_of_fuel
      ])
        ≡ verdict (is_empty_rest o)
  unfolding after_star match_from check_rest
  last_chunk none = refl
  last_chunk (some []) = refl
  last_chunk (some (c ∷ t)) = refl

  chunk_before_star :
      (o : Option Bytes)
      → (elim (after_star false p (b'*' ∷ []) s (chunk_of o)) [
        | matched t ↦ match_from (suc fuel) (b'*' ∷ []) t
        | no_match ↦ check_rest (suc (suc fuel)) (b'*' ∷ [])
        | bad_chunk ↦ err_bad_pattern
        | ChunkResult.out_of_fuel ↦ MatchResult.out_of_fuel
      ])
        ≡ verdict (has_no_separator o)
  unfolding after_star match_from check_rest round scan_chunk drop_stars scan match_chunk
  chunk_before_star none = refl
  chunk_before_star (some []) = refl
  chunk_before_star (some (c ∷ t)) = refl

match_from_plain :
    (fuel : ℕ) (p s : Bytes)
    → IsPlain p
    → match_from (suc (suc fuel)) p s ≡ verdict (is_empty_rest (after_prefix p s))
unfolding match_from
match_from_plain fuel [] s h = refl
match_from_plain fuel (b ∷ p) s h =
    ap (round (suc (suc fuel)) (match_from (suc fuel)) s) (scan_chunk_plain b p h)
    ∙ round_plain (suc (suc fuel)) (match_from (suc fuel)) s (b ∷ p) [] h
    ∙ last_chunk fuel (b ∷ p) s (after_prefix (b ∷ p) s)

match_from_star :
    (fuel : ℕ) (p s : Bytes)
    → IsPlain p
    → match_from (suc (suc fuel)) (p ++ b'*' ∷ []) s ≡ verdict (has_no_separator (after_prefix p s))
unfolding match_from
match_from_star fuel [] s h = unfold round scan_chunk drop_stars scan in refl
match_from_star fuel (b ∷ p) s h =
    ap (round (suc (suc fuel)) (match_from (suc fuel)) s) (scan_chunk_star b p h)
    ∙ round_plain (suc (suc fuel)) (match_from (suc fuel)) s (b ∷ p) (b'*' ∷ []) h
    ∙ chunk_before_star fuel (b ∷ p) s (after_prefix (b ∷ p) s)

utf8-append : (s t : String) → utf8 (String.◌++◌ s t) ≡ utf8 s ++ utf8 t
unfolding utf8
utf8-append String.[] t = ap utf8 (append.nil t)
utf8-append (String.◌∷◌ c s) t =
    ap utf8 (append.cons c s t)
    ∙ ap (λ r. encode_rune (code c) ++ r) (utf8-append s t)
    ∙ sym (append_assoc (encode_rune (code c)) (utf8 s) (utf8 t))

-- A text of the bytes that stand for themselves.
abbrev pub IsLiteral : String → Type 0
IsLiteral text = IsPlain (utf8 text)

literal_bytes :
    (p s : Bytes)
    → IsPlain p
    → match_from (suc (length p)) p s ≡ verdict (is_empty_rest (after_prefix p s))
literal_bytes [] s h = unfold match_from in refl
literal_bytes (b ∷ p) s h = match_from_plain (length p) (b ∷ p) s h

star_bytes :
    (p s : Bytes)
    → IsPlain p
    → match_from (suc (length (p ++ b'*' ∷ []))) (p ++ b'*' ∷ []) s
      ≡ verdict (has_no_separator (after_prefix p s))
star_bytes p s h =
    let one : length (p ++ b'*' ∷ []) ≡ suc (length p) =
      omega (arith, length-append p (b'*' ∷ [])) in
    rw one (match_from_star (length p) p s h)

-- filepath.Match of a literal pattern tells whether the name has the same bytes.
pub match-IsLiteral :
    (pattern name : String)
    → IsLiteral pattern
    → match pattern name ≡ verdict (is_empty_rest (after_prefix (utf8 pattern) (utf8 name)))
unfolding match
match-IsLiteral pattern name h = literal_bytes (utf8 pattern) (utf8 name) h

-- filepath.Match of a literal with a star at its end tells whether the name begins with the literal
-- and goes on without a separator.
pub match_star :
    (prefix name : String)
    → IsLiteral prefix
    → match (String.◌++◌ prefix "*") name
      ≡ verdict (has_no_separator (after_prefix (utf8 prefix) (utf8 name)))
unfolding match
match_star prefix name h =
    let bytes : utf8 (String.◌++◌ prefix "*") ≡ utf8 prefix ++ b'*' ∷ [] =
      utf8-append prefix "*" ∙ (unfold utf8 encode_rune in refl) in
    ap (λ p. match_from (suc (length p)) p (utf8 name)) bytes
    ∙ star_bytes (utf8 prefix) (utf8 name) h
