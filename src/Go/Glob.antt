-- ===== src/Go/Glob.antt =====
-- path/filepath's `Match` for systems whose separator is `/`, on the bytes of the UTF-8. Each loop
-- reads at least one byte of the pattern in a round, so that fuel of one more than the pattern's
-- bytes is enough; `out_of_fuel` is of the model only.
pub mod Utf8
mod Samples
pub mod Shorter
pub mod Fuel
pub mod Literal
use Utf8.{utf8, decode_rune, rune_error}
use cpa_codex_compact_bridge.Common.{
  ℕ, zero, suc, String, Bool, true, false, ◌&&◌, ◌||◌, not, List, [], ◌∷◌, Option, none, some, eqb,
  leb, length, any, drop, if◌then◌else◌,
}

abbrev pub Bytes : Type 0
Bytes = List ℕ

abbrev is_nil : Bytes → Bool
is_nil [] = true
is_nil (b ∷ bs) = false

abbrev begins : ℕ → Bytes → Bool
begins b [] = false
begins b (c ∷ bs) = eqb b c

-- The rune at the front of a class's text, and what follows it; none for ErrBadPattern.
rune_of : Bytes → Option (ℕ × Bytes)
rune_of chunk =
    let (rune, width) = decode_rune chunk in
    let rest = drop width chunk in
    if eqb rune rune_error && eqb width 1 || is_nil rest then none else some (rune, rest)

get_esc : Bytes → Option (ℕ × Bytes)
unfolding rune_of
get_esc [] = none
get_esc (b ∷ bs) =
    if eqb b b'-' || eqb b b']'
    then none
    else if eqb b b'\\'
    then (if is_nil bs then none else rune_of bs)
    else rune_of (b ∷ bs)

-- One range of a class, `lo` or `lo-hi`, and what follows it.
get_range : Bytes → Option (ℕ × ℕ × Bytes)
unfolding get_esc
get_range chunk = elim (get_esc chunk) [
  | none ↦ none
  | some (lo, rest) ↦
      if begins b'-' rest
      then elim (get_esc (drop 1 rest)) [ none ↦ none | some (hi, rest') ↦ some (lo, hi, rest') ]
      else some (lo, lo, rest)
]

pub data ClassResult : Type 0 where
  closed : Bool → Bytes → ClassResult
  bad_class : ClassResult
  out_of_fuel : ClassResult

-- The ranges of a class up to its bracket: whether one holds the rune, and what follows.
class_ranges : ℕ → Bytes → ℕ → Bool → Bool → ClassResult
unfolding get_range
class_ranges zero chunk r matched some_range = ClassResult.out_of_fuel
class_ranges (suc fuel) chunk r matched some_range =
    if begins b']' chunk && some_range
    then closed matched (drop 1 chunk)
    else elim (get_range chunk) [
      | none ↦ bad_class
      | some (lo, hi, rest) ↦ class_ranges fuel rest r (matched || leb lo r && leb r hi) true
    ]

pub data ChunkResult : Type 0 where
  matched : Bytes → ChunkResult
  no_match : ChunkResult
  bad_chunk : ChunkResult
  out_of_fuel : ChunkResult

-- matchChunk: the chunk holds no star. `failed` is whether the match has failed, after which the
-- chunk's form alone is checked.
pub match_chunk : ℕ → Bytes → Bytes → Bool → ChunkResult
unfolding class_ranges
match_chunk zero chunk s failed = ChunkResult.out_of_fuel
match_chunk (suc fuel) [] s failed = if failed then no_match else matched s
match_chunk (suc fuel) (b ∷ chunk) s failed =
    let failed' = failed || is_nil s in
    let literal = λ (c : ℕ) (rest : Bytes).
      match_chunk fuel rest (if failed' then s else drop 1 s) (failed' || not (begins c s)) in
    let any_byte =
      match_chunk fuel chunk (if failed' then s else drop (decode_rune s).1 s)
        (failed' || begins b'/' s) in
    let negated = begins b'^' chunk in
    let ranges =
      class_ranges fuel (if negated then drop 1 chunk else chunk)
        (if failed' then 0 else (decode_rune s).0) false false in
    let class : ChunkResult = elim ranges [
      | closed found rest ↦
          match_chunk fuel rest (if failed' then s else drop (decode_rune s).1 s)
            (failed' || (if negated then found else not found))
      | bad_class ↦ bad_chunk
      | ClassResult.out_of_fuel ↦ ChunkResult.out_of_fuel
    ] in
    let escaped : ChunkResult = elim chunk [ [] ↦ bad_chunk | c ∷ rest ↦ literal c rest ] in
    let plain = literal b chunk in
    if eqb b b'['
    then class
    else if eqb b b'?'
    then any_byte
    else if eqb b b'\\'
    then escaped
    else plain

drop_stars : Bytes → Bytes
drop_stars [] = []
drop_stars (b ∷ bs) = let rest = drop_stars bs in if eqb b b'*' then rest else b ∷ bs

-- The chunk up to the next star outside a class, and what follows it.
scan : Bool → Bool → Bytes → Bytes × Bytes
scan in_range escaped [] = ([], [])
scan in_range escaped (b ∷ bs) =
    let (chunk, rest) =
      scan (if escaped then in_range else (eqb b b'[' || in_range && not (eqb b b']')))
        (not escaped && eqb b b'\\') bs in
    if not escaped && eqb b b'*' && not in_range then ([], b ∷ bs) else (b ∷ chunk, rest)

scan_chunk : Bytes → Bool × Bytes × Bytes
unfolding drop_stars scan
scan_chunk pattern =
    let (chunk, rest) = scan false false (drop_stars pattern) in (begins b'*' pattern, chunk, rest)

pub data MatchResult : Type 0 where
  verdict : Bool → MatchResult
  err_bad_pattern : MatchResult
  out_of_fuel : MatchResult

-- The rest of a pattern that does not match is checked for its form.
check_rest : ℕ → Bytes → MatchResult
unfolding scan_chunk match_chunk
check_rest zero rest = MatchResult.out_of_fuel
check_rest (suc fuel) [] = verdict false
check_rest (suc fuel) (b ∷ bs) =
    let (_, chunk, rest) = scan_chunk (b ∷ bs) in
    elim (match_chunk (suc (length chunk)) chunk [] false) [
      | bad_chunk ↦ err_bad_pattern
      | ChunkResult.out_of_fuel ↦ MatchResult.out_of_fuel
      | _ ↦ check_rest fuel rest
    ]

-- The chunk after a star, at each later place of the name before a separator.
skip : Bytes → Bool → Bytes → ChunkResult
unfolding match_chunk
skip chunk last [] = no_match
skip chunk last (b ∷ name) =
    let later = skip chunk last name in
    let here : ChunkResult = elim (match_chunk (suc (length chunk)) chunk name false) [
      | matched t ↦ (if last && not (is_nil t) then later else matched t)
      | no_match ↦ later
      | bad_chunk ↦ bad_chunk
      | ChunkResult.out_of_fuel ↦ ChunkResult.out_of_fuel
    ] in
    if eqb b b'/' then no_match else here

-- What the loop does next: go on after the chunk, or give up and check the rest.
after_star : Bool → Bytes → Bytes → Bytes → ChunkResult → ChunkResult
unfolding skip
after_star star chunk rest name (matched t) =
    if is_nil t || not (is_nil rest)
    then matched t
    else if star
    then skip chunk (is_nil rest) name
    else no_match
after_star star chunk rest name no_match = if star then skip chunk (is_nil rest) name else no_match
after_star star chunk rest name bad_chunk = bad_chunk
after_star star chunk rest name ChunkResult.out_of_fuel = ChunkResult.out_of_fuel

-- A round of Match's loop with the chunk that scanChunk cut off; `next` is the loop's next round.
round : ℕ → (Bytes → Bytes → MatchResult) → Bytes → Bool × Bytes × Bytes → MatchResult
unfolding match_chunk after_star check_rest
round fuel next name (star, chunk, rest) =
    let go_on : MatchResult =
      elim (after_star star chunk rest name (match_chunk (suc (length chunk)) chunk name false)) [
        | matched t ↦ next rest t
        | no_match ↦ check_rest fuel rest
        | bad_chunk ↦ err_bad_pattern
        | ChunkResult.out_of_fuel ↦ MatchResult.out_of_fuel
      ] in
    if star && is_nil chunk then verdict (not (any (eqb b'/') name)) else go_on

match_from : ℕ → Bytes → Bytes → MatchResult
unfolding scan_chunk round
match_from zero pattern name = MatchResult.out_of_fuel
match_from (suc fuel) [] name = verdict (is_nil name)
match_from (suc fuel) (b ∷ bs) name = round (suc fuel) (match_from fuel) name (scan_chunk (b ∷ bs))

-- filepath.Match
unfoldable pub match : String → String → MatchResult
unfolding match_from utf8 decode_rune
match pattern name = match_from (suc (length (utf8 pattern))) (utf8 pattern) (utf8 name)
