-- ===== src/Go/Glob/Fuel.antt =====
-- The fuel that Match is run on is enough: each round of a loop reads a byte of the pattern.
use cpa_codex_compact_bridge.Common.{
  ℕ, zero, suc, ◌≤◌, ◌<◌, String, ◌≡◌, refl, ◌≢◌, Bool, false, ◌&&◌, ◌||◌, not, [], ◌∷◌, arith, eqb,
  length, if◌then◌else◌, Bool-cases, inl, inr,
}
use cpa_codex_compact_bridge.Go.Glob.{
  Bytes, is_nil, ChunkResult, matched, no_match, bad_chunk, match_chunk, drop_stars, scan,
  scan_chunk, MatchResult, err_bad_pattern, check_rest, skip, after_star, round, match_from, match,
}
use cpa_codex_compact_bridge.Go.Glob.Utf8.{utf8}
use cpa_codex_compact_bridge.Go.Glob.Shorter.{if-ne, match_chunk_ends}

length-drop_stars : (bs : Bytes) → length (drop_stars bs) ≤ length bs
unfolding drop_stars
length-drop_stars [] = omega arith
length-drop_stars (b ∷ bs) = ground (arith, length-drop_stars bs)

scan_rest : (in_range escaped : Bool) (bs : Bytes) → length (scan in_range escaped bs).1 ≤ length bs
unfolding scan
scan_rest in_range escaped [] = omega arith
scan_rest in_range escaped (b ∷ bs) = ground (
  arith,
  scan_rest (if escaped then in_range else (eqb b b'[' || in_range && not (eqb b b']')))
      (not escaped && eqb b b'\\') bs,
)

-- A chunk that does not start at a star has a byte.
scan_rest_shorter :
    (b : ℕ) (bs : Bytes) → eqb b b'*' ≡ false → length (scan false false (b ∷ bs)).1 ≤ length bs
unfolding scan
scan_rest_shorter b bs h = ground (arith, scan_rest (eqb b b'[' || false) (eqb b b'\\') bs)

-- The loop of Match reads a byte in each round.
scan_chunk_rest : (b : ℕ) (bs : Bytes) → length (scan_chunk (b ∷ bs)).2 ≤ length bs
unfolding scan_chunk drop_stars
scan_chunk_rest b bs = elim (Bool-cases (eqb b b'*')) [
  | inl star ↦
      rw (star) (omega (arith, scan_rest false false (drop_stars bs), length-drop_stars bs))
  | inr plain ↦ rw (plain) (scan_rest_shorter b bs plain)
]

check_rest_ends :
    (fuel : ℕ) (rest : Bytes) → length rest < fuel → check_rest fuel rest ≢ MatchResult.out_of_fuel
unfolding check_rest
check_rest_ends zero rest h = absurd (omega arith)
check_rest_ends (suc fuel) [] h = cc
check_rest_ends (suc fuel) (b ∷ bs) h =
    let (_, chunk, rest) = scan_chunk (b ∷ bs) in
    let shorter = scan_chunk_rest b bs in
    after_check (match_chunk (suc (length chunk)) chunk [] false) (check_rest fuel rest)
      (match_chunk_ends (suc (length chunk)) chunk [] false (omega arith))
      (check_rest_ends fuel rest (omega arith))
  where
    after_check :
        (r : ChunkResult) (later : MatchResult)
        → r ≢ ChunkResult.out_of_fuel
        → later ≢ MatchResult.out_of_fuel
        → (elim r [
          | bad_chunk ↦ err_bad_pattern
          | ChunkResult.out_of_fuel ↦ MatchResult.out_of_fuel
          | _ ↦ later
        ])
          ≢ MatchResult.out_of_fuel
    after_check bad_chunk later h k = cc
    after_check ChunkResult.out_of_fuel later h k = absurd (h refl)
    after_check (matched t) later h k = k
    after_check no_match later h k = k

skip_ends :
    (chunk : Bytes) (last : Bool) (name : Bytes) → skip chunk last name ≢ ChunkResult.out_of_fuel
unfolding skip
skip_ends chunk last [] = cc
skip_ends chunk last (b ∷ name) = if-ne (eqb b b'/') (cc) (
    go (match_chunk (suc (length chunk)) chunk name false) (skip chunk last name)
      (match_chunk_ends (suc (length chunk)) chunk name false (omega arith))
      (skip_ends chunk last name))
  where
    go :
        (r later : ChunkResult)
        → r ≢ ChunkResult.out_of_fuel
        → later ≢ ChunkResult.out_of_fuel
        → (elim r [
          | matched t ↦ (if last && not (is_nil t) then later else matched t)
          | no_match ↦ later
          | bad_chunk ↦ bad_chunk
          | ChunkResult.out_of_fuel ↦ ChunkResult.out_of_fuel
        ])
          ≢ ChunkResult.out_of_fuel
    go (matched t) later h k = if-ne (last && not (is_nil t)) k (cc)
    go no_match later h k = k
    go bad_chunk later h k = h
    go ChunkResult.out_of_fuel later h k = h

after_star_ends :
    (star : Bool) (chunk rest name : Bytes) (r : ChunkResult)
    → r ≢ ChunkResult.out_of_fuel
    → after_star star chunk rest name r ≢ ChunkResult.out_of_fuel
unfolding after_star
after_star_ends star chunk rest name (matched t) h =
    if-ne (is_nil t || not (is_nil rest)) (cc)
      (if-ne star (skip_ends chunk (is_nil rest) name) (cc))
after_star_ends star chunk rest name no_match h =
    if-ne star (skip_ends chunk (is_nil rest) name) (cc)
after_star_ends star chunk rest name bad_chunk h = h
after_star_ends star chunk rest name ChunkResult.out_of_fuel h = h

-- What a round makes of its chunk.
after_chunk :
    (fuel : ℕ) (next : Bytes → Bytes → MatchResult) (rest : Bytes) (r : ChunkResult)
    → r ≢ ChunkResult.out_of_fuel
    → ((t : Bytes) → next rest t ≢ MatchResult.out_of_fuel)
    → length rest < fuel
    → (elim r [
      | matched t ↦ next rest t
      | no_match ↦ check_rest fuel rest
      | bad_chunk ↦ err_bad_pattern
      | ChunkResult.out_of_fuel ↦ MatchResult.out_of_fuel
    ])
      ≢ MatchResult.out_of_fuel
after_chunk fuel next rest (matched t) h m f = m t
after_chunk fuel next rest no_match h m f = check_rest_ends fuel rest f
after_chunk fuel next rest bad_chunk h m f = cc
after_chunk fuel next rest ChunkResult.out_of_fuel h m f = absurd (h refl)

round_ends :
    (fuel : ℕ) (next : Bytes → Bytes → MatchResult) (name : Bytes) (star : Bool)
    (chunk rest : Bytes)
    → ((t : Bytes) → next rest t ≢ MatchResult.out_of_fuel)
    → length rest < fuel
    → round fuel next name (star, chunk, rest) ≢ MatchResult.out_of_fuel
unfolding round
round_ends fuel next name star chunk rest m f = if-ne (star && is_nil chunk) (cc) (
    after_chunk fuel next rest
      (after_star star chunk rest name (match_chunk (suc (length chunk)) chunk name false))
      (after_star_ends star chunk rest name _
        (match_chunk_ends (suc (length chunk)) chunk name false (omega arith)))
      m f)

match_from_ends :
    (fuel : ℕ) (pattern name : Bytes)
    → length pattern < fuel
    → match_from fuel pattern name ≢ MatchResult.out_of_fuel
unfolding match_from
match_from_ends zero pattern name h = absurd (omega arith)
match_from_ends (suc fuel) [] name h = cc
match_from_ends (suc fuel) (b ∷ bs) name h =
    let (star, chunk, rest) = scan_chunk (b ∷ bs) in
    let shorter = scan_chunk_rest b bs in
    round_ends (suc fuel) (match_from fuel) name star chunk rest
      (λ t. match_from_ends fuel rest t (omega arith)) (omega arith)

-- filepath.Match as it is modelled stops with an answer or an error, whatever the pattern and the
-- name: the fuel of one more than the pattern's bytes is not used up.
pub match_ends : (pattern name : String) → match pattern name ≢ MatchResult.out_of_fuel
unfolding match
match_ends pattern name =
    match_from_ends (suc (length (utf8 pattern))) (utf8 pattern) (utf8 name) (omega arith)
