-- ===== src/Go/Glob/Shorter.antt =====
-- What the steps of the matcher leave of a pattern: they read at least a byte, and a chunk's fuel is enough.
use cpa_codex_compact_bridge.Common.{
  ℕ, zero, suc, ◌≤◌, ◌<◌, ◌≡◌, ◌≢◌, Bool, true, false, ◌&&◌, ◌||◌, not, List, [], ◌∷◌, some, arith,
  eqb, leb, length, drop, if◌then◌else◌, Bool-cases, Option-cases, inl, inr,
}
use cpa_codex_compact_bridge.Go.Glob.{
  Bytes, is_nil, begins, rune_of, get_esc, get_range, ClassResult, closed, bad_class, class_ranges,
  ChunkResult, bad_chunk, match_chunk,
}
use cpa_codex_compact_bridge.Go.Glob.Utf8.{decode_rune, two_bytes, three_bytes, four_bytes}

two_bytes_width : (a : ℕ) (bs : Bytes) → 0 < (two_bytes a bs).1
unfolding two_bytes
two_bytes_width a [] = omega arith
two_bytes_width a (b ∷ bs) = ground arith

three_bytes_width : (a : ℕ) (bs : Bytes) → 0 < (three_bytes a bs).1
unfolding three_bytes
three_bytes_width a [] = omega arith
three_bytes_width a (b ∷ []) = omega arith
three_bytes_width a (b ∷ c ∷ bs) = ground arith

four_bytes_width : (a : ℕ) (bs : Bytes) → 0 < (four_bytes a bs).1
unfolding four_bytes
four_bytes_width a [] = omega arith
four_bytes_width a (b ∷ []) = omega arith
four_bytes_width a (b ∷ c ∷ []) = omega arith
four_bytes_width a (b ∷ c ∷ d ∷ bs) = ground arith

-- A rune has a byte.
decode_rune_width : (a : ℕ) (bs : Bytes) → 0 < (decode_rune (a ∷ bs)).1
unfolding decode_rune
decode_rune_width a bs =
    ground (arith, two_bytes_width a bs, three_bytes_width a bs, four_bytes_width a bs)

length-drop {ℓ} : {A : Type ℓ} (n : ℕ) (xs : List A) → length (drop n xs) ≤ length xs
length-drop zero xs = omega arith
length-drop (suc n) [] = omega arith
length-drop (suc n) (x ∷ xs) = omega (arith, length-drop n xs)

length-drop_lt {ℓ} :
    {A : Type ℓ} (n : ℕ) (x : A) (xs : List A) → 0 < n → length (drop n (x ∷ xs)) ≤ length xs
length-drop_lt zero x xs h = absurd (omega arith)
length-drop_lt (suc n) x xs h = length-drop n xs

rune_of_shorter :
    (chunk : Bytes) (r : ℕ) (rest : Bytes)
    → rune_of chunk ≡ some (r, rest)
    → length rest < length chunk
unfolding rune_of
rune_of_shorter [] r rest h = unfold decode_rune in ground (arith, h)
rune_of_shorter (a ∷ bs) r rest h =
    ground (arith, h, decode_rune_width a bs, length-drop_lt (decode_rune (a ∷ bs)).1 a bs)

get_esc_shorter :
    (chunk : Bytes) (r : ℕ) (rest : Bytes)
    → get_esc chunk ≡ some (r, rest)
    → length rest < length chunk
unfolding get_esc
get_esc_shorter [] r rest h = ground (arith, h)
get_esc_shorter (b ∷ bs) r rest h =
    ground (arith, h, rune_of_shorter bs r rest, rune_of_shorter (b ∷ bs) r rest)

get_range_shorter :
    (chunk : Bytes) (lo hi : ℕ) (rest : Bytes)
    → get_range chunk ≡ some (lo, hi, rest)
    → length rest < length chunk
unfolding get_range
get_range_shorter chunk lo hi rest h = elim (Option-cases (get_esc chunk)) [
  | inl p ↦ absurd (ground (arith, h, p))
  | inr ((c, after), p) ↦
      let first = get_esc_shorter chunk c after p in
      let dash = length-drop 1 after in
      elim (Option-cases (get_esc (drop 1 after))) [
        | inl q ↦ ground (arith, h, p, q, first)
        | inr ((d, after'), q) ↦
            ground (arith, h, p, q, first, dash, get_esc_shorter (drop 1 after) d after' q)
      ]
]

-- A class ends, and what follows it is no longer than its text.
abbrev ClassEnds : ℕ → ClassResult → Type 0
ClassEnds n (closed found rest) = length rest ≤ n
ClassEnds n bad_class = Unit
ClassEnds n ClassResult.out_of_fuel = ⊥

ClassEnds-mono : (m n : ℕ) (r : ClassResult) → m ≤ n → ClassEnds m r → ClassEnds n r
ClassEnds-mono m n (closed found rest) h e = omega arith
ClassEnds-mono m n bad_class h e = tt
ClassEnds-mono m n ClassResult.out_of_fuel h e = absurd e

class_ranges-ClassEnds :
    (fuel : ℕ) (chunk : Bytes) (r : ℕ) (found some_range : Bool)
    → length chunk < fuel
    → ClassEnds (length chunk) (class_ranges fuel chunk r found some_range)
unfolding class_ranges
class_ranges-ClassEnds zero chunk r found some_range h = absurd (omega arith)
class_ranges-ClassEnds (suc fuel) chunk r found some_range h =
    elim (Bool-cases (begins b']' chunk && some_range)) [
      | inl p ↦ rw p (length-drop 1 chunk)
      | inr p ↦ elim (Option-cases (get_range chunk)) [
        | inl q ↦ rw (p, q, class_ranges) tt
        | inr ((lo, hi, rest), q) ↦
            let shorter = get_range_shorter chunk lo hi rest q in
            rw (p, q, class_ranges)
              (ClassEnds-mono (length rest) (length chunk) _ (omega arith) (
                class_ranges-ClassEnds fuel rest r (found || leb lo r && leb r hi) true
                  (omega arith)))
      ]
    ]

pub if-ne {ℓ} : {A : Type ℓ} {x y z : A} (b : Bool) → x ≢ z → y ≢ z → (if b then x else y) ≢ z
if-ne true p q = p
if-ne false p q = q

after_class :
    (n : ℕ) (r : ClassResult) (next : Bool → Bytes → ChunkResult)
    → ClassEnds n r
    → ((found : Bool) (rest : Bytes) → length rest ≤ n → next found rest ≢ ChunkResult.out_of_fuel)
    → (elim r [
      | closed found rest ↦ next found rest
      | bad_class ↦ bad_chunk
      | ClassResult.out_of_fuel ↦ ChunkResult.out_of_fuel
    ])
      ≢ ChunkResult.out_of_fuel
after_class n (closed found rest) next e k = k found rest e
after_class n bad_class next e k = cc
after_class n ClassResult.out_of_fuel next e k = absurd e

after_escape :
    (chunk : Bytes) (next : ℕ → Bytes → ChunkResult)
    → ((c : ℕ) (rest : Bytes) → length rest < length chunk → next c rest ≢ ChunkResult.out_of_fuel)
    → (elim chunk [ [] ↦ bad_chunk | c ∷ rest ↦ next c rest ]) ≢ ChunkResult.out_of_fuel
after_escape [] next k = cc
after_escape (c ∷ rest) next k = k c rest (omega arith)

-- With more fuel than bytes, a chunk's match ends.
pub match_chunk_ends :
    (fuel : ℕ) (chunk s : Bytes) (failed : Bool)
    → length chunk < fuel
    → match_chunk fuel chunk s failed ≢ ChunkResult.out_of_fuel
unfolding match_chunk
match_chunk_ends zero chunk s failed h = absurd (omega arith)
match_chunk_ends (suc fuel) [] s true h = cc
match_chunk_ends (suc fuel) [] s false h = cc
match_chunk_ends (suc fuel) (b ∷ chunk) s failed h =
    let failed' = failed || is_nil s in
    let negated = begins b'^' chunk in
    let body = if negated then drop 1 chunk else chunk in
    let within : length body ≤ length chunk = ground (arith, length-drop 1 chunk) in
    if-ne (eqb b b'[')
      (after_class (length body)
        (class_ranges fuel body (if failed' then 0 else (decode_rune s).0) false false)
        (λ found rest.
          match_chunk fuel rest (if failed' then s else drop (decode_rune s).1 s)
            (failed' || (if negated then found else not found)))
        (class_ranges-ClassEnds fuel body _ false false (omega arith))
        (λ found rest e. match_chunk_ends fuel rest _ _ (omega arith)))
      (if-ne (eqb b b'?') (match_chunk_ends fuel chunk _ _ (omega arith)) (
        if-ne (eqb b b'\\')
          (after_escape chunk
            (λ c rest.
              match_chunk fuel rest (if failed' then s else drop 1 s) (failed' || not (begins c s)))
            (λ c rest e. match_chunk_ends fuel rest _ _ (omega arith)))
          (match_chunk_ends fuel chunk _ _ (omega arith))))
