-- ===== src/Go/Glob/Utf8.antt =====
-- The bytes of a text, and utf8.DecodeRuneInString on them.
use Prim.Native.Char.{code}
use cpa_codex_compact_bridge.Common.{
  ℕ, ◌+◌, ◌-◌, ◌*◌, ◌/◌, ◌%◌, String, Bool, ◌&&◌, List, [], ◌∷◌, ◌++◌, eqb, leb, ltb, if◌then◌else◌,
}

unfoldable pub encode_rune : ℕ → List ℕ
encode_rune c =
    if ltb c 0x80
    then c ∷ []
    else if ltb c 0x800
    then (0xc0 + c / 64) ∷ (0x80 + c % 64) ∷ []
    else if ltb c 0x10000
    then (0xe0 + c / 4096) ∷ (0x80 + c / 64 % 64) ∷ (0x80 + c % 64) ∷ []
    else (0xf0 + c / 262144) ∷ (0x80 + c / 4096 % 64) ∷ (0x80 + c / 64 % 64) ∷ (0x80 + c % 64) ∷ []

-- The bytes of a Go string.
unfoldable pub utf8 : String → List ℕ
unfolding encode_rune
utf8 String.[] = []
utf8 (String.◌∷◌ c s) = encode_rune (code c) ++ utf8 s

abbrev pub rune_error : ℕ
rune_error = 0xfffd

abbrev between : ℕ → ℕ → ℕ → Bool
between lo hi b = leb lo b && leb b hi

unfoldable pub two_bytes : ℕ → List ℕ → ℕ × ℕ
two_bytes a (b ∷ _) =
    if between 0x80 0xbf b then ((a - 0xc0) * 64 + (b - 0x80), 2) else (rune_error, 1)
two_bytes a [] = (rune_error, 1)

unfoldable pub three_bytes : ℕ → List ℕ → ℕ × ℕ
three_bytes a (b ∷ c ∷ _) =
    if between (if eqb a 0xe0 then 0xa0 else 0x80) (if eqb a 0xed then 0x9f else 0xbf) b
      && between 0x80 0xbf c
    then ((a - 0xe0) * 4096 + (b - 0x80) * 64 + (c - 0x80), 3)
    else (rune_error, 1)
three_bytes a _ = (rune_error, 1)

unfoldable pub four_bytes : ℕ → List ℕ → ℕ × ℕ
four_bytes a (b ∷ c ∷ d ∷ _) =
    if between (if eqb a 0xf0 then 0x90 else 0x80) (if eqb a 0xf4 then 0x8f else 0xbf) b
      && between 0x80 0xbf c
      && between 0x80 0xbf d
    then ((a - 0xf0) * 262144 + (b - 0x80) * 4096 + (c - 0x80) * 64 + (d - 0x80), 4)
    else (rune_error, 1)
four_bytes a _ = (rune_error, 1)

-- The rune at the front and its width.
unfoldable pub decode_rune : List ℕ → ℕ × ℕ
unfolding two_bytes three_bytes four_bytes
decode_rune [] = (rune_error, 0)
decode_rune (a ∷ bs) =
    if ltb a 0x80
    then (a, 1)
    else if between 0xc2 0xdf a
    then two_bytes a bs
    else if between 0xe0 0xef a
    then three_bytes a bs
    else if between 0xf0 0xf4 a
    then four_bytes a bs
    else (rune_error, 1)
