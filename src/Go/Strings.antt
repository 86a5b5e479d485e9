-- ===== src/Go/Strings.antt =====
-- strings.TrimSpace, strings.HasPrefix and strings.HasSuffix, on texts of code points. `len` is
-- Go's `len`: the bytes of the UTF-8.
pub mod Trim
use Prim.Native.Char.{code}
use Prim.Native.String.{String, [], ◌∷◌, len, slice}
use cpa_codex_compact_bridge.Common.{ℕ, ◌-◌, Bool, ◌&&◌, ◌||◌, eqb, leb, ◌==◌, if◌then◌else◌}

-- unicode.IsSpace
unfoldable pub is_space : ℕ → Bool
is_space c =
    leb 9 c && leb c 13
    || eqb c 32
    || eqb c 0x85
    || eqb c 0xa0
    || eqb c 0x1680
    || leb 0x2000 c && leb c 0x200a
    || eqb c 0x2028
    || eqb c 0x2029
    || eqb c 0x202f
    || eqb c 0x205f
    || eqb c 0x3000

unfoldable pub trim_left : String → String
unfolding is_space
trim_left [] = []
trim_left (c ∷ s) = let rest = trim_left s in if is_space (code c) then rest else c ∷ s

unfoldable pub trim_right : String → String
unfolding is_space
trim_right [] = []
trim_right (c ∷ s) =
    let rest = trim_right s in if is_space (code c) && rest == "" then "" else c ∷ rest

-- strings.TrimSpace
unfoldable pub trim_space : String → String
unfolding trim_left trim_right
trim_space s = trim_right (trim_left s)

-- `strings.TrimSpace(s) == ""`
abbrev pub is_blank : String → Bool
is_blank s = trim_space s == ""

unfoldable pub has_prefix : String → String → Bool
has_prefix s prefix = leb (len prefix) (len s) && slice s 0 (len prefix) == prefix

unfoldable pub has_suffix : String → String → Bool
has_suffix s suffix = leb (len suffix) (len s) && slice s (len s - len suffix) (len s) == suffix
