-- ===== src/Tests/Patterns.antt =====
-- globMatch at concrete patterns and names.
use cpa_codex_compact_bridge.Common.{◌≡◌, ◌≢◌, ◌⊎◌, Bool, false, String, arith, eq_iff, refl}
use cpa_codex_compact_bridge.Go.Glob.{match, verdict, err_bad_pattern}
use cpa_codex_compact_bridge.Go.Glob.Utf8.{utf8}
use cpa_codex_compact_bridge.Go.Glob.Literal.{IsLiteral, after_prefix, has_no_separator}
use cpa_codex_compact_bridge.Config.{glob_match}
use cpa_codex_compact_bridge.Config.Patterns.{glob_match_ends, glob_match_star}

abbrev pattern : String
pattern = "gpt-[a-z]*"

some_pattern : pattern ≢ ""
some_pattern = ground (arith, eq_iff pattern "")

glob_match_ends_example :
    ((b : Bool) × (match pattern "gpt-x" ≡ verdict b) × (glob_match pattern "gpt-x" ≡ b))
    ⊎ ((match pattern "gpt-x" ≡ err_bad_pattern) × (glob_match pattern "gpt-x" ≡ false))
glob_match_ends_example = glob_match_ends pattern "gpt-x" some_pattern

literal : IsLiteral "gpt-"
unfolding utf8
literal = (refl, (refl, (refl, (refl, tt))))

glob_match_star_example :
    glob_match "gpt-*" "gpt-5" ≡ has_no_separator (after_prefix (utf8 "gpt-") (utf8 "gpt-5"))
glob_match_star_example = glob_match_star "gpt-" "gpt-5" literal
