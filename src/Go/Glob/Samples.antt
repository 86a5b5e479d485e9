-- ===== src/Go/Glob/Samples.antt =====
-- Runs of filepath.Match on the patterns of the documentation.
use cpa_codex_compact_bridge.Common.{◌≡◌, refl, true, false}
use cpa_codex_compact_bridge.Go.Glob.{match, verdict, err_bad_pattern}

plain : match "glm-*" "glm-5.2" ≡ verdict true
unfolding match
plain = refl

other_model : match "glm-*" "gpt-5" ≡ verdict false
unfolding match
other_model = refl

no_separator : match "openai/*" "openai/a/b" ≡ verdict false
unfolding match
no_separator = refl

class_match : match "gpt-[4-6]*-min?" "gpt-5.1-mini" ≡ verdict true
unfolding match
class_match = refl

negated_class : match "[^a]\\*b*" "x*bc" ≡ verdict true
unfolding match
negated_class = refl

open_class : match "gpt-[" "gpt-5" ≡ err_bad_pattern
unfolding match
open_class = refl

late_error : match "a*[" "zzz" ≡ err_bad_pattern
unfolding match
late_error = refl

two_stars : match "*a*b" "xaybzb" ≡ verdict true
unfolding match
two_stars = refl

-- A star may end inside a rune, as in Go.
inside_a_rune : match "*[^é]" "é" ≡ verdict true
unfolding match
inside_a_rune = refl
