-- ===== src/Config/Patterns.antt =====
-- globMatch on the patterns of the documentation: a model's name, and a beginning with a star.
use Prim.Native.String
use Prim.Native.String.{count}
use text.Mathlib.TextLemmas.{length-append}
use cpa_codex_compact_bridge.Common.{
  ◌+◌, refl, sym, String, ◌≡◌, ◌≢◌, eq_iff, arith, ap, ◌∙◌, Bool, false, ◌⊎◌, inl, inr,
}
use cpa_codex_compact_bridge.Go.Glob.{match, MatchResult, verdict, err_bad_pattern}
use cpa_codex_compact_bridge.Go.Glob.Fuel.{match_ends}
use cpa_codex_compact_bridge.Go.Glob.Utf8.{utf8}
use cpa_codex_compact_bridge.Go.Glob.Literal.{
  IsLiteral, after_prefix, is_empty_rest, has_no_separator, match-IsLiteral, match_star,
}
use cpa_codex_compact_bridge.Config.{glob_match}

-- A literal pattern matches the name of the same bytes, and no other.
pub glob_match-IsLiteral :
    (pattern name : String)
    → pattern ≢ ""
    → IsLiteral pattern
    → glob_match pattern name ≡ is_empty_rest (after_prefix (utf8 pattern) (utf8 name))
unfolding glob_match
glob_match-IsLiteral pattern name some' h =
    ground (arith, eq_iff pattern "", match-IsLiteral pattern name h)

star_ne_empty : (prefix : String) → String.◌++◌ prefix "*" ≢ ""
star_ne_empty prefix e =
    let counted : count prefix + 1 ≡ 0 = sym (length-append prefix "*") ∙ ap count e in
    absurd (omega (arith, counted))

-- A literal with a star at its end matches the names that begin with it and hold no `/` after it.
pub glob_match_star :
    (prefix name : String)
    → IsLiteral prefix
    → glob_match (String.◌++◌ prefix "*") name
      ≡ has_no_separator (after_prefix (utf8 prefix) (utf8 name))
unfolding glob_match
glob_match_star prefix name h =
    ground
      (arith, eq_iff (String.◌++◌ prefix "*") "", star_ne_empty prefix, match_star prefix name h)

-- What a result of the matcher makes of globMatch.
outcome :
    (pattern name : String) (r : MatchResult)
    → match pattern name ≡ r
    → r ≢ MatchResult.out_of_fuel
    → pattern ≢ ""
    → ((b : Bool) × (match pattern name ≡ verdict b) × (glob_match pattern name ≡ b))
      ⊎ ((match pattern name ≡ err_bad_pattern) × (glob_match pattern name ≡ false))
unfolding glob_match
outcome pattern name (verdict b) e ended some' =
    inl (b, e, ground (arith, e, eq_iff pattern "", some'))
outcome pattern name err_bad_pattern e ended some' =
    inr (e, ground (arith, e, eq_iff pattern "", some'))
outcome pattern name MatchResult.out_of_fuel e ended some' = absurd (ended refl)

-- For every pattern that is not empty, and every name, the matcher of globMatch ends within its fuel, with
-- a verdict that globMatch returns or with the error of a malformed pattern, at which it returns false.
pub glob_match_ends :
    (pattern name : String)
    → pattern ≢ ""
    → ((b : Bool) × (match pattern name ≡ verdict b) × (glob_match pattern name ≡ b))
      ⊎ ((match pattern name ≡ err_bad_pattern) × (glob_match pattern name ≡ false))
glob_match_ends pattern name some' =
    outcome pattern name (match pattern name) refl (match_ends pattern name) some'
