-- ===== src/Config.antt =====
-- plugin/config.go: the plugin's configuration, its validation, and the routing rules. The YAML
-- decoder is a third-party package, a parameter.
pub mod Patterns
pub mod Validation
pub mod Route
use Prim.Native.String
use cpa_codex_compact_bridge.Common.{
  ℕ, suc, String, Bool, true, false, ◌&&◌, ◌||◌, not, List, [], ◌∷◌, ◌==◌, if◌then◌else◌,
}
use cpa_codex_compact_bridge.Common.Int.{ℤ, pos, ltb_ℤ}
use cpa_codex_compact_bridge.Errors.{Result, ok, err, other, ◌>>=◌, ◌>>◌, wrap}
use cpa_codex_compact_bridge.Go.Strings.{is_blank, trim_space}
use cpa_codex_compact_bridge.Go.Format.{decimal, format_int, quote}
use cpa_codex_compact_bridge.Go.Glob
use cpa_codex_compact_bridge.Go.Glob.{MatchResult, verdict, err_bad_pattern}
use cpa_codex_compact_bridge.State.{
  CompactTarget, explicit_passthrough, unmatched_passthrough, bridge,
}

-- The type Action is a string of any content; two are valid.
abbrev pub action_bridge : String
action_bridge = "bridge"

abbrev pub action_passthrough : String
action_passthrough = "passthrough"

pub record Rule : Type 0 where
  pub match : String
  pub action : String
  pub summary_model : String

pub record Config : Type 0 where
  pub enabled : Bool
  pub priority : ℤ
  pub rules : List Rule
  pub on_no_match : String
  pub compact_prompt : String
  pub max_summary_tokens : ℤ
  pub max_summary_bytes : ℤ
  pub append_tool_guard : Bool
  pub forward_service_tier : Bool
  pub summary_image_models : List String
  pub compact_prompt_set : Bool

abbrev pub max_allowed_summary_tokens : ℕ
max_allowed_summary_tokens = 100000

abbrev pub default_max_summary_bytes : ℕ
default_max_summary_bytes = 1048576

abbrev pub default_config : Config
default_config = record {
  enabled = false;
  priority = pos 0;
  rules = [];
  on_no_match = action_passthrough;
  compact_prompt = "";
  max_summary_tokens = pos 0;
  max_summary_bytes = pos default_max_summary_bytes;
  append_tool_guard = true;
  forward_service_tier = false;
  summary_image_models = [];
  compact_prompt_set = false;
}

-- gopkg.in/yaml.v3, where the program calls it: a text decoded over a configuration, and whether
-- the text gives `compact_prompt` a value.
pub record Yaml : Type 0 where
  pub unmarshal_config : String → Config → Result Config
  pub unmarshal_prompt_presence : String → Result Bool

-- The text of a fmt.Errorf.
abbrev texts : List String → String
texts [] = ""
texts (s ∷ ss) = String.◌++◌ s (texts ss)

unfoldable pub check_tokens : Config → Result (Unit {0})
check_tokens cfg =
    if ltb_ℤ cfg.max_summary_tokens (pos 0)
      || ltb_ℤ (pos max_allowed_summary_tokens) cfg.max_summary_tokens
    then err (
        other (
          texts (
            "max_summary_tokens "
            ∷ format_int cfg.max_summary_tokens
            ∷ " is outside 0.."
            ∷ decimal max_allowed_summary_tokens
            ∷ [])))
    else ok tt

unfoldable pub check_bytes : Config → Result (Unit {0})
check_bytes cfg =
    if not (ltb_ℤ (pos 0) cfg.max_summary_bytes)
    then err (other "max_summary_bytes must be greater than zero")
    else ok tt

abbrev pub is_bad_pattern : MatchResult → Bool
is_bad_pattern err_bad_pattern = true
is_bad_pattern _ = false

unfoldable pub check_image_model : ℕ → String → Result (Unit {0})
check_image_model i model =
    if is_blank model
    then err (other (texts ("summary_image_models " ∷ decimal i ∷ " is empty" ∷ [])))
    else if is_bad_pattern (Glob.match model "")
    then err (
        other (
          texts
            ("summary_image_models " ∷ decimal i ∷ " has invalid match glob " ∷ quote model ∷ [])))
    else ok tt

-- The loop over cfg.SummaryImageModels, from the index i.
unfoldable pub check_image_models : ℕ → List String → Result (Unit {0})
check_image_models i [] = ok tt
check_image_models i (model ∷ models) =
    check_image_model i model >> check_image_models (suc i) models

unfoldable pub check_rule : ℕ → Rule → Result (Unit {0})
check_rule i rule =
    if not (rule.action == action_bridge || rule.action == action_passthrough)
    then err (
        other (
          texts (
            "rule "
            ∷ decimal i
            ∷ " has invalid action "
            ∷ quote rule.action
            ∷ " (want bridge or passthrough)"
            ∷ [])))
    else if is_blank rule.match
    then err (other (texts ("rule " ∷ decimal i ∷ " has empty match glob" ∷ [])))
    else ok tt

-- The loop over cfg.Rules, from the index i.
unfoldable pub check_rules : ℕ → List Rule → Result (Unit {0})
check_rules i [] = ok tt
check_rules i (rule ∷ rules) = check_rule i rule >> check_rules (suc i) rules

-- What loadConfig fills in after decoding.
unfoldable pub fill_defaults : Bool → Config → Config
fill_defaults present cfg = record cfg {
  compact_prompt_set = present;
  on_no_match = if cfg.on_no_match == "" then action_passthrough else cfg.on_no_match;
}

-- The checks of loadConfig, in their order.
unfoldable pub validate : Config → Result Config
validate cfg = do
  check_tokens cfg
  check_bytes cfg
  check_image_models 0 cfg.summary_image_models
  check_rules 0 cfg.rules
  ok cfg

unfoldable pub load_config : Yaml → String → Result Config
load_config yaml raw = if raw == "" then ok default_config else (do
  cfg ← wrap "decode plugin config" (yaml.unmarshal_config raw default_config)
  present ← wrap "decode plugin config" (yaml.unmarshal_prompt_presence raw)
  validate (fill_defaults present cfg))

pub record MatchDecision : Type 0 where
  pub handled : Bool
  pub bridged : Bool
  pub summary_model : String

abbrev pub is_match : MatchResult → Bool
is_match (verdict b) = b
is_match _ = false

unfoldable pub glob_match : String → String → Bool
glob_match pattern name = if pattern == "" then false else is_match (Glob.match pattern name)

-- The decision of the rule that matches.
unfoldable pub decision_of : Rule → MatchDecision
decision_of rule =
    if rule.action == action_bridge
    then record { handled = true; bridged = true; summary_model = trim_space rule.summary_model }
    else record { handled = true; bridged = false; summary_model = "" }

abbrev pub no_decision : MatchDecision
no_decision = record { handled = false; bridged = false; summary_model = "" }

-- The loop of decideRoute.
unfoldable pub decide_rules : List Rule → String → MatchDecision
decide_rules [] model = no_decision
decide_rules (rule ∷ rules) model =
    if glob_match rule.match model then decision_of rule else decide_rules rules model

unfoldable pub decide_route : Config → String → MatchDecision
decide_route cfg model = decide_rules cfg.rules model

unfoldable pub compaction_target_for : MatchDecision → CompactTarget
compaction_target_for decision =
    if decision.handled && decision.bridged
    then bridge
    else if decision.handled
    then explicit_passthrough
    else unmatched_passthrough
