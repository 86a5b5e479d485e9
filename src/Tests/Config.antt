-- ===== src/Tests/Config.antt =====
-- Routing and validation at concrete configurations.
use cpa_codex_compact_bridge.Go.Strings.{trim_space}
use cpa_codex_compact_bridge.Common.{String, ◌≡◌, ◌≢◌, ◌↔◌, refl, false, [], ◌∷◌, arith, eq_iff}
use cpa_codex_compact_bridge.Errors.{ok, wrap}
use cpa_codex_compact_bridge.Config.{
  Rule, Config, Yaml, default_config, fill_defaults, load_config, decide_route, glob_match,
  compaction_target_for, validate, check_tokens, check_bytes, check_image_models, check_rules,
  check_rule,
}
use cpa_codex_compact_bridge.Config.Validation.{IsValid, load_config_iff, load_config-IsValid}
use cpa_codex_compact_bridge.Config.Route.{
  FirstMatch, first, route_of, compaction_target_for-decide_route,
}
use cpa_codex_compact_bridge.Go.Glob.{match}
use cpa_codex_compact_bridge.Tests.Samples.{bridge_rule, bridging}

abbrev direct_rule : Rule
direct_rule = record { match = "claude-*"; action = "passthrough"; summary_model = "" }

abbrev two_rules : Config
two_rules = record default_config { rules = direct_rule ∷ bridge_rule ∷ [] }

second_matches : FirstMatch "gpt-5" (direct_rule ∷ bridge_rule ∷ [])
unfolding glob_match match
second_matches = first (direct_rule ∷ []) bridge_rule [] refl refl refl

compaction_target_for-decide_route_example :
    compaction_target_for (decide_route two_rules "gpt-5") ≡ route_of second_matches
compaction_target_for-decide_route_example =
    compaction_target_for-decide_route two_rules "gpt-5" second_matches

-- A decoder that reads every text as the configuration of one rule.
abbrev pub yaml : Yaml
yaml = record {
  unmarshal_config = λ raw cfg. ok bridging;
  unmarshal_prompt_presence = λ raw. ok false;
}

abbrev pub raw_config : String
raw_config = "rules: [{match: gpt-*, action: bridge}]"

some_raw : raw_config ≢ ""
some_raw = ground (arith, eq_iff raw_config "")

load_config_iff_example : (load_config yaml raw_config ≡ ok (fill_defaults false bridging)) ↔ (
    IsValid (fill_defaults false bridging)
    × (fill_defaults false bridging ≡ fill_defaults false bridging))
load_config_iff_example =
    load_config_iff yaml raw_config bridging false (fill_defaults false bridging) some_raw refl refl

pub loads : load_config yaml raw_config ≡ ok bridging
unfolding load_config wrap validate check_tokens fill_defaults check_bytes check_image_models
    check_rules check_rule trim_space
loads = refl

load_config-IsValid_example : IsValid bridging × (bridging.on_no_match ≢ "")
load_config-IsValid_example = load_config-IsValid yaml raw_config bridging loads
