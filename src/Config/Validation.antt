-- ===== src/Config/Validation.antt =====
-- loadConfig accepts exactly the configurations that are valid.
use cpa_codex_compact_bridge.Common.{
  ℕ, suc, String, ◌≡◌, refl, ◌≢◌, ◌⊎◌, inl, inr, Bool, List, [], ◌∷◌, ◌==◌, eq_iff, All, arith,
  subst, Bool-cases, ◌↔◌,
}
use cpa_codex_compact_bridge.Common.Int.{pos, ◌≤ℤ◌}
use cpa_codex_compact_bridge.Errors.{Result, ok, ◌>>◌, wrap, Result-cases, ok-injective}
use cpa_codex_compact_bridge.Go.Strings.{trim_space}
use cpa_codex_compact_bridge.Go.Glob
use cpa_codex_compact_bridge.Go.Glob.{err_bad_pattern}
use cpa_codex_compact_bridge.Config.{
  Rule, Config, Yaml, action_passthrough, default_config, check_tokens, check_bytes,
  check_image_model, check_image_models, check_rule, check_rules, fill_defaults, validate,
  load_config,
}

abbrev pub IsValidRule : Rule → Type 0
IsValidRule rule =
    ((rule.action ≡ "bridge") ⊎ (rule.action ≡ "passthrough")) × (trim_space rule.match ≢ "")

-- A glob of the image allowlist: not blank, and of a form that filepath.Match reads.
abbrev pub IsValidGlob : String → Type 0
IsValidGlob model = (trim_space model ≢ "") × (Glob.match model "" ≢ err_bad_pattern)

pub record IsValid (cfg : Config) : Type 0 where
  pub tokens_low : pos 0 ≤ℤ cfg.max_summary_tokens
  pub tokens_high : cfg.max_summary_tokens ≤ℤ pos 100000
  pub bytes_positive : pos 1 ≤ℤ cfg.max_summary_bytes
  pub globs : All IsValidGlob cfg.summary_image_models
  pub valid_rules : All IsValidRule cfg.rules

check_tokens_iff :
    (cfg : Config)
    → (check_tokens cfg ≡ ok tt)
      ↔ ((pos 0 ≤ℤ cfg.max_summary_tokens) × (cfg.max_summary_tokens ≤ℤ pos 100000))
unfolding check_tokens
check_tokens_iff cfg = ground arith

check_bytes_iff : (cfg : Config) → (check_bytes cfg ≡ ok tt) ↔ (pos 1 ≤ℤ cfg.max_summary_bytes)
unfolding check_bytes
check_bytes_iff cfg = ground arith

check_image_model_iff :
    (i : ℕ) (model : String) → (check_image_model i model ≡ ok tt) ↔ IsValidGlob model
unfolding check_image_model
check_image_model_iff i model = ground (arith, eq_iff (trim_space model) "")

check_rule_iff : (i : ℕ) (rule : Rule) → (check_rule i rule ≡ ok tt) ↔ IsValidRule rule
unfolding check_rule
check_rule_iff i rule = ground (
  arith,
  eq_iff (trim_space rule.match) "",
  eq_iff rule.action "bridge",
  eq_iff rule.action "passthrough",
)

>>_iff : (m n : Result (Unit {0})) → ((m >> n) ≡ ok tt) ↔ ((m ≡ ok tt) × (n ≡ ok tt))
>>_iff m n = ground arith

check_image_models_iff :
    (i : ℕ) (models : List String) → (check_image_models i models ≡ ok tt) ↔ All IsValidGlob models
unfolding check_image_models
check_image_models_iff i [] = ((λ _. tt), λ _. refl)
check_image_models_iff i (model ∷ models) =
    let split = >>_iff (check_image_model i model) (check_image_models (suc i) models) in
    let here = check_image_model_iff i model in
    let later = check_image_models_iff (suc i) models in
    (λ e. (here.0 (split.0 e).0, later.0 (split.0 e).1), λ v. split.1 (here.1 v.0, later.1 v.1))

check_rules_iff :
    (i : ℕ) (rules : List Rule) → (check_rules i rules ≡ ok tt) ↔ All IsValidRule rules
unfolding check_rules
check_rules_iff i [] = ((λ _. tt), λ _. refl)
check_rules_iff i (rule ∷ rules) =
    let split = >>_iff (check_rule i rule) (check_rules (suc i) rules) in
    let here = check_rule_iff i rule in
    let later = check_rules_iff (suc i) rules in
    (λ e. (here.0 (split.0 e).0, later.0 (split.0 e).1), λ v. split.1 (here.1 v.0, later.1 v.1))

-- A chain of checks returns its value exactly if all of them pass.
checks_lem :
    (cfg c : Config) (m n p q : Result (Unit {0}))
    → ((m >> (n >> (p >> (q >> ok cfg)))) ≡ ok c)
      ↔ ((m ≡ ok tt) × (n ≡ ok tt) × (p ≡ ok tt) × (q ≡ ok tt) × (cfg ≡ c))
checks_lem cfg c m n p q = ground arith

validate_iff : (cfg c : Config) → (validate cfg ≡ ok c) ↔ (IsValid cfg × (cfg ≡ c))
unfolding validate
validate_iff cfg c =
    let chain =
      checks_lem cfg c (check_tokens cfg) (check_bytes cfg)
        (check_image_models 0 cfg.summary_image_models) (check_rules 0 cfg.rules) in
    let tokens = check_tokens_iff cfg in
    let bytes = check_bytes_iff cfg in
    let models = check_image_models_iff 0 cfg.summary_image_models in
    let rules = check_rules_iff 0 cfg.rules in
    (
      λ e.
          let (t, b, g, r, same) = chain.0 e in
          (
            record {
              tokens_low = (tokens.0 t).0;
              tokens_high = (tokens.0 t).1;
              bytes_positive = bytes.0 b;
              globs = models.0 g;
              valid_rules = rules.0 r;
            },
            same,
          ),
      λ v. chain.1 (
        tokens.1 (v.0.tokens_low, v.0.tokens_high),
        bytes.1 v.0.bytes_positive,
        models.1 v.0.globs,
        rules.1 v.0.valid_rules,
        v.1,
      ),
    )

load_config_decoded :
    (yaml : Yaml) (raw : String) {decoded : Config} {present : Bool}
    → raw ≢ ""
    → yaml.unmarshal_config raw default_config ≡ ok decoded
    → yaml.unmarshal_prompt_presence raw ≡ ok present
    → load_config yaml raw ≡ validate (fill_defaults present decoded)
unfolding load_config wrap
load_config_decoded yaml raw some' d p = ground (arith, eq_iff raw "", d, p)

-- Where the YAML decoder returns a configuration and the presence of the prompt, loadConfig returns
-- a configuration exactly if the decoded one, with its defaults filled in, is valid, and then that
-- one.
pub load_config_iff :
    (yaml : Yaml) (raw : String) (decoded : Config) (present : Bool) (cfg : Config)
    → raw ≢ ""
    → yaml.unmarshal_config raw default_config ≡ ok decoded
    → yaml.unmarshal_prompt_presence raw ≡ ok present
    → (load_config yaml raw ≡ ok cfg)
      ↔ (IsValid (fill_defaults present decoded) × (fill_defaults present decoded ≡ cfg))
load_config_iff yaml raw decoded present cfg some' d p =
    rw (load_config_decoded yaml raw some' d p) (validate_iff (fill_defaults present decoded) cfg)

pub default_config-IsValid : IsValid default_config
default_config-IsValid = record {
  tokens_low = omega arith;
  tokens_high = omega arith;
  bytes_positive = omega arith;
  globs = tt;
  valid_rules = tt;
}

passthrough_ne_empty : action_passthrough ≢ ""
passthrough_ne_empty = ground (arith, eq_iff action_passthrough "")

fill_defaults-on_no_match :
    (present : Bool) (cfg : Config) → (fill_defaults present cfg).on_no_match ≢ ""
unfolding fill_defaults
fill_defaults-on_no_match present cfg =
    ground (arith, eq_iff cfg.on_no_match "", eq_iff action_passthrough "")

-- loadConfig returns the default configuration, or one that was decoded and then validated.
load_config_inv :
    (yaml : Yaml) (raw : String) (cfg : Config)
    → load_config yaml raw ≡ ok cfg
    → (default_config ≡ cfg)
      ⊎ ((present : Bool) × (decoded : Config) × (validate (fill_defaults present decoded)
            ≡ ok cfg))
unfolding load_config
load_config_inv yaml raw cfg e = elim (Bool-cases (raw == "")) [
  | inl empty' ↦ inl (ok-injective (rw (empty', load_config) at e))
  | inr full ↦
      elim (Result-cases (wrap "decode plugin config" (yaml.unmarshal_config raw default_config))) [
        | inr (cause, d) ↦ ground (arith, d)
        | inl (decoded, d) ↦
            elim (Result-cases (wrap "decode plugin config" (yaml.unmarshal_prompt_presence raw))) [
              | inr (cause, p) ↦ ground (arith, d, p)
              | inl (present, p) ↦ inr (present, decoded, ground (arith, d, p))
            ]
      ]
]

-- Every configuration that loadConfig returns is valid, and its `on_no_match` is not empty.
pub load_config-IsValid :
    (yaml : Yaml) (raw : String) (cfg : Config)
    → load_config yaml raw ≡ ok cfg
    → IsValid cfg × (cfg.on_no_match ≢ "")
load_config-IsValid yaml raw cfg e = elim (load_config_inv yaml raw cfg e) [
  | inl same ↦
      subst (λ c. IsValid c × (c.on_no_match ≢ "")) same
        (default_config-IsValid, passthrough_ne_empty)
  | inr (present, decoded, v) ↦
      let (valid, same) = (validate_iff (fill_defaults present decoded) cfg).0 v in
      subst (λ c. IsValid c × (c.on_no_match ≢ "")) same
        (valid, fill_defaults-on_no_match present decoded)
]
