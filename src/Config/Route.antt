-- ===== src/Config/Route.antt =====
-- decideRoute and compactionTargetFor: the first rule that matches decides.
use cpa_codex_compact_bridge.Common.{
  String, ◌≡◌, refl, true, false, List, [], ◌∷◌, ◌++◌, any, arith, if◌then◌else◌, Bool-cases, inl,
  inr, ◌==◌, ap, ◌∙◌,
}
use cpa_codex_compact_bridge.State.{
  CompactTarget, explicit_passthrough, unmatched_passthrough, bridge,
}
use cpa_codex_compact_bridge.Config.{
  Rule, Config, decide_rules, decide_route, decision_of, no_decision, glob_match,
  compaction_target_for,
}

-- The rules in front of the first that matches, that rule, and the others; or no rule matches.
pub data FirstMatch (model : String) : List Rule → Type 0 where
  first :
      (before : List Rule) (rule : Rule) (after : List Rule) {rules : List Rule}
      → any (λ r. glob_match r.match model) before ≡ false
      → glob_match rule.match model ≡ true
      → rules ≡ before ++ rule ∷ after
      → FirstMatch model rules
  none_matches :
      {rules : List Rule}
      → any (λ r. glob_match r.match model) rules ≡ false
      → FirstMatch model rules

-- The route that the administrator's rule declares.
pub route_of : {model : String} {rules : List Rule} → FirstMatch model rules → CompactTarget
route_of (first before rule after _ _ _) =
    if rule.action == "bridge" then bridge else explicit_passthrough
route_of (none_matches _) = unmatched_passthrough

-- There always is such a split of the rules.
pub first_match : (model : String) (rules : List Rule) → FirstMatch model rules
first_match model [] = none_matches refl
first_match model (rule ∷ rules) = elim (Bool-cases (glob_match rule.match model)) [
  | inl matches ↦ first [] rule rules refl matches refl
  | inr misses ↦ later (first_match model rules) misses
]
  where
    later :
        FirstMatch model rules
        → glob_match rule.match model ≡ false
        → FirstMatch model (rule ∷ rules)
    later (first before r after none' matches same) misses =
        first (rule ∷ before) r after (rw misses none') matches (ap (λ rs. rule ∷ rs) same)
    later (none_matches none') misses = none_matches (rw misses none')

decide_rules-append :
    (model : String) (before : List Rule) (rule : Rule) (after : List Rule)
    → any (λ r. glob_match r.match model) before ≡ false
    → glob_match rule.match model ≡ true
    → decide_rules (before ++ rule ∷ after) model ≡ decision_of rule
unfolding decide_rules
decide_rules-append model [] rule after h m = rw m
decide_rules-append model (r ∷ before) rule after h m =
    ground (arith, decide_rules-append model before rule after)

decide_rules_none :
    (model : String) (rules : List Rule)
    → any (λ r. glob_match r.match model) rules ≡ false
    → decide_rules rules model ≡ no_decision
unfolding decide_rules
decide_rules_none model [] h = refl
decide_rules_none model (r ∷ rules) h = ground (arith, decide_rules_none model rules)

target_of_decision :
    (rule : Rule)
    → compaction_target_for (decision_of rule)
      ≡ (if rule.action == "bridge" then bridge else explicit_passthrough)
unfolding compaction_target_for decision_of
target_of_decision rule = ground arith

-- The target of the state policy is the one that the first matching rule declares: `bridge` for the
-- action bridge, explicit passthrough for any other, and unmatched where no rule matches.
pub compaction_target_for-decide_route :
    (cfg : Config) (model : String) (m : FirstMatch model cfg.rules)
    → compaction_target_for (decide_route cfg model) ≡ route_of m
unfolding route_of decide_route
compaction_target_for-decide_route cfg model (first before rule after none' matches same) =
    ap (λ rules. compaction_target_for (decide_rules rules model)) same
    ∙ rw (decide_rules-append model before rule after none' matches) (target_of_decision rule)
compaction_target_for-decide_route cfg model (none_matches none') =
    rw (decide_rules_none model cfg.rules none') (unfold compaction_target_for in refl)
