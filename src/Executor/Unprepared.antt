-- ===== src/Executor/Unprepared.antt =====
-- Items that the policy refuses for the bridge, and the summary request that is not made of them.
use cpa_codex_compact_bridge.Common.{
  String, ◌≡◌, refl, inl, inr, true, false, List, [], ◌∷◌, some, ◌==◌, eq_iff, ap, ◌∙◌, Bool-cases,
}
use cpa_codex_compact_bridge.Errors.{err}
use cpa_codex_compact_bridge.Items.{
  InputItem, detect_v2_trigger, drop_last, remove_last_compaction_trigger, is_compaction_trigger,
  is_compaction_item_any,
}
use cpa_codex_compact_bridge.State.{
  CompactTarget, bridge, Counts, count_items, check_compaction_items, without_triggers,
  rewrite_compaction_items, build_summary_request_input, invalid_compaction_state_error,
}
use cpa_codex_compact_bridge.Config.{Config}
use cpa_codex_compact_bridge.Executor.{ExecutorRequest, prepare_summary}

-- A trigger is no compaction item.
trigger-item :
    (item : InputItem) → is_compaction_trigger item ≡ true → is_compaction_item_any item ≡ false
unfolding is_compaction_trigger is_compaction_item_any
trigger-item item h = ap (λ t. t == "compaction") ((eq_iff item.type "compaction_trigger").0 h)

count_items-without_triggers :
    (items : List InputItem) (c : Counts)
    → count_items c (without_triggers items) ≡ count_items c items
unfolding count_items without_triggers
count_items-without_triggers [] c = refl
count_items-without_triggers (item ∷ items) c = elim (Bool-cases (is_compaction_trigger item)) [
  | inl p ↦ rw (p, trigger-item item p) (count_items-without_triggers items c)
  | inr p ↦ rw p (count_items-without_triggers items _)
]

count_items-drop_last :
    (items : List InputItem) (c : Counts)
    → detect_v2_trigger items ≡ true
    → count_items c (drop_last items) ≡ count_items c items
unfolding count_items detect_v2_trigger
count_items-drop_last [] c h = refl
count_items-drop_last (item ∷ []) c h = rw (trigger-item item h) refl
count_items-drop_last (item ∷ next ∷ items) c h = count_items-drop_last (next ∷ items) _ h

count_items-remove_last :
    (items : List InputItem) (c : Counts)
    → count_items c (remove_last_compaction_trigger items) ≡ count_items c items
unfolding remove_last_compaction_trigger
count_items-remove_last items c = elim (Bool-cases (detect_v2_trigger items)) [
  | inl p ↦ rw p (count_items-drop_last items c p)
  | inr p ↦ rw p refl
]

-- The triggers that a summary request drops do not change what the policy says.
pub check_compaction_items-without_triggers :
    (items : List InputItem) (target : CompactTarget)
    → check_compaction_items (without_triggers (remove_last_compaction_trigger items)) target
      ≡ check_compaction_items items target
unfolding check_compaction_items
check_compaction_items-without_triggers items target =
    rw
      (
        count_items-without_triggers (remove_last_compaction_trigger items) _,
        count_items-remove_last items _,
      )
      refl

build_summary_request_input_invalid :
    (items : List InputItem) (message : String)
    → check_compaction_items items bridge ≡ err (invalid_compaction_state_error message)
    → build_summary_request_input (remove_last_compaction_trigger items)
      ≡ err (invalid_compaction_state_error message)
unfolding build_summary_request_input rewrite_compaction_items
build_summary_request_input_invalid items message h =
    rw (check_compaction_items-without_triggers items bridge ∙ h) refl

-- So the request for a summary is not prepared.
pub prepare_summary_invalid :
    (cfg : Config) (req : ExecutorRequest) (model message : String) (items : List InputItem)
    → check_compaction_items items bridge ≡ err (invalid_compaction_state_error message)
    → prepare_summary cfg req model (some items) ≡ err (invalid_compaction_state_error message)
unfolding prepare_summary
prepare_summary_invalid cfg req model message items h =
    rw (build_summary_request_input_invalid items message h, prepare_summary) refl
