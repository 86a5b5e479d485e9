-- ===== src/State/SummaryInput.antt =====
-- buildSummaryRequestInput: what the summary model is sent.
use cpa_codex_compact_bridge.Common.{
  ◌≡◌, refl, false, List, [], ◌∷◌, map, any, All, keep_if, not, arith, ap, ◌∙◌, sym, Bool-cases,
  inl, inr, Bool,
}
use cpa_codex_compact_bridge.Errors.{ok, Result-cases}
use cpa_codex_compact_bridge.Go.Json.{Json, compact}
use cpa_codex_compact_bridge.Items.{
  InputItem, parse_input_item, parse_input_items, is_compaction_trigger, compact_to_user_message,
  has_compaction_items,
}
use cpa_codex_compact_bridge.State.{
  may_forward_opaque_state, bridge, is_restorable, rewrite_items, check_compaction_items,
  rewrite_compaction_items, without_triggers, build_summary_request_input,
}
use cpa_codex_compact_bridge.Go.Struct.{string_field}
use cpa_codex_compact_bridge.State.Restore.{
  field-compact, raw-parse_input_item, reread_item_kept, restore, rewrite_items-restore, reread,
  reread_item, parse-restore, has_compaction_items-reread,
}

-- The items are those of their texts.
abbrev pub IsRead : List InputItem → Type 0
IsRead = All (λ item. item ≡ parse_input_item item.raw)

abbrev raws_of : List InputItem → List Json
raws_of items = map (λ item. item.raw) items

without_triggers-IsRead : (items : List InputItem) → IsRead items → IsRead (without_triggers items)
unfolding without_triggers
without_triggers-IsRead [] h = tt
without_triggers-IsRead (item ∷ items) (r, rs) = elim (Bool-cases (is_compaction_trigger item)) [
  | inl t ↦ rw t (without_triggers-IsRead items rs)
  | inr f ↦ rw f (r, without_triggers-IsRead items rs)
]

any-without_triggers :
    (items : List InputItem) → any is_compaction_trigger (without_triggers items) ≡ false
unfolding without_triggers
any-without_triggers [] = refl
any-without_triggers (item ∷ items) = ground (arith, any-without_triggers items)

parse-raws_of : (items : List InputItem) → IsRead items → parse_input_items (raws_of items) ≡ items
unfolding parse_input_items
parse-raws_of [] h = refl
parse-raws_of (item ∷ items) (r, rs) = cc (sym r, parse-raws_of items rs)

-- A restored summary is no trigger, and a trigger that is written again stays one.
restored_message :
    (item : InputItem)
    → is_compaction_trigger (parse_input_item (compact (compact_to_user_message item))) ≡ false
unfolding is_compaction_trigger parse_input_item compact compact_to_user_message string_field
restored_message item = refl

trigger-compact :
    (v : Json)
    → is_compaction_trigger (parse_input_item (compact v))
      ≡ is_compaction_trigger (parse_input_item v)
unfolding is_compaction_trigger parse_input_item
trigger-compact v = rw (field-compact "type" v)

trigger-reread_item :
    (v : Json)
    → is_compaction_trigger (parse_input_item v) ≡ false
    → is_compaction_trigger (reread_item v) ≡ false
unfolding restore
trigger-reread_item v h = elim (Bool-cases (is_restorable (parse_input_item v))) [
  | inl restored ↦ rw (restored) (restored_message (parse_input_item v))
  | inr kept ↦ ap is_compaction_trigger (reread_item_kept v kept) ∙ trigger-compact v ∙ h
]

any-reread :
    (raws : List Json)
    → any is_compaction_trigger (parse_input_items raws) ≡ false
    → any is_compaction_trigger (reread raws) ≡ false
unfolding reread parse_input_items
any-reread [] h = refl
any-reread (v ∷ raws) h =
    let first : is_compaction_trigger (parse_input_item v) ≡ false = ground (arith, h) in
    let rest : any is_compaction_trigger (parse_input_items raws) ≡ false = ground (arith, h) in
    rw (trigger-reread_item v first) (any-reread raws rest)

-- What an accepted summary input is.
built :
    (items : List InputItem) (out : List Json)
    → build_summary_request_input items ≡ ok out
    → (check_compaction_items (without_triggers items) bridge ≡ ok tt)
      × (out ≡ (rewrite_items (without_triggers items)).0)
unfolding build_summary_request_input rewrite_compaction_items
built items out e = elim (Result-cases (check_compaction_items (without_triggers items) bridge)) [
  | inl (tt, accepted) ↦ (accepted, ground arith)
  | inr (x, failed) ↦ absurd (ground arith)
]

-- An item that is no trigger.
abbrev pub stays : InputItem → Bool
stays item = not (is_compaction_trigger item)

without_triggers_lem : (items : List InputItem) → without_triggers items ≡ keep_if stays items
unfolding without_triggers
without_triggers_lem [] = refl
without_triggers_lem (item ∷ items) = elim (Bool-cases (is_compaction_trigger item)) [
  | inl t ↦ rw t (without_triggers_lem items)
  | inr f ↦ rw f (ap (λ rest. item ∷ rest) (without_triggers_lem items))
]

strict : may_forward_opaque_state bridge ≡ false
unfolding may_forward_opaque_state
strict = refl

-- Where buildSummaryRequestInput accepts items that were read from a request, its result is every item
-- that is no trigger, in the order of the items and each in its restored form, and none of it, as
-- json.Marshal writes it, is a compaction item or a trigger.
pub build_summary_request_input_clean :
    (items : List InputItem) (out : List Json)
    → IsRead items
    → build_summary_request_input items ≡ ok out
    → (out ≡ map restore (keep_if stays items))
      × (has_compaction_items (parse_input_items (map compact out)) ≡ false)
      × (any is_compaction_trigger (parse_input_items (map compact out)) ≡ false)
build_summary_request_input_clean items out read e =
    let (accepted, written) = built items out e in
    let kept = raws_of (without_triggers items) in
    let same : parse_input_items kept ≡ without_triggers items =
      parse-raws_of (without_triggers items) (without_triggers-IsRead items read) in
    let outcome : out ≡ map restore (without_triggers items) =
      written ∙ rewrite_items-restore (without_triggers items) in
    let again : parse_input_items (map compact out) ≡ reread kept =
      ap (λ o. parse_input_items (map compact o)) (outcome ∙ ap (map restore) (sym same))
      ∙ parse-restore kept in
    (
      outcome ∙ ap (map restore) (without_triggers_lem items),
      ap has_compaction_items again
          ∙ has_compaction_items-reread kept bridge
              (ap (λ i. check_compaction_items i bridge) same ∙ accepted) strict,
      ap (any is_compaction_trigger) again
          ∙ any-reread kept (ap (any is_compaction_trigger) same ∙ any-without_triggers items),
    )

-- The items of a request are read.
pub parse_input_items-IsRead : (raws : List Json) → IsRead (parse_input_items raws)
unfolding parse_input_items
parse_input_items-IsRead [] = tt
parse_input_items-IsRead (v ∷ raws) =
    (ap parse_input_item (sym (raw-parse_input_item v)), parse_input_items-IsRead raws)
