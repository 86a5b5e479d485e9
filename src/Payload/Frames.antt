-- ===== src/Payload/Frames.antt =====
-- What a compact turn answers with, written out: the two frames of a completed V2 compaction, the frame
-- of a failed one, and the body of a V1 compaction.
use Prim.Native.String
use cpa_codex_compact_bridge.Common.{
  String, ◌≡◌, refl, Bool, false, ◌&&◌, ◌||◌, List, [], ◌∷◌, ◌++◌, map, keep_if, ap, ◌==◌,
  Bool-cases, inl, inr,
}
use cpa_codex_compact_bridge.Errors.{ok}
use cpa_codex_compact_bridge.Go.Json.{
  Json, str, arr, obj, end, field, from_list, compact, marshal_list,
}
use cpa_codex_compact_bridge.Go.Strings.{is_blank}
use cpa_codex_compact_bridge.Items.{InputItem}
use cpa_codex_compact_bridge.Payload.{
  v2_compaction_item_json, v1_compact_response_body, v2_sse_events, v2_response_failed_sse,
  retained_items, is_retained,
}
use cpa_codex_compact_bridge.Payload.RoundTrip.{compaction_item}

-- The frames `response.output_item.done`, with the compaction item, and `response.completed`.
abbrev pub completed_frames : String → String → List Json
completed_frames id summary =
    obj (
      field "item" (compaction_item id summary)
        (field "type" (str "response.output_item.done") end))
    ∷ obj (
        field "response" (obj (field "id" (str (String.◌++◌ "resp_" id)) end))
          (field "type" (str "response.completed") end))
    ∷ []

-- The frame `response.failed`.
abbrev pub failed_frames : String → List Json
failed_frames message =
    obj (
      field "response"
        (obj (
          field "error"
            (obj (field "code" (str "compact_bridge_failed") (field "message" (str message) end)))
            (field "id" (str "resp_cpa_compact_failed") end)))
        (field "type" (str "response.failed") end))
    ∷ []

-- A message of the user or the developer.
abbrev pub is_user_message : InputItem → Bool
is_user_message item = item.type == "message" && (item.role == "user" || item.role == "developer")

-- The messages of the user and the developer in their order, and the compaction item.
abbrev pub window : List InputItem → String → String → Json
window items id summary =
    let messages = map (λ item. item.raw) (keep_if is_user_message items) in
    obj (
      field "output" (arr (from_list (map compact (messages ++ compaction_item id summary ∷ []))))
        end)

pub v2_sse_events-completed :
    (id summary : String)
    → is_blank summary ≡ false
    → v2_sse_events id summary ≡ ok (completed_frames id summary)
unfolding v2_sse_events v2_compaction_item_json compact
v2_sse_events-completed id summary h = rw h refl

pub v2_response_failed_sse_lem :
    (message : String) → v2_response_failed_sse message ≡ failed_frames message
unfolding v2_response_failed_sse
v2_response_failed_sse_lem message = refl

retained_items_lem :
    (items : List InputItem)
    → retained_items items ≡ map (λ item. item.raw) (keep_if is_user_message items)
unfolding retained_items is_retained
retained_items_lem [] = refl
retained_items_lem (item ∷ items) = elim (Bool-cases (is_user_message item)) [
  | inl kept ↦ rw (kept) (ap (λ rest. item.raw ∷ rest) (retained_items_lem items))
  | inr dropped ↦ rw (dropped) (retained_items_lem items)
]

pub v1_compact_response_body-window :
    (items : List InputItem) (id summary : String)
    → is_blank summary ≡ false
    → v1_compact_response_body items id summary ≡ ok (window items id summary)
unfolding v1_compact_response_body v2_compaction_item_json marshal_list
v1_compact_response_body-window items id summary h = rw (h, retained_items_lem items) refl
