-- ===== src/Payload/Continue.antt =====
-- A session that was compacted by the facade goes on at summary level, whatever the next target.
use mathlib.Core.List.{map-append}
use cpa_codex_compact_bridge.Common.{
  String, ◌≡◌, refl, ◌≢◌, Bool, true, false, ◌&&◌, ◌||◌, List, [], ◌∷◌, ◌++◌, map, arith, ap, ◌∙◌,
  any-append, eq_iff, Bool-cases, inl, inr,
}
use cpa_codex_compact_bridge.Errors.{ok}
use cpa_codex_compact_bridge.Go.Json.{
  Json, obj, arr, Elems, elems, end, field, compact, from_list, marshal_list, elems-from_list,
}
use cpa_codex_compact_bridge.Items.{
  InputItem, parse_input_item, parse_input_items, is_compaction_item_any, has_compaction_items,
}
use cpa_codex_compact_bridge.State.{
  CompactTarget, CompactionRecord, plaintext, opaque, corrupt, compaction_record_of, is_restorable,
  rewrite_compaction_items, check_compaction_items,
}
use cpa_codex_compact_bridge.State.Policy.{
  holds, same_record, matrix, session_state, check_compaction_items-matrix,
}
use cpa_codex_compact_bridge.State.Restore.{
  restore, raw-parse_input_item, rewrite_items-restore, rewrite_items-changed,
  is_compaction_item_any-compact,
}
use cpa_codex_compact_bridge.Payload.{
  v2_compaction_item_json, v1_compact_response_body, retained_items, is_retained,
}
use cpa_codex_compact_bridge.Payload.RoundTrip.{user_message, bridge_id, stored, compaction_item}

-- No entry of the list is a compaction item.
abbrev pub IsOrdinary : List Json → Type 0
IsOrdinary raws = has_compaction_items (parse_input_items raws) ≡ false

parse-append :
    (xs ys : List Json)
    → parse_input_items (xs ++ ys) ≡ parse_input_items xs ++ parse_input_items ys
unfolding parse_input_items
parse-append [] ys = refl
parse-append (x ∷ xs) ys = ap (λ r. parse_input_item x ∷ r) (parse-append xs ys)

holds_ordinary :
    (kind : CompactionRecord) (raws : List Json)
    → IsOrdinary raws
    → holds kind (parse_input_items raws) ≡ false
unfolding holds has_compaction_items parse_input_items
holds_ordinary kind [] h = refl
holds_ordinary kind (v ∷ raws) h = ground (arith, holds_ordinary kind raws)

restore_ordinary :
    (raws : List Json) → IsOrdinary raws → map restore (parse_input_items raws) ≡ raws
unfolding restore is_restorable has_compaction_items parse_input_items
restore_ordinary [] h = refl
restore_ordinary (v ∷ raws) h = ground (arith, raw-parse_input_item v, restore_ordinary raws)

holds-append :
    (kind : CompactionRecord) (xs ys : List InputItem)
    → holds kind (xs ++ ys) ≡ (holds kind xs || holds kind ys)
unfolding holds
holds-append kind xs ys = any-append _ xs ys

holds-cons :
    (kind : CompactionRecord) (v : Json) (raws : List Json)
    → holds kind (parse_input_items (v ∷ raws)) ≡ (
        is_compaction_item_any (parse_input_item v)
          && same_record kind (compaction_record_of (parse_input_item v))
        || holds kind (parse_input_items raws))
unfolding holds parse_input_items
holds-cons kind v raws = refl

or-false : (b : Bool) → (b || false) ≡ b
or-false b = ground arith

-- A rewriting that the policy accepts.
rewrite_accepted :
    (items : List InputItem) (target : CompactTarget)
    → check_compaction_items items target ≡ ok tt
    → rewrite_compaction_items items target ≡ ok (map restore items, holds plaintext items)
unfolding rewrite_compaction_items
rewrite_accepted items target h =
    rw h (λ i. ok (rewrite_items-restore items i, rewrite_items-changed items i))

module _ (before after : List Json) (item : Json) (summary : String) (b : IsOrdinary before)
    (a : IsOrdinary after) (any' : is_compaction_item_any (parse_input_item item) ≡ true)
    (record' : compaction_record_of (parse_input_item item) ≡ plaintext)
    (restored : restore (parse_input_item item) ≡ user_message summary) where
  kind_of_history :
      (kind : CompactionRecord)
      → holds kind (parse_input_items (before ++ item ∷ after)) ≡ same_record kind plaintext
  kind_of_history kind =
      rw
        (
          parse-append before (item ∷ after),
          holds-append kind (parse_input_items before) (parse_input_items (item ∷ after)),
          holds_ordinary kind before b,
          holds-cons kind item after,
          holds_ordinary kind after a,
          any',
          record',
        )
        (or-false _)

  restore_history :
      map restore (parse_input_items (before ++ item ∷ after))
      ≡ before ++ user_message summary ∷ after
  restore_history =
      rw
        (
          parse-append before (item ∷ after),
          map-append restore (parse_input_items before) (parse_input_items (item ∷ after)),
          restore_ordinary before b,
        )
        (unfold parse_input_items in rw (restored, restore_ordinary after a))

  accepted_history :
      (target : CompactTarget)
      → check_compaction_items (parse_input_items (before ++ item ∷ after)) target ≡ ok tt
  accepted_history target =
      check_compaction_items-matrix (parse_input_items (before ++ item ∷ after)) target
      ∙ rw (kind_of_history corrupt, kind_of_history plaintext, kind_of_history opaque)
          (unfold matrix session_state in refl)

  rewrite_history :
      (target : CompactTarget)
      → rewrite_compaction_items (parse_input_items (before ++ item ∷ after)) target
        ≡ ok (before ++ user_message summary ∷ after, true)
  rewrite_history target =
      rewrite_accepted _ target (accepted_history target)
      ∙ (λ i. ok (restore_history i, kind_of_history plaintext i))

-- V2: the item of a compaction, in a history with no other compaction item, is accepted for every
-- target, and the request goes on with the user message in the item's place and all else as it was.
pub rewrite_compaction_items-v2_compaction_item_json :
    (before after : List Json) (unique summary : String) (item : Json) (target : CompactTarget)
    → unique ≢ ""
    → v2_compaction_item_json (bridge_id unique) summary ≡ ok item
    → IsOrdinary before
    → IsOrdinary after
    → rewrite_compaction_items (parse_input_items (before ++ item ∷ after)) target
      ≡ ok (before ++ user_message summary ∷ after, true)
rewrite_compaction_items-v2_compaction_item_json before after unique summary item target h e b a =
    let (any', record', restored) = stored unique summary item h e in
    rewrite_history before after item summary b a any' record' restored target

is_retained-ordinary :
    (item : InputItem) → is_retained item ≡ true → is_compaction_item_any item ≡ false
unfolding is_retained is_compaction_item_any
is_retained-ordinary item h = ground (
  arith,
  eq_iff item.type "message",
  eq_iff item.type "compaction",
  eq_iff "message" "compaction",
)

retained_entry :
    (v : Json)
    → is_retained (parse_input_item v) ≡ true
    → is_compaction_item_any (parse_input_item (compact (parse_input_item v).raw)) ≡ false
retained_entry v h =
    rw (raw-parse_input_item v, is_compaction_item_any-compact v) (is_retained-ordinary _ h)

retained-IsOrdinary :
    (raws : List Json) → IsOrdinary (map compact (retained_items (parse_input_items raws)))
unfolding retained_items parse_input_items has_compaction_items
retained-IsOrdinary [] = refl
retained-IsOrdinary (v ∷ raws) = elim (Bool-cases (is_retained (parse_input_item v))) [
  | inl kept ↦ rw (kept, retained_entry v kept) (retained-IsOrdinary raws)
  | inr dropped ↦ rw dropped (retained-IsOrdinary raws)
]

compact-compaction_item :
    (id summary : String) → compact (compaction_item id summary) ≡ compaction_item id summary
unfolding compact
compact-compaction_item id summary = refl

v1_compact_response_body_inv :
    (items : List InputItem) (id summary : String) (body : Json)
    → v1_compact_response_body items id summary ≡ ok body
    → (v2_compaction_item_json id summary ≡ ok (compaction_item id summary))
      × (body
          ≡ obj (
              field "output"
                (marshal_list (retained_items items ++ compaction_item id summary ∷ []))
                end))
unfolding v1_compact_response_body v2_compaction_item_json
v1_compact_response_body_inv items id summary body e = ground arith

-- The window that a V1 body holds.
window :
    (raws : List Json) (id summary : String)
    → map compact (retained_items (parse_input_items raws) ++ compaction_item id summary ∷ [])
      ≡ map compact (retained_items (parse_input_items raws)) ++ compaction_item id summary ∷ []
window raws id summary =
    map-append compact (retained_items (parse_input_items raws)) (compaction_item id summary ∷ [])
    ∙ rw (compact-compaction_item id summary)

-- V1: the body of a compaction is the one field `output`, an array that Codex takes as the next
-- request's history, and for every target that history is accepted and goes on as the retained
-- messages and the user message with the summary.
pub rewrite_compaction_items-v1_compact_response_body :
    (raws : List Json) (unique summary : String) (body : Json) (target : CompactTarget)
    → unique ≢ ""
    → v1_compact_response_body (parse_input_items raws) (bridge_id unique) summary ≡ ok body
    → (output : Elems) × (body ≡ obj (field "output" (arr output) end))
      × (rewrite_compaction_items (parse_input_items (elems output)) target
          ≡ ok (
            map compact (retained_items (parse_input_items raws)) ++ user_message summary ∷ [],
            true,
          ))
rewrite_compaction_items-v1_compact_response_body raws unique summary body target h e =
    let (item, is) =
      v1_compact_response_body_inv (parse_input_items raws) (bridge_id unique) summary body e in
    let entries =
      retained_items (parse_input_items raws) ++ compaction_item (bridge_id unique) summary ∷ [] in
    (
      from_list (map compact entries),
      is ∙ (unfold marshal_list in refl),
      rw (elems-from_list (map compact entries), window raws (bridge_id unique) summary)
          (rewrite_compaction_items-v2_compaction_item_json
            (map compact (retained_items (parse_input_items raws))) [] unique summary
            (compaction_item (bridge_id unique) summary) target h item (retained-IsOrdinary raws)
            (unfold has_compaction_items parse_input_items in refl)),
    )
