-- ===== src/Tests/Payload.antt =====
-- Compact responses and summary responses at concrete values.
use cpa_codex_compact_bridge.Go.Struct.{
  string_field, string_field_ok, list_field, structs_field, slice_from, slice_value, slice_over,
  elems_over, string_from,
}
use cpa_codex_compact_bridge.Common.{
  String, ◌≡◌, ◌≢◌, refl, ◌⊎◌, true, [], ◌∷◌, ◌++◌, map, arith, eq_iff,
}
use cpa_codex_compact_bridge.Errors.{ok, err, summary_failure}
use cpa_codex_compact_bridge.Go.Json.{
  Json, from_list, Elems, nil, elems, str, arr, obj, field, end, compact, json, marshal_list,
  read_body, is_json_array, raw_string,
}
use cpa_codex_compact_bridge.Go.RawMap.{
  RawMap, raw_map, marshal_map, compact_values, add_fields, insert, lookup,
}
use cpa_codex_compact_bridge.Go.RawMap.Sorted.{IsSorted, raw_map-marshal_map, raw_map-IsSorted}
use cpa_codex_compact_bridge.Items.{
  parse_input_items, has_compaction_items, is_compaction_item_any, parse_input_item,
}
use cpa_codex_compact_bridge.State.{bridge, explicit_passthrough, rewrite_compaction_items}
use cpa_codex_compact_bridge.Payload.{
  v2_compaction_item_json, v1_compact_response_body, retained_items, is_retained,
}
use cpa_codex_compact_bridge.Payload.RoundTrip.{user_message, bridge_id}
use cpa_codex_compact_bridge.Payload.Continue.{
  rewrite_compaction_items-v2_compaction_item_json,
  rewrite_compaction_items-v1_compact_response_body, IsOrdinary,
}
use cpa_codex_compact_bridge.Responses.{
  extract_responses_assistant_text, read_output, every, output_item_ok, is_struct,
  content_fields_ok, contents_ok, content_ok, response_status, response_status_of, valid_status,
  response_output_item_failure, check_output_item, check_contents, is_call_content, terminal_text,
  has_json_value, output_text, content_text, usable, read_output_item, read_content,
}
use cpa_codex_compact_bridge.Summary.{
  extract_summary_text, extract_assistant_text, extract_envelope, summary_error,
}
use cpa_codex_compact_bridge.Summary.Shapes.{IsResponsesSummary, IsChatSummary}
use cpa_codex_compact_bridge.Summary.Accepted.{extract_summary_text_sound}
use cpa_codex_compact_bridge.Summary.Failures.{is_retryable, extract_summary_text_retryable}
use cpa_codex_compact_bridge.Go.Strings.{trim_space}
use cpa_codex_compact_bridge.Tests.Samples.{
  bridged_item, question, trigger, parsed_of, completed_response, summary_text, compaction,
}

abbrev unique : String
unique = "7"

some_text : unique ≢ ""
some_text = ground (arith, eq_iff unique "")

item_made :
    v2_compaction_item_json (bridge_id "7") summary_text
    ≡ ok (compaction "cpa_compact_7" summary_text)
unfolding v2_compaction_item_json trim_space
item_made = refl

ordinary : IsOrdinary (question ∷ [])
unfolding has_compaction_items parse_input_items is_compaction_item_any parse_input_item
    string_field
ordinary = refl

rewrite_compaction_items-v2_compaction_item_json_example :
    rewrite_compaction_items
      (parse_input_items
        ((question ∷ []) ++ compaction "cpa_compact_7" summary_text ∷ question ∷ []))
      explicit_passthrough
    ≡ ok ((question ∷ []) ++ user_message summary_text ∷ question ∷ [], true)
rewrite_compaction_items-v2_compaction_item_json_example =
    rewrite_compaction_items-v2_compaction_item_json (question ∷ []) (question ∷ []) unique
      summary_text (compaction "cpa_compact_7" summary_text) explicit_passthrough some_text
      item_made ordinary ordinary

abbrev compacted : Json
compacted =
    obj
      (field "output" (marshal_list (question ∷ compaction "cpa_compact_7" summary_text ∷ [])) end)

response_made :
    v1_compact_response_body
      (parse_input_items (bridged_item ∷ question ∷ []))
      (bridge_id "7")
      summary_text
    ≡ ok compacted
unfolding v1_compact_response_body v2_compaction_item_json trim_space retained_items
    parse_input_items is_retained parse_input_item string_field
response_made = refl

rewrite_compaction_items-v1_compact_response_body_example :
    (output : Elems) × (compacted ≡ obj (field "output" (arr output) end))
    × (rewrite_compaction_items (parse_input_items (elems output)) bridge
        ≡ ok (
          map compact (retained_items (parse_input_items (bridged_item ∷ question ∷ [])))
              ++ user_message summary_text ∷ [],
          true,
        ))
rewrite_compaction_items-v1_compact_response_body_example =
    rewrite_compaction_items-v1_compact_response_body (bridged_item ∷ question ∷ []) unique
      summary_text compacted bridge some_text response_made

pub extracted : extract_summary_text (json completed_response) ≡ ok summary_text
unfolding extract_summary_text extract_assistant_text extract_envelope
    extract_responses_assistant_text read_output every output_item_ok is_struct content_fields_ok
    contents_ok content_ok response_status response_status_of valid_status
    response_output_item_failure check_output_item check_contents is_call_content terminal_text
    has_json_value output_text content_text usable read_output_item read_content structs_field
    slice_from slice_value slice_over elems_over string_from read_body raw_map add_fields insert
    lookup is_json_array raw_string string_field_ok string_field list_field trim_space
extracted = refl

-- Two values of `content`: the second is read over the places of the first.
repeated_content :
    (read_output_item (
      obj (
        field "content"
          (arr (
            from_list (obj (field "text" (str "old") (field "type" (str "output_text") end)) ∷ [])))
          (field "content"
            (arr (from_list (obj (field "text" (str "new") end) ∷ [])))
            end)))).content
    ≡ record { type = "output_text"; text = "new" } ∷ []
unfolding read_output_item read_content structs_field slice_from slice_value slice_over elems_over
    string_from
repeated_content = refl

extract_summary_text_sound_example :
    (value : Json) × (envelope : RawMap) × (text : String) × (json completed_response ≡ json value)
    × (raw_map value ≡ ok envelope)
    × (IsResponsesSummary envelope text ⊎ IsChatSummary envelope text)
    × (summary_text ≡ trim_space text)
    × (summary_text ≢ "")
extract_summary_text_sound_example =
    extract_summary_text_sound (json completed_response) summary_text extracted

abbrev failed_response : Json
failed_response = obj (field "output" (arr nil) (field "status" (str "failed") end))

failed :
    extract_summary_text (json failed_response)
    ≡ err (summary_failure "summary upstream failed (status=failed)")
unfolding extract_summary_text extract_assistant_text read_body raw_map extract_envelope lookup
    add_fields insert is_json_array extract_responses_assistant_text read_output every
    response_status response_status_of raw_string valid_status response_output_item_failure
    terminal_text summary_failure summary_error
failed = refl

extract_summary_text_retryable_example :
    is_retryable (summary_failure "summary upstream failed (status=failed)") ≡ true
extract_summary_text_retryable_example =
    extract_summary_text_retryable (json failed_response) _ failed

abbrev two_keys : RawMap
two_keys = parsed_of (question ∷ trigger ∷ [])

sorted : IsSorted two_keys
unfolding raw_map add_fields insert
sorted =
    raw_map-IsSorted
      (obj (
        field "model" (str "gpt-5")
          (field "input" (arr (from_list (question ∷ trigger ∷ []))) end)))
      two_keys refl

raw_map-marshal_map_example : raw_map (marshal_map two_keys) ≡ ok (compact_values two_keys)
raw_map-marshal_map_example = raw_map-marshal_map two_keys sorted
