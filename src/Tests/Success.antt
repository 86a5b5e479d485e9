-- ===== src/Tests/Success.antt =====
-- A compact turn that is answered, a summary's input and images, and a configuration that stays in force.
use Prim.Native.String.{len}
use cpa_codex_compact_bridge.Common.{
  ◌≡◌, ◌≢◌, refl, ◌⊎◌, true, false, List, [], ◌∷◌, some, none, Option, ap, ◌∙◌, subst, String, any,
  map, length, keep_if,
}
use cpa_codex_compact_bridge.Common.Int.{pos, ◌≤ℤ◌}
use cpa_codex_compact_bridge.Errors.{ok}
use cpa_codex_compact_bridge.Go.Json.{
  Json, Body, null, str, arr, obj, end, field, from_list, compact, json, raw_list,
}
use cpa_codex_compact_bridge.Go.Struct.{list_field_ok, list_field, string_field}
use cpa_codex_compact_bridge.Go.Strings.{has_prefix}
use cpa_codex_compact_bridge.State.{
  build_summary_request_input, rewrite_compaction_items, check_compaction_items, judge_counts,
  count_items, count_record, compaction_record_of, without_triggers, rewrite_items, is_restorable,
}
use cpa_codex_compact_bridge.State.Restore.{restore}
use cpa_codex_compact_bridge.State.SummaryInput.{
  build_summary_request_input_clean, parse_input_items-IsRead, stays,
}
use cpa_codex_compact_bridge.Request.{
  strip_summary_input_images, summary_model_allows_images, strip_items, strip_item, strip_content,
  strip_parts, strip_part,
}
use cpa_codex_compact_bridge.Request.Parts.{has_image}
use cpa_codex_compact_bridge.Request.Images.{strip_summary_input_images_clean}
use cpa_codex_compact_bridge.Plugin.{
  plugin_call, plugin_reconfigure, executor_execute, ok_envelope, registered, registration, load,
  lifecycle_config,
}
use cpa_codex_compact_bridge.Plugin.Reload.{plugin_call-reload, after_calls}
use cpa_codex_compact_bridge.Tests.Config.{yaml, raw_config, loads}
use cpa_codex_compact_bridge.Go.RawMap.{RawMap, raw_map, add_fields, insert, lookup}
use cpa_codex_compact_bridge.Go.Strings.{trim_space}
use cpa_codex_compact_bridge.Items.{
  InputItem, parse_input_item, parse_input_items, is_cpa_compaction, is_compaction_item_any,
  compact_to_user_message, has_compaction_items, detect_v1_compact, detect_v2_trigger,
  parse_request_input_items, is_compaction_trigger,
}
use cpa_codex_compact_bridge.Host.{
  call_host, call_host_model_execute, envelope_result, model_result,
}
use cpa_codex_compact_bridge.Summary.{extract_summary_text}
use cpa_codex_compact_bridge.Summary.Shapes.{IsResponsesSummary, IsChatSummary}
use cpa_codex_compact_bridge.Summary.Accepted.{extract_summary_text_sound}
use cpa_codex_compact_bridge.Summary.Complete.{extract_summary_text_complete}
use cpa_codex_compact_bridge.Executor.{
  ExecutorRequest, payload, chunk, json_content, event_stream, handle_execute,
  detect_v2_trigger_from_request, prepare_summary, summary_call, pick_summary_model,
}
use cpa_codex_compact_bridge.Executor.Effects.{generate_summary_made}
use cpa_codex_compact_bridge.Executor.Continuation.{handle_execute-continues}
use cpa_codex_compact_bridge.Payload.{retained_items}
use cpa_codex_compact_bridge.Payload.RoundTrip.{user_message, bridge_id}
use cpa_codex_compact_bridge.Payload.Frames.{completed_frames}
use cpa_codex_compact_bridge.Go.Json.{Elems, elems}
use cpa_codex_compact_bridge.State.{bridge}
use cpa_codex_compact_bridge.Common.{arith, eq_iff, ◌++◌}
use cpa_codex_compact_bridge.Executor.Success.{
  IsAnswerable, model_of, after, handle_execute-v2_answered,
}
use cpa_codex_compact_bridge.Tests.Samples.{
  env, bridging, response, summary_text, completed_response, bridged_item, question, trigger,
}
use cpa_codex_compact_bridge.Tests.Payload.{extracted}
use cpa_codex_compact_bridge.Tests.Policy.{read_items}
use cpa_codex_compact_bridge.Tests.Runs.{
  compact_request, upstream_request, summarised, picked, routed, sdk, fresh,
}

-- What is known of the completed response.
abbrev sound :
    (value : Json) × (envelope : RawMap) × (text : String) × (json completed_response ≡ json value)
    × (raw_map value ≡ ok envelope)
    × (IsResponsesSummary envelope text ⊎ IsChatSummary envelope text)
    × (summary_text ≡ trim_space text)
    × (summary_text ≢ "")
sound = extract_summary_text_sound (json completed_response) summary_text extracted

called :
    (m : String)
    → call_host_model_execute (env.host [] (summary_call m upstream_request.0 "cb")) ≡ ok response
unfolding call_host_model_execute call_host envelope_result model_result
called m = refl

within_limit : pos (len summary_text) ≤ℤ bridging.max_summary_bytes
within_limit =
    let (_, _, _, _, _, le) =
      generate_summary_made env bridging compact_request "gpt-5" [] summary_text summarised in
    le

abbrev answerable : IsAnswerable env bridging compact_request (model_of bridging compact_request) []
answerable = record {
  body = upstream_request.0;
  is_prepared =
      ap
        (λ m.
          prepare_summary bridging compact_request m
            (parse_request_input_items compact_request.original_request))
        picked
      ∙ upstream_request.1;
  resp = response;
  is_called = called (model_of bridging compact_request);
  value = sound.0;
  envelope = sound.1;
  text = sound.2;
  is_json = sound.3;
  is_object = sound.4;
  is_finished = sound.5;
  some_text = λ e. sound.7 (sound.6 ∙ e);
  fits = subst (λ t. pos (len t) ≤ℤ bridging.max_summary_bytes) sound.6 within_limit;
}

v1_turn : detect_v1_compact compact_request.alt compact_request.stream ≡ true
unfolding detect_v1_compact
v1_turn = refl

abbrev seven : String
seven = "7"

some_uuid : env.uuid (after env bridging compact_request [] routed answerable) ≢ ""
some_uuid = ground (arith, eq_iff seven "")

abbrev turn_items : List Json
turn_items = bridged_item ∷ question ∷ trigger ∷ []

handle_execute-continues_example :
    (output : Elems) × (handle_execute env bridging compact_request false [] ≡ (
      ok (payload (json (obj (field "output" (arr output) end))) json_content),
      after env bridging compact_request [] routed answerable,
    ))
    × (rewrite_compaction_items (parse_input_items (elems output)) bridge
        ≡ ok (
          map compact (retained_items (parse_input_items turn_items))
              ++ user_message (trim_space answerable.text) ∷ [],
          true,
        ))
handle_execute-continues_example =
    handle_execute-continues env bridging compact_request [] routed answerable false turn_items
      bridge v1_turn (read_items _) some_uuid

-- The same turn as a stream.
abbrev stream_request : ExecutorRequest
stream_request = record compact_request { stream = true }

same_preparation :
    (m : String) (o : Option (List InputItem))
    → prepare_summary bridging stream_request m o ≡ prepare_summary bridging compact_request m o
unfolding prepare_summary
same_preparation m none = refl
same_preparation m (some found) = refl

same_model : model_of bridging stream_request ≡ "gpt-5"
unfolding pick_summary_model
same_model = picked

abbrev answerable_stream :
    IsAnswerable env bridging stream_request (model_of bridging stream_request) []
answerable_stream = record {
  body = upstream_request.0;
  is_prepared =
      same_preparation _ _
      ∙ ap
          (λ m.
            prepare_summary bridging compact_request m
              (parse_request_input_items compact_request.original_request))
          same_model
      ∙ upstream_request.1;
  resp = response;
  is_called = called (model_of bridging stream_request);
  value = answerable.value;
  envelope = answerable.envelope;
  text = answerable.text;
  is_json = answerable.is_json;
  is_object = answerable.is_object;
  is_finished = answerable.is_finished;
  some_text = answerable.some_text;
  fits = answerable.fits;
}

no_v1_turn : detect_v1_compact stream_request.alt stream_request.stream ≡ false
unfolding detect_v1_compact
no_v1_turn = refl

v2_turn : detect_v2_trigger_from_request stream_request.original_request ≡ true
unfolding detect_v2_trigger_from_request parse_request_input_items list_field_ok list_field
    parse_input_items parse_input_item string_field detect_v2_trigger is_compaction_trigger
v2_turn = refl

handle_execute-v2_answered_example : handle_execute env bridging stream_request true [] ≡ (
  ok (
      chunk event_stream (
        completed_frames
          (bridge_id (env.uuid (after env bridging stream_request [] routed answerable_stream)))
          (trim_space answerable_stream.text))),
  after env bridging stream_request [] routed answerable_stream,
)
handle_execute-v2_answered_example =
    handle_execute-v2_answered env bridging stream_request [] routed answerable_stream no_v1_turn
      v2_turn

extract_summary_text_complete_example :
    extract_summary_text (json sound.0) ≡ ok (trim_space sound.2)
extract_summary_text_complete_example =
    extract_summary_text_complete sound.0 sound.1 sound.2 sound.4 sound.5
      (λ e. sound.7 (sound.6 ∙ e))

-- The input of the turn, its trigger in the middle.
abbrev raws : List Json
raws = bridged_item ∷ trigger ∷ question ∷ []

summary_input : (out : List Json) × (build_summary_request_input (parse_input_items raws) ≡ ok out)
unfolding build_summary_request_input rewrite_compaction_items check_compaction_items judge_counts
    count_items count_record compaction_record_of without_triggers rewrite_items is_restorable
    is_cpa_compaction compact_to_user_message has_prefix trim_space parse_input_items
    parse_input_item string_field is_compaction_trigger is_compaction_item_any
summary_input = (_, refl)

build_summary_request_input_clean_example :
    (summary_input.0 ≡ map restore (keep_if stays (parse_input_items raws)))
    × (has_compaction_items (parse_input_items (map compact summary_input.0)) ≡ false)
    × (any is_compaction_trigger (parse_input_items (map compact summary_input.0)) ≡ false)
build_summary_request_input_clean_example =
    build_summary_request_input_clean (parse_input_items raws) summary_input.0
      (parse_input_items-IsRead raws) summary_input.1

-- A message with an image.
abbrev picture : Json
picture = obj (
    field "content"
      (arr (
        from_list (
          obj (
            field "image_url" (str "data:image/png;base64,") (field "type" (str "input_image") end))
          ∷ [])))
      (field "role" (str "user") (field "type" (str "message") end)))

no_models : summary_model_allows_images "gpt-5" [] ≡ false
unfolding summary_model_allows_images
no_models = refl

without_image :
    (out : List Json) × (strip_summary_input_images (question ∷ picture ∷ []) "gpt-5" [] ≡ ok out)
unfolding strip_summary_input_images summary_model_allows_images strip_items strip_item
    strip_content strip_parts strip_part raw_map add_fields insert lookup raw_list
without_image = (_, refl)

strip_summary_input_images_clean_example :
    (any has_image (map compact without_image.0) ≡ false) × (length without_image.0 ≡ 2)
strip_summary_input_images_clean_example =
    strip_summary_input_images_clean (question ∷ picture ∷ []) "gpt-5" [] without_image.0 no_models
      without_image.1

abbrev no_request : Body
no_request = json null

configured : lifecycle_config sdk no_request ≡ ok raw_config
unfolding lifecycle_config
configured = refl

plugin_call-reload_example :
    ((plugin_call env sdk yaml (some plugin_reconfigure) no_request fresh).1
      ≡ ok_envelope (registered (registration sdk)))
    × (load (
          after_calls env sdk yaml
            ((some plugin_reconfigure, no_request)
              ∷ (some executor_execute, no_request)
              ∷ (none, no_request)
              ∷ [])
            fresh)
        ≡ bridging)
plugin_call-reload_example =
    plugin_call-reload env sdk yaml (some plugin_reconfigure) no_request fresh raw_config bridging
      ((some executor_execute, no_request) ∷ (none, no_request) ∷ []) refl configured loads
      (refl, (refl, tt))
