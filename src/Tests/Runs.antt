-- ===== src/Tests/Runs.antt =====
-- Whole runs of the executor and the plugin at concrete requests.
use Prim.Native.String.{len}
use cpa_codex_compact_bridge.Go.Glob.{match}
use cpa_codex_compact_bridge.Go.RawMap.{raw_map, add_fields, insert, lookup}
use cpa_codex_compact_bridge.Request.{
  build_summary_request_body, or_encode_error, parse_original, strip_summary_input_images,
  summary_model_allows_images, strip_items, strip_item, strip_content, strip_parts, strip_part,
  validate_summary_size,
}
use cpa_codex_compact_bridge.Go.Struct.{
  list_field_ok, list_field, string_field, string_field_ok, structs_field, slice_from, slice_value,
  slice_over, elems_over, string_from,
}
use cpa_codex_compact_bridge.Go.Strings.{has_prefix, trim_space}
use cpa_codex_compact_bridge.Common.{
  ◌≡◌, refl, true, false, List, [], ◌∷◌, ◌++◌, none, some, ap, ◌∙◌, if◌then◌else◌,
}
use cpa_codex_compact_bridge.Common.Int.{pos, ◌≤ℤ◌}
use cpa_codex_compact_bridge.Errors.{ok, err}
use cpa_codex_compact_bridge.Go.Json.{
  Json, Body, json, from_list, read_body, raw_list, is_json_array, raw_string,
}
use cpa_codex_compact_bridge.Items.{
  InputItem, parse_input_items, parse_request_input_items, remove_last_compaction_trigger,
  is_cpa_compaction, compact_to_user_message, parse_input_item, is_compaction_trigger,
  is_compaction_item_any, detect_v2_trigger, detect_v1_compact,
}
use cpa_codex_compact_bridge.State.{
  msg_mixed_compaction_state, check_compaction_items, bridge, invalid_compaction_state_error,
  build_summary_request_input, rewrite_compaction_items, judge_counts, count_items, count_record,
  compaction_record_of, without_triggers, rewrite_items, is_restorable,
}
use cpa_codex_compact_bridge.State.Policy.{check_compaction_items-matrix, verdict}
use cpa_codex_compact_bridge.Config.{
  decide_route, MatchDecision, decide_rules, glob_match, decision_of,
}
use cpa_codex_compact_bridge.Config.Validation.{IsValid}
use cpa_codex_compact_bridge.Responses.{
  extract_responses_assistant_text, read_output, every, output_item_ok, is_struct,
  content_fields_ok, contents_ok, content_ok, response_status, response_status_of, valid_status,
  response_output_item_failure, check_output_item, check_contents, is_call_content, terminal_text,
  has_json_value, output_text, content_text, usable, read_output_item, read_content,
}
use cpa_codex_compact_bridge.Summary.{
  extract_summary_text, extract_assistant_text, extract_envelope,
}
use cpa_codex_compact_bridge.Host.{
  HostModelExecutionRequest, HostCallbackResult, call_host_model_execute, call_host,
  envelope_result, model_result,
}
use cpa_codex_compact_bridge.Executor.{
  prepare_summary, finish_summary, ExecutorRequest, generate_summary, handle_execute,
  execute_v1_compact, execute_v2_compact, execute_ordinary_bridged, pick_summary_model,
}
use cpa_codex_compact_bridge.Executor.Effects.{
  IsOneCallMore, prepared, generate_summary_made, handle_execute-calls, after_call,
}
use cpa_codex_compact_bridge.Executor.Rejection.{handle_execute_invalid_state, refusal}
use cpa_codex_compact_bridge.Executor.Outcome.{
  execute_v1_compact-V1Outcome, execute_v2_compact-V2Outcome, V1Outcome, V2Outcome,
}
use cpa_codex_compact_bridge.Plugin.{
  Sdk, plugin_register, executor_execute, plugin_call, PluginState, load, route_model,
  should_bridge_route,
}
use cpa_codex_compact_bridge.Request.Upstream.{IsUpstream, build_summary_request_body-IsUpstream}
use cpa_codex_compact_bridge.Go.RawMap.{RawMap}
use cpa_codex_compact_bridge.Plugin.{ModelRouteRequest}
use cpa_codex_compact_bridge.Executor.Rejection.{is_bridged_turn, unexpected_stream}
use cpa_codex_compact_bridge.Plugin.Routing.{handle_execute-route_model}
use cpa_codex_compact_bridge.Plugin.Lifecycle.{
  Step, plugin_call-Step, loaded, called, Reachable-IsValid,
}
use cpa_codex_compact_bridge.Tests.Policy.{body_fields, one_input, mixed, mixed_state}
use cpa_codex_compact_bridge.Tests.Config.{yaml}
use cpa_codex_compact_bridge.Tests.Samples.{
  question, bridged_item, trigger, body_of, bridging, env, request_of, response, summary_text,
}

handle_execute-calls_example :
    IsOneCallMore []
      (handle_execute env bridging (request_of (body_of (bridged_item ∷ question ∷ []))) false []).1
handle_execute-calls_example =
    handle_execute-calls env bridging (request_of (body_of (bridged_item ∷ question ∷ []))) false []

pub routed :
    ((decide_route bridging "gpt-5").handled ≡ true)
    × ((decide_route bridging "gpt-5").bridged ≡ true)
unfolding decide_route decide_rules glob_match match decision_of
routed = (refl, refl)

mixed_refused :
    check_compaction_items (parse_input_items mixed) bridge
    ≡ err (invalid_compaction_state_error msg_mixed_compaction_state)
mixed_refused =
    check_compaction_items-matrix (parse_input_items mixed) bridge ∙ ap (λ c. verdict c) mixed_state

handle_execute_invalid_state_example :
    handle_execute env bridging (request_of (body_of mixed)) false [] ≡ (
      if is_bridged_turn (request_of (body_of mixed)) false
      then refusal msg_mixed_compaction_state []
      else unexpected_stream [])
handle_execute_invalid_state_example =
    handle_execute_invalid_state env bridging (request_of (body_of mixed)) false []
      (body_fields mixed) (from_list mixed) msg_mixed_compaction_state routed.0 routed.1 refl
      (one_input mixed) mixed_refused

abbrev pub decision : MatchDecision
decision = decide_route bridging "gpt-5"

abbrev pub compact_request : ExecutorRequest
compact_request = request_of (body_of (bridged_item ∷ question ∷ trigger ∷ []))

pub upstream_request :
    (body : Body) × (prepare_summary bridging compact_request "gpt-5"
        (parse_request_input_items compact_request.original_request)
      ≡ ok body)
unfolding prepare_summary build_summary_request_input rewrite_compaction_items
    check_compaction_items judge_counts count_items count_record compaction_record_of
    without_triggers rewrite_items is_restorable remove_last_compaction_trigger is_cpa_compaction
    compact_to_user_message has_prefix trim_space parse_request_input_items list_field_ok list_field
    parse_input_items parse_input_item string_field is_compaction_trigger is_compaction_item_any
    detect_v2_trigger build_summary_request_body or_encode_error parse_original read_body raw_map
    strip_summary_input_images summary_model_allows_images strip_items strip_item add_fields insert
    lookup strip_content strip_parts strip_part raw_list
upstream_request = (_, refl)

extracted_summary : finish_summary bridging response ≡ ok summary_text
unfolding finish_summary validate_summary_size extract_summary_text extract_assistant_text
    extract_envelope extract_responses_assistant_text read_output every output_item_ok is_struct
    content_fields_ok contents_ok content_ok response_status response_status_of valid_status
    response_output_item_failure check_output_item check_contents is_call_content terminal_text
    has_json_value output_text content_text usable read_output_item read_content structs_field
    slice_from slice_value slice_over elems_over string_from read_body raw_map add_fields insert
    lookup is_json_array raw_string string_field_ok string_field list_field trim_space
extracted_summary = refl

pub summarised : (generate_summary env bridging compact_request "gpt-5" []).0 ≡ ok summary_text
unfolding call_host_model_execute call_host envelope_result model_result after_call
summarised =
    ap (λ x. x.0)
      (prepared env bridging compact_request "gpt-5" [] upstream_request.0 upstream_request.1)
    ∙ extracted_summary

generate_summary_made_example :
    (request : HostModelExecutionRequest) × ((generate_summary env bridging compact_request "gpt-5"
        []).1
      ≡ [] ++ request ∷ [])
    × (resp : HostCallbackResult) × (call_host_model_execute (env.host [] request) ≡ ok resp)
    × (extract_summary_text resp.body ≡ ok summary_text)
    × (pos (len summary_text) ≤ℤ bridging.max_summary_bytes)
generate_summary_made_example =
    generate_summary_made env bridging compact_request "gpt-5" [] summary_text summarised

abbrev pub items : List InputItem
items = parse_input_items (bridged_item ∷ question ∷ trigger ∷ [])

bridged_decision : decision ≡ record { handled = true; bridged = true; summary_model = "" }
unfolding decide_route decide_rules glob_match match decision_of trim_space
bridged_decision = refl

pub picked : pick_summary_model compact_request decision ≡ "gpt-5"
picked =
    ap (pick_summary_model compact_request) bridged_decision ∙ (unfold pick_summary_model in refl)

summarised_call :
    generate_summary env bridging compact_request (pick_summary_model compact_request decision) []
    ≡ (ok summary_text, (generate_summary env bridging compact_request "gpt-5" []).1)
summarised_call =
    ap (λ m. generate_summary env bridging compact_request m []) picked
    ∙ ap (λ r. (r, (generate_summary env bridging compact_request "gpt-5" []).1)) summarised

execute_v1_compact-V1Outcome_example :
    V1Outcome env
      (parse_request_input_items compact_request.original_request)
      (generate_summary env bridging compact_request
        (pick_summary_model compact_request decision)
        [])
      (execute_v1_compact env bridging compact_request decision []).0
execute_v1_compact-V1Outcome_example =
    execute_v1_compact-V1Outcome env bridging compact_request decision []

execute_v2_compact-V2Outcome_example :
    V2Outcome env
      (generate_summary env bridging compact_request
        (pick_summary_model compact_request decision)
        [])
      (execute_v2_compact env bridging compact_request decision []).0
    × ((execute_v2_compact env bridging compact_request decision []).1
        ≡ (generate_summary env bridging compact_request
            (pick_summary_model compact_request decision)
            []).1)
execute_v2_compact-V2Outcome_example =
    execute_v2_compact-V2Outcome env bridging compact_request decision []

-- An SDK that decodes every request as the same one.
abbrev pub sdk : Sdk
sdk = record {
  schema_version = 1;
  decode_lifecycle =
      λ body. ok (record { config_yaml = "rules: [{match: gpt-*, action: bridge}]" });
  decode_model_route =
      λ body. ok (record { requested_model = "gpt-5"; stream = false; body = body });
  decode_request_intercept = λ body.
      ok (record { source_format = "openai-response"; requested_model = "gpt-5"; body = body });
  decode_execute = λ body. ok compact_request;
}

abbrev pub fresh : PluginState
fresh = record { config = none; calls = [] }

abbrev registered_state : PluginState
registered_state = (plugin_call env sdk yaml (some plugin_register) (body_of []) fresh).2

plugin_call-Step_example :
    Step yaml registered_state
      (plugin_call env sdk yaml (some executor_execute) (body_of []) registered_state).2
plugin_call-Step_example =
    plugin_call-Step env sdk yaml (some executor_execute) (body_of []) registered_state

Reachable-IsValid_example :
    IsValid
      (load (plugin_call env sdk yaml (some executor_execute) (body_of []) registered_state).2)
Reachable-IsValid_example =
    Reachable-IsValid env sdk yaml
      (plugin_call env sdk yaml (some executor_execute) (body_of []) registered_state).2
      (called registered_state (some executor_execute) (body_of [])
        (called fresh (some plugin_register) (body_of []) loaded))

built :
    (body : Body) × (build_summary_request_body
        (body_of (question ∷ []))
        "gpt-5"
        (question ∷ [])
        bridging
      ≡ ok body)
unfolding build_summary_request_body or_encode_error parse_original raw_map
    strip_summary_input_images summary_model_allows_images strip_items strip_item add_fields insert
    lookup strip_content strip_parts strip_part raw_list
built = (_, refl)

build_summary_request_body-IsUpstream_example :
    (value : Json) × (fields : RawMap) × (built.0 ≡ json value)
    × (raw_map value ≡ ok fields)
    × IsUpstream "gpt-5" fields
build_summary_request_body-IsUpstream_example =
    build_summary_request_body-IsUpstream (body_of (question ∷ [])) "gpt-5" (question ∷ []) bridging
      built.0 built.1

abbrev route : ModelRouteRequest
route = record {
  requested_model = "gpt-5";
  stream = false;
  body = body_of (bridged_item ∷ question ∷ trigger ∷ []);
}

claimed : (route_model bridging route).handled ≡ true
unfolding route_model should_bridge_route decide_route decide_rules glob_match match decision_of
claimed = refl

handle_execute-route_model_example : handle_execute env bridging compact_request false [] ≡ (
    if detect_v1_compact compact_request.alt compact_request.stream
    then execute_v1_compact env bridging compact_request decision []
    else if false
    then execute_v2_compact env bridging compact_request decision []
    else execute_ordinary_bridged env compact_request false [])
handle_execute-route_model_example =
    handle_execute-route_model env bridging route compact_request [] refl refl claimed
