-- ===== src/Executor.antt =====
-- plugin/main.go, the executor: handleExecute, the two compact turns, and the delegation of ordinary
-- turns. A handler takes the host calls made so far and returns them with its own at the end. The
-- host, and the maker of item IDs (google/uuid), are parameters.
pub mod Success
pub mod Continuation
pub mod Execution
pub mod Effects
pub mod Unprepared
pub mod Rejection
pub mod Failure
pub mod Outcome
use Prim.Native.String
use cpa_codex_compact_bridge.Common.{
  String, Bool, false, ◌&&◌, ◌||◌, not, List, [], ◌∷◌, ◌++◌, Option, none, some, ◌==◌,
  if◌then◌else◌,
}
use cpa_codex_compact_bridge.Errors.{
  PluginErr, Err, plugin_err, Result, ok, err, as_plugin_err, as_invalid_compaction_state,
  err_code_compact_bridge_failed, err_code_invalid_compaction_state,
}
use cpa_codex_compact_bridge.Go.Json.{Json, Body, json}
use cpa_codex_compact_bridge.Items.{
  InputItem, parse_request_input_items, remove_last_compaction_trigger, detect_v1_compact,
  detect_v2_trigger, compaction_id_prefix,
}
use cpa_codex_compact_bridge.State.{bridge, normalize_compaction_state, build_summary_request_input}
use cpa_codex_compact_bridge.Config.{Config, MatchDecision, decide_route}
use cpa_codex_compact_bridge.Payload.{
  v1_compact_response_body, v2_sse_events, v2_response_failed_sse,
}
use cpa_codex_compact_bridge.Summary.{extract_summary_text}
use cpa_codex_compact_bridge.Request.{build_summary_request_body, validate_summary_size}
use cpa_codex_compact_bridge.Host.{
  Headers, header_to_map, HostModelExecutionRequest, HostCallbackResult, HostCall,
  call_host_model_execute,
}
use Execution.{◌>>=◌, Calls, Run, lift}

-- What the plugin does not implement: the host's answer to a call and the text of a new UUID, which
-- may depend on the calls made before.
pub record Env : Type 0 where
  pub host : Calls → HostModelExecutionRequest → HostCall
  pub uuid : Calls → String

-- The fields that the executor reads of the SDK's ExecutorRequest, and the callback ID.
pub record ExecutorRequest : Type 0 where
  pub model : String
  pub alt : String
  pub stream : Bool
  pub original_request : Body
  pub headers : Headers
  pub query : Headers
  pub host_callback_id : String

-- The answers of the executor: a payload with its headers, the same with empty metadata, or a
-- stream of one chunk, as its frames.
pub data Reply : Type 0 where
  payload : Body → Headers → Reply
  delegated : Body → Headers → Reply
  chunk : Headers → List Json → Reply

abbrev pub json_content : Headers
json_content = ("content-type", "application/json" ∷ []) ∷ []

abbrev pub event_stream : Headers
event_stream = ("content-type", "text/event-stream" ∷ []) ∷ []

abbrev pub bridge_failed : String → PluginErr
bridge_failed message = record {
  code = err_code_compact_bridge_failed;
  message = message;
  http_status = 502;
}

abbrev message_of : Option PluginErr → String
message_of none = "bridged compaction failed"
message_of (some e) =
    if e.code == err_code_compact_bridge_failed then e.message else "bridged compaction failed"

unfoldable pub compact_failure_message : Err → String
compact_failure_message e = message_of (as_plugin_err e)

unfoldable pub compact_execution_error : Err → PluginErr
compact_execution_error e = elim (as_invalid_compaction_state e) [
  | some state_err ↦ state_err
  | none ↦ bridge_failed (compact_failure_message e)
]

unfoldable pub pick_summary_model : ExecutorRequest → MatchDecision → String
pick_summary_model req decision =
    if decision.summary_model == "" then req.model else decision.summary_model

unfoldable pub detect_v2_trigger_from_request : Body → Bool
detect_v2_trigger_from_request body = elim (parse_request_input_items body) [
  | none ↦ false
  | some items ↦ detect_v2_trigger items
]

-- One call of host.model.execute.
unfoldable pub host_execute : Env → HostModelExecutionRequest → Run HostCallbackResult
host_execute env request calls =
    (call_host_model_execute (env.host calls request), calls ++ request ∷ [])

-- The call that asks for a summary.
abbrev pub summary_call : String → Body → String → HostModelExecutionRequest
summary_call summary_model body host_callback_id = record {
  entry_protocol = "openai-response";
  exit_protocol = "openai-response";
  model = summary_model;
  stream = false;
  body = body;
  headers = none;
  query = none;
  alt = "";
  host_callback_id = host_callback_id;
}

-- What generateSummary does before its call.
unfoldable pub prepare_summary :
    Config → ExecutorRequest → String → Option (List InputItem) → Result Body
prepare_summary cfg req summary_model none = err (
    plugin_err (record {
      code = "summary_parse_failed";
      message = "parse request input for summary";
      http_status = 0;
    }))
prepare_summary cfg req summary_model (some items) =
    elim (build_summary_request_input (remove_last_compaction_trigger items)) [
      | err e ↦ err e
      | ok clean_input ↦
          build_summary_request_body req.original_request summary_model clean_input cfg
    ]

-- What generateSummary does with the response to its call.
unfoldable pub finish_summary : Config → HostCallbackResult → Result String
finish_summary cfg resp = elim (extract_summary_text resp.body) [
  | err e ↦ err e
  | ok summary ↦ elim (validate_summary_size summary cfg.max_summary_bytes) [
    | err e ↦ err e
    | ok _ ↦ ok summary
  ]
]

unfoldable pub generate_summary : Env → Config → ExecutorRequest → String → Run String
generate_summary env cfg req summary_model = do
  body ←
      lift (prepare_summary cfg req summary_model (parse_request_input_items req.original_request))
  resp ← host_execute env (summary_call summary_model body req.host_callback_id)
  lift (finish_summary cfg resp)

abbrev pub item_id : Env → Calls → String
item_id env calls = String.◌++◌ compaction_id_prefix (env.uuid calls)

abbrev pub v1_reply : Result Json → Result Reply
v1_reply (ok body) = ok (payload (json body) json_content)
v1_reply (err _) = err (plugin_err (bridge_failed "bridged compaction failed"))

-- The end of executeV1Compact, after generateSummary.
unfoldable pub finish_v1 : Env → List InputItem → Result String × Calls → Result Reply × Calls
finish_v1 env items (err e, calls) = (err (plugin_err (compact_execution_error e)), calls)
finish_v1 env items (ok summary, calls) =
    (v1_reply (v1_compact_response_body items (item_id env calls) summary), calls)

unfoldable pub execute_v1_compact : Env → Config → ExecutorRequest → MatchDecision → Run Reply
execute_v1_compact env cfg req decision calls =
    elim (parse_request_input_items req.original_request) [
      | none ↦ (err (plugin_err (bridge_failed "bridged compaction failed")), calls)
      | some items ↦
          finish_v1 env items (generate_summary env cfg req (pick_summary_model req decision) calls)
    ]

unfoldable pub v2_failure : PluginErr → Result Reply
v2_failure failure =
    if failure.code == err_code_invalid_compaction_state
    then err (plugin_err failure)
    else ok (chunk event_stream (v2_response_failed_sse failure.message))

abbrev pub v2_reply : Result (List Json) → Result Reply
v2_reply (ok events) = ok (chunk event_stream events)
v2_reply (err _) =
    ok (chunk event_stream (v2_response_failed_sse "bridged compaction failed: encode error"))

-- The end of executeV2Compact, after generateSummary.
unfoldable pub finish_v2 : Env → Result String × Calls → Result Reply × Calls
finish_v2 env (err e, calls) = (v2_failure (compact_execution_error e), calls)
finish_v2 env (ok summary, calls) = (v2_reply (v2_sse_events (item_id env calls) summary), calls)

unfoldable pub execute_v2_compact : Env → Config → ExecutorRequest → MatchDecision → Run Reply
execute_v2_compact env cfg req decision calls =
    finish_v2 env (generate_summary env cfg req (pick_summary_model req decision) calls)

-- The call that hands an ordinary turn to the host.
abbrev pub ordinary_call : ExecutorRequest → Bool → HostModelExecutionRequest
ordinary_call req stream = record {
  entry_protocol = "openai-response";
  exit_protocol = "openai-response";
  model = req.model;
  stream = stream;
  body = req.original_request;
  headers = header_to_map req.headers;
  query = header_to_map req.query;
  alt = req.alt;
  host_callback_id = req.host_callback_id;
}

abbrev delegate_reply : Result HostCallbackResult × Calls → Result Reply × Calls
delegate_reply (ok resp, calls) = (ok (delegated resp.body resp.headers), calls)
delegate_reply (err _, calls) =
    (err (plugin_err (bridge_failed "bridged compaction failed")), calls)

unfoldable pub delegate_ordinary : Env → ExecutorRequest → Bool → Run Reply
delegate_ordinary env req stream calls =
    delegate_reply (host_execute env (ordinary_call req stream) calls)

abbrev pub ordinary_failure : Option PluginErr → PluginErr
ordinary_failure (some state_err) = state_err
ordinary_failure none = bridge_failed "bridged compaction failed"

unfoldable pub execute_ordinary_bridged : Env → ExecutorRequest → Bool → Run Reply
execute_ordinary_bridged env req stream calls =
    elim (normalize_compaction_state req.original_request bridge) [
      | err e ↦ (err (plugin_err (ordinary_failure (as_invalid_compaction_state e))), calls)
      | ok result ↦
          delegate_ordinary env (record req { original_request = result.body }) stream calls
    ]

-- handleExecute on a decoded request.
unfoldable pub handle_execute : Env → Config → ExecutorRequest → Bool → Run Reply
handle_execute env cfg req stream calls =
    let decision = decide_route cfg req.model in
    if not decision.handled || not decision.bridged
    then delegate_ordinary env req stream calls
    else if detect_v1_compact req.alt req.stream
    then execute_v1_compact env cfg req decision calls
    else if stream && detect_v2_trigger_from_request req.original_request
    then execute_v2_compact env cfg req decision calls
    else if stream
    then (err (plugin_err (bridge_failed "unexpected ordinary streaming bridge request")), calls)
    else execute_ordinary_bridged env req stream calls
