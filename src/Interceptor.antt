-- ===== src/Interceptor.antt =====
-- plugin/interceptor.go, on a decoded request: normalizeInterceptedReplay and the bodies of its errors.

pub mod Policy
use cpa_codex_compact_bridge.Common.{
  ℕ, String, Bool, true, false, ◌||◌, not, List, [], ◌∷◌, Option, none, some, ◌==◌, if◌then◌else◌,
}
use cpa_codex_compact_bridge.Errors.{
  PluginErr, Result, ok, err, as_invalid_compaction_state, err_code_compact_bridge_failed,
}
use cpa_codex_compact_bridge.Go.Json.{str, obj, end, field, Body, empty, json}
use cpa_codex_compact_bridge.Items.{InputItem, parse_request_input_items, has_compaction_items}
use cpa_codex_compact_bridge.State.{ReplayResult, normalize_compaction_state}
use cpa_codex_compact_bridge.Config.{Config, decide_route, compaction_target_for}
use cpa_codex_compact_bridge.Host.{Headers}

-- The fields of the SDK's RequestInterceptRequest that the program reads.
pub record RequestInterceptRequest : Type 0 where
  pub source_format : String
  pub requested_model : String
  pub body : Body

-- An empty body, and `terminate` false, leave the request as it is.
pub record RequestInterceptResponse : Type 0 where
  pub terminate : Bool
  pub status_code : ℕ
  pub response_headers : Headers
  pub response_body : Body
  pub body : Body

-- errorBody: the keys stand in the order in which json.Marshal writes a map.
unfoldable pub error_body : String → String → String → Body
error_body code message err_type = json (
    obj (
      field "error"
        (obj (
          field "code" (str code)
            (field "message" (str message) (field "type" (str err_type) end))))
        end))

unfoldable pub compact_bridge_failure_body : Body
compact_bridge_failure_body =
    error_body err_code_compact_bridge_failed "bridged compaction failed" "server_error"

abbrev pub json_headers : Headers
json_headers = ("Content-Type", "application/json" ∷ []) ∷ []

-- The empty RequestInterceptResponse.
abbrev pub leave_request : RequestInterceptResponse
leave_request = record {
  terminate = false;
  status_code = 0;
  response_headers = [];
  response_body = empty;
  body = empty;
}

abbrev pub terminate_with : ℕ → Body → RequestInterceptResponse
terminate_with status body = record {
  terminate = true;
  status_code = status;
  response_headers = json_headers;
  response_body = body;
  body = empty;
}

abbrev reject : Option PluginErr → RequestInterceptResponse
reject (some e) = terminate_with e.http_status (error_body e.code e.message "invalid_request_error")
reject none = terminate_with 502 compact_bridge_failure_body

-- The response to the outcome of the state policy.
unfoldable pub intercept_result : Result ReplayResult → RequestInterceptResponse
intercept_result (err e) = reject (as_invalid_compaction_state e)
intercept_result (ok result) =
    if not result.changed then leave_request else record leave_request { body = result.body }

abbrev has_items : Option (List InputItem) → Bool
has_items none = false
has_items (some items) = has_compaction_items items

unfoldable pub normalize_intercepted_replay :
    Config → RequestInterceptRequest → RequestInterceptResponse
normalize_intercepted_replay cfg req =
    if not (req.source_format == "openai-response")
      || not (has_items (parse_request_input_items req.body))
    then leave_request
    else intercept_result (
        normalize_compaction_state req.body
          (compaction_target_for (decide_route cfg req.requested_model)))
