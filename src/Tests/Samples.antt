-- ===== src/Tests/Samples.antt =====
-- Requests, a configuration, a host and an SDK for the tests.
use cpa_codex_compact_bridge.Common.{String, true, false, List, [], ◌∷◌, none}
use cpa_codex_compact_bridge.Common.Int.{pos}
use cpa_codex_compact_bridge.Go.Json.{Json, str, arr, obj, end, field, Body, json, from_list}
use cpa_codex_compact_bridge.Go.RawMap.{RawMap}
use cpa_codex_compact_bridge.Config.{Rule, Config, default_config}
use cpa_codex_compact_bridge.Host.{HostCall, HostCallbackResult, HostResponse, model_response}
use cpa_codex_compact_bridge.Executor.{Env, ExecutorRequest}

abbrev pub compaction : String → String → Json
compaction id content = obj (
    field "encrypted_content" (str content)
      (field "id" (str id) (field "type" (str "compaction") end)))

-- A compaction item of the upstream, one of the bridge, and one of the bridge without a summary.
abbrev pub native_item : Json
native_item = compaction "cmp_1" "gAAAA"

abbrev pub bridged_item : Json
bridged_item = compaction "cpa_compact_1" "The user fixed the parser."

abbrev pub blank_item : Json
blank_item = compaction "cpa_compact_2" "  "

abbrev pub question : Json
question = obj (
    field "content" (str "And now?") (field "role" (str "user") (field "type" (str "message") end)))

abbrev pub restored_summary : Json
restored_summary = obj (
    field "content" (str "The user fixed the parser.")
      (field "role" (str "user") (field "type" (str "message") end)))

abbrev pub trigger : Json
trigger = obj (field "type" (str "compaction_trigger") end)

abbrev pub parsed_of : List Json → RawMap
parsed_of raws = ("input", arr (from_list raws)) ∷ ("model", str "gpt-5") ∷ []

abbrev pub body_of : List Json → Body
body_of raws = json (obj (field "model" (str "gpt-5") (field "input" (arr (from_list raws)) end)))

abbrev pub bridge_rule : Rule
bridge_rule = record { match = "gpt-*"; action = "bridge"; summary_model = "" }

abbrev pub bridging : Config
bridging = record default_config { rules = bridge_rule ∷ [] }

abbrev pub summary_text : String
summary_text = "The user fixed the parser."

-- A completed response of the Responses API.
abbrev pub completed_response : Json
completed_response = obj (
    field "output"
      (arr (
        from_list (
          obj (
            field "content"
              (arr (
                from_list (
                  obj (field "text" (str summary_text) (field "type" (str "output_text") end))
                  ∷ [])))
              (field "role" (str "assistant") (field "type" (str "message") end)))
          ∷ [])))
      (field "status" (str "completed") end))

abbrev pub response : HostCallbackResult
response = record { status_code = pos 200; headers = []; body = json completed_response }

abbrev answer : HostCall
answer = record {
  call_code = pos 0;
  response =
      HostResponse.envelope
        (record { is_ok = true; result = model_response response; error = none });
}

abbrev pub env : Env
env = record { host = λ calls request. answer; uuid = λ calls. "7" }

abbrev pub request_of : Body → ExecutorRequest
request_of body = record {
  model = "gpt-5";
  alt = "responses/compact";
  stream = false;
  original_request = body;
  headers = [];
  query = [];
  host_callback_id = "cb";
}
