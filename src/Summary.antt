-- ===== src/Summary.antt =====
-- plugin/payload.go, the reading of a summary response: extractSummaryText and extractAssistantText,
-- over the two shapes of a response.
pub mod Shapes
pub mod Accepted
pub mod Complete
pub mod Failures
use Prim.Native.String
use cpa_codex_compact_bridge.Common.{String, Option, none, some, if◌then◌else◌}
use cpa_codex_compact_bridge.Errors.{◌>>=◌, Err, plugin_err, Result, ok, err, summary_failure}
use cpa_codex_compact_bridge.Go.Strings.{trim_space}
use cpa_codex_compact_bridge.Go.Json.{Json, Body, read_body, is_json_array}
use cpa_codex_compact_bridge.Go.RawMap.{RawMap, lookup, raw_map}
use cpa_codex_compact_bridge.Responses.{usable, extract_responses_assistant_text}
use cpa_codex_compact_bridge.Chat.{extract_chat_assistant_text}

-- extractAssistantText on the decoded envelope, by its `output` and `choices`.
unfoldable pub extract_envelope : RawMap → Option Json → Option Json → Result String
extract_envelope envelope (some output) (some choices) =
    err (summary_failure "summary response has multiple terminal shapes")
extract_envelope envelope (some output) none =
    if is_json_array output
    then extract_responses_assistant_text envelope
    else err (summary_failure "summary response has unknown terminal shape")
extract_envelope envelope none (some choices) =
    if is_json_array choices
    then extract_chat_assistant_text choices
    else err (summary_failure "summary response has unknown terminal shape")
extract_envelope envelope none none = elim (lookup "status" envelope) [
  | some status ↦ extract_responses_assistant_text envelope
  | none ↦ err (summary_failure "summary response has unknown terminal shape")
]

unfoldable pub extract_assistant_text : Body → Result String
extract_assistant_text body = do
  value ← read_body body
  envelope ← raw_map value
  extract_envelope envelope (lookup "output" envelope) (lookup "choices" envelope)

-- An error of the program stays; any other becomes the generic failure.
unfoldable pub summary_error : Err → Err
summary_error (plugin_err e) = plugin_err e
summary_error _ = summary_failure "summary model produced no usable text"

unfoldable pub extract_summary_text : Body → Result String
extract_summary_text body = elim (extract_assistant_text body) [
  | ok text ↦ usable (trim_space text)
  | err e ↦ err (summary_error e)
]
