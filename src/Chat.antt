-- ===== src/Chat.antt =====
-- plugin/payload.go, a summary in the shape of the Chat Completions API: extractChatAssistantText.

use cpa_codex_compact_bridge.Common.{
  String, Bool, true, ◌&&◌, List, [], ◌∷◌, map, Option, none, some, ◌==◌, if◌then◌else◌,
}
use cpa_codex_compact_bridge.Errors.{◌>>=◌, ◌>>◌, other, Result, ok, err, summary_failure}
use cpa_codex_compact_bridge.Go.Json.{Json, null, str, arr, elems, Fields, end, field}
use cpa_codex_compact_bridge.Go.Struct.{fields_of, folds_to, string_field_ok, raw_from}
use cpa_codex_compact_bridge.Responses.{has_json_value, every, is_struct, usable}

-- One element of `choices`; successive values of `message` are read into one struct.
pub record Choice : Type 0 where
  pub finish_reason : Option String
  pub content : Option Json
  pub tool_calls : Option Json

unfoldable pub finish_reason_ok : Fields → Bool
finish_reason_ok fs = string_field_ok "finish_reason" fs

-- A field of type `*string`.
unfoldable pub pointer_from : String → Option String → Fields → Option String
pointer_from name old end = old
pointer_from name old (field k (str s) fs) =
    pointer_from name (if folds_to k name then some s else old) fs
pointer_from name old (field k v fs) = pointer_from name (if folds_to k name then none else old) fs

unfoldable pub message_from : String → Option Json → Fields → Option Json
message_from name old end = old
message_from name old (field k v fs) =
    message_from name (if folds_to k "message" then raw_from name old (fields_of v) else old) fs

unfoldable pub message_ok : Fields → Bool
message_ok end = true
message_ok (field k v fs) = (if folds_to k "message" then is_struct v else true) && message_ok fs

unfoldable pub choice_ok : Json → Bool
choice_ok v = is_struct v && finish_reason_ok (fields_of v) && message_ok (fields_of v)

unfoldable pub read_choice : Json → Choice
read_choice v = record {
  finish_reason = pointer_from "finish_reason" none (fields_of v);
  content = message_from "content" none (fields_of v);
  tool_calls = message_from "tool_calls" none (fields_of v);
}

unfoldable pub read_choices : Json → Result (List Choice)
read_choices (arr vs) =
    if every choice_ok (elems vs)
    then ok (map read_choice (elems vs))
    else err (other "json: cannot unmarshal choices")
read_choices null = ok []
read_choices _ = err (other "json: cannot unmarshal choices")

-- The switch on a finish reason.
unfoldable pub check_finish : String → Result (Unit {0})
check_finish reason =
    if reason == "stop"
    then ok tt
    else if reason == "length"
    then err (summary_failure "summary upstream truncated (finish_reason=length)")
    else if reason == "max_tokens"
    then err (summary_failure "summary upstream truncated (finish_reason=max_tokens)")
    else if reason == "tool_calls"
    then err (summary_failure "summary upstream returned tool call")
    else if reason == "content_filter"
    then err (summary_failure "summary upstream incomplete (finish_reason=content_filter)")
    else err (summary_failure "summary upstream invalid terminal status")

-- The content of a message, as a text.
unfoldable pub choice_text : Option Json → Result String
choice_text (some (str s)) = usable s
choice_text _ = err (summary_failure "summary model produced no usable text")

unfoldable pub read_first_choice : List Choice → Result String
read_first_choice [] = err (summary_failure "summary text missing terminal status")
read_first_choice (choice ∷ _) = elim choice.finish_reason [
  | none ↦ err (summary_failure "summary text missing terminal status")
  | some reason ↦ do
    check_finish reason
    if has_json_value choice.tool_calls
        then err (summary_failure "summary upstream returned tool call")
        else choice_text choice.content
]

unfoldable pub extract_chat_assistant_text : Json → Result String
extract_chat_assistant_text choices = do read ← read_choices choices; read_first_choice read
