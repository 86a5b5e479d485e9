-- ===== src/Responses.antt =====
-- plugin/payload.go, a summary in the shape of the Responses API: extractResponsesAssistantText and what
-- it calls. Of an error of json.Unmarshal at a part of the response the text is not modelled;
-- extractSummaryText drops it.
use Prim.Native.String
use cpa_codex_compact_bridge.Common.{
  String, Bool, true, false, ◌&&◌, ◌||◌, List, [], ◌∷◌, map, Option, none, some, ◌==◌,
  if◌then◌else◌,
}
use cpa_codex_compact_bridge.Errors.{◌>>=◌, Err, other, Result, ok, err, ◌>>◌, summary_failure}
use cpa_codex_compact_bridge.Go.Json.{
  Json, null, arr, obj, nil, elems, Fields, end, field, raw_string,
}
use cpa_codex_compact_bridge.Go.RawMap.{RawMap, lookup}
use cpa_codex_compact_bridge.Go.Struct.{
  fields_of, folds_to, string_field, string_field_ok, string_from, structs_field,
}

-- hasJSONValue; an absent value is the empty RawMessage.
unfoldable pub has_json_value : Option Json → Bool
has_json_value none = false
has_json_value (some null) = false
has_json_value (some (arr nil)) = false
has_json_value (some _) = true

pub record ResponseOutputContent : Type 0 where
  pub type : String
  pub text : String

pub record ResponseOutputItem : Type 0 where
  pub type : String
  pub role : String
  pub content : List ResponseOutputContent

unfoldable pub every {ℓ} : {A : Type ℓ} → (A → Bool) → List A → Bool
every p [] = true
every p (x ∷ xs) = p x && every p xs

-- A value that a struct is read from is an object or null.
unfoldable pub is_struct : Json → Bool
is_struct (obj fs) = true
is_struct null = true
is_struct _ = false

unfoldable pub content_ok : Json → Bool
content_ok v =
    is_struct v && string_field_ok "type" (fields_of v) && string_field_ok "text" (fields_of v)

abbrev no_content : ResponseOutputContent
no_content = record { type = ""; text = "" }

-- json.Unmarshal into a responseOutputContent, over what it holds.
unfoldable pub read_content : ResponseOutputContent → Json → ResponseOutputContent
read_content old v = record {
  type = string_from "type" old.type (fields_of v);
  text = string_from "text" old.text (fields_of v);
}

-- A value of the field `content` of an output item.
unfoldable pub contents_ok : Json → Bool
contents_ok (arr vs) = every content_ok (elems vs)
contents_ok null = true
contents_ok _ = false

unfoldable pub content_fields_ok : Fields → Bool
content_fields_ok end = true
content_fields_ok (field k v fs) =
    (if folds_to k "content" then contents_ok v else true) && content_fields_ok fs

unfoldable pub output_item_ok : Json → Bool
output_item_ok v =
    is_struct v
    && string_field_ok "type" (fields_of v)
    && string_field_ok "role" (fields_of v)
    && content_fields_ok (fields_of v)

unfoldable pub read_output_item : Json → ResponseOutputItem
read_output_item v = record {
  type = string_field "type" (fields_of v);
  role = string_field "role" (fields_of v);
  content = structs_field read_content no_content "content" (fields_of v);
}

-- json.Unmarshal into a `[]responseOutputItem`; an absent `output` leaves it nil.
unfoldable pub read_output : Option Json → Result (List ResponseOutputItem)
read_output none = ok []
read_output (some (arr vs)) =
    if every output_item_ok (elems vs)
    then ok (map read_output_item (elems vs))
    else err (other "json: cannot unmarshal output")
read_output (some null) = ok []
read_output (some _) = err (other "json: cannot unmarshal output")

unfoldable pub valid_status : String → Result String
valid_status status =
    if status == "completed" || status == "incomplete" || status == "failed"
    then ok status
    else err (summary_failure "summary upstream invalid terminal status")

unfoldable pub response_status_of : Option Json → Result String
response_status_of none = err (summary_failure "summary upstream invalid terminal status")
response_status_of (some null) = err (summary_failure "summary upstream invalid terminal status")
response_status_of (some v) = elim (raw_string v) [
  | ok status ↦ valid_status status
  | err _ ↦ err (summary_failure "summary upstream invalid terminal status")
]

unfoldable pub response_status : RawMap → Result String
response_status envelope = response_status_of (lookup "status" envelope)

unfoldable pub is_call_type : String → Bool
is_call_type t =
    t == "function_call"
    || t == "custom_tool_call"
    || t == "tool_call"
    || t == "function_call_output"
    || t == "computer_call"
    || t == "mcp_call"
    || t == "web_search_call"
    || t == "file_search_call"
    || t == "code_interpreter_call"

unfoldable pub is_call_content : ResponseOutputContent → Bool
is_call_content c =
    c.type == "function_call"
    || c.type == "custom_tool_call"
    || c.type == "tool_call"
    || c.type == "function_call_output"

-- The inner loop of responseOutputItemFailure.
unfoldable pub check_contents : List ResponseOutputContent → Result (Unit {0})
check_contents [] = ok tt
check_contents (c ∷ cs) =
    if is_call_content c
    then err (summary_failure "summary upstream returned tool call")
    else check_contents cs

unfoldable pub check_output_item : ResponseOutputItem → Result (Unit {0})
check_output_item item =
    if item.type == "message" || item.type == "reasoning"
    then check_contents item.content
    else if is_call_type item.type
    then err (summary_failure "summary upstream returned tool call")
    else err (summary_failure "summary upstream returned unsupported output item")

-- responseOutputItemFailure; `ok` for nil.
unfoldable pub response_output_item_failure : List ResponseOutputItem → Result (Unit {0})
response_output_item_failure [] = ok tt
response_output_item_failure (item ∷ items) =
    check_output_item item >> response_output_item_failure items

unfoldable pub incomplete_reason : String → Err
incomplete_reason reason =
    if reason == "max_output_tokens" || reason == "content_filter"
    then summary_failure
        (String.◌++◌ "summary upstream incomplete (reason=" (String.◌++◌ reason ")"))
    else summary_failure "summary upstream incomplete"

unfoldable pub incomplete_details : Option Json → Err
incomplete_details (some (obj fs)) =
    if string_field_ok "reason" fs
    then incomplete_reason (string_field "reason" fs)
    else summary_failure "summary upstream incomplete"
incomplete_details _ = summary_failure "summary upstream incomplete"

unfoldable pub incomplete_response_failure : RawMap → Err
incomplete_response_failure envelope = incomplete_details (lookup "incomplete_details" envelope)

-- The text of an assistant message's contents.
unfoldable pub content_text : List ResponseOutputContent → String
content_text [] = ""
content_text (c ∷ cs) =
    let rest = content_text cs in
    if c.type == "output_text" || c.type == "text" then String.◌++◌ c.text rest else rest

-- The text that the builder of extractResponsesAssistantText collects.
unfoldable pub output_text : List ResponseOutputItem → String
output_text [] = ""
output_text (item ∷ items) =
    let rest = output_text items in
    if item.type == "message" && item.role == "assistant"
    then String.◌++◌ (content_text item.content) rest
    else rest

unfoldable pub usable : String → Result String
usable text =
    if text == "" then err (summary_failure "summary model produced no usable text") else ok text

unfoldable pub terminal_text : RawMap → List ResponseOutputItem → String → Result String
terminal_text envelope output status =
    if status == "failed"
    then err (summary_failure "summary upstream failed (status=failed)")
    else if status == "incomplete" || has_json_value (lookup "incomplete_details" envelope)
    then err (incomplete_response_failure envelope)
    else usable (output_text output)

unfoldable pub extract_responses_assistant_text : RawMap → Result String
extract_responses_assistant_text envelope = do
  output ← read_output (lookup "output" envelope)
  status ← response_status envelope
  response_output_item_failure output
  terminal_text envelope output status
