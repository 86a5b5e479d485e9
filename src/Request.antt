-- ===== src/Request.antt =====
-- plugin/main.go, the request to the summary model: buildSummaryRequestBody, and the removal of
-- images from its input.
pub mod Upstream
pub mod Parts
pub mod Images
use Prim.Native.String
use Prim.Native.String.{len}
use cpa_codex_compact_bridge.Common.{
  String, Bool, true, false, ◌||◌, not, List, [], ◌∷◌, ◌++◌, Option, none, some, ◌==◌, any,
  if◌then◌else◌,
}
use cpa_codex_compact_bridge.Common.Int.{ℤ, pos, ltb_ℤ}
use cpa_codex_compact_bridge.Errors.{
  Err, plugin_err, Result, ok, err, ◌>>=◌, error_text, summary_failure,
}
use cpa_codex_compact_bridge.Go.Strings.{is_blank, has_suffix}
use cpa_codex_compact_bridge.Go.Format.{format_int}
use cpa_codex_compact_bridge.Go.Json.{
  Json, null, bool, num, str, arr, obj, nil, end, field, Body, empty, json, malformed, read_body,
  raw_list, marshal_list,
}
use cpa_codex_compact_bridge.Go.RawMap.{RawMap, lookup, insert, delete, raw_map, marshal_map}
use cpa_codex_compact_bridge.Config.{Config, glob_match}

abbrev pub codex_local_compact_prompt : String
codex_local_compact_prompt =
    "You are performing a CONTEXT CHECKPOINT COMPACTION. Create a handoff summary for another LLM that will resume the task.\n\nInclude:\n- Current progress and key decisions made\n- Important context, constraints, or user preferences\n- What remains to be done (clear next steps)\n- Any critical data, examples, or references needed to continue\n\nBe concise, structured, and focused on helping the next LLM seamlessly continue the work.\n"

abbrev pub compact_guard : String
compact_guard = "Do not answer the user. Do not call tools. Output only the continuation summary."

-- fmtSummaryBody
unfoldable pub fmt_summary_body : Err → Err
fmt_summary_body e = plugin_err (record {
  code = "summary_encode_failed";
  message = String.◌++◌ "encode summary body: " (error_text e);
  http_status = 0;
})

unfoldable pub or_encode_error {ℓ} : {A : Type ℓ} → Result A → Result A
or_encode_error (ok a) = ok a
or_encode_error (err e) = err (fmt_summary_body e)

unfoldable pub summary_model_allows_images : String → List String → Bool
summary_model_allows_images summary_model image_models =
    any (λ model. glob_match model summary_model) image_models

-- A content part whose `type` is the text "input_image".
abbrev pub is_image_type : Option Json → Bool
is_image_type (some (str s)) = s == "input_image"
is_image_type _ = false

-- The `detail` that an `image_url` object holds.
abbrev pub detail_of : Option Json → Option Json
detail_of (some (obj fs)) = elim (raw_map (obj fs)) [ ok m ↦ lookup "detail" m | err _ ↦ none ]
detail_of _ = none

-- A `detail` of the part's own stays; otherwise that of its `image_url` moves up.
unfoldable pub keep_detail : RawMap → RawMap
keep_detail part = elim (lookup "detail" part) [
  | some own ↦ part
  | none ↦ elim (detail_of (lookup "image_url" part)) [
    | some detail ↦ insert "detail" detail part
    | none ↦ part
  ]
]

-- The part that stands in for an image.
unfoldable pub replace_image : RawMap → RawMap
replace_image part =
    insert "text" (str "[image removed]")
      (insert "type" (str "input_text") (delete "image_url" (keep_detail part)))

-- One round of the inner loop of stripSummaryInputImages: the part, and whether it was replaced.
unfoldable pub strip_part : Json → Result (Json × Bool)
strip_part part = do
  content_part ← raw_map part
  ok (
      if is_image_type (lookup "type" content_part)
      then (marshal_map (replace_image content_part), true)
      else (part, false))

unfoldable pub strip_parts : List Json → Result (List Json × Bool)
strip_parts [] = ok ([], false)
strip_parts (part ∷ parts) = do
  (first, replaced) ← strip_part part
  (rest, changed) ← strip_parts parts
  ok (first ∷ rest, replaced || changed)

-- A message whose content is an array, with its parts.
unfoldable pub strip_content : Json → RawMap → Result (List Json) → Result Json
strip_content item message (err _) = ok item
strip_content item message (ok parts) = do
  (stripped, changed) ← strip_parts parts
  ok (if changed then marshal_map (insert "content" (marshal_list stripped) message) else item)

-- One round of the outer loop.
unfoldable pub strip_item : Json → Result Json
strip_item item = do
  message ← raw_map item
  elim (lookup "content" message) [
    | none ↦ ok item
    | some content ↦ strip_content item message (raw_list content)
  ]

unfoldable pub strip_items : List Json → Result (List Json)
strip_items [] = ok []
strip_items (item ∷ items) = do first ← strip_item item; rest ← strip_items items; ok (first ∷ rest)

unfoldable pub strip_summary_input_images : List Json → String → List String → Result (List Json)
strip_summary_input_images items summary_model image_models =
    if summary_model_allows_images summary_model image_models then ok items else strip_items items

-- The prompt before the guard.
unfoldable pub base_prompt : Config → String
base_prompt cfg =
    if cfg.compact_prompt_set || not (is_blank cfg.compact_prompt)
    then cfg.compact_prompt
    else codex_local_compact_prompt

unfoldable pub with_guard : String → String
with_guard prompt =
    if has_suffix prompt "\n"
    then String.◌++◌ prompt compact_guard
    else String.◌++◌ (String.◌++◌ prompt "\n") compact_guard

-- The instruction that ends the summary's input; a blank prompt adds none.
unfoldable pub compact_instruction : Config → List Json
compact_instruction cfg =
    if is_blank (base_prompt cfg)
    then []
    else obj (
        field "content"
          (str (if cfg.append_tool_guard then with_guard (base_prompt cfg) else base_prompt cfg))
          (field "role" (str "user") (field "type" (str "message") end)))
      ∷ []

-- `body[k] = v` where `v` is there.
unfoldable pub insert_found : String → Option Json → RawMap → RawMap
insert_found k none body = body
insert_found k (some v) body = insert k v body

-- json.Marshal of the input: where images are allowed the slice is a copy, and the copy of no item is
-- the nil slice, which is written null.
unfoldable pub encode_input : Bool → List Json → Json
encode_input true [] = null
encode_input _ input = marshal_list input

-- The fields of the summary request, from those of the original request.
unfoldable pub summary_fields : RawMap → String → Json → Config → RawMap
summary_fields parsed summary_model input cfg =
    insert_found "service_tier"
      (if cfg.forward_service_tier then lookup "service_tier" parsed else none)
      (insert_found "reasoning" (lookup "reasoning" parsed) (
        insert_found "instructions" (lookup "instructions" parsed) (
          insert_found "max_output_tokens"
            (if ltb_ℤ (pos 0) cfg.max_summary_tokens
              then some (num (format_int cfg.max_summary_tokens))
              else none)
            (insert "stream" (bool false) (
              insert "parallel_tool_calls" (bool false) (
                insert "tools" (arr nil)
                  (insert "input" input (insert "model" (str summary_model) []))))))))

-- The original request as a map; an empty one is the empty map.
unfoldable pub parse_original : Body → Result RawMap
parse_original empty = ok []
parse_original (json v) = raw_map v
parse_original (malformed text) = read_body (malformed text) >>= raw_map

unfoldable pub build_summary_request_body : Body → String → List Json → Config → Result Body
build_summary_request_body original summary_model clean_input cfg = do
  parsed ← or_encode_error (parse_original original)
  filtered ←
      or_encode_error
        (strip_summary_input_images clean_input summary_model cfg.summary_image_models)
  ok (
      json (
        marshal_map (
          summary_fields parsed summary_model
            (encode_input (summary_model_allows_images summary_model cfg.summary_image_models)
              (filtered ++ compact_instruction cfg))
            cfg)))

-- validateSummarySize: the size is in bytes.
unfoldable pub validate_summary_size : String → ℤ → Result (Unit {0})
validate_summary_size summary max_bytes =
    if ltb_ℤ max_bytes (pos (len summary))
    then err (
        summary_failure
          (String.◌++◌ "summary exceeds " (String.◌++◌ (format_int max_bytes) " bytes")))
    else ok tt
