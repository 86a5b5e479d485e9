-- ===== src/Payload.antt =====
-- plugin/payload.go, the bodies that the facade answers with. json.Marshal writes the keys of a map
-- in dictionary order, which is the order of the fields here. A frame of a stream stands for the
-- text `data: `, the frame's JSON and two newlines.
pub mod RoundTrip
pub mod Continue
pub mod Frames
use Prim.Native.String
use cpa_codex_compact_bridge.Common.{
  String, Bool, true, false, ◌&&◌, ◌||◌, List, [], ◌∷◌, ◌++◌, ◌==◌, if◌then◌else◌,
}
use cpa_codex_compact_bridge.Errors.{Result, ok, err, other, ◌>>=◌, err_code_compact_bridge_failed}
use cpa_codex_compact_bridge.Go.Strings.{is_blank}
use cpa_codex_compact_bridge.Go.Json.{Json, str, obj, Fields, end, field, compact, marshal_list}
use cpa_codex_compact_bridge.Items.{InputItem, compaction_type}

-- v2CompactionItemJSON: a blank summary is refused.
unfoldable pub v2_compaction_item_json : String → String → Result Json
v2_compaction_item_json id summary =
    if is_blank summary
    then err (other "refusing to store a blank compaction summary")
    else ok (
        obj (
          field "encrypted_content" (str summary)
            (field "id" (str id) (field "type" (str compaction_type) end))))

unfoldable pub is_retained : InputItem → Bool
is_retained item = item.type == "message" && (item.role == "user" || item.role == "developer")

-- The loop of v1CompactResponseBody.
unfoldable pub retained_items : List InputItem → List Json
retained_items [] = []
retained_items (item ∷ items) =
    let rest = retained_items items in if is_retained item then item.raw ∷ rest else rest

unfoldable pub v1_compact_response_body : List InputItem → String → String → Result Json
v1_compact_response_body items item_id summary = do
  compaction_item ← v2_compaction_item_json item_id summary
  ok (obj (field "output" (marshal_list (retained_items items ++ compaction_item ∷ [])) end))

-- v2SSEEvents: the two frames of a V2 compact response.
unfoldable pub v2_sse_events : String → String → Result (List Json)
v2_sse_events item_id summary = do
  compaction_item ← v2_compaction_item_json item_id summary
  ok (
      obj (
        field "item" (compact compaction_item) (field "type" (str "response.output_item.done") end))
      ∷ obj (
          field "response" (obj (field "id" (str (String.◌++◌ "resp_" item_id)) end))
            (field "type" (str "response.completed") end))
      ∷ [])

-- v2ResponseFailedSSE: the single failure frame.
unfoldable pub v2_response_failed_sse : String → List Json
v2_response_failed_sse message =
    obj (
      field "response"
        (obj (
          field "error"
            (obj (
              field "code" (str err_code_compact_bridge_failed)
                (field "message" (str message) end)))
            (field "id" (str "resp_cpa_compact_failed") end)))
        (field "type" (str "response.failed") end))
    ∷ []
