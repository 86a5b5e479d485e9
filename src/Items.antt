-- ===== src/Items.antt =====
-- plugin/responses.go, and parseRequestInputItems of plugin/main.go: the view of a Responses
-- request's input items that the bridge works with.
use Prim.Native.String.{len}
use cpa_codex_compact_bridge.Common.{
  String, Bool, false, ◌&&◌, not, List, [], ◌∷◌, Option, none, some, ◌==◌, ltb, any, if◌then◌else◌,
}
use cpa_codex_compact_bridge.Go.Json.{Json, null, obj, Body, json, Fields}
use cpa_codex_compact_bridge.Go.Struct.{fields_of, string_field, list_field, list_field_ok}
use cpa_codex_compact_bridge.Go.Strings.{has_prefix}

pub record InputItem : Type 0 where
  pub type : String
  pub id : String
  pub role : String
  pub encrypted_content : String
  pub raw : Json

abbrev pub compaction_id_prefix : String
compaction_id_prefix = "cpa_compact_"

abbrev pub compaction_trigger_type : String
compaction_trigger_type = "compaction_trigger"

abbrev pub compaction_type : String
compaction_type = "compaction"

-- One round of parseInputItems: an entry that is no object, or has fields of other types, leaves
-- those fields empty.
unfoldable pub parse_input_item : Json → InputItem
parse_input_item entry = record {
  type = string_field "type" (fields_of entry);
  id = string_field "id" (fields_of entry);
  role = string_field "role" (fields_of entry);
  encrypted_content = string_field "encrypted_content" (fields_of entry);
  raw = entry;
}

unfoldable pub parse_input_items : List Json → List InputItem
parse_input_items [] = []
parse_input_items (entry ∷ entries) = parse_input_item entry ∷ parse_input_items entries

unfoldable pub is_cpa_compaction : InputItem → Bool
is_cpa_compaction item =
    item.type == compaction_type
    && ltb (len compaction_id_prefix) (len item.id)
    && has_prefix item.id compaction_id_prefix

unfoldable pub is_compaction_trigger : InputItem → Bool
is_compaction_trigger item = item.type == compaction_trigger_type

unfoldable pub is_compaction_item_any : InputItem → Bool
is_compaction_item_any item = item.type == compaction_type

-- The last input item is a trigger.
unfoldable pub detect_v2_trigger : List InputItem → Bool
detect_v2_trigger [] = false
detect_v2_trigger (item ∷ []) = is_compaction_trigger item
detect_v2_trigger (item ∷ next ∷ items) = detect_v2_trigger (next ∷ items)

abbrev pub alt_responses_compact : String
alt_responses_compact = "responses/compact"

unfoldable pub detect_v1_compact : String → Bool → Bool
detect_v1_compact alt stream = alt == alt_responses_compact && not stream

abbrev pub drop_last : List InputItem → List InputItem
drop_last [] = []
drop_last (item ∷ []) = []
drop_last (item ∷ next ∷ items) = item ∷ drop_last (next ∷ items)

unfoldable pub remove_last_compaction_trigger : List InputItem → List InputItem
remove_last_compaction_trigger items = if detect_v2_trigger items then drop_last items else items

-- The keys stand in the order in which json.Marshal writes a map.
unfoldable pub compact_to_user_message : InputItem → Json
compact_to_user_message item = obj (
    Fields.field "content" (Json.str item.encrypted_content)
      (Fields.field "role" (Json.str "user") (Fields.field "type" (Json.str "message") Fields.end)))

-- hasCompactionItems of plugin/replay.go.
unfoldable pub has_compaction_items : List InputItem → Bool
has_compaction_items items = any is_compaction_item_any items

-- parseRequestInputItems: a struct with the one field `input`.
unfoldable pub parse_request_input_items : Body → Option (List InputItem)
parse_request_input_items (json (obj fs)) =
    if list_field_ok "input" fs then some (parse_input_items (list_field "input" fs)) else none
parse_request_input_items (json null) = some []
parse_request_input_items _ = none
