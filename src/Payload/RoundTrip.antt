-- ===== src/Payload/RoundTrip.antt =====
-- A summary that the facade stores comes back as a user message on the next turn.
use Prim.Native.String
use Prim.Native.String.{len, slice}
use Prim.Native.String.len
use text.Mathlib.TextPositions.{len-append, slice-append_left, len_utf8-pos}
use cpa_codex_compact_bridge.Common.{String, ◌≡◌, refl, ◌≢◌, true, false, arith, ltb}
use cpa_codex_compact_bridge.Errors.{ok}
use cpa_codex_compact_bridge.Go.Strings.{is_blank, has_prefix}
use cpa_codex_compact_bridge.Go.Json.{Json, str, obj, end, field}
use cpa_codex_compact_bridge.Go.Struct.{string_field}
use cpa_codex_compact_bridge.Items.{
  InputItem, parse_input_item, is_cpa_compaction, is_compaction_item_any, compact_to_user_message,
  compaction_id_prefix,
}
use cpa_codex_compact_bridge.State.{plaintext, compaction_record_of, is_restorable}
use cpa_codex_compact_bridge.State.Restore.{restore}
use cpa_codex_compact_bridge.Payload.{v2_compaction_item_json}

-- The ordinary user message with a summary.
abbrev pub user_message : String → Json
user_message summary =
    obj
      (field "content" (str summary) (field "role" (str "user") (field "type" (str "message") end)))

-- An item ID of the facade: the marker and a text that is not empty.
abbrev pub bridge_id : String → String
bridge_id unique = String.◌++◌ compaction_id_prefix unique

len-pos : (s : String) → s ≢ "" → ltb 0 (len s) ≡ true
len-pos String.[] h = absurd (h refl)
len-pos (String.◌∷◌ c s) h = ground (arith, len.cons c s, (len_utf8-pos c).1)

bridge_id-longer :
    (unique : String) → unique ≢ "" → ltb (len compaction_id_prefix) (len (bridge_id unique)) ≡ true
bridge_id-longer unique h =
    rw (len-append compaction_id_prefix unique) (ground (arith, len-pos unique h))

bridge_id-prefix : (unique : String) → has_prefix (bridge_id unique) compaction_id_prefix ≡ true
unfolding has_prefix
bridge_id-prefix unique =
    rw (slice-append_left compaction_id_prefix unique, len-append compaction_id_prefix unique)
      (ground arith)

-- The item that carries a summary under an ID.
abbrev pub compaction_item : String → String → Json
compaction_item id summary = obj (
    field "encrypted_content" (str summary)
      (field "id" (str id) (field "type" (str "compaction") end)))

pub v2_compaction_item_json_inv :
    (id summary : String) (item : Json)
    → v2_compaction_item_json id summary ≡ ok item
    → (is_blank summary ≡ false) × (item ≡ compaction_item id summary)
unfolding v2_compaction_item_json
v2_compaction_item_json_inv id summary item e = ground arith

-- What the items of the facade are read as.
abbrev read_back : String → String → InputItem
read_back id summary = record {
  type = "compaction";
  id = id;
  role = "";
  encrypted_content = summary;
  raw = compaction_item id summary;
}

parse_compaction_item :
    (id summary : String) → parse_input_item (compaction_item id summary) ≡ read_back id summary
unfolding parse_input_item string_field
parse_compaction_item id summary = refl

read_back-plaintext :
    (unique summary : String)
    → unique ≢ ""
    → is_blank summary ≡ false
    → compaction_record_of (read_back (bridge_id unique) summary) ≡ plaintext
unfolding compaction_record_of is_cpa_compaction
read_back-plaintext unique summary h b = rw (bridge_id-longer unique h, bridge_id-prefix unique, b)

-- An item of the facade, read on a later turn, is plaintext state, and its restored form is the
-- user message with the summary.
pub stored :
    (unique summary : String) (item : Json)
    → unique ≢ ""
    → v2_compaction_item_json (bridge_id unique) summary ≡ ok item
    → (is_compaction_item_any (parse_input_item item) ≡ true)
      × (compaction_record_of (parse_input_item item) ≡ plaintext)
      × (restore (parse_input_item item) ≡ user_message summary)
stored unique summary item h e =
    let (b, same) = v2_compaction_item_json_inv (bridge_id unique) summary item e in
    let is = read_back-plaintext unique summary h b in
    rw (same, parse_compaction_item (bridge_id unique) summary)
      (
        (unfold is_compaction_item_any in refl),
        is,
        (unfold restore is_restorable is_compaction_item_any compact_to_user_message in rw is),
      )
