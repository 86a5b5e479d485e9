-- ===== src/State.antt =====
-- plugin/replay.go: the compaction state policy on the input items of a request.
pub mod Policy
pub mod Restore
pub mod InputField
pub mod Normalize
pub mod Forward
pub mod SummaryInput
use cpa_codex_compact_bridge.Common.{
  ℕ, ◌+◌, String, Bool, true, false, ◌&&◌, not, List, [], ◌∷◌, Option, none, some, ltb,
  if◌then◌else◌,
}
use cpa_codex_compact_bridge.Errors.{
  Err, plugin_err, Result, ok, err, ◌>>=◌, err_code_invalid_compaction_state, wrap,
}
use cpa_codex_compact_bridge.Go.Strings.{is_blank}
use cpa_codex_compact_bridge.Go.Json.{
  Json, Body, json, read_body, raw_list, is_json_array, marshal_list,
}
use cpa_codex_compact_bridge.Go.RawMap.{RawMap, lookup, insert, raw_map, marshal_map}
use cpa_codex_compact_bridge.Items.{
  InputItem, parse_input_items, is_cpa_compaction, is_compaction_item_any, is_compaction_trigger,
  compact_to_user_message,
}

pub data CompactTarget : Type 0 where
  explicit_passthrough unmatched_passthrough bridge : CompactTarget

-- String; the text of a number that is no target does not arise.
abbrev pub target_text : CompactTarget → String
target_text explicit_passthrough = "explicit passthrough"
target_text unmatched_passthrough = "unmatched passthrough"
target_text bridge = "bridge"

unfoldable pub may_forward_opaque_state : CompactTarget → Bool
may_forward_opaque_state explicit_passthrough = true
may_forward_opaque_state _ = false

abbrev is_bridge : CompactTarget → Bool
is_bridge bridge = true
is_bridge _ = false

pub data CompactionRecord : Type 0 where
  opaque plaintext corrupt : CompactionRecord

abbrev pub msg_corrupt_bridge_compaction : String
msg_corrupt_bridge_compaction = "bridged compaction state has no summary text; start a new session"

abbrev pub msg_mixed_compaction_state : String
msg_mixed_compaction_state =
    "request mixes bridged and native compaction state; start a new session"

abbrev pub msg_native_compaction_on_bridge : String
msg_native_compaction_on_bridge =
    "native compaction state cannot continue on a bridged model; switch back to the model that created it or start a new session"

abbrev pub msg_unruled_native_compaction : String
msg_unruled_native_compaction =
    "native compaction state has no matching passthrough rule; add a passthrough rule for a compact-capable model or start a new session"

pub record ReplayResult : Type 0 where
  pub changed : Bool
  pub body : Body

unfoldable pub compaction_record_of : InputItem → CompactionRecord
compaction_record_of item =
    if is_cpa_compaction item
    then (if is_blank item.encrypted_content then corrupt else plaintext)
    else opaque

-- Status 400.
unfoldable pub invalid_compaction_state_error : String → Err
invalid_compaction_state_error message =
    plugin_err
      (record { code = err_code_invalid_compaction_state; message = message; http_status = 400 })

-- The three counters of checkCompactionItems.
pub record Counts : Type 0 where
  pub plaintext : ℕ
  pub opaque : ℕ
  pub corrupt : ℕ

unfoldable pub count_record : CompactionRecord → Counts → Counts
count_record plaintext c = record c { plaintext = c.plaintext + 1 }
count_record corrupt c = record c { corrupt = c.corrupt + 1 }
count_record opaque c = record c { opaque = c.opaque + 1 }

-- The loop of checkCompactionItems.
unfoldable pub count_items : Counts → List InputItem → Counts
count_items c [] = c
count_items c (item ∷ items) =
    count_items
      (if is_compaction_item_any item then count_record (compaction_record_of item) c else c) items

unfoldable pub judge_counts : Counts → CompactTarget → Result (Unit {0})
unfolding may_forward_opaque_state
judge_counts c target =
    if ltb 0 c.corrupt
    then err (invalid_compaction_state_error msg_corrupt_bridge_compaction)
    else if ltb 0 c.plaintext && ltb 0 c.opaque
    then err (invalid_compaction_state_error msg_mixed_compaction_state)
    else if ltb 0 c.opaque && not (may_forward_opaque_state target)
    then (if is_bridge target
        then err (invalid_compaction_state_error msg_native_compaction_on_bridge)
        else err (invalid_compaction_state_error msg_unruled_native_compaction))
    else ok tt

unfoldable pub check_compaction_items : List InputItem → CompactTarget → Result (Unit {0})
check_compaction_items items target =
    judge_counts (count_items (record { plaintext = 0; opaque = 0; corrupt = 0 }) items) target

abbrev is_plaintext : CompactionRecord → Bool
is_plaintext plaintext = true
is_plaintext _ = false

-- The item is one that the loop of rewriteCompactionItems writes anew.
unfoldable pub is_restorable : InputItem → Bool
is_restorable item = is_compaction_item_any item && is_plaintext (compaction_record_of item)

-- The loop of rewriteCompactionItems: the new items, and whether one was written anew.
unfoldable pub rewrite_items : List InputItem → List Json × Bool
rewrite_items [] = ([], false)
rewrite_items (item ∷ items) =
    let (out, changed) = rewrite_items items in
    if is_restorable item
    then (compact_to_user_message item ∷ out, true)
    else (item.raw ∷ out, changed)

unfoldable pub rewrite_compaction_items : List InputItem → CompactTarget → Result (List Json × Bool)
rewrite_compaction_items items target = do
  _ ← check_compaction_items items target
  ok (rewrite_items items)

-- normalizeCompactionState, once the body and its items are decoded.
unfoldable pub normalize_items :
    Body → RawMap → List InputItem → CompactTarget → Result ReplayResult
normalize_items body parsed items target = do
  (rewritten, changed) ← rewrite_compaction_items items target
  ok (
      if changed
      then record {
        changed = true;
        body = json (marshal_map (insert "input" (marshal_list rewritten) parsed));
      }
      else record { changed = false; body = body })

-- The same at the value of `input`: a body without an item array passes through.
unfoldable pub normalize_input : Body → RawMap → Option Json → CompactTarget → Result ReplayResult
normalize_input body parsed none target = ok (record { changed = false; body = body })
normalize_input body parsed (some input) target =
    if is_json_array input
    then (do
      raw_items ← wrap "decode input items for replay" (raw_list input)
      normalize_items body parsed (parse_input_items raw_items) target)
    else ok (record { changed = false; body = body })

unfoldable pub normalize_compaction_state : Body → CompactTarget → Result ReplayResult
normalize_compaction_state body target = do
  parsed ← wrap "decode request body for replay" (read_body body >>= raw_map)
  normalize_input body parsed (lookup "input" parsed) target

-- The loop of buildSummaryRequestInput that drops every trigger.
unfoldable pub without_triggers : List InputItem → List InputItem
without_triggers [] = []
without_triggers (item ∷ items) =
    let kept = without_triggers items in if is_compaction_trigger item then kept else item ∷ kept

unfoldable pub build_summary_request_input : List InputItem → Result (List Json)
build_summary_request_input items = do
  (rewritten, _) ← rewrite_compaction_items (without_triggers items) bridge
  ok rewritten
