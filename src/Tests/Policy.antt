-- ===== src/Tests/Policy.antt =====
-- The session state policy, in and out of the interceptor, at concrete requests.
use mathlib.Core.Option
use cpa_codex_compact_bridge.Common.{
  ◌⊎◌, ◌≢◌, arith, ap, String, ◌≡◌, refl, true, false, List, [], ◌∷◌, some,
}
use cpa_codex_compact_bridge.Errors.{ok}
use cpa_codex_compact_bridge.Go.Json.{
  Json, Body, compact, marshal_list, str, arr, obj, field, end, elems-from_list, json, from_list,
}
use cpa_codex_compact_bridge.Go.RawMap.{RawMap, raw_map, lookup, insert, add_fields, marshal_map}
use cpa_codex_compact_bridge.Items.{
  parse_input_items, parse_input_item, is_compaction_item_any, is_cpa_compaction,
  compact_to_user_message, has_compaction_items, parse_request_input_items,
}
use cpa_codex_compact_bridge.State.{
  may_forward_opaque_state, compaction_record_of, is_restorable, bridge, unmatched_passthrough,
  check_compaction_items, normalize_compaction_state, msg_mixed_compaction_state,
}
use cpa_codex_compact_bridge.Go.Strings.{has_prefix, trim_space}
use cpa_codex_compact_bridge.Go.Struct.{string_field, list_field, list_field_ok}
use cpa_codex_compact_bridge.State.Restore.{restore}
use cpa_codex_compact_bridge.State.Policy.{
  session_state, check_compaction_items-matrix, verdict, matrix, holds, state_of,
}
use cpa_codex_compact_bridge.State.Normalize.{
  HasInput, normalize_compaction_state-matrix, normalize_idempotent, untouched, rewritten_body,
}
use cpa_codex_compact_bridge.State.Forward.{
  normalize_compaction_state_fail_closed, normalize_compaction_state_frame,
  check_compaction_items-strictness, strictness,
}
use cpa_codex_compact_bridge.State.InputField.{OneInput, here, later, shadowed}
use cpa_codex_compact_bridge.Go.Struct.{folds_to}
use cpa_codex_compact_bridge.State.Normalize.{outcome}
use cpa_codex_compact_bridge.Errors.{◌>>=◌}
use cpa_codex_compact_bridge.Go.Json.{Fields}
use cpa_codex_compact_bridge.Config.{decide_route, compaction_target_for}
use cpa_codex_compact_bridge.Interceptor.{normalize_intercepted_replay, leave_request}
use cpa_codex_compact_bridge.Interceptor.Policy.{
  normalize_intercepted_replay-matrix, normalize_intercepted_replay-shadowed, input_response,
}
use cpa_codex_compact_bridge.Tests.Samples.{
  native_item, bridged_item, question, restored_summary, parsed_of, body_of, bridging,
}

pub has_input : (raws : List Json) → HasInput (body_of raws) (parsed_of raws) raws
unfolding raw_map lookup add_fields insert
has_input raws = record {
  value = obj (field "model" (str "gpt-5") (field "input" (arr (from_list raws)) end));
  is_value = refl;
  decoded = refl;
  input = from_list raws;
  found = refl;
  are_items = elems-from_list raws;
}

abbrev pub mixed : List Json
mixed = question ∷ native_item ∷ bridged_item ∷ []

abbrev resumed : List Json
resumed = bridged_item ∷ question ∷ []

pub mixed_state :
    matrix (state_of (parse_input_items mixed)) bridge ≡ some msg_mixed_compaction_state
unfolding matrix session_state holds parse_input_items is_compaction_item_any parse_input_item
    string_field compaction_record_of is_cpa_compaction has_prefix trim_space
mixed_state = refl

check_compaction_items-matrix_example :
    check_compaction_items (parse_input_items mixed) bridge
    ≡ verdict (matrix (state_of (parse_input_items mixed)) bridge)
check_compaction_items-matrix_example =
    check_compaction_items-matrix (parse_input_items mixed) bridge

normalize_compaction_state-matrix_example :
    normalize_compaction_state (body_of resumed) bridge
    ≡ ok (record { changed = true; body = rewritten_body (parsed_of resumed) resumed })
unfolding matrix session_state holds parse_input_items is_compaction_item_any parse_input_item
    string_field compaction_record_of is_cpa_compaction has_prefix trim_space
normalize_compaction_state-matrix_example =
    normalize_compaction_state-matrix (body_of resumed) (parsed_of resumed) resumed bridge
      (has_input resumed)

abbrev restored : Body
restored = rewritten_body (parsed_of resumed) resumed

accepted :
    normalize_compaction_state (body_of resumed) bridge
    ≡ ok (record { changed = true; body = restored })
unfolding matrix session_state holds parse_input_items is_compaction_item_any parse_input_item
    string_field compaction_record_of is_cpa_compaction has_prefix trim_space
accepted =
    normalize_compaction_state-matrix (body_of resumed) (parsed_of resumed) resumed bridge
      (has_input resumed)

normalize_idempotent_example : normalize_compaction_state restored bridge ≡ ok (untouched restored)
normalize_idempotent_example =
    normalize_idempotent (body_of resumed) bridge (record { changed = true; body = restored })
      accepted

abbrev continued : List Json
continued = restored_summary ∷ question ∷ []

has_restored : HasInput restored (parsed_of continued) continued
unfolding matrix session_state holds parse_input_items is_compaction_item_any parse_input_item
    string_field compaction_record_of is_cpa_compaction has_prefix trim_space marshal_map insert
    raw_map add_fields lookup compact marshal_list restore is_restorable compact_to_user_message
has_restored = record {
  value = obj (field "input" (arr (from_list continued)) (field "model" (str "gpt-5") end));
  is_value = refl;
  decoded = refl;
  input = from_list continued;
  found = refl;
  are_items = refl;
}

normalize_compaction_state_fail_closed_example :
    has_compaction_items (parse_input_items continued) ≡ false
normalize_compaction_state_fail_closed_example =
    normalize_compaction_state_fail_closed (body_of resumed) bridge
      (record { changed = true; body = restored }) (parsed_of continued) continued
      (unfold may_forward_opaque_state in refl) accepted has_restored

normalize_compaction_state_frame_example :
    (restored ≡ body_of resumed)
    ⊎ ((v : Json) × (written : RawMap) × (restored ≡ json v)
        × (raw_map v ≡ ok written)
        × ((k : String)
            → k ≢ "input"
            → lookup k written ≡ Option.map compact (lookup k (parsed_of resumed))))
normalize_compaction_state_frame_example =
    normalize_compaction_state_frame (body_of resumed) bridge
      (record { changed = true; body = restored }) (parsed_of resumed) resumed (has_input resumed)
      accepted

accepted_items : check_compaction_items (parse_input_items resumed) bridge ≡ ok tt
unfolding matrix session_state holds parse_input_items is_compaction_item_any parse_input_item
    string_field compaction_record_of is_cpa_compaction has_prefix trim_space
accepted_items = check_compaction_items-matrix (parse_input_items resumed) bridge

check_compaction_items-strictness_example :
    check_compaction_items (parse_input_items resumed) unmatched_passthrough ≡ ok tt
check_compaction_items-strictness_example =
    check_compaction_items-strictness (parse_input_items resumed) bridge unmatched_passthrough
      (unfold strictness in omega arith) accepted_items

pub read_items :
    (raws : List Json) → parse_request_input_items (body_of raws) ≡ some (parse_input_items raws)
unfolding parse_request_input_items list_field_ok list_field
read_items raws = ap (λ vs. some (parse_input_items vs)) (elems-from_list raws)

abbrev pub body_fields : List Json → Fields
body_fields raws = field "model" (str "gpt-5") (field "input" (arr (from_list raws)) end)

pub one_input : (raws : List Json) → OneInput (arr (from_list raws)) (body_fields raws)
unfolding folds_to
one_input raws =
    later "model" (str "gpt-5") (field "input" (arr (from_list raws)) end) refl (here end tt)

normalize_intercepted_replay-matrix_example :
    normalize_intercepted_replay bridging (record {
      source_format = "openai-response";
      requested_model = "gpt-5";
      body = json (obj (body_fields mixed));
    })
    ≡ input_response
        (compaction_target_for (decide_route bridging "gpt-5"))
        (body_fields mixed)
        (some (arr (from_list mixed)))
normalize_intercepted_replay-matrix_example =
    normalize_intercepted_replay-matrix bridging "gpt-5" (body_fields mixed)
      (some (arr (from_list mixed))) (one_input mixed)

normalize_intercepted_replay-shadowed_example :
    (normalize_intercepted_replay bridging (record {
      source_format = "openai-response";
      requested_model = "gpt-5";
      body = json (obj (shadowed (body_fields mixed)));
    })
      ≡ leave_request)
    × (normalize_compaction_state (json (obj (shadowed (body_fields mixed)))) bridge ≡ (
        verdict (matrix (state_of (parse_input_items mixed)) bridge) >>= λ _. ok (
          outcome
            (json (obj (shadowed (body_fields mixed))))
            (add_fields [] (shadowed (body_fields mixed)))
            mixed)))
normalize_intercepted_replay-shadowed_example =
    normalize_intercepted_replay-shadowed bridging "gpt-5" (body_fields mixed) (from_list mixed)
      bridge (one_input mixed)
