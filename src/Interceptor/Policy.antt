-- ===== src/Interceptor/Policy.antt =====
-- The request interceptor against the session state matrix, and where it does not apply the matrix.
use cpa_codex_compact_bridge.Common.{
  String, ◌≡◌, refl, inl, inr, Bool, true, false, not, List, [], Option, none, some, arith, ap, ◌∙◌,
  sym, if◌then◌else◌, Bool-cases,
}
use cpa_codex_compact_bridge.Errors.{ok, ◌>>=◌, as_invalid_compaction_state}
use cpa_codex_compact_bridge.Go.Json.{
  Json, null, bool, num, arr, str, obj, Fields, Elems, elems, Body, json,
}
use cpa_codex_compact_bridge.Go.RawMap.{RawMap, add_fields}
use cpa_codex_compact_bridge.Go.Struct.{list_value_ok}
use cpa_codex_compact_bridge.Items.{
  InputItem, parse_input_items, parse_request_input_items, has_compaction_items,
}
use cpa_codex_compact_bridge.State.{
  CompactTarget, plaintext, corrupt, opaque, normalize_compaction_state,
  invalid_compaction_state_error,
}
use cpa_codex_compact_bridge.State.Policy.{holds, matrix, state_of, verdict, session_state}
use cpa_codex_compact_bridge.State.Restore.{has_compaction_items-holds}
use cpa_codex_compact_bridge.State.Normalize.{
  HasInput, outcome, rewritten_body, normalize_compaction_state-matrix,
}
use cpa_codex_compact_bridge.State.InputField.{
  OneInput, InputIs, shadowed, parse_request_input_items-OneInput, HasInput-OneInput,
  parse_request_input_items-NoInput, parse_request_input_items-OneValue,
  parse_request_input_items-shadowed, HasInput-shadowed,
}
use cpa_codex_compact_bridge.Config.{Config, decide_route, compaction_target_for}
use cpa_codex_compact_bridge.Interceptor.{
  RequestInterceptResponse, leave_request, terminate_with, error_body, intercept_result,
  normalize_intercepted_replay,
}

-- The response that the session state matrix asks for: its cell, and whether the input holds a
-- plaintext item, which is then restored.
unfoldable pub matrix_response : Option String → Bool → Body → RequestInterceptResponse
matrix_response (some message) _ _ =
    terminate_with 400 (error_body "invalid_compaction_state" message "invalid_request_error")
matrix_response none true restored = record leave_request { body = restored }
matrix_response none false _ = leave_request

intercept_verdict :
    (cell : Option String) (body : Body) (parsed : RawMap) (raws : List Json)
    → intercept_result (verdict cell >>= λ _. ok (outcome body parsed raws))
      ≡ matrix_response cell (holds plaintext (parse_input_items raws)) (rewritten_body parsed raws)
unfolding intercept_result matrix_response invalid_compaction_state_error
    as_invalid_compaction_state
intercept_verdict (some message) body parsed raws = refl
intercept_verdict none body parsed raws =
    elim (Bool-cases (holds plaintext (parse_input_items raws))) [
      | inl p ↦ rw p refl
      | inr p ↦ rw p refl
    ]

no_item_response :
    (items : List InputItem) (target : CompactTarget) (restored : Body)
    → has_compaction_items items ≡ false
    → leave_request
      ≡ matrix_response (matrix (state_of items) target) (holds plaintext items) restored
unfolding matrix session_state matrix_response
no_item_response items target restored h =
    let none' = sym (has_compaction_items-holds items) ∙ h in
    let c : holds corrupt items ≡ false = ground (arith, none') in
    let p : holds plaintext items ≡ false = ground (arith, none') in
    let o : holds opaque items ≡ false = ground (arith, none') in rw (c, p, o) refl

intercepted_items :
    (cfg : Config) (model : String) (body : Body) (items : List InputItem)
    → parse_request_input_items body ≡ some items
    → normalize_intercepted_replay cfg
        (record { source_format = "openai-response"; requested_model = model; body = body })
      ≡ (if not (has_compaction_items items)
          then leave_request
          else intercept_result
              (normalize_compaction_state body (compaction_target_for (decide_route cfg model))))
unfolding normalize_intercepted_replay
intercepted_items cfg model body items p = rw (p, normalize_intercepted_replay) refl

matrix-HasInput :
    (cfg : Config) (model : String) (body : Body) (parsed : RawMap) (raws : List Json)
    → HasInput body parsed raws
    → parse_request_input_items body ≡ some (parse_input_items raws)
    → normalize_intercepted_replay cfg
        (record { source_format = "openai-response"; requested_model = model; body = body })
      ≡ matrix_response
          (matrix
            (state_of (parse_input_items raws))
            (compaction_target_for (decide_route cfg model)))
          (holds plaintext (parse_input_items raws))
          (rewritten_body parsed raws)
matrix-HasInput cfg model body parsed raws i p =
    let items = parse_input_items raws in
    let target = compaction_target_for (decide_route cfg model) in
    intercepted_items cfg model body items p ∙ elim (Bool-cases (has_compaction_items items)) [
      | inr none' ↦ rw none' (no_item_response items target (rewritten_body parsed raws) none')
      | inl some' ↦ rw some' (
          ap intercept_result (normalize_compaction_state-matrix body parsed raws target i)
          ∙ intercept_verdict (matrix (state_of items) target) body parsed raws)
    ]

-- The response to a request by its input: the session state matrix where it is an array, no change
-- where it is absent or another value.
unfoldable pub input_response : CompactTarget → Fields → Option Json → RequestInterceptResponse
input_response target fs (some (arr vs)) =
    matrix_response (matrix (state_of (parse_input_items (elems vs))) target)
      (holds plaintext (parse_input_items (elems vs)))
      (rewritten_body (add_fields [] fs) (elems vs))
input_response _ _ _ = leave_request

no_array :
    (cfg : Config) (model : String) (fs : Fields) (v : Json)
    → parse_request_input_items (json (obj fs)) ≡ (if list_value_ok v then some [] else none)
    → normalize_intercepted_replay cfg (record {
      source_format = "openai-response";
      requested_model = model;
      body = json (obj fs);
    })
      ≡ leave_request
unfolding normalize_intercepted_replay has_compaction_items
no_array cfg model fs v p = elim (Bool-cases (list_value_ok v)) [
  | inl is_ok ↦
      let read : parse_request_input_items (json (obj fs)) ≡ some [] = ground (arith, p, is_ok) in
      rw (read, normalize_intercepted_replay) refl
  | inr not_ok ↦
      let read : parse_request_input_items (json (obj fs)) ≡ none = ground (arith, p, not_ok) in
      rw (read, normalize_intercepted_replay) refl
]

-- A request of the Responses protocol whose body is an object, in which no key folds to `input` or
-- one does, `input` itself: where its value is an array, the response is that of the session state matrix
-- at the target of the route (status 400 with the message of the cell, the body with every plaintext
-- item restored, or no change); where it is absent or no array, the request is left as it is.
pub normalize_intercepted_replay-matrix :
    (cfg : Config) (model : String) (fs : Fields) (input : Option Json)
    → InputIs input fs
    → normalize_intercepted_replay cfg (record {
      source_format = "openai-response";
      requested_model = model;
      body = json (obj fs);
    })
      ≡ input_response (compaction_target_for (decide_route cfg model)) fs input
unfolding input_response
normalize_intercepted_replay-matrix cfg model fs none h =
    no_array cfg model fs null (parse_request_input_items-NoInput fs h)
normalize_intercepted_replay-matrix cfg model fs (some (arr vs)) h =
    matrix-HasInput cfg model (json (obj fs)) (add_fields [] fs) (elems vs)
      (HasInput-OneInput vs fs h) (parse_request_input_items-OneInput vs fs h)
normalize_intercepted_replay-matrix cfg model fs (some null) h =
    no_array cfg model fs null (parse_request_input_items-OneValue null fs h refl)
normalize_intercepted_replay-matrix cfg model fs (some (bool b)) h =
    no_array cfg model fs (bool b) (parse_request_input_items-OneValue (bool b) fs h refl)
normalize_intercepted_replay-matrix cfg model fs (some (num n)) h =
    no_array cfg model fs (num n) (parse_request_input_items-OneValue (num n) fs h refl)
normalize_intercepted_replay-matrix cfg model fs (some (str s)) h =
    no_array cfg model fs (str s) (parse_request_input_items-OneValue (str s) fs h refl)
normalize_intercepted_replay-matrix cfg model fs (some (obj gs)) h =
    no_array cfg model fs (obj gs) (parse_request_input_items-OneValue (obj gs) fs h refl)

-- A Responses request whose object has one input array under `input`, and after all its keys a key
-- `Input` of an empty array: the interceptor leaves it as it is, whatever the model is routed to, though
-- normalizeCompactionState, given the same body, judges the array under `input` by the matrix.
pub normalize_intercepted_replay-shadowed :
    (cfg : Config) (model : String) (fs : Fields) (vs : Elems) (target : CompactTarget)
    → OneInput (arr vs) fs
    → (normalize_intercepted_replay cfg (record {
      source_format = "openai-response";
      requested_model = model;
      body = json (obj (shadowed fs));
    })
        ≡ leave_request)
      × (normalize_compaction_state (json (obj (shadowed fs))) target ≡ (
          verdict (matrix (state_of (parse_input_items (elems vs))) target) >>= λ _.
          ok (outcome (json (obj (shadowed fs))) (add_fields [] (shadowed fs)) (elems vs))))
normalize_intercepted_replay-shadowed cfg model fs vs target h = (
  no_array cfg model (shadowed fs) null (parse_request_input_items-shadowed vs fs h),
  normalize_compaction_state-matrix (json (obj (shadowed fs))) (add_fields [] (shadowed fs))
      (elems vs) target (HasInput-shadowed vs fs h),
)
