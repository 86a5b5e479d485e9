-- ===== src/Executor/Rejection.antt =====
-- The turns of a bridged model with a session state that the policy refuses for the bridge.
use cpa_codex_compact_bridge.Common.{
  String, ◌≡◌, refl, inl, inr, Bool, true, false, ◌&&◌, ◌||◌, not, List, [], some, arith, ap, ◌∙◌,
  sym, subst, if◌then◌else◌, Bool-cases,
}
use cpa_codex_compact_bridge.Errors.{
  as_invalid_compaction_state, plugin_err, Result, err, err_code_invalid_compaction_state,
}
use cpa_codex_compact_bridge.Go.Json.{Json, arr, obj, Elems, elems, Fields, json}
use cpa_codex_compact_bridge.Go.RawMap.{RawMap, add_fields}
use cpa_codex_compact_bridge.Items.{
  InputItem, parse_input_items, parse_request_input_items, detect_v1_compact,
}
use cpa_codex_compact_bridge.State.{
  bridge, check_compaction_items, rewrite_compaction_items, normalize_items,
  invalid_compaction_state_error,
}
use cpa_codex_compact_bridge.State.Normalize.{HasInput, normalize-HasInput}
use cpa_codex_compact_bridge.State.InputField.{
  OneInput, HasInput-OneInput, parse_request_input_items-OneInput,
}
use cpa_codex_compact_bridge.Config.{Config, MatchDecision, decide_route}
use cpa_codex_compact_bridge.Executor.Unprepared.{prepare_summary_invalid}
use cpa_codex_compact_bridge.Executor.{
  Env, ExecutorRequest, delegate_ordinary, bridge_failed, Reply, prepare_summary, generate_summary,
  finish_v1, finish_v2, v2_failure, compact_execution_error, execute_v1_compact, execute_v2_compact,
  execute_ordinary_bridged, handle_execute, pick_summary_model, detect_v2_trigger_from_request,
}
use cpa_codex_compact_bridge.Executor.Execution.{Calls}
use cpa_codex_compact_bridge.Executor.Effects.{
  unprepared, execute_v1_compact-some, ordinary_bridged-err,
}

-- The answer to a request whose state is refused.
abbrev pub refusal : String → Calls → Result Reply × Calls
refusal message calls = (
  err (
      plugin_err (record {
        code = err_code_invalid_compaction_state;
        message = message;
        http_status = 400;
      })),
  calls,
)

module _ (env : Env) (cfg : Config) (req : ExecutorRequest) (calls : Calls) (message : String) where
  generate_summary_invalid :
      (model : String) (items : List InputItem)
      → parse_request_input_items req.original_request ≡ some items
      → check_compaction_items items bridge ≡ err (invalid_compaction_state_error message)
      → generate_summary env cfg req model calls
        ≡ (err (invalid_compaction_state_error message), calls)
  generate_summary_invalid model items p h =
      unprepared env cfg req model calls _ (
        ap (prepare_summary cfg req model) p
        ∙ prepare_summary_invalid cfg req model message items h)

  execute_v1_compact_invalid :
      (decision : MatchDecision) (items : List InputItem)
      → parse_request_input_items req.original_request ≡ some items
      → check_compaction_items items bridge ≡ err (invalid_compaction_state_error message)
      → execute_v1_compact env cfg req decision calls ≡ refusal message calls
  unfolding finish_v1 compact_execution_error invalid_compaction_state_error
      as_invalid_compaction_state
  execute_v1_compact_invalid decision items p h =
      execute_v1_compact-some env cfg req calls decision items p
      ∙ ap (finish_v1 env items)
          (generate_summary_invalid (pick_summary_model req decision) items p h)

  execute_v2_compact_invalid :
      (decision : MatchDecision) (items : List InputItem)
      → parse_request_input_items req.original_request ≡ some items
      → check_compaction_items items bridge ≡ err (invalid_compaction_state_error message)
      → execute_v2_compact env cfg req decision calls ≡ refusal message calls
  unfolding execute_v2_compact finish_v2 v2_failure compact_execution_error
      invalid_compaction_state_error as_invalid_compaction_state
  execute_v2_compact_invalid decision items p h =
      ap (finish_v2 env) (generate_summary_invalid (pick_summary_model req decision) items p h)

  ordinary_bridged_invalid :
      (stream : Bool) (parsed : RawMap) (raws : List Json)
      → HasInput req.original_request parsed raws
      → check_compaction_items (parse_input_items raws) bridge
        ≡ err (invalid_compaction_state_error message)
      → execute_ordinary_bridged env req stream calls ≡ refusal message calls
  unfolding invalid_compaction_state_error as_invalid_compaction_state normalize_items
      rewrite_compaction_items
  ordinary_bridged_invalid stream parsed raws i h =
      ordinary_bridged-err env cfg req calls stream (invalid_compaction_state_error message)
        (normalize-HasInput bridge i ∙ rw h refl)

-- A turn that handleExecute bridges: a V1 compact, a V2 compact, or an ordinary turn that is not
-- streamed.
abbrev pub is_bridged_turn : ExecutorRequest → Bool → Bool
is_bridged_turn req stream =
    detect_v1_compact req.alt req.stream
    || detect_v2_trigger_from_request req.original_request
    || not stream

if-same :
    {A : Type 0} (b : Bool) (x y z : A) → x ≡ z → (b ≡ false → y ≡ z) → (if b then x else y) ≡ z
if-same true x y z p q = p
if-same false x y z p q = q refl

if-false : {A : Type 0} (b : Bool) (x y z : A) → b ≡ false → y ≡ z → (if b then x else y) ≡ z
if-false b x y z p q = rw p q

if-true : {A : Type 0} (b : Bool) (x y : A) → b ≡ true → (if b then x else y) ≡ x
if-true b x y p = rw p refl

-- The answer to a streamed turn that the router does not claim.
abbrev pub unexpected_stream : Calls → Result Reply × Calls
unexpected_stream calls =
    (err (plugin_err (bridge_failed "unexpected ordinary streaming bridge request")), calls)

handle_execute-refusal :
    (env : Env) (cfg : Config) (req : ExecutorRequest) (stream : Bool) (calls : Calls)
    (parsed : RawMap) (raws : List Json) (message : String)
    → (decide_route cfg req.model).handled ≡ true
    → (decide_route cfg req.model).bridged ≡ true
    → is_bridged_turn req stream ≡ true
    → HasInput req.original_request parsed raws
    → parse_request_input_items req.original_request ≡ some (parse_input_items raws)
    → check_compaction_items (parse_input_items raws) bridge
      ≡ err (invalid_compaction_state_error message)
    → handle_execute env cfg req stream calls ≡ refusal message calls
unfolding handle_execute
handle_execute-refusal env cfg req stream calls parsed raws message handled bridged turn i p h =
    let items = parse_input_items raws in
    let decision = decide_route cfg req.model in
    let v1 = execute_v1_compact env cfg req decision calls in
    let v2 = execute_v2_compact env cfg req decision calls in
    let ordinary = execute_ordinary_bridged env req stream calls in
    let is_v2 = stream && detect_v2_trigger_from_request req.original_request in
    let rest = if stream then unexpected_stream calls else ordinary in
    let turns = if detect_v1_compact req.alt req.stream then v1 else if is_v2 then v2 else rest in
    if-false (not decision.handled || not decision.bridged) (delegate_ordinary env req stream calls)
      turns _ (ground (arith, handled, bridged))
      (if-same (detect_v1_compact req.alt req.stream) v1 (if is_v2 then v2 else rest) _
        (execute_v1_compact_invalid env cfg req calls message decision items p h)
        λ not_v1.
          if-same is_v2 v2 rest _
            (execute_v2_compact_invalid env cfg req calls message decision items p h)
            λ not_v2.
              if-false stream (unexpected_stream calls) ordinary _
                (ground (arith, turn, not_v1, not_v2))
                (ordinary_bridged_invalid env cfg req calls message stream parsed raws i h))

handle_execute-unexpected :
    (env : Env) (cfg : Config) (req : ExecutorRequest) (stream : Bool) (calls : Calls)
    → (decide_route cfg req.model).handled ≡ true
    → (decide_route cfg req.model).bridged ≡ true
    → is_bridged_turn req stream ≡ false
    → handle_execute env cfg req stream calls ≡ unexpected_stream calls
unfolding handle_execute
handle_execute-unexpected env cfg req stream calls handled bridged turn =
    let not_v1 : detect_v1_compact req.alt req.stream ≡ false = ground (arith, turn) in
    let not_v2 : detect_v2_trigger_from_request req.original_request ≡ false =
      ground (arith, turn) in
    let is_stream : stream ≡ true = ground (arith, turn) in
    rw (handled, bridged, not_v1, not_v2, is_stream) refl

-- On a bridged model, a turn whose body is an object with one key that folds to `input`, `input`
-- itself, over an array whose compaction items the policy refuses for the bridge: a V1 compact, a turn
-- that ends with a trigger and any turn that is not streamed get the error invalid_compaction_state of
-- status 400 with the policy's message, and another streamed turn the error of an unexpected stream. No
-- host call is made.
pub handle_execute_invalid_state :
    (env : Env) (cfg : Config) (req : ExecutorRequest) (stream : Bool) (calls : Calls) (fs : Fields)
    (vs : Elems) (message : String)
    → (decide_route cfg req.model).handled ≡ true
    → (decide_route cfg req.model).bridged ≡ true
    → req.original_request ≡ json (obj fs)
    → OneInput (arr vs) fs
    → check_compaction_items (parse_input_items (elems vs)) bridge
      ≡ err (invalid_compaction_state_error message)
    → handle_execute env cfg req stream calls
      ≡ (if is_bridged_turn req stream then refusal message calls else unexpected_stream calls)
handle_execute_invalid_state env cfg req stream calls fs vs message handled bridged body one h =
    elim (Bool-cases (is_bridged_turn req stream)) [
      | inl turn ↦
          handle_execute-refusal env cfg req stream calls (add_fields [] fs) (elems vs) message
            handled bridged turn
            (subst (λ b. HasInput b (add_fields [] fs) (elems vs)) (sym body)
              (HasInput-OneInput vs fs one))
            (ap parse_request_input_items body ∙ parse_request_input_items-OneInput vs fs one) h
          ∙ sym (if-true (is_bridged_turn req stream) _ _ turn)
      | inr other ↦
          handle_execute-unexpected env cfg req stream calls handled bridged other
          ∙ sym (if-false (is_bridged_turn req stream) _ _ _ other refl)
    ]
