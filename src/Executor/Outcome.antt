-- ===== src/Executor/Outcome.antt =====
-- What the two compact turns answer, from the outcome of the summary, on every branch.
use cpa_codex_compact_bridge.Common.{
  String, List, Option, ◌≡◌, refl, inl, inr, false, some, none, eq_iff, arith, ap, ◌∙◌, sym, subst,
  Option-cases,
}
use cpa_codex_compact_bridge.Errors.{
  PluginErr, Err, plugin_err, Result, ok, err, err_code_invalid_compaction_state,
}
use cpa_codex_compact_bridge.Go.Json.{Body, json}
use cpa_codex_compact_bridge.Go.Strings.{is_blank}
use cpa_codex_compact_bridge.Items.{InputItem, parse_request_input_items}
use cpa_codex_compact_bridge.Summary.{extract_summary_text}
use cpa_codex_compact_bridge.Summary.Accepted.{extract_summary_text_sound}
use cpa_codex_compact_bridge.Config.{Config, MatchDecision}
use cpa_codex_compact_bridge.Payload.RoundTrip.{bridge_id}
use cpa_codex_compact_bridge.Payload.Frames.{
  completed_frames, failed_frames, window, v2_sse_events-completed, v2_response_failed_sse_lem,
  v1_compact_response_body-window,
}
use cpa_codex_compact_bridge.Executor.{
  Env, ExecutorRequest, Reply, payload, chunk, json_content, event_stream, item_id, bridge_failed,
  generate_summary, finish_v1, finish_v2, v1_reply, v2_reply, v2_failure, compact_execution_error,
  execute_v1_compact, execute_v2_compact, pick_summary_model,
}
use cpa_codex_compact_bridge.Executor.Execution.{Calls}
use cpa_codex_compact_bridge.Executor.Effects.{
  execute_v1_compact-some, execute_v1_compact-none, finish_v2-calls, generate_summary_made,
}
use cpa_codex_compact_bridge.Executor.Success.{not_blank}
use cpa_codex_compact_bridge.Executor.Failure.{
  ClientMessage, Failure, refused, failed, compact_execution_error-Failure,
}

extract_summary_text-not_blank :
    (body : Body) (summary : String)
    → extract_summary_text body ≡ ok summary
    → is_blank summary ≡ false
extract_summary_text-not_blank body summary h =
    let (_, _, text, _, _, _, same, some') = extract_summary_text_sound body summary h in
    subst (λ s. is_blank s ≡ false) (sym same) (not_blank text (λ e. some' (same ∙ e)))

module _ (env : Env) (cfg : Config) (req : ExecutorRequest) (calls : Calls) where
  generate_summary-not_blank :
      (model summary : String)
      → (generate_summary env cfg req model calls).0 ≡ ok summary
      → is_blank summary ≡ false
  generate_summary-not_blank model summary h =
      let (_, _, resp, _, text, _) = generate_summary_made env cfg req model calls summary h in
      extract_summary_text-not_blank resp.body summary text

-- The answer to a V2 turn, by the outcome of the summary: the two frames of a summary, a refusal of the
-- session state as an error, or the one failure frame.
pub data V2Outcome (env : Env) (r : Result String × Calls) : Result Reply → Type 0 where
  v2_completed :
      (summary : String)
      → r.0 ≡ ok summary
      → V2Outcome env r
          (ok (chunk event_stream (completed_frames (bridge_id (env.uuid r.1)) summary)))
  v2_refused :
      (e : PluginErr)
      → r.0 ≡ err (plugin_err e)
      → e.code ≡ "invalid_compaction_state"
      → V2Outcome env r (err (plugin_err e))
  v2_failed :
      (e : Err) (message : String)
      → r.0 ≡ err e
      → ClientMessage e message
      → V2Outcome env r (ok (chunk event_stream (failed_frames message)))

v2_failure-Failure :
    (env : Env) (e : Err) (calls : Calls) (failure : PluginErr)
    → Failure e failure
    → V2Outcome env (err e, calls) (v2_failure failure)
unfolding v2_failure
v2_failure-Failure env _ calls _ (refused e state) =
    let is : v2_failure e ≡ err (plugin_err e) =
      ground (arith, (eq_iff e.code err_code_invalid_compaction_state).1 state) in
    subst (λ x. V2Outcome env (err (plugin_err e), calls) x) (sym is) (v2_refused e refl state)
v2_failure-Failure env e calls _ (failed _ message seen) =
    subst (λ f. V2Outcome env (err e, calls) (ok (chunk event_stream f)))
      (sym (v2_response_failed_sse_lem message)) (v2_failed e message refl seen)

finish_v2-V2Outcome :
    (env : Env) (r : Result String × Calls)
    → ((summary : String) → r.0 ≡ ok summary → is_blank summary ≡ false)
    → V2Outcome env r (finish_v2 env r).0
unfolding finish_v2
finish_v2-V2Outcome env (err e, calls) not_blank' =
    v2_failure-Failure env e calls (compact_execution_error e) (compact_execution_error-Failure e)
finish_v2-V2Outcome env (ok summary, calls) not_blank' =
    subst (λ x. V2Outcome env (ok summary, calls) (v2_reply x))
      (sym (v2_sse_events-completed (item_id env calls) summary (not_blank' summary refl)))
      (v2_completed summary refl)

-- executeV2Compact, on every branch: a summary that was generated is answered with the two frames of a
-- completed compaction, that hold it under the marker and the UUID; a refusal of the session state
-- is returned as the error; any other error is answered with the failure frame, whose message is that
-- of an error of the bridge, or a general text. The calls are those of the summary.
pub execute_v2_compact-V2Outcome :
    (env : Env) (cfg : Config) (req : ExecutorRequest) (decision : MatchDecision) (calls : Calls)
    → let r = generate_summary env cfg req (pick_summary_model req decision) calls in
      V2Outcome env r (execute_v2_compact env cfg req decision calls).0
      × ((execute_v2_compact env cfg req decision calls).1 ≡ r.1)
unfolding execute_v2_compact
execute_v2_compact-V2Outcome env cfg req decision calls =
    let model = pick_summary_model req decision in
    let r = generate_summary env cfg req model calls in
    (
      finish_v2-V2Outcome env r (generate_summary-not_blank env cfg req calls model),
      finish_v2-calls env r,
    )

-- The answer to a V1 turn, by the items of the request and the outcome of the summary.
pub data V1Outcome (env : Env) (items : Option (List InputItem)) (r : Result String × Calls)
    : Result Reply → Type 0 where
  v1_unread :
      items ≡ none
      → V1Outcome env items r (err (plugin_err (bridge_failed "bridged compaction failed")))
  v1_completed :
      (read : List InputItem) (summary : String)
      → items ≡ some read
      → r.0 ≡ ok summary
      → V1Outcome env items r
          (ok (payload (json (window read (bridge_id (env.uuid r.1)) summary)) json_content))
  v1_failed :
      (read : List InputItem) (e : Err) (failure : PluginErr)
      → items ≡ some read
      → r.0 ≡ err e
      → Failure e failure
      → V1Outcome env items r (err (plugin_err failure))

finish_v1-V1Outcome :
    (env : Env) (items : List InputItem) (r : Result String × Calls)
    → ((summary : String) → r.0 ≡ ok summary → is_blank summary ≡ false)
    → V1Outcome env (some items) r (finish_v1 env items r).0
unfolding finish_v1
finish_v1-V1Outcome env items (err e, calls) not_blank' =
    v1_failed items e (compact_execution_error e) refl refl (compact_execution_error-Failure e)
finish_v1-V1Outcome env items (ok summary, calls) not_blank' =
    subst (λ x. V1Outcome env (some items) (ok summary, calls) (v1_reply x))
      (sym (
        v1_compact_response_body-window items (item_id env calls) summary
          (not_blank' summary refl)))
      (v1_completed items summary refl refl)

-- executeV1Compact, on every branch: a request whose items cannot be read is a failure of the bridge; a
-- summary that was generated is answered with the one field `output`, the messages of the user and the
-- developer in their order and the compaction item with the summary under the marker and the UUID; an
-- error of the summary is returned, a refusal of the session state as it is and any other as a failure
-- of the bridge with the client's message.
pub execute_v1_compact-V1Outcome :
    (env : Env) (cfg : Config) (req : ExecutorRequest) (decision : MatchDecision) (calls : Calls)
    → V1Outcome env
        (parse_request_input_items req.original_request)
        (generate_summary env cfg req (pick_summary_model req decision) calls)
        (execute_v1_compact env cfg req decision calls).0
execute_v1_compact-V1Outcome env cfg req decision calls =
    let model = pick_summary_model req decision in
    let r = generate_summary env cfg req model calls in
    elim (Option-cases (parse_request_input_items req.original_request)) [
      | inl unread ↦
          subst (λ x. V1Outcome env (parse_request_input_items req.original_request) r x)
            (sym (ap (λ x. x.0) (execute_v1_compact-none env cfg req calls decision unread)))
            (v1_unread unread)
      | inr (items, read) ↦
          subst (λ o. V1Outcome env o r (execute_v1_compact env cfg req decision calls).0)
            (sym read)
            (subst (λ x. V1Outcome env (some items) r x)
              (sym (ap (λ x. x.0) (execute_v1_compact-some env cfg req calls decision items read)))
              (finish_v1-V1Outcome env items r
                (generate_summary-not_blank env cfg req calls model)))
    ]
