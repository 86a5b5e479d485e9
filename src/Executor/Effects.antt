-- ===== src/Executor/Effects.antt =====
-- The host calls that the executor makes, and what a finished compaction stores.
use Prim.Native.String.{len}
use cpa_codex_compact_bridge.Common.{
  String, ◌≡◌, refl, ◌⊎◌, inl, inr, Bool, true, false, ◌&&◌, ◌||◌, not, List, [], ◌∷◌, ◌++◌, none,
  some, arith, ap, ◌∙◌, sym, subst, if◌then◌else◌, Option-cases,
}
use cpa_codex_compact_bridge.Common.Int.{pos, ◌≤ℤ◌}
use cpa_codex_compact_bridge.Errors.{
  Err, plugin_err, Result, ok, err, Result-cases, as_invalid_compaction_state,
}
use cpa_codex_compact_bridge.Go.Json.{Body}
use cpa_codex_compact_bridge.Items.{InputItem, parse_request_input_items, detect_v1_compact}
use cpa_codex_compact_bridge.State.{bridge, ReplayResult, normalize_compaction_state}
use cpa_codex_compact_bridge.Config.{Config, MatchDecision, decide_route}
use cpa_codex_compact_bridge.Summary.{extract_summary_text}
use cpa_codex_compact_bridge.Request.{validate_summary_size}
use cpa_codex_compact_bridge.Host.{
  HostModelExecutionRequest, HostCallbackResult, call_host_model_execute,
}
use cpa_codex_compact_bridge.Executor.{
  Env, ExecutorRequest, Reply, bridge_failed, host_execute, summary_call, prepare_summary,
  finish_summary, generate_summary, finish_v1, execute_v1_compact, finish_v2, execute_v2_compact,
  ordinary_call, ordinary_failure, delegate_ordinary, execute_ordinary_bridged, handle_execute,
  pick_summary_model, detect_v2_trigger_from_request,
}
use cpa_codex_compact_bridge.Executor.Execution.{Calls, continue, lift}

-- No call was made, or one.
abbrev pub IsOneCallMore : Calls → Calls → Type 0
IsOneCallMore calls calls' =
    (calls' ≡ calls) ⊎ ((request : HostModelExecutionRequest) × (calls' ≡ calls ++ request ∷ []))

unfoldable pub after_call : {A B : Type 0} → Result A → (A → Result B) → Result B
after_call (ok a) f = f a
after_call (err e) f = err e

continue-lift :
    {A B : Type 0} (m : Result A) (f : A → Result B) (calls : Calls)
    → continue m (λ a. lift (f a)) calls ≡ (after_call m f, calls)
unfolding after_call
continue-lift (ok a) f calls = refl
continue-lift (err e) f calls = refl

after_call_ok :
    {A B : Type 0} (m : Result A) (f : A → Result B) (b : B)
    → after_call m f ≡ ok b
    → (a : A) × (m ≡ ok a) × (f a ≡ ok b)
unfolding after_call
after_call_ok (ok a) f b h = (a, refl, h)
after_call_ok (err e) f b h = absurd (ground (arith, h))

-- A summary that finishes is the text of the response and within the limit.
finish_summary_inv :
    (cfg : Config) (resp : HostCallbackResult) (summary : String)
    → finish_summary cfg resp ≡ ok summary
    → (extract_summary_text resp.body ≡ ok summary) × (pos (len summary) ≤ℤ cfg.max_summary_bytes)
unfolding finish_summary validate_summary_size
finish_summary_inv cfg resp summary h = ground (arith, h)

module _ (env : Env) (cfg : Config) (req : ExecutorRequest) (model : String) (calls : Calls) where
  -- A request that cannot be prepared makes no call.
  pub unprepared :
      (e : Err)
      → prepare_summary cfg req model (parse_request_input_items req.original_request) ≡ err e
      → generate_summary env cfg req model calls ≡ (err e, calls)
  unfolding generate_summary
  unprepared e p = rw p

  -- Otherwise there is the one call for the summary.
  pub prepared :
      (body : Body)
      → prepare_summary cfg req model (parse_request_input_items req.original_request) ≡ ok body
      → generate_summary env cfg req model calls ≡ (
        after_call
            (call_host_model_execute
              (env.host calls (summary_call model body req.host_callback_id)))
            (finish_summary cfg),
        calls ++ summary_call model body req.host_callback_id ∷ [],
      )
  unfolding generate_summary host_execute
  prepared body p = rw p (continue-lift _ (finish_summary cfg) _)

  generate_summary-calls : IsOneCallMore calls (generate_summary env cfg req model calls).1
  generate_summary-calls =
      elim (Result-cases
        (prepare_summary cfg req model (parse_request_input_items req.original_request))) [
          | inr (e, p) ↦ inl (ap (λ x. x.1) (unprepared e p))
          | inl (body, p) ↦
              inr (summary_call model body req.host_callback_id, ap (λ x. x.1) (prepared body p))
        ]

  -- A summary was made by exactly one call, which the host answered with a response whose text it is,
  -- and it is not above the byte limit.
  pub generate_summary_made :
      (summary : String)
      → (generate_summary env cfg req model calls).0 ≡ ok summary
      → (request : HostModelExecutionRequest) × ((generate_summary env cfg req model calls).1
          ≡ calls ++ request ∷ [])
        × (resp : HostCallbackResult) × (call_host_model_execute (env.host calls request) ≡ ok resp)
        × (extract_summary_text resp.body ≡ ok summary)
        × (pos (len summary) ≤ℤ cfg.max_summary_bytes)
  generate_summary_made summary h =
      elim (Result-cases
        (prepare_summary cfg req model (parse_request_input_items req.original_request))) [
          | inr (e, p) ↦ absurd (ground (arith, sym (ap (λ x. x.0) (unprepared e p)) ∙ h))
          | inl (body, p) ↦
              let (resp, called, made) =
                after_call_ok _ _ summary (sym (ap (λ x. x.0) (prepared body p)) ∙ h) in
              (
                summary_call model body req.host_callback_id,
                ap (λ x. x.1) (prepared body p),
                resp,
                called,
                (finish_summary_inv cfg resp summary made).0,
                (finish_summary_inv cfg resp summary made).1,
              )
        ]

-- executeV1Compact and executeV2Compact call the host for the summary alone.
pub finish_v1-calls :
    (env : Env) (items : List InputItem) (r : Result String × Calls)
    → (finish_v1 env items r).1 ≡ r.1
unfolding finish_v1
finish_v1-calls env items (ok s, calls) = refl
finish_v1-calls env items (err e, calls) = refl

pub finish_v2-calls : (env : Env) (r : Result String × Calls) → (finish_v2 env r).1 ≡ r.1
unfolding finish_v2
finish_v2-calls env (ok s, calls) = refl
finish_v2-calls env (err e, calls) = refl

module _ (env : Env) (cfg : Config) (req : ExecutorRequest) (calls : Calls) where
  pub execute_v1_compact-none :
      (decision : MatchDecision)
      → parse_request_input_items req.original_request ≡ none
      → execute_v1_compact env cfg req decision calls
        ≡ (err (plugin_err (bridge_failed "bridged compaction failed")), calls)
  unfolding execute_v1_compact
  execute_v1_compact-none decision p = rw (p, execute_v1_compact)

  pub execute_v1_compact-some :
      (decision : MatchDecision) (items : List InputItem)
      → parse_request_input_items req.original_request ≡ some items
      → execute_v1_compact env cfg req decision calls
        ≡ finish_v1 env items (generate_summary env cfg req (pick_summary_model req decision) calls)
  unfolding execute_v1_compact finish_v1
  execute_v1_compact-some decision items p = rw (p, execute_v1_compact)

  execute_v1_compact-calls :
      (decision : MatchDecision)
      → IsOneCallMore calls (execute_v1_compact env cfg req decision calls).1
  execute_v1_compact-calls decision =
      elim (Option-cases (parse_request_input_items req.original_request)) [
        | inl p ↦ inl (ap (λ x. x.1) (execute_v1_compact-none decision p))
        | inr (items, p) ↦
            subst (λ x. IsOneCallMore calls x)
              (sym (
                ap (λ x. x.1) (execute_v1_compact-some decision items p)
                ∙ finish_v1-calls env items _))
              (generate_summary-calls env cfg req (pick_summary_model req decision) calls)
      ]

  execute_v2_compact-calls :
      (decision : MatchDecision)
      → IsOneCallMore calls (execute_v2_compact env cfg req decision calls).1
  unfolding execute_v2_compact
  execute_v2_compact-calls decision =
      subst (λ x. IsOneCallMore calls x) (sym (finish_v2-calls env _))
        (generate_summary-calls env cfg req (pick_summary_model req decision) calls)

  delegate_ordinary-calls :
      (stream : Bool)
      → (delegate_ordinary env req stream calls).1 ≡ calls ++ ordinary_call req stream ∷ []
  unfolding delegate_ordinary host_execute
  delegate_ordinary-calls stream =
      elim (Result-cases (call_host_model_execute (env.host calls (ordinary_call req stream)))) [
        | inl (resp, p) ↦ rw p refl
        | inr (e, p) ↦ rw p refl
      ]

  ordinary_bridged-ok :
      (stream : Bool) (result : ReplayResult)
      → normalize_compaction_state req.original_request bridge ≡ ok result
      → execute_ordinary_bridged env req stream calls
        ≡ delegate_ordinary env (record req { original_request = result.body }) stream calls
  unfolding execute_ordinary_bridged delegate_ordinary
  ordinary_bridged-ok stream result p = rw (p, execute_ordinary_bridged)

  pub ordinary_bridged-err :
      (stream : Bool) (e : Err)
      → normalize_compaction_state req.original_request bridge ≡ err e
      → execute_ordinary_bridged env req stream calls
        ≡ (err (plugin_err (ordinary_failure (as_invalid_compaction_state e))), calls)
  unfolding execute_ordinary_bridged
  ordinary_bridged-err stream e p = rw (p, execute_ordinary_bridged)

if-calls :
    (b : Bool) (calls : Calls) (x y : Result Reply × Calls)
    → IsOneCallMore calls x.1
    → IsOneCallMore calls y.1
    → IsOneCallMore calls (if b then x else y).1
if-calls true calls x y p q = p
if-calls false calls x y p q = q

ordinary_bridged-calls :
    (env : Env) (req : ExecutorRequest) (cfg : Config) (calls : Calls) (stream : Bool)
    → IsOneCallMore calls (execute_ordinary_bridged env req stream calls).1
ordinary_bridged-calls env req cfg calls stream =
    elim (Result-cases (normalize_compaction_state req.original_request bridge)) [
      | inl (result, p) ↦
          let turn = record req { original_request = result.body } in
          inr (
            ordinary_call turn stream,
            ap (λ x. x.1) (ordinary_bridged-ok env cfg req calls stream result p)
                ∙ delegate_ordinary-calls env cfg turn calls stream,
          )
      | inr (e, p) ↦ inl (ap (λ x. x.1) (ordinary_bridged-err env cfg req calls stream e p))
    ]

-- On every branch handleExecute makes at most one host call, after those made before.
pub handle_execute-calls :
    (env : Env) (cfg : Config) (req : ExecutorRequest) (stream : Bool) (calls : Calls)
    → IsOneCallMore calls (handle_execute env cfg req stream calls).1
unfolding handle_execute
handle_execute-calls env cfg req stream calls =
    let decision = decide_route cfg req.model in
    let ordinary = execute_ordinary_bridged env req stream calls in
    let unexpected : Result Reply × Calls =
      (err (plugin_err (bridge_failed "unexpected ordinary streaming bridge request")), calls) in
    let v1 = execute_v1_compact env cfg req decision calls in
    let v2 = execute_v2_compact env cfg req decision calls in
    let is_v2 = stream && detect_v2_trigger_from_request req.original_request in
    let rest = if stream then unexpected else ordinary in
    if-calls (not decision.handled || not decision.bridged) calls
      (delegate_ordinary env req stream calls)
      (if detect_v1_compact req.alt req.stream then v1 else if is_v2 then v2 else rest)
      (inr (ordinary_call req stream, delegate_ordinary-calls env cfg req calls stream))
      (if-calls (detect_v1_compact req.alt req.stream) calls v1 (if is_v2 then v2 else rest)
        (execute_v1_compact-calls env cfg req calls decision)
        (if-calls is_v2 calls v2 rest (execute_v2_compact-calls env cfg req calls decision) (
          if-calls stream calls unexpected ordinary (inl refl)
            (ordinary_bridged-calls env req cfg calls stream))))
