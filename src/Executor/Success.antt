-- ===== src/Executor/Success.antt =====
-- A compact turn that can be answered is answered.
use Prim.Native.String.{len}
use cpa_codex_compact_bridge.Common.{
  String, ◌≡◌, ◌≢◌, refl, ◌⊎◌, inl, inr, Bool, true, false, List, [], ◌∷◌, ◌++◌, some, eq_iff,
  arith, ap, ◌∙◌,
}
use cpa_codex_compact_bridge.Common.Int.{pos, ◌≤ℤ◌}
use cpa_codex_compact_bridge.Errors.{Result-cases, ok}
use cpa_codex_compact_bridge.Go.Json.{Json, Body, json}
use cpa_codex_compact_bridge.Go.RawMap.{RawMap, raw_map}
use cpa_codex_compact_bridge.Go.Strings.{trim_space, is_blank}
use cpa_codex_compact_bridge.Go.Strings.Trim.{trim_space_idem}
use cpa_codex_compact_bridge.Items.{InputItem, parse_request_input_items, detect_v1_compact}
use cpa_codex_compact_bridge.Config.{Config, decide_route}
use cpa_codex_compact_bridge.Summary.{extract_summary_text}
use cpa_codex_compact_bridge.Summary.Shapes.{IsResponsesSummary, IsChatSummary}
use cpa_codex_compact_bridge.Summary.Complete.{extract_summary_text_complete}
use cpa_codex_compact_bridge.Request.{validate_summary_size}
use cpa_codex_compact_bridge.Payload.{v2_compaction_item_json, v1_compact_response_body}
use cpa_codex_compact_bridge.Payload.Frames.{completed_frames, v2_sse_events-completed}
use cpa_codex_compact_bridge.Payload.RoundTrip.{bridge_id}
use cpa_codex_compact_bridge.Host.{HostCallbackResult, call_host_model_execute}
use cpa_codex_compact_bridge.Executor.{
  Env, ExecutorRequest, payload, chunk, json_content, event_stream, summary_call, prepare_summary,
  finish_summary, generate_summary, finish_v1, execute_v1_compact, finish_v2, execute_v2_compact,
  handle_execute, pick_summary_model, detect_v2_trigger_from_request, item_id, v1_reply, v2_reply,
}
use cpa_codex_compact_bridge.Executor.Execution.{Calls}
use cpa_codex_compact_bridge.Executor.Effects.{after_call, prepared, execute_v1_compact-some}

-- The summary request can be made, and the host answers it with a finished summary, whose trimmed text
-- is not empty and is within the byte limit.
pub record IsAnswerable (env : Env) (cfg : Config) (req : ExecutorRequest) (model : String)
    (calls : Calls) : Type 0 where
  pub body : Body
  pub is_prepared :
      prepare_summary cfg req model (parse_request_input_items req.original_request) ≡ ok body
  pub resp : HostCallbackResult
  pub is_called :
      call_host_model_execute (env.host calls (summary_call model body req.host_callback_id))
      ≡ ok resp
  pub value : Json
  pub envelope : RawMap
  pub text : String
  pub is_json : resp.body ≡ json value
  pub is_object : raw_map value ≡ ok envelope
  pub is_finished : IsResponsesSummary envelope text ⊎ IsChatSummary envelope text
  pub some_text : trim_space text ≢ ""
  pub fits : pos (len (trim_space text)) ≤ℤ cfg.max_summary_bytes

size_ok :
    (cfg : Config) (summary : String)
    → pos (len summary) ≤ℤ cfg.max_summary_bytes
    → validate_summary_size summary cfg.max_summary_bytes ≡ ok tt
unfolding validate_summary_size
size_ok cfg summary h = ground (arith, h)

pub not_blank : (text : String) → trim_space text ≢ "" → is_blank (trim_space text) ≡ false
not_blank text h = ground (arith, trim_space_idem text, eq_iff (trim_space text) "")

module _ (env : Env) (cfg : Config) (req : ExecutorRequest) (model : String) (calls : Calls)
    (a : IsAnswerable env cfg req model calls) where
  -- The calls with that for the summary.
  abbrev pub calls_after : Calls
  calls_after = calls ++ summary_call model a.body req.host_callback_id ∷ []

  finish_summary-answered : finish_summary cfg a.resp ≡ ok (trim_space a.text)
  unfolding finish_summary
  finish_summary-answered =
      let extracted : extract_summary_text a.resp.body ≡ ok (trim_space a.text) =
        ap extract_summary_text a.is_json
        ∙ extract_summary_text_complete a.value a.envelope a.text a.is_object a.is_finished
            a.some_text in
      ground (arith, extracted, size_ok cfg (trim_space a.text) a.fits)

  pub generate_summary-answered :
      generate_summary env cfg req model calls ≡ (ok (trim_space a.text), calls_after)
  unfolding after_call
  generate_summary-answered =
      prepared env cfg req model calls a.body a.is_prepared
      ∙ ap (λ r. (r, calls_after))
          (ap (λ r. after_call r (finish_summary cfg)) a.is_called ∙ finish_summary-answered)

item_stored :
    (id summary : String)
    → is_blank summary ≡ false
    → (item : Json) × (v2_compaction_item_json id summary ≡ ok item)
unfolding v2_compaction_item_json
item_stored id summary h = elim (Result-cases (v2_compaction_item_json id summary)) [
  | inl p ↦ p
  | inr (e, p) ↦ absurd (ground (arith, h, p))
]

body_made :
    (items : List InputItem) (id summary : String)
    → is_blank summary ≡ false
    → (body : Json) × (v1_compact_response_body items id summary ≡ ok body)
unfolding v1_compact_response_body
body_made items id summary h = elim (Result-cases (v1_compact_response_body items id summary)) [
  | inl p ↦ p
  | inr (e, p) ↦ absurd (let (item, stored) = item_stored id summary h in ground (arith, stored, p))
]

-- The route of a model that the bridge serves.
abbrev pub IsBridged : Config → ExecutorRequest → Type 0
IsBridged cfg req =
    ((decide_route cfg req.model).handled ≡ true) × ((decide_route cfg req.model).bridged ≡ true)

abbrev pub model_of : Config → ExecutorRequest → String
model_of cfg req = pick_summary_model req (decide_route cfg req.model)

handle_execute-v2 :
    (env : Env) (cfg : Config) (req : ExecutorRequest) (calls : Calls)
    → IsBridged cfg req
    → detect_v1_compact req.alt req.stream ≡ false
    → detect_v2_trigger_from_request req.original_request ≡ true
    → handle_execute env cfg req true calls
      ≡ execute_v2_compact env cfg req (decide_route cfg req.model) calls
unfolding handle_execute
handle_execute-v2 env cfg req calls (handled, bridged) v1 v2 = rw (handled, bridged, v1, v2) refl

handle_execute-v1 :
    (env : Env) (cfg : Config) (req : ExecutorRequest) (stream : Bool) (calls : Calls)
    → IsBridged cfg req
    → detect_v1_compact req.alt req.stream ≡ true
    → handle_execute env cfg req stream calls
      ≡ execute_v1_compact env cfg req (decide_route cfg req.model) calls
unfolding handle_execute
handle_execute-v1 env cfg req stream calls (handled, bridged) v1 = rw (handled, bridged, v1) refl

module _ (env : Env) (cfg : Config) (req : ExecutorRequest) (calls : Calls)
    (served : IsBridged cfg req) (a : IsAnswerable env cfg req (model_of cfg req) calls) where
  abbrev pub after : Calls
  after = calls_after env cfg req (model_of cfg req) calls a

  -- On a bridged model a streamed turn that ends with a trigger and is no V1 compact, whose summary
  -- request can be made and is answered with a finished summary within the limit, is answered, after one
  -- host call, with the stream of two frames: `response.output_item.done` with the compaction item that
  -- carries the trimmed summary under the marker and the UUID, and `response.completed` with the
  -- response ID made of the same ID.
  pub handle_execute-v2_answered :
      detect_v1_compact req.alt req.stream ≡ false
      → detect_v2_trigger_from_request req.original_request ≡ true
      → handle_execute env cfg req true calls ≡ (
        ok (chunk event_stream (completed_frames (bridge_id (env.uuid after)) (trim_space a.text))),
        after,
      )
  unfolding execute_v2_compact finish_v2
  handle_execute-v2_answered v1 v2 =
      handle_execute-v2 env cfg req calls served v1 v2
      ∙ ap (finish_v2 env) (generate_summary-answered env cfg req (model_of cfg req) calls a)
      ∙ ap (λ r. (v2_reply r, after))
          (v2_sse_events-completed (item_id env after) (trim_space a.text)
            (not_blank a.text a.some_text))

  -- On a bridged model a V1 compact turn, whose summary request can be made and is answered with a
  -- finished summary within the limit, is answered with the compact response of that summary, after one
  -- host call.
  pub handle_execute-v1_answered :
      (stream : Bool) (items : List InputItem)
      → detect_v1_compact req.alt req.stream ≡ true
      → parse_request_input_items req.original_request ≡ some items
      → (body : Json) × (v1_compact_response_body items (item_id env after) (trim_space a.text)
          ≡ ok body)
        × (handle_execute env cfg req stream calls ≡ (ok (payload (json body) json_content), after))
  unfolding finish_v1
  handle_execute-v1_answered stream items v1 parsed =
      let (body, made) =
        body_made items (item_id env after) (trim_space a.text) (not_blank a.text a.some_text) in
      (
        body,
        made,
        handle_execute-v1 env cfg req stream calls served v1
            ∙ execute_v1_compact-some env cfg req calls (decide_route cfg req.model) items parsed
            ∙ ap (finish_v1 env items)
                (generate_summary-answered env cfg req (model_of cfg req) calls a)
            ∙ ap (λ r. (v1_reply r, after)) made,
      )
