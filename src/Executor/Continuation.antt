-- ===== src/Executor/Continuation.antt =====
-- A V1 compact turn and the turn after it.
use cpa_codex_compact_bridge.Common.{Bool, ◌≡◌, ◌≢◌, true, List, [], ◌∷◌, ◌++◌, map, some, ap, ◌∙◌}
use cpa_codex_compact_bridge.Errors.{ok}
use cpa_codex_compact_bridge.Go.Json.{Json, Elems, arr, obj, end, field, json, elems, compact}
use cpa_codex_compact_bridge.Go.Strings.{trim_space}
use cpa_codex_compact_bridge.Items.{parse_input_items, parse_request_input_items, detect_v1_compact}
use cpa_codex_compact_bridge.State.{CompactTarget, rewrite_compaction_items}
use cpa_codex_compact_bridge.Config.{Config}
use cpa_codex_compact_bridge.Payload.{retained_items}
use cpa_codex_compact_bridge.Payload.RoundTrip.{user_message}
use cpa_codex_compact_bridge.Payload.Continue.{rewrite_compaction_items-v1_compact_response_body}
use cpa_codex_compact_bridge.Executor.{Env, ExecutorRequest, payload, json_content, handle_execute}
use cpa_codex_compact_bridge.Executor.Execution.{Calls}
use cpa_codex_compact_bridge.Executor.Success.{
  IsAnswerable, IsBridged, model_of, after, handle_execute-v1_answered,
}

module _ (env : Env) (cfg : Config) (req : ExecutorRequest) (calls : Calls)
    (served : IsBridged cfg req) (a : IsAnswerable env cfg req (model_of cfg req) calls) where
  -- On a bridged model a V1 compact turn of an item array, whose summary request can be made and is
  -- answered with a finished summary within the limit, and whose UUID is not empty, is answered, after
  -- one host call, with the one field `output`; as the history of a next turn it is accepted for every
  -- target, and goes on as the retained messages and a user message with the trimmed summary.
  pub handle_execute-continues :
      (stream : Bool) (raws : List Json) (target : CompactTarget)
      → detect_v1_compact req.alt req.stream ≡ true
      → parse_request_input_items req.original_request ≡ some (parse_input_items raws)
      → env.uuid (after env cfg req calls served a) ≢ ""
      → (output : Elems) × (handle_execute env cfg req stream calls ≡ (
        ok (payload (json (obj (field "output" (arr output) end))) json_content),
        after env cfg req calls served a,
      ))
        × (rewrite_compaction_items (parse_input_items (elems output)) target
            ≡ ok (
              map compact (retained_items (parse_input_items raws))
                  ++ user_message (trim_space a.text) ∷ [],
              true,
            ))
  handle_execute-continues stream raws target v1 parsed unique =
      let (body, made, answered) =
        handle_execute-v1_answered env cfg req calls served a stream (parse_input_items raws) v1
          parsed in
      let (output, is, continued) =
        rewrite_compaction_items-v1_compact_response_body raws
          (env.uuid (after env cfg req calls served a)) (trim_space a.text) body target unique
          made in
      (
        output,
        answered
            ∙ ap (λ b. (ok (payload (json b) json_content), after env cfg req calls served a)) is,
        continued,
      )
