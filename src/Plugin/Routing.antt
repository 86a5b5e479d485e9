-- ===== src/Plugin/Routing.antt =====
-- What the model router claims, and what the executor does with it.
use cpa_codex_compact_bridge.Common.{
  ◌≡◌, refl, ap, Bool, true, false, if◌then◌else◌, ◌&&◌, ◌||◌, not, arith, ◌∙◌, sym, Bool-cases,
  inl, inr,
}
use cpa_codex_compact_bridge.Config.{Config, decide_route}
use cpa_codex_compact_bridge.Executor.{
  Env, ExecutorRequest, detect_v2_trigger_from_request, handle_execute, execute_v1_compact,
  execute_v2_compact, execute_ordinary_bridged,
}
use cpa_codex_compact_bridge.Executor.Execution.{Calls}
use cpa_codex_compact_bridge.Items.{detect_v1_compact}
use cpa_codex_compact_bridge.Plugin.{ModelRouteRequest, should_bridge_route, route_model}

should_bridge_route_lem :
    (req : ModelRouteRequest)
    → should_bridge_route req ≡ (not req.stream || detect_v2_trigger_from_request req.body)
unfolding should_bridge_route detect_v2_trigger_from_request
should_bridge_route_lem req = elim (Bool-cases req.stream) [ inl p ↦ rw p refl | inr p ↦ rw p refl ]

handled_lem :
    (cfg : Config) (req : ModelRouteRequest)
    → (route_model cfg req).handled ≡ (
        (decide_route cfg req.requested_model).handled
        && (decide_route cfg req.requested_model).bridged
        && should_bridge_route req)
unfolding route_model
handled_lem cfg req = ground arith

-- What the executor does with a turn that it bridges.
bridged_run :
    (env : Env) (cfg : Config) (req : ExecutorRequest) (stream : Bool) (calls : Calls)
    → (decide_route cfg req.model).handled ≡ true
    → (decide_route cfg req.model).bridged ≡ true
    → (not stream || detect_v2_trigger_from_request req.original_request) ≡ true
    → handle_execute env cfg req stream calls ≡ (
        if detect_v1_compact req.alt req.stream
        then execute_v1_compact env cfg req (decide_route cfg req.model) calls
        else if stream
        then execute_v2_compact env cfg req (decide_route cfg req.model) calls
        else execute_ordinary_bridged env req false calls)
unfolding handle_execute
bridged_run env cfg req true calls handled bridged shape = rw (handled, bridged, shape) refl
bridged_run env cfg req false calls handled bridged shape = rw (handled, bridged) refl

-- Where the router claims a request, handleExecute, given the same model, body and stream flag, bridges
-- it: a V1 compact turn as such, another streamed turn as a V2 compact turn, and every other as an
-- ordinary turn under the session state policy; it hands none to the host unchecked, and gives none the
-- error of an unexpected stream.
pub handle_execute-route_model :
    (env : Env) (cfg : Config) (route : ModelRouteRequest) (req : ExecutorRequest) (calls : Calls)
    → req.model ≡ route.requested_model
    → req.original_request ≡ route.body
    → (route_model cfg route).handled ≡ true
    → handle_execute env cfg req route.stream calls ≡ (
        if detect_v1_compact req.alt req.stream
        then execute_v1_compact env cfg req (decide_route cfg req.model) calls
        else if route.stream
        then execute_v2_compact env cfg req (decide_route cfg req.model) calls
        else execute_ordinary_bridged env req false calls)
handle_execute-route_model env cfg route req calls m b h =
    let claimed = sym (handled_lem cfg route) ∙ h in
    let shape : (not route.stream || detect_v2_trigger_from_request route.body) ≡ true =
      sym (should_bridge_route_lem route) ∙ ground (arith, claimed) in
    let handled : (decide_route cfg route.requested_model).handled ≡ true =
      ground (arith, claimed) in
    let bridged : (decide_route cfg route.requested_model).bridged ≡ true =
      ground (arith, claimed) in
    bridged_run env cfg req route.stream calls (ap (λ k. (decide_route cfg k).handled) m ∙ handled)
      (ap (λ k. (decide_route cfg k).bridged) m ∙ bridged)
      (ap (λ k. not route.stream || detect_v2_trigger_from_request k) b ∙ shape)
