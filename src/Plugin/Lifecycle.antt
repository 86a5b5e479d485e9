-- ===== src/Plugin/Lifecycle.antt =====
-- The plugin over a sequence of calls: its configuration, and the host calls it makes.
use cpa_codex_compact_bridge.Common.{
  String, ◌≡◌, refl, inl, inr, Bool, true, false, [], Option, none, some, ap, ◌∙◌, sym, subst,
}
use cpa_codex_compact_bridge.Errors.{Err, Result, ok, err, Result-cases}
use cpa_codex_compact_bridge.Go.Json.{Body}
use cpa_codex_compact_bridge.Config.{Config, Yaml, load_config}
use cpa_codex_compact_bridge.Config.Validation.{
  IsValid, default_config-IsValid, load_config-IsValid,
}
use cpa_codex_compact_bridge.Executor.{Env, ExecutorRequest, Reply, handle_execute}
use cpa_codex_compact_bridge.Executor.Execution.{Calls}
use cpa_codex_compact_bridge.Executor.Effects.{IsOneCallMore, handle_execute-calls}
use cpa_codex_compact_bridge.Plugin.{
  Sdk, Method, plugin_register, plugin_reconfigure, executor_identifier, model_route,
  request_intercept_before, request_intercept_after, executor_execute, executor_execute_stream,
  executor_count_tokens, executor_http_request, unknown, Envelope, ok_envelope, registered,
  registration, PluginState, load, store, lifecycle_config, config_invalid, handle_lifecycle,
  handle_execute_request, handle_method, plugin_call, executed_envelope,
}

-- What a lifecycle call does: it fails and changes nothing, or it stores a configuration that
-- loadConfig returned.
pub data Outcome (sdk : Sdk) (yaml : Yaml) (s : PluginState)
    : Result Envelope × PluginState → Type 0 where
  failed : (e : Err) → Outcome sdk yaml s (err e, s)
  stored :
      (raw : String) (cfg : Config)
      → load_config yaml raw ≡ ok cfg
      → Outcome sdk yaml s (ok (ok_envelope (registered (registration sdk))), store cfg s)

module _ (sdk : Sdk) (yaml : Yaml) (request : Body) (s : PluginState) where
  undecoded :
      (e : Err)
      → lifecycle_config sdk request ≡ err e
      → handle_lifecycle sdk yaml request s ≡ (err e, s)
  unfolding handle_lifecycle
  undecoded e p = rw (p, handle_lifecycle) refl

  refused :
      (raw : String) (e : Err)
      → lifecycle_config sdk request ≡ ok raw
      → load_config yaml raw ≡ err e
      → handle_lifecycle sdk yaml request s ≡ (err (config_invalid e), s)
  unfolding handle_lifecycle
  refused raw e p q = rw (p, q, handle_lifecycle) refl

  pub accepted :
      (raw : String) (cfg : Config)
      → lifecycle_config sdk request ≡ ok raw
      → load_config yaml raw ≡ ok cfg
      → handle_lifecycle sdk yaml request s
        ≡ (ok (ok_envelope (registered (registration sdk))), store cfg s)
  unfolding handle_lifecycle
  accepted raw cfg p q = rw (p, q, handle_lifecycle) refl

  pub handle_lifecycle-Outcome : Outcome sdk yaml s (handle_lifecycle sdk yaml request s)
  handle_lifecycle-Outcome = elim (Result-cases (lifecycle_config sdk request)) [
    | inr (e, p) ↦ subst (Outcome sdk yaml s) (sym (undecoded e p)) (failed e)
    | inl (raw, p) ↦ elim (Result-cases (load_config yaml raw)) [
      | inr (e, q) ↦
          subst (Outcome sdk yaml s) (sym (refused raw e p q)) (failed (config_invalid e))
      | inl (cfg, q) ↦ subst (Outcome sdk yaml s) (sym (accepted raw cfg p q)) (stored raw cfg q)
    ]
  ]

-- The configuration is the one before, or one that loadConfig returned; at most one host call was
-- made, and none where the configuration changed.
pub data Step (yaml : Yaml) (s : PluginState) : PluginState → Type 0 where
  unchanged :
      (s' : PluginState) → load s' ≡ load s → IsOneCallMore s.calls s'.calls → Step yaml s s'
  reloaded :
      (s' : PluginState) (raw : String)
      → load_config yaml raw ≡ ok (load s')
      → s'.calls ≡ s.calls
      → Step yaml s s'

same_state : (yaml : Yaml) (s : PluginState) → Step yaml s s
same_state yaml s = unchanged s refl (inl refl)

Outcome-Step :
    (sdk : Sdk) (yaml : Yaml) (s : PluginState) (r : Result Envelope × PluginState)
    → Outcome sdk yaml s r
    → Step yaml s r.1
unfolding load store
Outcome-Step sdk yaml s _ (failed e) = same_state yaml s
Outcome-Step sdk yaml s _ (stored raw cfg p) = reloaded (store cfg s) raw p refl

pub undecoded_execute :
    (env : Env) (sdk : Sdk) (request : Body) (stream : Bool) (s : PluginState) (e : Err)
    → sdk.decode_execute request ≡ err e
    → (handle_execute_request env sdk request stream s).1 ≡ s
unfolding handle_execute_request
undecoded_execute env sdk request stream s e p = rw (p, handle_execute_request) refl

pub decoded_execute :
    (env : Env) (sdk : Sdk) (request : Body) (stream : Bool) (s : PluginState)
    (req : ExecutorRequest)
    → sdk.decode_execute request ≡ ok req
    → handle_execute_request env sdk request stream s
      ≡ executed_envelope (handle_execute env (load s) req stream s.calls) s
unfolding handle_execute_request
decoded_execute env sdk request stream s req p = rw (p, handle_execute_request) refl

pub executed_envelope_lem :
    (r : Result Reply × Calls) (s : PluginState)
    → (executed_envelope r s).1 ≡ record s { calls = r.1 }
executed_envelope_lem (ok reply, calls) s = refl
executed_envelope_lem (err e, calls) s = refl

handle_execute_request-Step :
    (env : Env) (sdk : Sdk) (yaml : Yaml) (request : Body) (stream : Bool) (s : PluginState)
    → Step yaml s (handle_execute_request env sdk request stream s).1
unfolding load
handle_execute_request-Step env sdk yaml request stream s =
    elim (Result-cases (sdk.decode_execute request)) [
      | inr (e, p) ↦
          subst (Step yaml s) (sym (undecoded_execute env sdk request stream s e p))
            (same_state yaml s)
      | inl (req, p) ↦
          subst (Step yaml s)
            (sym (
              ap (λ x. x.1) (decoded_execute env sdk request stream s req p)
              ∙ executed_envelope_lem (handle_execute env (load s) req stream s.calls) s))
            (unchanged _ refl (handle_execute-calls env (load s) req stream s.calls))
    ]

handle_method-Step :
    (env : Env) (sdk : Sdk) (yaml : Yaml) (method : Method) (request : Body) (s : PluginState)
    → Step yaml s (handle_method env sdk yaml method request s).1
unfolding handle_method
handle_method-Step env sdk yaml plugin_register request s =
    Outcome-Step sdk yaml s _ (handle_lifecycle-Outcome sdk yaml request s)
handle_method-Step env sdk yaml plugin_reconfigure request s =
    Outcome-Step sdk yaml s _ (handle_lifecycle-Outcome sdk yaml request s)
handle_method-Step env sdk yaml executor_execute request s =
    handle_execute_request-Step env sdk yaml request false s
handle_method-Step env sdk yaml executor_execute_stream request s =
    handle_execute_request-Step env sdk yaml request true s
handle_method-Step env sdk yaml executor_identifier request s = same_state yaml s
handle_method-Step env sdk yaml model_route request s = same_state yaml s
handle_method-Step env sdk yaml request_intercept_before request s = same_state yaml s
handle_method-Step env sdk yaml request_intercept_after request s = same_state yaml s
handle_method-Step env sdk yaml executor_count_tokens request s = same_state yaml s
handle_method-Step env sdk yaml executor_http_request request s = same_state yaml s
handle_method-Step env sdk yaml (unknown method) request s = same_state yaml s

-- A call of any method is a step: either it leaves the configuration in force and makes at most one
-- host call, or it puts a configuration in force that loadConfig returned and makes none.
pub plugin_call-Step :
    (env : Env) (sdk : Sdk) (yaml : Yaml) (method : Option Method) (request : Body)
    (s : PluginState)
    → Step yaml s (plugin_call env sdk yaml method request s).2
unfolding plugin_call
plugin_call-Step env sdk yaml none request s = same_state yaml s
plugin_call-Step env sdk yaml (some method) request s =
    handle_method-Step env sdk yaml method request s

-- The states that a sequence of calls leads to; before the first call nothing is stored.
pub data Reachable (env : Env) (sdk : Sdk) (yaml : Yaml) : PluginState → Type 0 where
  loaded : Reachable env sdk yaml (record { config = none; calls = [] })
  called :
      (s : PluginState) (method : Option Method) (request : Body)
      → Reachable env sdk yaml s
      → Reachable env sdk yaml (plugin_call env sdk yaml method request s).2

pub Step-IsValid :
    (yaml : Yaml) (s s' : PluginState) → Step yaml s s' → IsValid (load s) → IsValid (load s')
Step-IsValid yaml s s' (unchanged _ same _) v = subst IsValid (sym same) v
Step-IsValid yaml s s' (reloaded _ raw p _) v = (load_config-IsValid yaml raw _ p).0

-- After any sequence of plugin calls, failed lifecycle calls included, the configuration in force is
-- valid.
pub Reachable-IsValid :
    (env : Env) (sdk : Sdk) (yaml : Yaml) (s : PluginState)
    → Reachable env sdk yaml s
    → IsValid (load s)
unfolding load
Reachable-IsValid env sdk yaml _ loaded = default_config-IsValid
Reachable-IsValid env sdk yaml _ (called s method request r) =
    Step-IsValid yaml s _ (plugin_call-Step env sdk yaml method request s)
      (Reachable-IsValid env sdk yaml s r)
