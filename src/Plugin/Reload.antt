-- ===== src/Plugin/Reload.antt =====
-- A configuration that a lifecycle call puts in force, and the calls after it.
use cpa_codex_compact_bridge.Common.{
  String, ◌≡◌, refl, inl, inr, Bool, true, false, List, [], ◌∷◌, All, Option, none, some, ap, ◌∙◌,
  arith,
}
use cpa_codex_compact_bridge.Errors.{ok, Result-cases}
use cpa_codex_compact_bridge.Go.Json.{Body}
use cpa_codex_compact_bridge.Config.{Config, Yaml, load_config}
use cpa_codex_compact_bridge.Executor.{Env, handle_execute}
use cpa_codex_compact_bridge.Plugin.{
  Sdk, Method, plugin_register, plugin_reconfigure, executor_identifier, model_route,
  request_intercept_before, request_intercept_after, executor_execute, executor_execute_stream,
  executor_count_tokens, executor_http_request, unknown, ok_envelope, registered, registration,
  PluginState, load, store, lifecycle_config, handle_execute_request, handle_method, plugin_call,
}
use cpa_codex_compact_bridge.Plugin.Lifecycle.{
  accepted, executed_envelope_lem, decoded_execute, undecoded_execute,
}

abbrev pub is_lifecycle : Option Method → Bool
is_lifecycle (some plugin_register) = true
is_lifecycle (some plugin_reconfigure) = true
is_lifecycle _ = false

abbrev pub Call : Type 0
Call = Option Method × Body

-- The state after a sequence of calls.
abbrev pub after_calls : Env → Sdk → Yaml → List Call → PluginState → PluginState
after_calls env sdk yaml [] s = s
after_calls env sdk yaml ((method, request) ∷ calls) s =
    after_calls env sdk yaml calls (plugin_call env sdk yaml method request s).2

execute-load :
    (env : Env) (sdk : Sdk) (request : Body) (stream : Bool) (s : PluginState)
    → load (handle_execute_request env sdk request stream s).1 ≡ load s
unfolding load
execute-load env sdk request stream s = elim (Result-cases (sdk.decode_execute request)) [
  | inr (e, p) ↦ ap load (undecoded_execute env sdk request stream s e p)
  | inl (req, p) ↦ ap load (
      ap (λ x. x.1) (decoded_execute env sdk request stream s req p)
      ∙ executed_envelope_lem (handle_execute env (load s) req stream s.calls) s)
]

method-load :
    (env : Env) (sdk : Sdk) (yaml : Yaml) (method : Method) (request : Body) (s : PluginState)
    → is_lifecycle (some method) ≡ false
    → load (handle_method env sdk yaml method request s).1 ≡ load s
unfolding handle_method
method-load env sdk yaml plugin_register request s h = absurd (ground arith)
method-load env sdk yaml plugin_reconfigure request s h = absurd (ground arith)
method-load env sdk yaml executor_execute request s h = execute-load env sdk request false s
method-load env sdk yaml executor_execute_stream request s h = execute-load env sdk request true s
method-load env sdk yaml executor_identifier request s h = refl
method-load env sdk yaml model_route request s h = refl
method-load env sdk yaml request_intercept_before request s h = refl
method-load env sdk yaml request_intercept_after request s h = refl
method-load env sdk yaml executor_count_tokens request s h = refl
method-load env sdk yaml executor_http_request request s h = refl
method-load env sdk yaml (unknown m) request s h = refl

call-load :
    (env : Env) (sdk : Sdk) (yaml : Yaml) (method : Option Method) (request : Body)
    (s : PluginState)
    → is_lifecycle method ≡ false
    → load (plugin_call env sdk yaml method request s).2 ≡ load s
unfolding plugin_call
call-load env sdk yaml none request s h = refl
call-load env sdk yaml (some method) request s h = method-load env sdk yaml method request s h

after_calls-load :
    (env : Env) (sdk : Sdk) (yaml : Yaml) (calls : List Call) (s : PluginState)
    → All (λ (c : Call). is_lifecycle c.0 ≡ false) calls
    → load (after_calls env sdk yaml calls s) ≡ load s
after_calls-load env sdk yaml [] s h = refl
after_calls-load env sdk yaml ((method, request) ∷ calls) s (one, others) =
    after_calls-load env sdk yaml calls (plugin_call env sdk yaml method request s).2 others
    ∙ call-load env sdk yaml method request s one

lifecycle_call :
    (env : Env) (sdk : Sdk) (yaml : Yaml) (method : Option Method) (request : Body)
    (s : PluginState) (raw : String) (cfg : Config)
    → is_lifecycle method ≡ true
    → lifecycle_config sdk request ≡ ok raw
    → load_config yaml raw ≡ ok cfg
    → plugin_call env sdk yaml method request s
      ≡ (0, ok_envelope (registered (registration sdk)), store cfg s)
unfolding plugin_call handle_method
lifecycle_call env sdk yaml (some plugin_register) request s raw cfg h p q =
    rw (accepted sdk yaml request s raw cfg p q) refl
lifecycle_call env sdk yaml (some plugin_reconfigure) request s raw cfg h p q =
    rw (accepted sdk yaml request s raw cfg p q) refl
lifecycle_call env sdk yaml _ request s raw cfg h p q = absurd (ground arith)

load-store : (cfg : Config) (s : PluginState) → load (store cfg s) ≡ cfg
unfolding load store
load-store cfg s = refl

-- In every state a lifecycle call whose configuration loadConfig accepts answers with the registration, and
-- its configuration is in force after it and after any calls of other methods.
pub plugin_call-reload :
    (env : Env) (sdk : Sdk) (yaml : Yaml) (method : Option Method) (request : Body)
    (s : PluginState) (raw : String) (cfg : Config) (calls : List Call)
    → is_lifecycle method ≡ true
    → lifecycle_config sdk request ≡ ok raw
    → load_config yaml raw ≡ ok cfg
    → All (λ (c : Call). is_lifecycle c.0 ≡ false) calls
    → ((plugin_call env sdk yaml method request s).1 ≡ ok_envelope (registered (registration sdk)))
      × (load (after_calls env sdk yaml ((method, request) ∷ calls) s) ≡ cfg)
plugin_call-reload env sdk yaml method request s raw cfg calls h p q others =
    let called : plugin_call env sdk yaml method request s
        ≡ (0, ok_envelope (registered (registration sdk)), store cfg s) =
      lifecycle_call env sdk yaml method request s raw cfg h p q in
    (
      ap (λ x. x.1) called,
      after_calls-load env sdk yaml calls (plugin_call env sdk yaml method request s).2 others
          ∙ ap (λ x. load x.2) called
          ∙ load-store cfg s,
    )
