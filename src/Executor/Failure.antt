-- ===== src/Executor/Failure.antt =====
-- What a client sees of an error of the summary.
use cpa_codex_compact_bridge.Common.{
  String, ◌≡◌, ◌≢◌, inl, inr, ◌==◌, eq_iff, arith, sym, subst, Bool-cases,
}
use cpa_codex_compact_bridge.Errors.{
  PluginErr, Err, plugin_err, host_callback_err, host_model_error, other, HostCallbackErr,
  HostModelError, as_invalid_compaction_state, err_code_invalid_compaction_state,
  err_code_compact_bridge_failed,
}
use cpa_codex_compact_bridge.Executor.{
  bridge_failed, compact_execution_error, compact_failure_message,
}

-- The message that a client sees for an error that is no refusal of the session state: its own for an
-- error of the bridge, a general one for every other.
pub data ClientMessage : Err → String → Type 0 where
  of_bridge :
      (e : PluginErr) → e.code ≡ "compact_bridge_failed" → ClientMessage (plugin_err e) e.message
  of_plugin :
      (e : PluginErr)
      → e.code ≢ "compact_bridge_failed"
      → e.code ≢ "invalid_compaction_state"
      → ClientMessage (plugin_err e) "bridged compaction failed"
  of_callback :
      (e : HostCallbackErr) → ClientMessage (host_callback_err e) "bridged compaction failed"
  of_model : (e : HostModelError) → ClientMessage (host_model_error e) "bridged compaction failed"
  of_library : (text : String) → ClientMessage (other text) "bridged compaction failed"

-- How an error of the summary is answered: a refusal of the session state as it is, any other as a
-- failure of the bridge with the client's message.
pub data Failure : Err → PluginErr → Type 0 where
  refused : (e : PluginErr) → e.code ≡ "invalid_compaction_state" → Failure (plugin_err e) e
  failed :
      (e : Err) (message : String) → ClientMessage e message → Failure e (bridge_failed message)

pub compact_execution_error-Failure : (e : Err) → Failure e (compact_execution_error e)
unfolding compact_execution_error as_invalid_compaction_state compact_failure_message
compact_execution_error-Failure (host_callback_err e) = failed _ _ (of_callback e)
compact_execution_error-Failure (host_model_error e) = failed _ _ (of_model e)
compact_execution_error-Failure (other text) = failed _ _ (of_library text)
compact_execution_error-Failure (plugin_err e) =
    let state = eq_iff e.code err_code_invalid_compaction_state in
    let own = eq_iff e.code err_code_compact_bridge_failed in
    elim (Bool-cases (e.code == err_code_invalid_compaction_state)) [
      | inl s ↦
          let is : compact_execution_error (plugin_err e) ≡ e = ground (arith, s) in
          subst (λ f. Failure (plugin_err e) f) (sym is) (refused e (state.0 s))
      | inr s ↦ elim (Bool-cases (e.code == err_code_compact_bridge_failed)) [
        | inl o ↦
            let is : compact_execution_error (plugin_err e) ≡ bridge_failed e.message =
              ground (arith, s, o) in
            subst (λ f. Failure (plugin_err e) f) (sym is) (failed _ _ (of_bridge e (own.0 o)))
        | inr o ↦
            let is : compact_execution_error (plugin_err e)
                ≡ bridge_failed "bridged compaction failed" =
              ground (arith, s, o) in
            subst (λ f. Failure (plugin_err e) f) (sym is)
              (failed _ _ (
                of_plugin e (λ p. absurd (ground (arith, own.1 p, o)))
                  λ p. absurd (ground (arith, state.1 p, s))))
      ]
    ]
