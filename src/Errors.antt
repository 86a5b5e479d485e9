-- ===== src/Errors.antt =====
-- The errors that the plugin returns: `pluginErr` of plugin/main.go, the stable codes of
-- plugin/payload.go, the host errors of plugin/host.go, and Go's `error` over them.
use Prim.Native.String
use cpa_codex_compact_bridge.Common.{
  ℕ, String, ◌≡◌, refl, ◌⊎◌, inl, inr, arith, Option, none, some, ◌==◌, if◌then◌else◌,
}
use cpa_codex_compact_bridge.Common.Int.{ℤ}

-- `http_status` is 0 where the source leaves it out.
pub record PluginErr : Type 0 where
  pub code : String
  pub message : String
  pub http_status : ℕ

pub record HostCallbackErr : Type 0 where
  pub code : String
  pub message : String

pub record HostModelError : Type 0 where
  pub status_code : ℤ

-- A Go `error`: one of the program's three types, or an error of the libraries with its text.
pub data Err : Type 0 where
  plugin_err : PluginErr → Err
  host_callback_err : HostCallbackErr → Err
  host_model_error : HostModelError → Err
  other : String → Err

pub data Result {ℓ} (A : Type ℓ) : Type ℓ where
  ok : A → Result A
  err : Err → Result A

infixl 5 ◌>>=◌ ◌>>◌
abbrev pub ◌>>=◌ {ℓ κ} : {A : Type ℓ} {B : Type κ} → Result A → (A → Result B) → Result B
ok a >>= f = f a
err e >>= f = err e

abbrev pub ◌>>◌ {ℓ κ} : {A : Type ℓ} {B : Type κ} → Result A → Result B → Result B
m >> k = m >>= λ _. k

-- A value that is returned after a check is passed on after the check.
pub bind-ok {ℓ κ μ} :
    {A : Type ℓ} {B : Type κ} {C : Type μ} (m : Result A) (b : B) (f : B → Result C)
    → (m >>= (λ _. ok b) >>= f) ≡ (m >>= λ _. f b)
bind-ok (ok a) b f = refl
bind-ok (err e) b f = refl

pub Result-cases {ℓ} :
    {A : Type ℓ} (m : Result A) → ((a : A) × (m ≡ ok a)) ⊎ ((e : Err) × (m ≡ err e))
Result-cases (ok a) = inl (a, refl)
Result-cases (err e) = inr (e, refl)

pub ok-injective {ℓ} : {A : Type ℓ} {a b : A} → ok a ≡ ok b → a ≡ b
ok-injective e = ground arith

abbrev pub err_code_compact_bridge_failed : String
err_code_compact_bridge_failed = "compact_bridge_failed"

abbrev pub err_code_invalid_compaction_state : String
err_code_invalid_compaction_state = "invalid_compaction_state"

-- summaryFailure, with its message formatted.
unfoldable pub summary_failure : String → Err
summary_failure message =
    plugin_err
      (record { code = err_code_compact_bridge_failed; message = message; http_status = 0 })

-- `errors.As(err, &pluginErr)`; no error of the program wraps a `pluginErr`.
abbrev pub as_plugin_err : Err → Option PluginErr
as_plugin_err (plugin_err e) = some e
as_plugin_err _ = none

abbrev state_err_of : Option PluginErr → Option PluginErr
state_err_of none = none
state_err_of (some e) = if e.code == err_code_invalid_compaction_state then some e else none

unfoldable pub as_invalid_compaction_state : Err → Option PluginErr
as_invalid_compaction_state e = state_err_of (as_plugin_err e)

-- Error() of plugin/main.go and plugin/host.go.
unfoldable pub error_text : Err → String
error_text (plugin_err e) = String.◌++◌ e.code (String.◌++◌ ": " e.message)
error_text (host_callback_err e) = String.◌++◌ e.code (String.◌++◌ ": " e.message)
error_text (host_model_error e) = "model execution failed with status"
error_text (other text) = text

-- fmt.Errorf("text: %w", err) at an error of encoding/json or yaml, which no `errors.As` of the program looks for.
unfoldable pub wrap {ℓ} : {A : Type ℓ} → String → Result A → Result A
wrap text (ok a) = ok a
wrap text (err e) = err (other (String.◌++◌ text (String.◌++◌ ": " (error_text e))))
