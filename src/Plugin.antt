-- ===== src/Plugin.antt =====
-- plugin/main.go: the dispatch of the plugin's RPC methods, the lifecycle and the model router, and
-- handleRequestInterceptBefore of plugin/interceptor.go, over the configuration holder of
-- plugin/host_store.go. The names of the methods and the request types are those of the host's SDK,
-- whose decoding of a request is a parameter.
pub mod Lifecycle
pub mod Reload
pub mod Routing
use Prim.Native.String
use cpa_codex_compact_bridge.Interceptor.{
  RequestInterceptRequest, RequestInterceptResponse, leave_request, normalize_intercepted_replay,
}
use cpa_codex_compact_bridge.Common.{
  ℕ, String, Bool, true, false, ◌||◌, not, List, [], ◌∷◌, Option, none, some, if◌then◌else◌,
}
use cpa_codex_compact_bridge.Errors.{Err, plugin_err, Result, ok, err, error_text}
use cpa_codex_compact_bridge.Go.Json.{Body, empty}
use cpa_codex_compact_bridge.Items.{parse_request_input_items, detect_v2_trigger}
use cpa_codex_compact_bridge.Config.{Config, Yaml, default_config, load_config, decide_route}
use cpa_codex_compact_bridge.Executor.{Env, ExecutorRequest, Reply, handle_execute}
use cpa_codex_compact_bridge.Executor.Execution.{Calls}

-- The fields that the program reads of a request of the SDK.
pub record ModelRouteRequest : Type 0 where
  pub requested_model : String
  pub stream : Bool
  pub body : Body

pub record LifecycleRequest : Type 0 where
  pub config_yaml : String

pub record Sdk : Type 0 where
  pub schema_version : ℕ
  pub decode_lifecycle : Body → Result LifecycleRequest
  pub decode_model_route : Body → Result ModelRouteRequest
  pub decode_request_intercept : Body → Result RequestInterceptRequest
  pub decode_execute : Body → Result ExecutorRequest

pub data Method : Type 0 where
  plugin_register plugin_reconfigure executor_identifier model_route : Method
  request_intercept_before request_intercept_after executor_execute : Method
  executor_execute_stream executor_count_tokens executor_http_request : Method
  unknown : String → Method

pub record ModelRouteResponse : Type 0 where
  pub handled : Bool
  pub target_is_self : Bool
  pub reason : String

pub record Registration : Type 0 where
  pub schema_version : ℕ
  pub name : String
  pub version : String
  pub author : String
  pub repository : String
  pub model_router : Bool
  pub executor : Bool
  pub request_interceptor : Bool
  pub executor_input_formats : List String
  pub executor_output_formats : List String

pub data PluginReply : Type 0 where
  registered : Registration → PluginReply
  identifier : String → PluginReply
  routed : ModelRouteResponse → PluginReply
  intercepted : RequestInterceptResponse → PluginReply
  executed : Reply → PluginReply
  token_count : ℕ → PluginReply
  http_status : ℕ → PluginReply

-- The envelope that a method answers with.
pub data Envelope : Type 0 where
  ok_envelope : PluginReply → Envelope
  error_envelope : (code message : String) (http_status : ℕ) → Envelope

-- The configuration holder, nil before the first store, and the host calls made so far.
pub record PluginState : Type 0 where
  pub config : Option Config
  pub calls : Calls

abbrev config_of : Option Config → Config
config_of none = default_config
config_of (some cfg) = cfg

-- configHolder.load
unfoldable pub load : PluginState → Config
load s = config_of s.config

-- configHolder.store
unfoldable pub store : Config → PluginState → PluginState
store cfg s = record s { config = some cfg }

abbrev pub plugin_name : String
plugin_name = "cpa-codex-compact-bridge"

unfoldable pub registration : Sdk → Registration
registration sdk = record {
  schema_version = sdk.schema_version;
  name = plugin_name;
  version = "0.2.0";
  author = "patrick-fu";
  repository = "https://github.com/patrick-fu/cpa-codex-compact-bridge";
  model_router = true;
  executor = true;
  request_interceptor = true;
  executor_input_formats = "openai-response" ∷ [];
  executor_output_formats = "openai-response" ∷ [];
}

abbrev decode_failure : String → String → Err → Err
decode_failure code text e =
    plugin_err (record { code = code; message = String.◌++◌ text (error_text e); http_status = 0 })

-- The configuration text of a lifecycle request; an empty request has none.
unfoldable pub lifecycle_config : Sdk → Body → Result String
lifecycle_config sdk empty = ok ""
lifecycle_config sdk request = elim (sdk.decode_lifecycle request) [
  | ok req ↦ ok req.config_yaml
  | err e ↦ err (decode_failure "config_decode_failed" "decode lifecycle request: " e)
]

abbrev pub config_invalid : Err → Err
config_invalid e = decode_failure "config_invalid" "" e

unfoldable pub handle_lifecycle : Sdk → Yaml → Body → PluginState → Result Envelope × PluginState
handle_lifecycle sdk yaml request s = elim (lifecycle_config sdk request) [
  | err e ↦ (err e, s)
  | ok raw ↦ elim (load_config yaml raw) [
    | err e ↦ (err (config_invalid e), s)
    | ok cfg ↦ (ok (ok_envelope (registered (registration sdk))), store cfg s)
  ]
]

unfoldable pub should_bridge_route : ModelRouteRequest → Bool
should_bridge_route req =
    if not req.stream then true else elim (parse_request_input_items req.body) [
      | none ↦ false
      | some items ↦ detect_v2_trigger items
    ]

-- handleModelRoute on a decoded request.
unfoldable pub route_model : Config → ModelRouteRequest → ModelRouteResponse
route_model cfg req =
    let decision = decide_route cfg req.requested_model in
    if not decision.handled || not decision.bridged || not (should_bridge_route req)
    then record { handled = false; target_is_self = false; reason = "" }
    else record { handled = true; target_is_self = true; reason = "bridged compact route" }

unfoldable pub handle_model_route : Sdk → Config → Body → Result Envelope
handle_model_route sdk cfg request = elim (sdk.decode_model_route request) [
  | err e ↦ err (decode_failure "route_decode_failed" "decode model.route request: " e)
  | ok req ↦ ok (ok_envelope (routed (route_model cfg req)))
]

unfoldable pub handle_request_intercept_before : Sdk → Config → Body → Result Envelope
handle_request_intercept_before sdk cfg request = elim (sdk.decode_request_intercept request) [
  | err e ↦ err (decode_failure "intercept_decode_failed" "decode request interceptor request: " e)
  | ok req ↦ ok (ok_envelope (intercepted (normalize_intercepted_replay cfg req)))
]

abbrev pub executed_envelope : Result Reply × Calls → PluginState → Result Envelope × PluginState
executed_envelope (ok reply, calls) s =
    (ok (ok_envelope (executed reply)), record s { calls = calls })
executed_envelope (err e, calls) s = (err e, record s { calls = calls })

-- handleExecute, its decoding included.
unfoldable pub handle_execute_request :
    Env → Sdk → Body → Bool → PluginState → Result Envelope × PluginState
handle_execute_request env sdk request stream s = elim (sdk.decode_execute request) [
  | err e ↦ (err (decode_failure "execute_decode_failed" "decode executor request: " e), s)
  | ok req ↦ executed_envelope (handle_execute env (load s) req stream s.calls) s
]

unfoldable pub handle_method :
    Env → Sdk → Yaml → Method → Body → PluginState → Result Envelope × PluginState
handle_method env sdk yaml plugin_register request s = handle_lifecycle sdk yaml request s
handle_method env sdk yaml plugin_reconfigure request s = handle_lifecycle sdk yaml request s
handle_method env sdk yaml executor_identifier request s =
    (ok (ok_envelope (identifier plugin_name)), s)
handle_method env sdk yaml model_route request s = (handle_model_route sdk (load s) request, s)
handle_method env sdk yaml request_intercept_before request s =
    (handle_request_intercept_before sdk (load s) request, s)
handle_method env sdk yaml request_intercept_after request s =
    (ok (ok_envelope (intercepted leave_request)), s)
handle_method env sdk yaml executor_execute request s =
    handle_execute_request env sdk request false s
handle_method env sdk yaml executor_execute_stream request s =
    handle_execute_request env sdk request true s
handle_method env sdk yaml executor_count_tokens request s = (ok (ok_envelope (token_count 0)), s)
handle_method env sdk yaml executor_http_request request s = (ok (ok_envelope (http_status 404)), s)
handle_method env sdk yaml (unknown method) request s =
    (ok (error_envelope "unknown_method" (String.◌++◌ "unknown method: " method) 0), s)

-- errorEnvelopeFrom
unfoldable pub error_envelope_from : Err → Envelope
error_envelope_from (plugin_err e) = error_envelope e.code e.message e.http_status
error_envelope_from e = error_envelope "plugin_error" (error_text e) 0

abbrev respond : Result Envelope → Envelope
respond (ok answer) = answer
respond (err e) = error_envelope_from e

-- cliproxyPluginCall with a response buffer: the return code and the envelope; a null method is none.
unfoldable pub plugin_call :
    Env → Sdk → Yaml → Option Method → Body → PluginState → ℕ × Envelope × PluginState
plugin_call env sdk yaml none request s =
    (1, error_envelope "invalid_method" "method is required" 0, s)
plugin_call env sdk yaml (some method) request s =
    let (r, s') = handle_method env sdk yaml method request s in (0, respond r, s')
