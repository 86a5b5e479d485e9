-- ===== src/Abi/Exports.antt =====
-- The exported functions of plugin/main.go: cliproxy_plugin_init, cliproxyPluginCall, with writeResponse,
-- and cliproxyPluginFree. The dispatch within a call is that of the values: the memory goes around it,
-- and the callbacks that it makes are those of Abi/Callback. C.GoString of the method's name, json.Unmarshal
-- and json.Marshal are parameters.
pub mod Release
pub mod Start
use cpa_codex_compact_bridge.Common.{
  ℕ, Bool, true, false, List, [], ◌∷◌, Option, none, some, eqb, length, if◌then◌else◌,
}
use cpa_codex_compact_bridge.Go.Json.{Body}
use cpa_codex_compact_bridge.Config.{Yaml}
use cpa_codex_compact_bridge.Executor.{Env}
use cpa_codex_compact_bridge.Plugin.{Sdk, Method, Envelope, PluginState, plugin_call}
use cpa_codex_compact_bridge.Abi.Memory.{Bytes, Cmd, pure, ◌>>=◌, null, c_free, c_bytes, go_bytes}
use cpa_codex_compact_bridge.Abi.Callback.{Buffer, null_buffer, HostApi}

-- The functions that the plugin exports.
pub data Export : Type 0 where
  exported_call exported_free exported_shutdown : Export

-- cliproxy_plugin_api
pub record PluginApi : Type 0 where
  pub abi_version : ℕ
  pub call : Export
  pub free_buffer : Export
  pub shutdown : Export

-- The plugin's C state: the stored pointer to the host.
pub record Globals : Type 0 where
  pub stored_host : Option HostApi

-- storeHostAPI and store_host_api
unfoldable pub store_host_api : Option HostApi → Globals → Globals
store_host_api host g = record { stored_host = host }

-- What cliproxy_plugin_init returns, stores and writes to the plugin's table, none if that is null.
pub record InitResult : Type 0 where
  pub code : ℕ
  pub globals : Globals
  pub table : Option PluginApi

abbrev plugin_table : ℕ → PluginApi
plugin_table version = record {
  abi_version = version;
  call = exported_call;
  free_buffer = exported_free;
  shutdown = exported_shutdown;
}

-- cliproxy_plugin_init, with the ABI version of the SDK, and whether the table is there.
unfoldable pub plugin_init : (version : ℕ) → Option HostApi → Bool → Globals → InitResult
plugin_init version host false g = record { code = 1; globals = g; table = none }
plugin_init version host true g = record {
  code = 0;
  globals = store_host_api host g;
  table = some (plugin_table version);
}

-- The allocator's failures, and json at a request and at the plugin's envelope.
pub record Codec : Type 0 where
  pub allocates : Bytes → Bool
  pub parse : Bytes → Body
  pub encode : Envelope → Bytes

abbrev written_buffer : ℕ → ℕ → Buffer
written_buffer ptr len = if eqb ptr null then null_buffer else record { ptr = ptr; len = len }

-- writeResponse, on a response buffer that has been emptied; none where there is no buffer.
unfoldable pub write_response : (Bytes → Bool) → Bool → Bytes → Cmd (Option Buffer)
write_response allocates false raw = pure none
write_response allocates true [] = pure (some null_buffer)
write_response allocates true (b ∷ raw) = do
  ptr ← c_bytes allocates (b ∷ raw)
  pure (some (written_buffer ptr (length (b ∷ raw))))

-- `request != nil && requestLen > 0`
unfoldable pub request_bytes : Option Method → (request len : ℕ) → Cmd Bytes
request_bytes none request len = pure []
request_bytes (some method) request len =
    if eqb request null then pure [] else if eqb len 0 then pure [] else go_bytes request len

pub record CallResult : Type 0 where
  pub code : ℕ
  pub response : Option Buffer
  pub state : PluginState

-- After the dispatch: its envelope is written to the response.
unfoldable pub finish_call :
    Codec → (has_response : Bool) → ℕ × Envelope × PluginState → Cmd CallResult
finish_call codec has_response (code, answer, s) = do
  response ← write_response codec.allocates has_response (codec.encode answer)
  pure (record { code = code; response = response; state = s })

-- cliproxyPluginCall; the method's name is none where its pointer is null.
unfoldable pub c_plugin_call :
    Env
    → Sdk
    → Yaml
    → Codec
    → Option Method
    → (request len : ℕ) → (has_response : Bool) → PluginState
    → Cmd CallResult
c_plugin_call env sdk yaml codec method request len has_response s = do
  bytes ← request_bytes method request len
  finish_call codec has_response (plugin_call env sdk yaml method (codec.parse bytes) s)

-- cliproxyPluginFree
unfoldable pub plugin_free : (ptr len : ℕ) → Cmd (Unit {0})
plugin_free ptr len = if eqb ptr null then pure tt else c_free ptr
