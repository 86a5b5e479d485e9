-- ===== src/Abi/Callback.antt =====
-- callHost and storeHostAPI of plugin/host.go, with the C helpers of its preamble: the callback to the
-- host with the blocks that it allocates and gives back. The host's functions, the allocator's failures and
-- the decoding of an envelope are parameters.
pub mod Contract
pub mod Balance
pub mod Failures
use Prim.Native.String
use cpa_codex_compact_bridge.Common.{
  ℕ, Bool, String, List, [], ◌∷◌, Option, none, some, eqb, length, if◌then◌else◌,
}
use cpa_codex_compact_bridge.Common.Int.{ℤ, pos}
use cpa_codex_compact_bridge.Errors
use cpa_codex_compact_bridge.Errors.{Err, Result, ok, err, error_text}
use cpa_codex_compact_bridge.Host.{
  HostCall, HostEnvelope, HostResponse, HostResult, no_response, undecodable, envelope, host_err,
  texts, call_host, HostCallbackResult, method_host_model_execute, model_result,
}
use cpa_codex_compact_bridge.Abi.Memory.{
  Bytes, Cmd, pure, ◌>>=◌, ◌>>◌, null, c_free, c_string, c_bytes, go_bytes,
}

-- cliproxy_buffer
pub record Buffer : Type 0 where
  pub ptr : ℕ
  pub len : ℕ

abbrev pub null_buffer : Buffer
null_buffer = record { ptr = null; len = 0 }

-- What a call returns, and what it leaves in the buffer that it is given empty.
pub record HostReturn : Type 0 where
  pub code : ℤ
  pub response : Buffer

-- cliproxy_host_call_fn, whose first argument is the host's own context.
abbrev pub HostCallFn : Type 0
HostCallFn = (host_ctx method request request_len : ℕ) → Cmd HostReturn

-- A call with the context given.
abbrev pub CallFn : Type 0
CallFn = (method request request_len : ℕ) → Cmd HostReturn

abbrev pub HostFreeFn : Type 0
HostFreeFn = (ptr len : ℕ) → Cmd (Unit {0})

-- cliproxy_host_api; a function pointer may be null.
pub record HostApi : Type 0 where
  pub abi_version : ℕ
  pub host_ctx : ℕ
  pub call : Option HostCallFn
  pub free_buffer : Option HostFreeFn

-- The libraries: whether C.CBytes gets the memory for some bytes, and json.Unmarshal at an envelope.
pub record Runtime : Type 0 where
  pub allocates : Bytes → Bool
  pub decode : Bytes → Result HostEnvelope

abbrev pub not_called : HostReturn
not_called = record { code = pos 1; response = null_buffer }

-- call_host_api, with the stored pointer to the host.
unfoldable pub call_host_api : Option HostApi → CallFn
call_host_api none method request len = pure not_called
call_host_api (some api) method request len = elim api.call [
  | none ↦ pure not_called
  | some call ↦ call api.host_ctx method request len
]

abbrev free_with : Option HostFreeFn → HostFreeFn
free_with none ptr len = pure tt
free_with (some free) ptr len = if eqb ptr null then pure tt else free ptr len

unfoldable pub free_host_buffer : Option HostApi → HostFreeFn
free_host_buffer none ptr len = pure tt
free_host_buffer (some api) ptr len = free_with api.free_buffer ptr len

-- fmtHostMarshal
unfoldable pub fmt_host_marshal : String → Option Err → Err
fmt_host_marshal method none =
    host_err "host_alloc_failed" (texts ("allocate host callback payload " ∷ method ∷ []))
fmt_host_marshal method (some e) =
    host_err "host_marshal_failed"
      (texts ("marshal host callback payload " ∷ method ∷ ": " ∷ error_text e ∷ []))

abbrev decoded : Result HostEnvelope → HostResponse
decoded (ok env) = envelope env
decoded (err e) = undecodable (error_text e)

-- The bytes of a response, decoded if there are any.
unfoldable pub host_response : Runtime → Bytes → HostResponse
host_response runtime [] = no_response
host_response runtime (b ∷ raw) = decoded (runtime.decode (b ∷ raw))

abbrev pub returned : Runtime → ℤ → Bytes → HostCall
returned runtime code raw = record { call_code = code; response = host_response runtime raw }

-- `response.ptr != nil && response.len > 0`
abbrev pub response_bytes : Buffer → Cmd Bytes
response_bytes r =
    if eqb r.ptr null then pure [] else if eqb r.len 0 then pure [] else go_bytes r.ptr r.len

abbrev pub free_response : Option HostApi → Buffer → Cmd (Unit {0})
free_response stored r = if eqb r.ptr null then pure tt else free_host_buffer stored r.ptr r.len

-- After the call: the response is copied, given back and decoded.
unfoldable pub take_response :
    Runtime → Option HostApi → String → HostReturn → Cmd (Result HostResult)
take_response runtime stored name ret = do
  raw ← response_bytes ret.response
  free_response stored ret.response
  pure (call_host name (returned runtime ret.code raw))

unfoldable pub exchange :
    Runtime → Option HostApi → String → (method request len : ℕ) → Cmd (Result HostResult)
exchange runtime stored name method request len = do
  ret ← call_host_api stored method request len
  take_response runtime stored name ret

-- After the copy of the payload: a null pointer is an error, any other is freed in the end.
unfoldable pub with_copy :
    Runtime → Option HostApi → String → (method len request : ℕ) → Cmd (Result HostResult)
with_copy runtime stored name method len request =
    if eqb request null
    then pure (err (fmt_host_marshal name none))
    else do answer ← exchange runtime stored name method request len; c_free request; pure answer

unfoldable pub with_payload :
    Runtime → Option HostApi → String → Bytes → (method : ℕ) → Cmd (Result HostResult)
with_payload runtime stored name [] method = exchange runtime stored name method null 0
with_payload runtime stored name (b ∷ raw) method = do
  request ← c_bytes runtime.allocates (b ∷ raw)
  with_copy runtime stored name method (length (b ∷ raw)) request

-- callHost, from what json.Marshal gives. The deferred frees run in the reverse order.
unfoldable pub c_call_host :
    Runtime → Option HostApi → String → Result Bytes → Cmd (Result HostResult)
c_call_host runtime stored name (err e) = pure (err (fmt_host_marshal name (some e)))
c_call_host runtime stored name (ok payload) = do
  method ← c_string name
  answer ← with_payload runtime stored name payload method
  c_free method
  pure answer

-- callHostModelExecute
unfoldable pub c_call_host_model_execute :
    Runtime → Option HostApi → Result Bytes → Cmd (Result HostCallbackResult)
c_call_host_model_execute runtime stored payload = do
  result ← c_call_host runtime stored method_host_model_execute payload
  pure (Errors.◌>>=◌ result model_result)
