-- ===== src/Host.antt =====
-- plugin/host.go, and headerToMap and valuesToMap of plugin/host_store.go: the callback to the host
-- that runs a model. The host is a parameter; the JSON between it and the plugin is modelled by the
-- values that the two sides write and read, and a text that does not decode is a case of its own. The
-- code of a call is a C int, and is printed with %d; itoa itself is in Itoa.
use Prim.Native.String
use cpa_codex_compact_bridge.Common.{
  ℕ, String, Bool, false, List, [], ◌∷◌, Option, none, some, eqb, if◌then◌else◌,
}
use cpa_codex_compact_bridge.Common.Int.{ℤ, pos, negsuc, ltb_ℤ}
use cpa_codex_compact_bridge.Errors.{
  ◌>>=◌, Err, host_callback_err, host_model_error, Result, ok, err,
}
use cpa_codex_compact_bridge.Go.Json.{Body}
use cpa_codex_compact_bridge.Go.Format.{format_int}

-- A map from names to values, in the order of its entries.
abbrev pub Headers : Type 0
Headers = List (String × List String)

-- headerToMap and valuesToMap copy a map, and give nil for an empty one.
unfoldable pub header_to_map : Headers → Option Headers
header_to_map [] = none
header_to_map (h ∷ hs) = some (h ∷ hs)

pub record HostModelExecutionRequest : Type 0 where
  pub entry_protocol : String
  pub exit_protocol : String
  pub model : String
  pub stream : Bool
  pub body : Body
  pub headers : Option Headers
  pub query : Option Headers
  pub alt : String
  pub host_callback_id : String

pub record HostCallbackResult : Type 0 where
  pub status_code : ℤ
  pub headers : Headers
  pub body : Body

pub record EnvelopeError : Type 0 where
  pub code : String
  pub message : String
  pub http_status : ℕ

-- The `result` of the host's envelope: a model response, or a text that does not decode as one.
pub data HostResult : Type 0 where
  model_response : HostCallbackResult → HostResult
  bad_result : String → HostResult

-- The host's envelope {ok, result, error}.
pub record HostEnvelope : Type 0 where
  pub is_ok : Bool
  pub result : HostResult
  pub error : Option EnvelopeError

-- What the host puts in the response buffer.
pub data HostResponse : Type 0 where
  no_response : HostResponse
  undecodable : String → HostResponse
  envelope : HostEnvelope → HostResponse

-- The return of the C call: its code, and the response.
pub record HostCall : Type 0 where
  pub call_code : ℤ
  pub response : HostResponse

abbrev pub host_err : String → String → Err
host_err code message = host_callback_err (record { code = code; message = message })

abbrev pub texts : List String → String
texts [] = ""
texts (s ∷ ss) = String.◌++◌ s (texts ss)

unfoldable pub fmt_host_no_response : String → ℤ → Err
fmt_host_no_response method code =
    host_err "host_no_response"
      (texts ("host callback " ∷ method ∷ " returned no response, code=" ∷ format_int code ∷ []))

unfoldable pub fmt_host_decode : String → String → Err
fmt_host_decode method cause =
    host_err "host_decode_failed"
      (texts ("decode host callback envelope " ∷ method ∷ ": " ∷ cause ∷ []))

-- fmtHostStreamRead, which the program does not call.
abbrev pub fmt_host_stream_read : String → String → Err
fmt_host_stream_read stream_id message =
    host_err "host_stream_failed" (texts ("host stream " ∷ stream_id ∷ ": " ∷ message ∷ []))

unfoldable pub fmt_host_failed : String → Err
fmt_host_failed method =
    host_err "host_call_failed" (texts ("host callback " ∷ method ∷ " failed" ∷ []))

unfoldable pub fmt_host_code : String → ℤ → Err
fmt_host_code method code =
    host_err "host_call_failed"
      (texts ("host callback " ∷ method ∷ " returned code=" ∷ format_int code ∷ []))

abbrev is_zero : ℤ → Bool
is_zero (pos n) = eqb n 0
is_zero (negsuc n) = false

-- What callHost makes of an envelope; the call's code is looked at last.
unfoldable pub envelope_result : String → ℤ → HostEnvelope → Result HostResult
envelope_result method code env =
    if env.is_ok
    then (if is_zero code then ok env.result else err (fmt_host_code method code))
    else elim env.error [
      | some e ↦ err (host_err e.code e.message)
      | none ↦ err (fmt_host_failed method)
    ]

-- callHost, from the return of the C call. json.Marshal of the payload and C.CBytes do not fail.
unfoldable pub call_host : String → HostCall → Result HostResult
call_host method call = elim call.response [
  | no_response ↦ err (fmt_host_no_response method call.call_code)
  | undecodable cause ↦ err (fmt_host_decode method cause)
  | envelope env ↦ envelope_result method call.call_code env
]

abbrev pub method_host_model_execute : String
method_host_model_execute = "host.model.execute"

-- callHostModelExecute's reading of a result: a status of 400 and above is an error.
unfoldable pub model_result : HostResult → Result HostCallbackResult
model_result (bad_result cause) = err (fmt_host_decode "host.model.execute" cause)
model_result (model_response resp) =
    if ltb_ℤ resp.status_code (pos 400)
    then ok resp
    else err (host_model_error (record { status_code = resp.status_code }))

unfoldable pub call_host_model_execute : HostCall → Result HostCallbackResult
call_host_model_execute call = do
  result ← call_host method_host_model_execute call
  model_result result
