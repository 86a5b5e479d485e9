-- ===== src/Tests/Abi.antt =====
-- The C interface at a concrete memory and host.
use cpa_codex_compact_bridge.Common.{
  ◌<◌, ◌≡◌, ◌≢◌, refl, true, false, [], ◌∷◌, none, some, ltb, eqb, arith, if◌then◌else◌,
}
use cpa_codex_compact_bridge.Common.Int.{ℤ, pos}
use cpa_codex_compact_bridge.Errors.{ok, err, other}
use cpa_codex_compact_bridge.Go.Json.{empty}
use cpa_codex_compact_bridge.Host.{
  call_host_model_execute, call_host, method_host_model_execute, fmt_host_no_response,
}
use cpa_codex_compact_bridge.Plugin.{executor_identifier, plugin_call}
use cpa_codex_compact_bridge.Abi.Memory.{
  Bytes, Block, Memory, Owner, done, fault, released, release, find, take, c_int_limit, new_block,
}
use cpa_codex_compact_bridge.Abi.Memory
use cpa_codex_compact_bridge.Abi.Callback.{
  HostCallFn, HostFreeFn, Runtime, c_call_host, c_call_host_model_execute,
}
use cpa_codex_compact_bridge.Abi.Callback.Contract.{
  Answers, Serves, Frees, host_api, serve, answer_call, HostContract,
}
use cpa_codex_compact_bridge.Abi.Callback.Balance.{asked, c_call_host_model_execute-answered}
use cpa_codex_compact_bridge.Abi.Callback.Failures.{
  Balanced, call_failure, c_call_host-Balanced, c_call_host_uncalled,
}
use cpa_codex_compact_bridge.Abi.Exports.{Codec, request_bytes, c_plugin_call, plugin_free}
use cpa_codex_compact_bridge.Abi.Exports.Release.{response-life, buffer_at, call_result}
use cpa_codex_compact_bridge.Abi.Exports.Start.{
  request_bytes-live, callback-plugin_init, no_host, after_inits,
}
use cpa_codex_compact_bridge.Itoa.{itoa}
use cpa_codex_compact_bridge.Itoa.Decimal.{itoa_lem, is_least}
use cpa_codex_compact_bridge.Go.Format.{format_int}
use cpa_codex_compact_bridge.Tests.Samples.{env}
use cpa_codex_compact_bridge.Tests.Config.{yaml}
use cpa_codex_compact_bridge.Tests.Runs.{sdk, fresh}

-- A host that answers each call with three bytes in a block of its own.
abbrev answers : Answers
answers p q n m = record {
  code = pos 0;
  response = some (record { ptr = Memory.fresh m; len = 3; bytes = 123 ∷ 32 ∷ 125 ∷ [] });
}

abbrev call : HostCallFn
call ctx p q n m = serve (if eqb ctx 7 then pos 0 else pos 1) (answers p q n m).response m

abbrev free : HostFreeFn
free p n m = released (release Owner.host p m)

fresh_positive : (m : Memory) → 0 < Memory.fresh m
unfolding Memory.fresh
fresh_positive [] = omega arith
fresh_positive (b ∷ m) = omega arith

serves : Serves (call 7) answers
serves p q n m = (refl, (fresh_positive m, omega arith, omega arith))

frees : Frees free
frees p n m = refl

abbrev a_host : HostContract
a_host = record {
  abi_version = 1;
  host_ctx = 7;
  call = call;
  free = free;
  answers = answers;
  serves = serves;
  frees = frees;
}

abbrev runtime : Runtime
runtime = record {
  allocates = λ bytes. true;
  decode = λ bytes. err (other "unexpected end of JSON input");
}

abbrev payload : Bytes
payload = 123 ∷ 125 ∷ []

abbrev request : Block
request = record { ptr = 4; owner = Owner.host; bytes = payload }

abbrev memory : Memory
memory = request ∷ []

c_call_host_model_execute-answered_example :
    c_call_host_model_execute runtime (some (host_api 1 7 call free)) (ok payload) memory
    ≡ done
        (call_host_model_execute
          (answer_call runtime (asked answers method_host_model_execute payload memory)))
        memory
c_call_host_model_execute-answered_example =
    c_call_host_model_execute-answered runtime a_host 123 (125 ∷ []) memory refl

c_call_host-Balanced_example :
    Balanced
      (c_call_host runtime
        (some (host_api 1 7 call free))
        method_host_model_execute
        (ok payload)
        memory)
      memory
c_call_host-Balanced_example =
    c_call_host-Balanced runtime (some (host_api 1 7 call free)) answers method_host_model_execute
      (ok payload) memory (serves, frees)

c_call_host_uncalled_example :
    c_call_host runtime none method_host_model_execute (ok payload) memory
    ≡ done (err (call_failure runtime method_host_model_execute payload)) memory
c_call_host_uncalled_example =
    c_call_host_uncalled runtime none method_host_model_execute 123 (125 ∷ []) memory refl

request_bytes-live_example :
    request_bytes (some executor_identifier) 4 2 memory
    ≡ (if ltb 2 c_int_limit then done (take 2 payload) memory else fault)
request_bytes-live_example =
    request_bytes-live executor_identifier 4 2 request memory (omega arith) (omega arith) refl
      (omega arith) (omega arith)

-- A plugin that had no host, the host, a refused call with no host, and one with a host.
callback-plugin_init_example :
    (c_call_host runtime
        (after_inits 1
          ((none, true)
            ∷ (some (host_api 1 7 call free), true)
            ∷ (none, false)
            ∷ (some (host_api 1 8 call free), false)
            ∷ [])
          no_host).stored_host
        method_host_model_execute
        (ok payload)
        memory
      ≡ done
          (call_host method_host_model_execute
            (answer_call runtime (asked answers method_host_model_execute payload memory)))
          memory)
    × (c_call_host runtime
          (after_inits 1
            ((none, false) ∷ (some (host_api 1 8 call free), false) ∷ [])
            no_host).stored_host
          method_host_model_execute
          (ok payload)
          memory
        ≡ done (err (fmt_host_no_response method_host_model_execute (pos 1))) memory)
callback-plugin_init_example =
    callback-plugin_init 1 ((none, true) ∷ []) (none ∷ some (host_api 1 8 call free) ∷ []) no_host
      runtime a_host method_host_model_execute 123 (125 ∷ []) memory refl

abbrev codec : Codec
codec = record { allocates = λ bytes. true; parse = λ bytes. empty; encode = λ envelope. payload }

payload_bytes : payload ≢ []
payload_bytes e = ground arith

-- A block that the host allocates while it holds the response.
abbrev later : Block
later = record { ptr = 90; owner = Owner.host; bytes = [] }

later_elsewhere : 90 ≢ Memory.fresh memory
unfolding Memory.fresh
later_elsewhere = omega arith

read_request : request_bytes (some executor_identifier) 4 2 memory ≡ done payload memory
unfolding request_bytes Memory.go_bytes take
read_request = refl

response-life_example :
    (c_plugin_call env sdk yaml codec (some executor_identifier) 4 2 true fresh memory
      ≡ done
          (call_result
            (plugin_call env sdk yaml (some executor_identifier) empty fresh)
            (some (buffer_at (Memory.fresh memory) payload)))
          (new_block Owner.plugin payload memory ∷ memory))
    × (plugin_free (Memory.fresh memory) 2 (later ∷ new_block Owner.plugin payload memory ∷ memory)
        ≡ done tt (later ∷ memory))
response-life_example =
    response-life env sdk yaml codec (some executor_identifier) fresh 4 2 payload (later ∷ [])
      memory read_request payload_bytes refl (later_elsewhere, tt)

itoa_lem_example :
    itoa (ℤ.negsuc 41) ≡ some (if is_least (ℤ.negsuc 41) then "-" else format_int (ℤ.negsuc 41))
itoa_lem_example = itoa_lem (ℤ.negsuc 41) (omega arith, omega arith)
