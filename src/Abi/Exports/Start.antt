-- ===== src/Abi/Exports/Start.antt =====
-- cliproxy_plugin_init and the callbacks after it, and the copy of a request.
use cpa_codex_compact_bridge.Common.{
  ℕ, ◌%◌, ◌≤◌, ◌<◌, true, false, Bool, String, List, [], ◌∷◌, ◌++◌, map, Option, some, none, ltb,
  length, if◌then◌else◌, ◌≡◌, refl, ap, ◌∙◌, arith,
}
use cpa_codex_compact_bridge.Common.Int.{pos}
use cpa_codex_compact_bridge.Errors.{ok, err}
use cpa_codex_compact_bridge.Host.{call_host, fmt_host_no_response}
use cpa_codex_compact_bridge.Plugin.{Method}
use cpa_codex_compact_bridge.Abi.Memory.{
  Bytes, Block, Memory, done, fault, find, take, c_int_limit, c_int_values, go_bytes,
}
use cpa_codex_compact_bridge.Abi.Callback.{HostApi, Runtime, fmt_host_marshal, c_call_host}
use cpa_codex_compact_bridge.Abi.Callback.Contract.{answer_call, HostContract, api_of}
use cpa_codex_compact_bridge.Abi.Callback.Balance.{asked, c_call_host-answered}
use cpa_codex_compact_bridge.Abi.Callback.Failures.{c_call_host_uncalled}
use cpa_codex_compact_bridge.Abi.Exports.{Globals, request_bytes, plugin_init, store_host_api}

go_bytes-live :
    (p len : ℕ) (b : Block) (m : Memory)
    → find p m ≡ some b
    → len ≤ length b.bytes
    → len < c_int_values
    → go_bytes p len m ≡ (if ltb len c_int_limit then done (take len b.bytes) m else fault)
unfolding go_bytes
go_bytes-live p len b m live le lt =
    let same : len % 4_294_967_296 ≡ len = omega arith in rw (same) ground (arith, live)

-- A request of a live block, of no more bytes than the block has and less than 2^32, is copied where its
-- length is less than 2^31; from there on the copy faults, since its length wraps to a negative C int.
pub request_bytes-live :
    (method : Method) (p len : ℕ) (b : Block) (m : Memory)
    → 0 < p
    → 0 < len
    → find p m ≡ some b
    → len ≤ length b.bytes
    → len < c_int_values
    → request_bytes (some method) p len m
      ≡ (if ltb len c_int_limit then done (take len b.bytes) m else fault)
unfolding request_bytes
request_bytes-live method p len b m address some_bytes live le lt =
    let read : request_bytes (some method) p len m ≡ go_bytes p len m = ground arith in
    read ∙ go_bytes-live p len b m live le lt

abbrev pub no_host : Globals
no_host = record { stored_host = none }

-- The plugin after calls of cliproxy_plugin_init, each with its host and whether the table is there.
unfoldable pub after_inits : ℕ → List (Option HostApi × Bool) → Globals → Globals
after_inits version [] g = g
after_inits version ((host, table) ∷ inits) g =
    after_inits version inits (plugin_init version host table g).globals

-- A call that is refused for want of a table.
abbrev pub refused_init : Option HostApi → Option HostApi × Bool
refused_init host = (host, false)

after_inits-refused :
    (version : ℕ) (hosts : List (Option HostApi)) (g : Globals)
    → after_inits version (map refused_init hosts) g ≡ g
unfolding after_inits plugin_init
after_inits-refused version [] g = refl
after_inits-refused version (host ∷ hosts) g = after_inits-refused version hosts g

after_inits-last :
    (version : ℕ) (before : List (Option HostApi × Bool)) (host : Option HostApi)
    (hosts : List (Option HostApi)) (g : Globals)
    → (after_inits version (before ++ (host, true) ∷ map refused_init hosts) g).stored_host ≡ host
unfolding after_inits plugin_init store_host_api
after_inits-last version [] host hosts g =
    ap (λ k. k.stored_host)
      (after_inits-refused version hosts (plugin_init version host true g).globals)
after_inits-last version ((other, table) ∷ before) host hosts g =
    after_inits-last version before host hosts (plugin_init version other table g).globals

-- After any calls of cliproxy_plugin_init of which the last that is not refused for want of a table
-- brought a host that keeps to the interface, a callback whose payload can be copied gives what that
-- host's answer decodes to, whatever host an earlier or a refused call brought. After refused calls
-- alone, on a plugin that had no host, it fails with host_no_response and the code 1. The memory is as it
-- was.
pub callback-plugin_init :
    (version : ℕ) (before : List (Option HostApi × Bool)) (hosts : List (Option HostApi))
    (g : Globals) (runtime : Runtime) (h : HostContract) (name : String) (b : ℕ) (raw : Bytes)
    (m : Memory)
    → runtime.allocates (b ∷ raw) ≡ true
    → (c_call_host runtime
          (after_inits version
            (before ++ (some (api_of h), true) ∷ map refused_init hosts)
            g).stored_host
          name
          (ok (b ∷ raw))
          m
        ≡ done (call_host name (answer_call runtime (asked h.answers name (b ∷ raw) m))) m)
      × (c_call_host runtime
            (after_inits version (map refused_init hosts) no_host).stored_host
            name
            (ok (b ∷ raw))
            m
          ≡ done (err (fmt_host_no_response name (pos 1))) m)
callback-plugin_init version before hosts g runtime h name b raw m allocates = (
  ap (λ stored. c_call_host runtime stored name (ok (b ∷ raw)) m)
        (after_inits-last version before (some (api_of h)) hosts g)
      ∙ c_call_host-answered runtime h b raw m allocates name,
  ap (λ k. c_call_host runtime k.stored_host name (ok (b ∷ raw)) m)
        (after_inits-refused version hosts no_host)
      ∙ c_call_host_uncalled runtime none name b raw m refl
      ∙ ap
          (λ allowed.
            done
              (err
                (if allowed then fmt_host_no_response name (pos 1) else fmt_host_marshal name none))
              m)
          allocates,
)
