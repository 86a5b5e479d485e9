-- ===== src/Abi/Exports/Release.antt =====
-- The response of cliproxyPluginCall, and its end by cliproxyPluginFree.
use cpa_codex_compact_bridge.Common.{
  ℕ, ◌<◌, Bool, true, false, [], ◌∷◌, ◌++◌, Option, none, some, length, All, ◌≡◌, ◌≢◌, refl, ap,
  ◌∙◌, arith,
}
use cpa_codex_compact_bridge.Config.{Yaml}
use cpa_codex_compact_bridge.Executor.{Env}
use cpa_codex_compact_bridge.Plugin.{Sdk, Method, Envelope, PluginState, plugin_call}
use cpa_codex_compact_bridge.Abi.Memory.{
  Bytes, Block, Memory, Owner, done, release, pure, and_then, fresh, new_block, alloc, c_free,
  c_bytes,
}
use cpa_codex_compact_bridge.Abi.Callback.{Buffer}
use cpa_codex_compact_bridge.Abi.Callback.Contract.{served}
use cpa_codex_compact_bridge.Abi.Callback.Balance.{fresh_positive}
use cpa_codex_compact_bridge.Abi.Exports.{
  Codec, CallResult, write_response, request_bytes, c_plugin_call, finish_call, plugin_free,
}

-- The buffer that holds some bytes at an address.
abbrev pub buffer_at : ℕ → Bytes → Buffer
buffer_at p bytes = record { ptr = p; len = length bytes }

-- What the call gives in the end: the return code, the response and the state of the values.
abbrev pub call_result : ℕ × Envelope × PluginState → Option Buffer → CallResult
call_result (code, answer, s) response = record { code = code; response = response; state = s }

write_response-alloc :
    (allocates : Bytes → Bool) (b : ℕ) (raw : Bytes) (m : Memory)
    → allocates (b ∷ raw) ≡ true
    → write_response allocates true (b ∷ raw) m
      ≡ done (some (buffer_at (fresh m) (b ∷ raw))) (new_block Owner.plugin (b ∷ raw) m ∷ m)
unfolding write_response c_bytes alloc
write_response-alloc allocates b raw m h = ground (arith, h, fresh_positive m)

write_response-nonempty :
    (allocates : Bytes → Bool) (raw : Bytes) (m : Memory)
    → raw ≢ []
    → allocates raw ≡ true
    → write_response allocates true raw m
      ≡ done (some (buffer_at (fresh m) raw)) (new_block Owner.plugin raw m ∷ m)
write_response-nonempty allocates [] m some_bytes h = absurd (some_bytes refl)
write_response-nonempty allocates (b ∷ raw) m some_bytes h =
    write_response-alloc allocates b raw m h

abbrev answer_of : ℕ × Envelope × PluginState → Envelope
answer_of r = r.1

module _ (env : Env) (sdk : Sdk) (yaml : Yaml) (codec : Codec) (method : Option Method)
    (s : PluginState) where
  abbrev pub value_call : Bytes → ℕ × Envelope × PluginState
  value_call bytes = plugin_call env sdk yaml method (codec.parse bytes) s

  -- What is written to the response of a call.
  abbrev pub answer_bytes : Bytes → Bytes
  answer_bytes bytes = codec.encode (answer_of (value_call bytes))

  c_plugin_call-finish :
      (request len : ℕ) (has_response : Bool) (bytes : Bytes) (m : Memory)
      → request_bytes method request len m ≡ done bytes m
      → c_plugin_call env sdk yaml codec method request len has_response s m
        ≡ finish_call codec has_response (value_call bytes) m
  unfolding c_plugin_call
  c_plugin_call-finish request len has_response bytes m read =
      ap (λ run. and_then run (λ bytes'. finish_call codec has_response (value_call bytes'))) read

  -- The call with a response buffer.
  pub c_plugin_call-answers :
      (request len : ℕ) (bytes : Bytes) (m : Memory)
      → request_bytes method request len m ≡ done bytes m
      → answer_bytes bytes ≢ []
      → codec.allocates (answer_bytes bytes) ≡ true
      → c_plugin_call env sdk yaml codec method request len true s m
        ≡ done
            (call_result (value_call bytes) (some (buffer_at (fresh m) (answer_bytes bytes))))
            (new_block Owner.plugin (answer_bytes bytes) m ∷ m)
  unfolding finish_call
  c_plugin_call-answers request len bytes m read some_bytes allocates =
      c_plugin_call-finish request len true bytes m read
      ∙ ap (λ run. and_then run (λ response. pure (call_result (value_call bytes) response)))
          (write_response-nonempty codec.allocates (answer_bytes bytes) m some_bytes allocates)

  -- The call without a response buffer.
  pub c_plugin_call_unanswered :
      (request len : ℕ) (bytes : Bytes) (m : Memory)
      → request_bytes method request len m ≡ done bytes m
      → c_plugin_call env sdk yaml codec method request len false s m
        ≡ done (call_result (value_call bytes) none) m
  unfolding finish_call write_response
  c_plugin_call_unanswered request len bytes m read =
      c_plugin_call-finish request len false bytes m read

release-between :
    (who : Owner) (p : ℕ) (bytes : Bytes) (between m : Memory)
    → All (λ (b : Block). b.ptr ≢ p) between
    → release who p (between ++ (served who p bytes ∷ m)) ≡ some (between ++ m)
unfolding release
release-between Owner.plugin p bytes [] m others = ground arith
release-between Owner.host p bytes [] m others = ground arith
release-between who p bytes (b ∷ between) m (other, others) =
    ground (arith, release-between who p bytes between m others)

pub plugin_free-between :
    (p len : ℕ) (bytes : Bytes) (between m : Memory)
    → 0 < p
    → All (λ (b : Block). b.ptr ≢ p) between
    → plugin_free p len (between ++ (served Owner.plugin p bytes ∷ m)) ≡ done tt (between ++ m)
unfolding plugin_free c_free
plugin_free-between p len bytes between m positive others =
    ground (arith, release-between Owner.plugin p bytes between m others)

module _ (env : Env) (sdk : Sdk) (yaml : Yaml) (codec : Codec) (method : Option Method)
    (s : PluginState) where
  -- For a request that is read and an envelope whose non-empty encoding gets its memory, cliproxyPluginCall
  -- returns the code and the state of the call on values and a buffer of the plugin's with all the
  -- encoded bytes. cliproxyPluginFree on it, with other blocks allocated since, gives back that block alone.
  pub response-life :
      (request len : ℕ) (bytes : Bytes) (between m : Memory)
      → request_bytes method request len m ≡ done bytes m
      → answer_bytes env sdk yaml codec method s bytes ≢ []
      → codec.allocates (answer_bytes env sdk yaml codec method s bytes) ≡ true
      → All (λ (b : Block). b.ptr ≢ fresh m) between
      → (c_plugin_call env sdk yaml codec method request len true s m
          ≡ done
              (call_result
                (value_call env sdk yaml codec method s bytes)
                (some (buffer_at (fresh m) (answer_bytes env sdk yaml codec method s bytes))))
              (new_block Owner.plugin (answer_bytes env sdk yaml codec method s bytes) m ∷ m))
        × (plugin_free (fresh m) (length (answer_bytes env sdk yaml codec method s bytes)) (
              between
              ++ (new_block Owner.plugin (answer_bytes env sdk yaml codec method s bytes) m ∷ m))
            ≡ done tt (between ++ m))
  response-life request len bytes between m read some_bytes allocates others = (
    c_plugin_call-answers env sdk yaml codec method s request len bytes m read some_bytes allocates,
    plugin_free-between (fresh m) (length (answer_bytes env sdk yaml codec method s bytes))
        (answer_bytes env sdk yaml codec method s bytes) between m (fresh_positive m) others,
  )
