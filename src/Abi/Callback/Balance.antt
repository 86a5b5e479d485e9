-- ===== src/Abi/Callback/Balance.antt =====
-- What a callback to the host does to the memory: for a host that keeps to the interface nothing is left
-- over, nothing is given back twice, and the result is that of the values.
use cpa_codex_compact_bridge.Common.{
  ℕ, ◌%◌, ◌≤◌, ◌<◌, true, String, [], ◌∷◌, ◌++◌, Option, none, some, length, ◌≡◌, refl, ap, ◌∙◌,
  arith,
}
use cpa_codex_compact_bridge.Common.Int.{ℤ}
use cpa_codex_compact_bridge.Go.Glob.Utf8.{utf8}
use cpa_codex_compact_bridge.Errors.{Err, Result, ok, err}
use cpa_codex_compact_bridge.Errors
use cpa_codex_compact_bridge.Host.{
  call_host, call_host_model_execute, model_result, method_host_model_execute,
}
use cpa_codex_compact_bridge.Abi.Memory.{
  Bytes, Memory, Owner, done, release, pure, and_then, ◌>>=◌, fresh, new_block, alloc, take,
  c_int_limit, c_free, c_string, c_bytes, go_bytes,
}
use cpa_codex_compact_bridge.Abi.Callback.{
  HostCallFn, HostFreeFn, Runtime, call_host_api, free_host_buffer, response_bytes, free_response,
  take_response, returned, exchange, with_copy, with_payload, c_call_host,
  c_call_host_model_execute,
}
use cpa_codex_compact_bridge.Abi.Callback.Contract.{
  host_api, HostContract, api_of, Response, Answer, served, answered, answer_call, IsResponse,
  serve, Answers, Frees,
}

release-head :
    (who : Owner) (p : ℕ) (bytes : Bytes) (m : Memory)
    → release who p (served who p bytes ∷ m) ≡ some m
unfolding release
release-head Owner.host p bytes m = ground arith
release-head Owner.plugin p bytes m = ground arith

pub c_free-head :
    (p : ℕ) (bytes : Bytes) (m : Memory)
    → 0 < p
    → c_free p (served Owner.plugin p bytes ∷ m) ≡ done tt m
unfolding c_free
c_free-head p bytes m positive = ground (arith, release-head Owner.plugin p bytes m)

pub fresh_positive : (m : Memory) → 0 < fresh m
unfolding fresh
fresh_positive [] = omega arith
fresh_positive (b ∷ m) = omega arith

pub go_bytes-head :
    (who : Owner) (p n : ℕ) (bytes : Bytes) (m : Memory)
    → n ≤ length bytes
    → n < c_int_limit
    → go_bytes p n (served who p bytes ∷ m) ≡ done (take n bytes) (served who p bytes ∷ m)
unfolding go_bytes
go_bytes-head who p n bytes m le lt =
    let same : n % 4_294_967_296 ≡ n = omega arith in rw (same) ground arith

response_bytes-head :
    (r : Response) (m : Memory)
    → IsResponse (some r)
    → response_bytes (record { ptr = r.ptr; len = r.len }) (served Owner.host r.ptr r.bytes ∷ m)
      ≡ done (take r.len r.bytes) (served Owner.host r.ptr r.bytes ∷ m)
unfolding take
response_bytes-head r m (positive, le, lt) =
    ground (arith, go_bytes-head Owner.host r.ptr r.len r.bytes m le lt)

free_response-head :
    (version ctx : ℕ) (call : HostCallFn) (free : HostFreeFn) (r : Response) (m : Memory)
    → Frees free
    → 0 < r.ptr
    → free_response
        (some (host_api version ctx call free))
        (record { ptr = r.ptr; len = r.len })
        (served Owner.host r.ptr r.bytes ∷ m)
      ≡ done tt m
unfolding free_host_buffer
free_response-head version ctx call free r m frees positive = ground (
  arith,
  frees r.ptr r.len (served Owner.host r.ptr r.bytes ∷ m),
  release-head Owner.host r.ptr r.bytes m,
)

take_response-answered :
    (runtime : Runtime) (version ctx : ℕ) (call : HostCallFn) (free : HostFreeFn) (name : String)
    (code : ℤ) (r : Option Response) (m : Memory)
    → Frees free
    → IsResponse r
    → (serve code r >>= take_response runtime (some (host_api version ctx call free)) name) m
      ≡ done (call_host name (returned runtime code (answered r))) m
unfolding take_response
take_response-answered runtime version ctx call free name code none m frees fits = refl
take_response-answered runtime version ctx call free name code (some r) m frees fits =
    ground (
      arith,
      response_bytes-head r m fits,
      free_response-head version ctx call free r m frees fits.0,
    )

-- The memory with the copy of the method's name, and with that of the payload before it.
abbrev pub with_name : String → Memory → Memory
with_name name m = new_block Owner.plugin (utf8 name ++ (0 ∷ [])) m ∷ m

abbrev pub with_copies : String → Bytes → Memory → Memory
with_copies name raw m = new_block Owner.plugin raw (with_name name m) ∷ with_name name m

-- The host's answer to the method and the payload, which it reads at their addresses.
abbrev pub asked : Answers → String → Bytes → Memory → Answer
asked answers name raw m =
    answers (fresh m) (fresh (with_name name m)) (length raw) (with_copies name raw m)

module _ (runtime : Runtime) (h : HostContract) where
  pub exchange-answered :
      (name : String) (p q n : ℕ) (m : Memory)
      → exchange runtime (some (api_of h)) name p q n m
        ≡ done (call_host name (answer_call runtime (h.answers p q n m))) m
  unfolding exchange call_host_api
  exchange-answered name p q n m =
      ap (λ r. and_then r (take_response runtime (some (api_of h)) name)) ((h.serves p q n m).0)
      ∙ take_response-answered runtime h.abi_version h.host_ctx h.call h.free name
          (h.answers p q n m).code (h.answers p q n m).response m h.frees ((h.serves p q n m).1)

  module _ (b : ℕ) (raw : Bytes) (m : Memory) (allocates : runtime.allocates (b ∷ raw) ≡ true) where
    with_payload-answered :
        (name : String)
        → with_payload runtime (some (api_of h)) name (b ∷ raw) (fresh m) (with_name name m)
          ≡ done
              (call_host name (answer_call runtime (asked h.answers name (b ∷ raw) m)))
              (with_name name m)
    unfolding with_payload with_copy c_bytes alloc
    with_payload-answered name = ground (
      arith,
      allocates,
      fresh_positive (with_name name m),
      exchange-answered name (fresh m) (fresh (with_name name m)) (length (b ∷ raw))
          (with_copies name (b ∷ raw) m),
      c_free-head (fresh (with_name name m)) (b ∷ raw) (with_name name m)
          (fresh_positive (with_name name m)),
    )

    pub c_call_host-answered :
        (name : String)
        → c_call_host runtime (some (api_of h)) name (ok (b ∷ raw)) m
          ≡ done (call_host name (answer_call runtime (asked h.answers name (b ∷ raw) m))) m
    unfolding c_call_host c_string alloc
    c_call_host-answered name = ground (
      arith,
      with_payload-answered name,
      c_free-head (fresh m) (utf8 name ++ (0 ∷ [])) m (fresh_positive m),
    )

    -- callHostModelExecute at a host that keeps to the interface, with the memory for the payload: it gives
    -- what the host's answer to the copied name and payload decodes to, its status judged, and no block is
    -- left over, given back twice or read past its end.
    pub c_call_host_model_execute-answered :
        c_call_host_model_execute runtime (some (api_of h)) (ok (b ∷ raw)) m
        ≡ done
            (call_host_model_execute
              (answer_call runtime (asked h.answers method_host_model_execute (b ∷ raw) m)))
            m
    unfolding c_call_host_model_execute call_host_model_execute
    c_call_host_model_execute-answered =
        ap (λ r. and_then r (λ result. pure (Errors.◌>>=◌ result model_result)))
          (c_call_host-answered method_host_model_execute)
