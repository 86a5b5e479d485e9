-- ===== src/Abi/Callback/Failures.antt =====
-- The callback to the host on every branch: with and without a host, and where the allocation fails.
use cpa_codex_compact_bridge.Common.{
  ℕ, String, [], ◌∷◌, ◌++◌, Option, none, some, length, if◌then◌else◌, ◌≡◌, refl, ap, ◌∙◌, arith,
  Bool-cases, inl, inr,
}
use cpa_codex_compact_bridge.Common.Int.{pos}
use cpa_codex_compact_bridge.Go.Glob.Utf8.{utf8}
use cpa_codex_compact_bridge.Errors.{Err, Result, ok, err}
use cpa_codex_compact_bridge.Host.{HostResult, call_host, fmt_host_no_response}
use cpa_codex_compact_bridge.Abi.Memory.{
  Bytes, Memory, Owner, Run, done, pure, and_then, null, fresh, new_block, alloc, c_string, c_bytes,
}
use cpa_codex_compact_bridge.Abi.Callback.{
  not_called, HostCallFn, HostFreeFn, HostApi, Runtime, call_host_api, take_response,
  fmt_host_marshal, exchange, with_copy, with_payload, c_call_host, host_response,
}
use cpa_codex_compact_bridge.Abi.Callback.Contract.{serve, Answers, Serves, Frees}
use cpa_codex_compact_bridge.Abi.Callback.Balance.{
  c_free-head, fresh_positive, exchange-answered, with_name,
}

-- A host without a function to call, one that gives no responses and needs no function to free them,
-- or one with both functions.
abbrev pub KeepsTo : ℕ → Option HostCallFn → Option HostFreeFn → Answers → Type 0
KeepsTo ctx none free answers = Unit
KeepsTo ctx (some call) none answers =
    Serves (call ctx) answers × ((p q n : ℕ) → (m : Memory) → (answers p q n m).response ≡ none)
KeepsTo ctx (some call) (some free) answers = Serves (call ctx) answers × Frees free

abbrev pub IsHost : Option HostApi → Answers → Type 0
IsHost none answers = Unit
IsHost (some api) answers = KeepsTo api.host_ctx api.call api.free_buffer answers

-- The table of a host that has no function to free.
abbrev silent_api : (abi_version host_ctx : ℕ) → HostCallFn → HostApi
silent_api version ctx call = record {
  abi_version = version;
  host_ctx = ctx;
  call = some call;
  free_buffer = none;
}

-- A run that ends with the memory as it was.
abbrev pub Balanced : Run (Result HostResult) → Memory → Type 0
Balanced run m = (r : Result HostResult) × (run ≡ done r m)

module _ (runtime : Runtime) (answers : Answers) (name : String) where
  exchange-silent :
      (version ctx : ℕ) (call : HostCallFn) (p q n : ℕ) (m : Memory)
      → Serves (call ctx) answers
      → (answers p q n m).response ≡ none
      → Balanced (exchange runtime (some (silent_api version ctx call)) name p q n m) m
  unfolding exchange call_host_api take_response
  exchange-silent version ctx call p q n m serves silent = (
    _,
    ap (λ r. and_then r (take_response runtime (some (silent_api version ctx call)) name))
        ((serves p q n m).0 ∙ ap (λ o. serve (answers p q n m).code o m) silent),
  )

  exchange-KeepsTo :
      (version ctx : ℕ) (call : Option HostCallFn) (free : Option HostFreeFn) (p q n : ℕ)
      (m : Memory)
      → KeepsTo ctx call free answers
      → Balanced
          (exchange runtime
            (some
              (record { abi_version = version; host_ctx = ctx; call = call; free_buffer = free }))
            name
            p
            q
            n
            m)
          m
  unfolding exchange call_host_api take_response
  exchange-KeepsTo version ctx none free p q n m keeps = (_, refl)
  exchange-KeepsTo version ctx (some call) none p q n m (serves, silent) =
      exchange-silent version ctx call p q n m serves (silent p q n m)
  exchange-KeepsTo version ctx (some call) (some free) p q n m (serves, frees) = (
    _,
    exchange-answered runtime
        (record {
          abi_version = version;
          host_ctx = ctx;
          call = call;
          free = free;
          answers = answers;
          serves = serves;
          frees = frees;
        })
        name p q n m,
  )

  exchange-Balanced :
      (stored : Option HostApi) (p q n : ℕ) (m : Memory)
      → IsHost stored answers
      → Balanced (exchange runtime stored name p q n m) m
  unfolding exchange call_host_api take_response
  exchange-Balanced none p q n m keeps = (_, refl)
  exchange-Balanced (some api) p q n m keeps =
      exchange-KeepsTo api.abi_version api.host_ctx api.call api.free_buffer p q n m keeps

  with_payload-Balanced :
      (stored : Option HostApi) (payload : Bytes) (p : ℕ) (m : Memory)
      → IsHost stored answers
      → Balanced (with_payload runtime stored name payload p m) m
  unfolding with_payload with_copy c_bytes alloc
  with_payload-Balanced stored [] p m keeps = exchange-Balanced stored p null 0 m keeps
  with_payload-Balanced stored (b ∷ raw) p m keeps =
      let (r, e) =
        exchange-Balanced stored p (fresh m) (length (b ∷ raw))
          (new_block Owner.plugin (b ∷ raw) m ∷ m) keeps in
      elim (Bool-cases (runtime.allocates (b ∷ raw))) [
        | inl h ↦ (
          r,
          ground
              (arith, h, e, fresh_positive m, c_free-head (fresh m) (b ∷ raw) m (fresh_positive m)),
        )
        | inr h ↦ (err (fmt_host_marshal name none), ground (arith, h))
      ]

-- callHost at every host that keeps to the interface, a missing one included, and for every payload, one
-- that cannot be encoded or copied included: it returns without a fault, and the live blocks are then
-- those before it.
pub c_call_host-Balanced :
    (runtime : Runtime) (stored : Option HostApi) (answers : Answers) (name : String)
    (payload : Result Bytes) (m : Memory)
    → IsHost stored answers
    → Balanced (c_call_host runtime stored name payload m) m
unfolding c_call_host c_string alloc
c_call_host-Balanced runtime stored answers name (err e) m keeps = (_, refl)
c_call_host-Balanced runtime stored answers name (ok payload) m keeps =
    let (r, e) =
      with_payload-Balanced runtime answers name stored payload (fresh m) (with_name name m)
        keeps in
    (r, ground (arith, e, c_free-head (fresh m) (utf8 name ++ (0 ∷ [])) m (fresh_positive m)))

-- The function of the host that a callback calls, none where a pointer is null.
abbrev pub call_of : Option HostApi → Option HostCallFn
call_of none = none
call_of (some api) = api.call

call_host_api_uncalled :
    (stored : Option HostApi) (p q n : ℕ)
    → call_of stored ≡ none
    → call_host_api stored p q n ≡ pure not_called
unfolding call_host_api
call_host_api_uncalled none p q n e = refl
call_host_api_uncalled (some api) p q n e = cc e

exchange_uncalled :
    (runtime : Runtime) (stored : Option HostApi) (name : String) (p q n : ℕ) (m : Memory)
    → call_of stored ≡ none
    → exchange runtime stored name p q n m ≡ done (err (fmt_host_no_response name (pos 1))) m
unfolding exchange take_response call_host host_response
exchange_uncalled runtime stored name p q n m e =
    ap (λ c. and_then (c m) (take_response runtime stored name))
      (call_host_api_uncalled stored p q n e)

-- The failure of a callback that reaches no host.
abbrev pub call_failure : Runtime → String → Bytes → Err
call_failure runtime name payload =
    if runtime.allocates payload
    then fmt_host_no_response name (pos 1)
    else fmt_host_marshal name none

with_payload_uncalled :
    (runtime : Runtime) (stored : Option HostApi) (name : String) (b : ℕ) (raw : Bytes) (p : ℕ)
    (m : Memory)
    → call_of stored ≡ none
    → with_payload runtime stored name (b ∷ raw) p m
      ≡ done (err (call_failure runtime name (b ∷ raw))) m
unfolding with_payload with_copy c_bytes alloc
with_payload_uncalled runtime stored name b raw p m e = ground (
  arith,
  exchange_uncalled runtime stored name p (fresh m) (length (b ∷ raw))
      (new_block Owner.plugin (b ∷ raw) m ∷ m) e,
  fresh_positive m,
  c_free-head (fresh m) (b ∷ raw) m (fresh_positive m),
)

-- Without a host, or with one whose call function is null, callHost fails with host_no_response and the
-- code 1, or with host_alloc_failed where the payload cannot be copied, and the memory is as it was.
pub c_call_host_uncalled :
    (runtime : Runtime) (stored : Option HostApi) (name : String) (b : ℕ) (raw : Bytes) (m : Memory)
    → call_of stored ≡ none
    → c_call_host runtime stored name (ok (b ∷ raw)) m
      ≡ done (err (call_failure runtime name (b ∷ raw))) m
unfolding c_call_host c_string alloc
c_call_host_uncalled runtime stored name b raw m e = ground (
  arith,
  with_payload_uncalled runtime stored name b raw (fresh m) (with_name name m) e,
  c_free-head (fresh m) (utf8 name ++ (0 ∷ [])) m (fresh_positive m),
)
