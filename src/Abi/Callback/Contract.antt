-- ===== src/Abi/Callback/Contract.antt =====
-- What the interface asks of a host: its two functions, what they answer, and the laws that they keep to.
use cpa_codex_compact_bridge.Common.{ℕ, ◌≤◌, ◌<◌, [], ◌∷◌, Option, none, some, length, ◌≡◌}
use cpa_codex_compact_bridge.Common.Int.{ℤ}
use cpa_codex_compact_bridge.Host.{HostCall}
use cpa_codex_compact_bridge.Abi.Memory.{
  Bytes, Block, Memory, Owner, done, released, release, Cmd, take, c_int_limit,
}
use cpa_codex_compact_bridge.Abi.Callback.{
  null_buffer, HostReturn, HostCallFn, CallFn, HostFreeFn, HostApi, Runtime, returned,
}

-- A response of the host: its block, and the length that it tells.
pub record Response : Type 0 where
  pub ptr : ℕ
  pub len : ℕ
  pub bytes : Bytes

-- The answer of the host to a call, without a response or with one.
pub record Answer : Type 0 where
  pub code : ℤ
  pub response : Option Response

abbrev pub served : Owner → ℕ → Bytes → Block
served who p bytes = record { ptr = p; owner = who; bytes = bytes }

abbrev pub answered : Option Response → Bytes
answered none = []
answered (some r) = take r.len r.bytes

-- The call as callHost sees it: its code, and its response decoded.
abbrev pub answer_call : Runtime → Answer → HostCall
answer_call runtime a = returned runtime a.code (answered a.response)

-- A response that the interface allows: its length is that of a C int and no more than its block's.
abbrev pub IsResponse : Option Response → Type 0
IsResponse none = Unit
IsResponse (some r) = (0 < r.ptr) × (r.len ≤ length r.bytes) × (r.len < c_int_limit)

-- A call that gives an answer: the response is a block of the host's.
abbrev pub serve : ℤ → Option Response → Cmd HostReturn
serve code none m = done (record { code = code; response = null_buffer }) m
serve code (some r) m =
    done (record { code = code; response = record { ptr = r.ptr; len = r.len } })
      (served Owner.host r.ptr r.bytes ∷ m)

-- What the host answers to a call at a memory.
abbrev pub Answers : Type 0
Answers = (method request len : ℕ) → Memory → Answer

abbrev pub Serves : CallFn → Answers → Type 0
Serves call answers =
    (p q n : ℕ) (m : Memory)
    → (call p q n m ≡ serve (answers p q n m).code (answers p q n m).response m)
      × IsResponse (answers p q n m).response

-- A host's function that gives back its own blocks.
abbrev pub Frees : HostFreeFn → Type 0
Frees free = (p n : ℕ) (m : Memory) → free p n m ≡ released (release Owner.host p m)

-- The table with both functions.
abbrev pub host_api : (abi_version host_ctx : ℕ) → HostCallFn → HostFreeFn → HostApi
host_api version ctx call free = record {
  abi_version = version;
  host_ctx = ctx;
  call = some call;
  free_buffer = some free;
}

-- A host that keeps to the interface, its function called with the context of its table.
pub record HostContract : Type 0 where
  pub abi_version : ℕ
  pub host_ctx : ℕ
  pub call : HostCallFn
  pub free : HostFreeFn
  pub answers : Answers
  pub serves : Serves (call host_ctx) answers
  pub frees : Frees free

-- The table of such a host.
abbrev pub api_of : HostContract → HostApi
api_of h = host_api h.abi_version h.host_ctx h.call h.free
