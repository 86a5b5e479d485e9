-- ===== src/Abi/Memory.antt =====
-- The memory outside of Go: the live blocks, each with the side whose allocator made it, and the
-- functions C.CString, C.CBytes, C.GoBytes and C.free of cgo. To give back a block that is not live,
-- or by the other side's allocator, and to read past a block are faults, as is the panic of C.GoBytes
-- on a negative length.
use cpa_codex_compact_bridge.Common.{
  ℕ, zero, suc, ◌+◌, ◌%◌, Bool, true, false, ◌&&◌, List, [], ◌∷◌, ◌++◌, Option, none, some, String,
  eqb, ltb, leb, length, if◌then◌else◌,
}
use cpa_codex_compact_bridge.Go.Glob.Utf8.{utf8}

abbrev pub Bytes : Type 0
Bytes = List ℕ

pub data Owner : Type 0 where
  plugin host : Owner

pub record Block : Type 0 where
  pub ptr : ℕ
  pub owner : Owner
  pub bytes : Bytes

-- The live blocks, the latest first.
abbrev pub Memory : Type 0
Memory = List Block

pub data Run (A : Type 0) : Type 0 where
  done : A → Memory → Run A
  fault : Run A

abbrev pub Cmd : Type 0 → Type 0
Cmd A = Memory → Run A

abbrev pub pure : {A : Type 0} → A → Cmd A
pure a m = done a m

module _ {A B : Type 0} where
  abbrev pub and_then : Run A → (A → Cmd B) → Run B
  and_then (done a m) k = k a m
  and_then fault k = fault

  infixl 5 ◌>>=◌ ◌>>◌
  abbrev pub ◌>>=◌ : Cmd A → (A → Cmd B) → Cmd B
  c >>= k = λ m. and_then (c m) k

  abbrev pub ◌>>◌ : Cmd A → Cmd B → Cmd B
  c >> k = c >>= λ _. k

abbrev pub null : ℕ
null = 0

-- An address of no live block, which is not null.
unfoldable pub fresh : Memory → ℕ
fresh [] = 1
fresh (b ∷ m) = suc (b.ptr + fresh m)

abbrev pub new_block : Owner → Bytes → Memory → Block
new_block who bytes m = record { ptr = fresh m; owner = who; bytes = bytes }

unfoldable pub alloc : Bytes → Cmd ℕ
alloc bytes m = done (fresh m) (new_block plugin bytes m ∷ m)

abbrev pub same_owner : Owner → Owner → Bool
same_owner plugin plugin = true
same_owner host host = true
same_owner _ _ = false

abbrev pub keep_block : Block → Option Memory → Option Memory
keep_block b none = none
keep_block b (some m) = some (b ∷ m)

-- The memory without the live block of an owner at an address.
unfoldable pub release : Owner → ℕ → Memory → Option Memory
release who ptr [] = none
release who ptr (b ∷ m) =
    if eqb b.ptr ptr && same_owner b.owner who then some m else keep_block b (release who ptr m)

abbrev pub released : Option Memory → Run (Unit {0})
released none = fault
released (some m) = done tt m

-- C.free, which does nothing at null.
unfoldable pub c_free : ℕ → Cmd (Unit {0})
c_free ptr m = if eqb ptr null then done tt m else released (release plugin ptr m)

-- C.CString: the bytes of a text and a zero.
unfoldable pub c_string : String → Cmd ℕ
c_string text = alloc (utf8 text ++ (0 ∷ []))

-- C.CBytes. cgo documents that the copy is always made, so that the test is true for every text; where it
-- is false, the null is the case that the callers look for.
unfoldable pub c_bytes : (Bytes → Bool) → Bytes → Cmd ℕ
c_bytes allocates bytes m = if allocates bytes then alloc bytes m else done null m

abbrev pub find : ℕ → Memory → Option Block
find ptr [] = none
find ptr (b ∷ m) = if eqb b.ptr ptr then some b else find ptr m

unfoldable pub take : ℕ → Bytes → Bytes
take zero bs = []
take (suc n) [] = []
take (suc n) (b ∷ bs) = b ∷ take n bs

abbrev pub read_block : ℕ → Option Block → Cmd Bytes
read_block n none m = fault
read_block n (some b) m = if leb n (length b.bytes) then done (take n b.bytes) m else fault

-- 2^32, and 2^31 from which on a C int is negative.
abbrev pub c_int_values : ℕ
c_int_values = 4_294_967_296

abbrev pub c_int_limit : ℕ
c_int_limit = 2_147_483_648

-- `C.GoBytes(ptr, C.int(len))`: the length wraps to a C int.
unfoldable pub go_bytes : ℕ → ℕ → Cmd Bytes
go_bytes ptr len m =
    if ltb (len % c_int_values) c_int_limit
    then read_block (len % c_int_values) (find ptr m) m
    else fault
