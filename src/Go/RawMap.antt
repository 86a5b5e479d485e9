-- ===== src/Go/RawMap.antt =====
-- Go's `map[string]json.RawMessage`, kept in the order in which json.Marshal writes its keys.
pub mod Sorted
use Prim.Native.Nat.{Ordering}
use Prim.Native.String.{compare}
use text.Mathlib.TextEquality.{path_by_compare}
use text.Mathlib.TextPositions.{compare_refl}
use cpa_codex_compact_bridge.Common.{
  String, ◌≡◌, refl, List, [], ◌∷◌, Option, none, some, arith, ◌==◌, eq_iff, if◌then◌else◌,
}
use cpa_codex_compact_bridge.Errors.{Result, ok, err}
use cpa_codex_compact_bridge.Go.Json.{
  Json, null, obj, Fields, end, field, from_pairs, compact, type_error,
}

abbrev pub RawMap : Type 0
RawMap = List (String × Json)

-- `v, ok := m[k]`
unfoldable pub lookup : String → RawMap → Option Json
lookup k [] = none
lookup k ((j, v) ∷ m) = if j == k then some v else lookup k m

-- A write at the first entry, by where the key stands to the entry's key.
abbrev pub place : Ordering → String × Json → String × Json → RawMap → RawMap → RawMap
place Ordering.lt new old m later = new ∷ old ∷ m
place Ordering.eq new old m later = new ∷ m
place Ordering.gt new old m later = old ∷ later

-- `m[k] = v`
unfoldable pub insert : String → Json → RawMap → RawMap
insert k v [] = (k, v) ∷ []
insert k v ((j, w) ∷ m) = place (compare k j) (k, v) (j, w) m (insert k v m)

-- `delete(m, k)`
unfoldable pub delete : String → RawMap → RawMap
delete k [] = []
delete k ((j, w) ∷ m) = let rest = delete k m in if j == k then rest else (j, w) ∷ rest

-- The fields in their order: the last value of a repeated key stays.
unfoldable pub add_fields : RawMap → Fields → RawMap
unfolding insert
add_fields m end = m
add_fields m (field k v fs) = add_fields (insert k v m) fs

-- json.Unmarshal into a `map[string]json.RawMessage`; null leaves the map nil.
unfoldable pub raw_map : Json → Result RawMap
unfolding add_fields type_error
raw_map (obj fs) = ok (add_fields [] fs)
raw_map null = ok []
raw_map v = err (type_error v "map[string]json.RawMessage")

abbrev pub compact_values : RawMap → RawMap
compact_values [] = []
compact_values ((k, v) ∷ m) = (k, compact v) ∷ compact_values m

-- json.Marshal of a `map[string]json.RawMessage`.
unfoldable pub marshal_map : RawMap → Json
unfolding compact
marshal_map m = obj (from_pairs (compact_values m))

-- A write to one key, read back at any key.
pub lookup-insert :
    (written read : String) (value : Json) (entries : RawMap)
    → lookup read (insert written value entries)
      ≡ (if written == read then some value else lookup read entries)
unfolding lookup insert
lookup-insert written read value [] = refl
lookup-insert written read value ((name, old) ∷ entries) = ground (
  arith,
  path_by_compare written name,
  compare_refl written,
  eq_iff written read,
  eq_iff name read,
  lookup-insert written read value entries,
)
