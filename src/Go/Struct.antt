-- ===== src/Go/Struct.antt =====
-- json.Unmarshal into a struct: a key goes to the field whose name it folds to, in the order of the
-- text, null leaves a field as it is (a slice becomes nil), and a value of another type is an error
-- that leaves the field and does not stop the other fields. A repeated array of raw messages replaces the
-- earlier; one of structs is read over it.
use Prim.Native.Char.{code}
use Prim.Native.String.{[], ◌∷◌}
use cpa_codex_compact_bridge.Common.{
  ℕ, ◌-◌, String, ◌≡◌, refl, ap, ◌∙◌, Bool, true, false, ◌&&◌, List, Option, none, some, eqb, leb,
  if◌then◌else◌, drop, length, ◌++◌,
}
use cpa_codex_compact_bridge.Go.Json.{
  Json, null, str, arr, obj, elems, Fields, end, field, compact, compact_fields,
}

-- foldRune of encoding/json, as far as a name in ASCII can tell: the long s and the Kelvin sign fold
-- to letters.
abbrev fold_rune : ℕ → ℕ
fold_rune c =
    if leb b'a' c && leb c b'z'
    then c - 32
    else if eqb c 0x17f
    then b'S'
    else if eqb c 0x212a
    then b'K'
    else c

-- Two keys fold to one.
unfoldable pub folds_to : String → String → Bool
folds_to [] [] = true
folds_to [] (d ∷ t) = false
folds_to (c ∷ s) [] = false
folds_to (c ∷ s) (d ∷ t) = eqb (fold_rune (code c)) (fold_rune (code d)) && folds_to s t

-- The fields of a value that a struct is read from; null leaves the struct as it is.
abbrev pub fields_of : Json → Fields
fields_of (obj fs) = fs
fields_of _ = end

abbrev string_value : String → Json → String
string_value old (str s) = s
string_value old _ = old

abbrev string_value_ok : Json → Bool
string_value_ok (str s) = true
string_value_ok null = true
string_value_ok _ = false

-- A field of type `string`.
unfoldable pub string_from : String → String → Fields → String
unfolding folds_to
string_from name old end = old
string_from name old (field k v fs) =
    string_from name (if folds_to k name then string_value old v else old) fs

unfoldable pub string_field : String → Fields → String
unfolding string_from
string_field name fs = string_from name "" fs

-- No value of the field has another type.
unfoldable pub string_field_ok : String → Fields → Bool
unfolding folds_to
string_field_ok name end = true
string_field_ok name (field k v fs) =
    (if folds_to k name then string_value_ok v else true) && string_field_ok name fs

-- A field of type json.RawMessage; it takes null as a value.
unfoldable pub raw_from : String → Option Json → Fields → Option Json
unfolding folds_to
raw_from name old end = old
raw_from name old (field k v fs) = raw_from name (if folds_to k name then some v else old) fs

unfoldable pub raw_field : String → Fields → Option Json
unfolding raw_from
raw_field name fs = raw_from name none fs

abbrev pub list_value : List Json → Json → List Json
list_value old (arr vs) = elems vs
list_value old null = List.[]
list_value old _ = old

abbrev pub list_value_ok : Json → Bool
list_value_ok (arr vs) = true
list_value_ok null = true
list_value_ok _ = false

-- A field of type `[]json.RawMessage`.
unfoldable pub list_from : String → List Json → Fields → List Json
unfolding folds_to
list_from name old end = old
list_from name old (field k v fs) =
    list_from name (if folds_to k name then list_value old v else old) fs

unfoldable pub list_field : String → Fields → List Json
unfolding list_from
list_field name fs = list_from name List.[] fs

unfoldable pub list_field_ok : String → Fields → Bool
unfolding folds_to
list_field_ok name end = true
list_field_ok name (field k v fs) =
    (if folds_to k name then list_value_ok v else true) && list_field_ok name fs

string_value-compact : (old : String) (v : Json) → string_value old (compact v) ≡ string_value old v
unfolding compact
string_value-compact old null = refl
string_value-compact old _ = refl

string_from-compact_fields :
    (name old : String) (fs : Fields)
    → string_from name old (compact_fields fs) ≡ string_from name old fs
unfolding compact string_from
string_from-compact_fields name old end = refl
string_from-compact_fields name old (field k v fs) =
    string_from-compact_fields name (if folds_to k name then string_value old (compact v) else old)
      fs
    ∙ ap (λ s. string_from name (if folds_to k name then s else old) fs)
        (string_value-compact old v)

-- The fields are read alike whether or not json.Marshal has written the object again.
pub string_field-compact_fields :
    (name : String) (fs : Fields) → string_field name (compact_fields fs) ≡ string_field name fs
unfolding string_field
string_field-compact_fields name fs = string_from-compact_fields name "" fs

-- A slice of structs, with what its array has after the slice's length from an earlier, longer value.
pub record Slice (A : Type 0) : Type 0 where
  pub live : List A
  pub stale : List A

abbrev pub empty_slice : {A : Type 0} → Slice A
empty_slice = record { live = List.[]; stale = List.[] }

-- `read_over` reads a struct over the one that is there, `zero` is the struct of a new place.
module _ {A : Type 0} (read_over : A → Json → A) (zero : A) where
  unfoldable pub elems_over : List A → List Json → List A
  elems_over old List.[] = List.[]
  elems_over List.[] (List.◌∷◌ v vs) = List.◌∷◌ (read_over zero v) (elems_over List.[] vs)
  elems_over (List.◌∷◌ a old) (List.◌∷◌ v vs) = List.◌∷◌ (read_over a v) (elems_over old vs)

  -- The values of an array, over the places of the slice; an empty array gets a new one.
  unfoldable pub slice_over : List A → List Json → Slice A
  unfolding elems_over
  slice_over old List.[] = empty_slice
  slice_over old (List.◌∷◌ v vs) = record {
    live = elems_over old (List.◌∷◌ v vs);
    stale = drop (length (List.◌∷◌ v vs)) old;
  }

  unfoldable pub slice_value : Slice A → Json → Slice A
  unfolding slice_over
  slice_value old (arr vs) = slice_over (old.live ++ old.stale) (elems vs)
  slice_value old null = empty_slice
  slice_value old _ = old

  unfoldable pub slice_from : String → Slice A → Fields → Slice A
  unfolding folds_to slice_value
  slice_from name old end = old
  slice_from name old (field k v fs) =
      slice_from name (if folds_to k name then slice_value old v else old) fs

  -- A field whose type is a slice of structs.
  unfoldable pub structs_field : String → Fields → List A
  unfolding slice_from
  structs_field name fs = (slice_from name empty_slice fs).live
