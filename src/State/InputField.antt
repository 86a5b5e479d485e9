-- ===== src/State/InputField.antt =====
-- The `input` of a request body, as the two ways of the plugin to decode it see it: the struct of
-- parseRequestInputItems, whose field takes every key that folds to `input`, and the map of
-- normalizeCompactionState, which has the key `input` alone.
use cpa_codex_compact_bridge.Common.{
  String, ◌≡◌, refl, ap, ◌∙◌, true, false, List, [], some, arith, ◌==◌, eq_iff, if◌then◌else◌,
  Bool-cases, inl, inr, Option, none, sym, ◌&&◌,
}
use cpa_codex_compact_bridge.Go.Json.{Json, arr, obj, nil, Elems, elems, Fields, end, field, json}
use cpa_codex_compact_bridge.Go.RawMap.{RawMap, lookup, insert, raw_map, add_fields, lookup-insert}
use cpa_codex_compact_bridge.Go.Struct.{
  folds_to, list_from, list_field, list_field_ok, list_value, list_value_ok,
}
use cpa_codex_compact_bridge.Items.{parse_input_items, parse_request_input_items}
use cpa_codex_compact_bridge.State.Normalize.{HasInput}

-- No key goes to the field `input`.
abbrev pub NoInput : Fields → Type 0
NoInput end = Unit
NoInput (field k v fs) = (folds_to k "input" ≡ false) × NoInput fs

-- One key goes to the field `input`: the key `input`, with the given value.
pub data OneInput (v : Json) : Fields → Type 0 where
  here : (fs : Fields) → NoInput fs → OneInput v (field "input" v fs)
  later :
      (k : String) (w : Json) (fs : Fields)
      → folds_to k "input" ≡ false
      → OneInput v fs
      → OneInput v (field k w fs)

-- The object has the given input, or none, and no second key for it.
abbrev pub InputIs : Option Json → Fields → Type 0
InputIs none fs = NoInput fs
InputIs (some v) fs = OneInput v fs

input-folds : folds_to "input" "input" ≡ true
unfolding folds_to
input-folds = refl

other_key : (k : String) → folds_to k "input" ≡ false → (k == "input") ≡ false
other_key k h = elim (Bool-cases (k == "input")) [
  | inr p ↦ p
  | inl p ↦
      let same : k ≡ "input" = (eq_iff k "input").0 p in
      absurd (ground (arith, sym (ap (λ s. folds_to s "input") same) ∙ h, input-folds))
]

list_from-NoInput : (old : List Json) (fs : Fields) → NoInput fs → list_from "input" old fs ≡ old
unfolding list_from
list_from-NoInput old end h = refl
list_from-NoInput old (field k v fs) (f, h) = rw f (list_from-NoInput old fs h)

list_field_ok-NoInput : (fs : Fields) → NoInput fs → list_field_ok "input" fs ≡ true
unfolding list_field_ok
list_field_ok-NoInput end h = refl
list_field_ok-NoInput (field k v fs) (f, h) = rw f (list_field_ok-NoInput fs h)

list_from-OneInput :
    (old : List Json) (v : Json) (fs : Fields)
    → OneInput v fs
    → list_from "input" old fs ≡ list_value old v
unfolding list_from
list_from-OneInput old v _ (here fs h) = list_from-NoInput (list_value old v) fs h
list_from-OneInput old v _ (later k w fs f h) = rw f (list_from-OneInput old v fs h)

list_field_ok-OneInput :
    (v : Json) (fs : Fields) → OneInput v fs → list_field_ok "input" fs ≡ list_value_ok v
unfolding list_field_ok
list_field_ok-OneInput v _ (here fs h) = rw (list_field_ok-NoInput fs h) (ground arith)
list_field_ok-OneInput v _ (later k w fs f h) = rw f (list_field_ok-OneInput v fs h)

lookup-NoInput :
    (m : RawMap) (fs : Fields) → NoInput fs → lookup "input" (add_fields m fs) ≡ lookup "input" m
unfolding add_fields
lookup-NoInput m end h = refl
lookup-NoInput m (field k v fs) (f, h) =
    lookup-NoInput (insert k v m) fs h ∙ lookup-insert k "input" v m ∙ rw (other_key k f) refl

lookup-OneInput :
    (v : Json) (m : RawMap) (fs : Fields)
    → OneInput v fs
    → lookup "input" (add_fields m fs) ≡ some v
unfolding add_fields
lookup-OneInput v m _ (here fs h) =
    lookup-NoInput (insert "input" v m) fs h ∙ lookup-insert "input" "input" v m
lookup-OneInput v m _ (later k w fs f h) = lookup-OneInput v (insert k w m) fs h

-- The items of a body with one input array, by the struct.
pub parse_request_input_items-OneInput :
    (vs : Elems) (fs : Fields)
    → OneInput (arr vs) fs
    → parse_request_input_items (json (obj fs)) ≡ some (parse_input_items (elems vs))
unfolding parse_request_input_items list_field
parse_request_input_items-OneInput vs fs h =
    rw (list_field_ok-OneInput (arr vs) fs h, list_from-OneInput [] (arr vs) fs h) refl

-- A value that is no array gives no item, or is refused.
pub parse_request_input_items-OneValue :
    (v : Json) (fs : Fields)
    → OneInput v fs
    → list_value [] v ≡ []
    → parse_request_input_items (json (obj fs)) ≡ (if list_value_ok v then some [] else none)
unfolding parse_request_input_items list_field parse_input_items
parse_request_input_items-OneValue v fs h no_item =
    rw (list_field_ok-OneInput v fs h, list_from-OneInput [] v fs h, no_item) refl

-- And by the map.
pub HasInput-OneInput :
    (vs : Elems) (fs : Fields)
    → OneInput (arr vs) fs
    → HasInput (json (obj fs)) (add_fields [] fs) (elems vs)
unfolding raw_map
HasInput-OneInput vs fs h = record {
  value = obj fs;
  is_value = refl;
  decoded = refl;
  input = vs;
  found = lookup-OneInput (arr vs) [] fs h;
  are_items = refl;
}

pub parse_request_input_items-NoInput :
    (fs : Fields) → NoInput fs → parse_request_input_items (json (obj fs)) ≡ some []
unfolding parse_request_input_items list_field parse_input_items
parse_request_input_items-NoInput fs h =
    rw (list_field_ok-NoInput fs h, list_from-NoInput [] fs h) refl

-- The object with a last key `Input` of an empty array.
abbrev pub shadowed : Fields → Fields
shadowed end = field "Input" (arr nil) end
shadowed (field k v fs) = field k v (shadowed fs)

list_from-shadowed : (old : List Json) (fs : Fields) → list_from "input" old (shadowed fs) ≡ []
unfolding list_from folds_to
list_from-shadowed old end = refl
list_from-shadowed old (field k v fs) =
    list_from-shadowed (if folds_to k "input" then list_value old v else old) fs

list_field_ok-shadowed :
    (fs : Fields) → list_field_ok "input" (shadowed fs) ≡ list_field_ok "input" fs
unfolding list_field_ok folds_to
list_field_ok-shadowed end = refl
list_field_ok-shadowed (field k v fs) =
    ap (λ b. (if folds_to k "input" then list_value_ok v else true) && b)
      (list_field_ok-shadowed fs)

lookup-shadowed :
    (m : RawMap) (fs : Fields)
    → lookup "input" (add_fields m (shadowed fs)) ≡ lookup "input" (add_fields m fs)
unfolding add_fields
lookup-shadowed m end = lookup-insert "Input" "input" (arr nil) m
lookup-shadowed m (field k v fs) = lookup-shadowed (insert k v m) fs

pub parse_request_input_items-shadowed :
    (vs : Elems) (fs : Fields)
    → OneInput (arr vs) fs
    → parse_request_input_items (json (obj (shadowed fs))) ≡ some []
unfolding parse_request_input_items list_field parse_input_items
parse_request_input_items-shadowed vs fs h =
    rw (list_field_ok-shadowed fs, list_field_ok-OneInput (arr vs) fs h, list_from-shadowed [] fs)
      refl

pub HasInput-shadowed :
    (vs : Elems) (fs : Fields)
    → OneInput (arr vs) fs
    → HasInput (json (obj (shadowed fs))) (add_fields [] (shadowed fs)) (elems vs)
unfolding raw_map
HasInput-shadowed vs fs h = record {
  value = obj (shadowed fs);
  is_value = refl;
  decoded = refl;
  input = vs;
  found = lookup-shadowed [] fs ∙ lookup-OneInput (arr vs) [] fs h;
  are_items = refl;
}
