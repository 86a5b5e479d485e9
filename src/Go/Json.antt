-- ===== src/Go/Json.antt =====
-- JSON texts as encoding/json reads and writes them. A value stands for the texts that differ only
-- in white space between tokens and in the spelling of strings: the program passes such texts on
-- and looks at nothing else of them, but for an empty array with white space between its brackets,
-- which is `gap`.
use Prim.Native.String
use cpa_codex_compact_bridge.Common.{String, ◌≡◌, refl, ap, Bool, List, [], ◌∷◌, map}
use cpa_codex_compact_bridge.Errors.{Err, other, Result, ok, err}

mutual
  pub data Json : Type 0 where
    null : Json
    bool : Bool → Json
    num : String → Json
    str : String → Json
    arr : Elems → Json
    obj : Fields → Json

  pub data Elems : Type 0 where
    nil : Elems
    gap : Elems
    cons : Json → Elems → Elems

  pub data Fields : Type 0 where
    end : Fields
    field : String → Json → Fields → Fields

-- What a `[]byte` of the program holds: nothing, a JSON text, or bytes that are no JSON text, with
-- the text of the syntax error.
pub data Body : Type 0 where
  empty : Body
  json : Json → Body
  malformed : String → Body

abbrev pub elems : Elems → List Json
elems nil = []
elems gap = []
elems (cons v vs) = v ∷ elems vs

abbrev pub from_list : List Json → Elems
from_list [] = nil
from_list (v ∷ vs) = cons v (from_list vs)

abbrev pub from_pairs : List (String × Json) → Fields
from_pairs [] = end
from_pairs ((k, v) ∷ fs) = field k v (from_pairs fs)

-- json.Marshal writes a RawMessage without the white space between its tokens.
unfoldable mutual
  pub compact : Json → Json
  compact null = null
  compact (bool b) = bool b
  compact (num n) = num n
  compact (str s) = str s
  compact (arr vs) = arr (compact_elems vs)
  compact (obj fs) = obj (compact_fields fs)

  pub compact_elems : Elems → Elems
  compact_elems nil = nil
  compact_elems gap = nil
  compact_elems (cons v vs) = cons (compact v) (compact_elems vs)

  pub compact_fields : Fields → Fields
  compact_fields end = end
  compact_fields (field k v fs) = field k (compact v) (compact_fields fs)

-- The text of json.UnmarshalTypeError at a value that `go_type` cannot take.
abbrev kind_of : Json → String
kind_of null = "null"
kind_of (bool b) = "bool"
kind_of (num n) = "number"
kind_of (str s) = "string"
kind_of (arr vs) = "array"
kind_of (obj fs) = "object"

unfoldable pub type_error : Json → String → Err
type_error v go_type = other (
    String.◌++◌ "json: cannot unmarshal "
      (String.◌++◌ (kind_of v) (String.◌++◌ " into Go value of type " go_type)))

-- The syntax check with which json.Unmarshal begins.
unfoldable pub read_body : Body → Result Json
read_body empty = err (other "unexpected end of JSON input")
read_body (json v) = ok v
read_body (malformed text) = err (other text)

-- json.Unmarshal into a `[]json.RawMessage`.
unfoldable pub raw_list : Json → Result (List Json)
unfolding type_error
raw_list (arr vs) = ok (elems vs)
raw_list null = ok []
raw_list v = err (type_error v "[]json.RawMessage")

-- json.Unmarshal into a `string`: null leaves it as it is, which is "".
unfoldable pub raw_string : Json → Result String
unfolding type_error
raw_string (str s) = ok s
raw_string null = ok ""
raw_string v = err (type_error v "string")

-- json.Marshal of a `[]json.RawMessage`.
unfoldable pub marshal_list : List Json → Json
unfolding compact
marshal_list vs = arr (from_list (map compact vs))

-- The first character that is no white space is `[`.
unfoldable pub is_json_array : Json → Bool
is_json_array (arr vs) = Bool.true
is_json_array _ = Bool.false

pub elems-from_list : (vs : List Json) → elems (from_list vs) ≡ vs
elems-from_list [] = refl
elems-from_list (v ∷ vs) = ap (λ r. v ∷ r) (elems-from_list vs)

pub raw_list-marshal_list : (vs : List Json) → raw_list (marshal_list vs) ≡ ok (map compact vs)
unfolding raw_list marshal_list
raw_list-marshal_list vs = ap (λ r. ok r) (elems-from_list (map compact vs))

pub elems-compact_elems : (vs : Elems) → elems (compact_elems vs) ≡ map compact (elems vs)
unfolding compact
elems-compact_elems nil = refl
elems-compact_elems gap = refl
elems-compact_elems (cons v vs) = ap (λ r. compact v ∷ r) (elems-compact_elems vs)

mutual
  unfolding compact

  compact_idem : (v : Json) → compact (compact v) ≡ compact v
  compact_idem null = refl
  compact_idem (bool b) = refl
  compact_idem (num n) = refl
  compact_idem (str s) = refl
  compact_idem (arr vs) = ap arr (compact_elems_idem vs)
  compact_idem (obj fs) = ap obj (compact_fields_idem fs)

  compact_elems_idem : (vs : Elems) → compact_elems (compact_elems vs) ≡ compact_elems vs
  compact_elems_idem nil = refl
  compact_elems_idem gap = refl
  compact_elems_idem (cons v vs) = cc (compact_idem v, compact_elems_idem vs)

  compact_fields_idem : (fs : Fields) → compact_fields (compact_fields fs) ≡ compact_fields fs
  compact_fields_idem end = refl
  compact_fields_idem (field k v fs) = cc (compact_idem v, compact_fields_idem fs)

pub compact-compact : (v : Json) → compact (compact v) ≡ compact v
compact-compact v = compact_idem v

pub map-compact_idem : (vs : List Json) → map compact (map compact vs) ≡ map compact vs
map-compact_idem [] = refl
map-compact_idem (v ∷ vs) = cc (compact-compact v, map-compact_idem vs)
