-- ===== src/Request/Parts.antt =====
-- Content parts of the type input_image, and that writing a message again neither adds nor removes one.
use mathlib.Core.Option
use cpa_codex_compact_bridge.Common.{
  String, ◌≡◌, refl, Bool, false, List, [], ◌∷◌, map, any, arith, ap, ◌∙◌, Option, none, some,
}
use cpa_codex_compact_bridge.Errors.{Result, ok, err}
use cpa_codex_compact_bridge.Go.Json.{
  Json, null, str, arr, obj, Fields, end, field, compact, compact_fields, raw_list, marshal_list,
  elems-compact_elems, elems-from_list, from_list, elems, map-compact_idem,
}
use cpa_codex_compact_bridge.Go.RawMap.{RawMap, lookup, insert, add_fields, raw_map, compact_values}
use cpa_codex_compact_bridge.Go.RawMap.Sorted.{lookup-compact_values}
use cpa_codex_compact_bridge.Request.{is_image_type}

-- A content part of the type input_image.
abbrev pub is_image_map : Result RawMap → Bool
is_image_map (ok part) = is_image_type (lookup "type" part)
is_image_map (err _) = false

abbrev pub is_image_part : Json → Bool
is_image_part part = is_image_map (raw_map part)

abbrev pub any_image : Result (List Json) → Bool
any_image (ok parts) = any is_image_part parts
any_image (err _) = false

abbrev pub content_image : Option Json → Bool
content_image none = false
content_image (some content) = any_image (raw_list content)

abbrev pub message_image : Result RawMap → Bool
message_image (ok message) = content_image (lookup "content" message)
message_image (err _) = false

-- A message with such a part.
abbrev pub has_image : Json → Bool
has_image item = message_image (raw_map item)

insert-compact_values :
    (k : String) (v : Json) (m : RawMap)
    → insert k (compact v) (compact_values m) ≡ compact_values (insert k v m)
unfolding insert
insert-compact_values k v [] = refl
insert-compact_values k v ((j, w) ∷ m) = ground (arith, insert-compact_values k v m)

pub add_fields-compact_fields :
    (m : RawMap) (fs : Fields)
    → add_fields (compact_values m) (compact_fields fs) ≡ compact_values (add_fields m fs)
unfolding add_fields compact
add_fields-compact_fields m end = refl
add_fields-compact_fields m (field k v fs) =
    ap (λ n. add_fields n (compact_fields fs)) (insert-compact_values k v m)
    ∙ add_fields-compact_fields (insert k v m) fs

-- A part that is written again is an image where it was one.
is_image_type-compact : (v : Option Json) → is_image_type (Option.map compact v) ≡ is_image_type v
unfolding compact
is_image_type-compact none = refl
is_image_type-compact (some (str s)) = refl
is_image_type-compact (some _) = refl

pub is_image_part-compact : (v : Json) → is_image_part (compact v) ≡ is_image_part v
unfolding raw_map compact
is_image_part-compact (obj fs) =
    ap (λ m. is_image_type (lookup "type" m)) (add_fields-compact_fields [] fs)
    ∙ ap is_image_type (lookup-compact_values "type" (add_fields [] fs))
    ∙ is_image_type-compact (lookup "type" (add_fields [] fs))
is_image_part-compact null = refl
is_image_part-compact _ = refl

raw_list-compact :
    (parts : List Json) → raw_list (compact (marshal_list parts)) ≡ ok (map compact parts)
unfolding raw_list marshal_list compact
raw_list-compact parts =
    ap (λ r. ok r)
      (elems-compact_elems (from_list (map compact parts))
        ∙ ap (map compact) (elems-from_list (map compact parts))
        ∙ map-compact_idem parts)

any_image-compact :
    (parts : List Json) → any is_image_part (map compact parts) ≡ any is_image_part parts
any_image-compact [] = refl
any_image-compact (part ∷ parts) = rw (is_image_part-compact part, any_image-compact parts) refl

-- The list of the parts, written into the message and read again.
pub content_image-marshal_list :
    (parts : List Json)
    → content_image (some (compact (marshal_list parts))) ≡ any is_image_part parts
content_image-marshal_list parts = ap any_image (raw_list-compact parts) ∙ any_image-compact parts

content_image-compact : (v : Option Json) → content_image (Option.map compact v) ≡ content_image v
unfolding compact raw_list
content_image-compact none = refl
content_image-compact (some (arr vs)) =
    ap (any is_image_part) (elems-compact_elems vs) ∙ any_image-compact (elems vs)
content_image-compact (some _) = refl

-- A message that is written again has an image where it had one.
has_image-compact : (v : Json) → has_image (compact v) ≡ has_image v
unfolding raw_map compact
has_image-compact (obj fs) =
    ap (λ m. content_image (lookup "content" m)) (add_fields-compact_fields [] fs)
    ∙ ap content_image (lookup-compact_values "content" (add_fields [] fs))
    ∙ content_image-compact (lookup "content" (add_fields [] fs))
has_image-compact null = refl
has_image-compact _ = refl

pub any-has_image-compact :
    (items : List Json) → any has_image (map compact items) ≡ any has_image items
any-has_image-compact [] = refl
any-has_image-compact (item ∷ items) = rw (has_image-compact item, any-has_image-compact items) refl
