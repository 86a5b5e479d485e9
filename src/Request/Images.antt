-- ===== src/Request/Images.antt =====
-- stripSummaryInputImages: no image goes to a summary model that may not have one.
use mathlib.Core.Option
use cpa_codex_compact_bridge.Common.{
  String, ◌≡◌, refl, Bool, true, false, ◌||◌, List, [], ◌∷◌, map, any, arith, ap, ◌∙◌, sym, subst,
  ◌⊎◌, some, length, suc, Bool-cases, Option-cases, inl, inr,
}
use cpa_codex_compact_bridge.Errors.{ok, ok-injective, Result-cases}
use cpa_codex_compact_bridge.Go.Json.{Json, str, compact, raw_list, marshal_list}
use cpa_codex_compact_bridge.Go.RawMap.{
  RawMap, lookup, insert, delete, raw_map, marshal_map, lookup-insert,
}
use cpa_codex_compact_bridge.Go.RawMap.Sorted.{
  lookup-compact_values, raw_map-IsSorted, raw_map-marshal_map, insert-IsSorted, delete-IsSorted,
  IsSorted,
}
use cpa_codex_compact_bridge.Request.{
  detail_of, is_image_type, replace_image, keep_detail, strip_part, strip_parts, strip_content,
  strip_item, strip_items, strip_summary_input_images, summary_model_allows_images,
}
use cpa_codex_compact_bridge.Request.Parts.{
  content_image-marshal_list, any-has_image-compact, is_image_map, is_image_part, any_image,
  content_image, message_image, has_image,
}

keep_detail-cases :
    (part : RawMap)
    → (keep_detail part ≡ part)
      ⊎ ((detail : Json) × (keep_detail part ≡ insert "detail" detail part))
unfolding keep_detail
keep_detail-cases part = elim (Option-cases (lookup "detail" part)) [
  | inl e ↦ elim (Option-cases (detail_of (lookup "image_url" part))) [
    | inl f ↦ inl (ground (arith, e, f))
    | inr (detail, f) ↦ inr (detail, ground (arith, e, f))
  ]
  | inr (own, e) ↦ inl (ground (arith, e))
]

keep_detail-IsSorted : (part : RawMap) → IsSorted part → IsSorted (keep_detail part)
keep_detail-IsSorted part s = elim (keep_detail-cases part) [
  | inl e ↦ subst IsSorted (sym e) s
  | inr (detail, e) ↦ subst IsSorted (sym e) (insert-IsSorted "detail" detail part s)
]

replace_image-IsSorted : (part : RawMap) → IsSorted part → IsSorted (replace_image part)
unfolding replace_image
replace_image-IsSorted part s = insert-IsSorted "text" _ _ (
    insert-IsSorted "type" _ _
      (delete-IsSorted "image_url" (keep_detail part) (keep_detail-IsSorted part s)))

type-replace_image : (part : RawMap) → lookup "type" (replace_image part) ≡ some (str "input_text")
unfolding replace_image
type-replace_image part =
    lookup-insert "text" "type" (str "[image removed]")
      (insert "type" (str "input_text") (delete "image_url" (keep_detail part)))
    ∙ lookup-insert "type" "type" (str "input_text") (delete "image_url" (keep_detail part))

is_image_part-replace_image :
    (part : RawMap) → IsSorted part → is_image_part (marshal_map (replace_image part)) ≡ false
unfolding compact
is_image_part-replace_image part s =
    ap is_image_map (raw_map-marshal_map (replace_image part) (replace_image-IsSorted part s))
    ∙ ap is_image_type (
        lookup-compact_values "type" (replace_image part)
        ∙ ap (Option.map compact) (type-replace_image part))

strip_part-image :
    (part : Json) (m : RawMap)
    → raw_map part ≡ ok m
    → is_image_type (lookup "type" m) ≡ true
    → strip_part part ≡ ok (marshal_map (replace_image m), true)
unfolding strip_part
strip_part-image part m read image = ground (arith, read, image)

strip_part-other :
    (part : Json) (m : RawMap)
    → raw_map part ≡ ok m
    → is_image_type (lookup "type" m) ≡ false
    → strip_part part ≡ ok (part, false)
unfolding strip_part
strip_part-other part m read other = ground (arith, read, other)

-- What a part becomes: no image, and unchanged if it was none.
abbrev Stripped : Json → Json × Bool → Type 0
Stripped part (new, replaced) = (is_image_part new ≡ false) × (replaced ≡ false → new ≡ part)

strip_part-Stripped : (part : Json) (r : Json × Bool) → strip_part part ≡ ok r → Stripped part r
strip_part-Stripped part r e = elim (Result-cases (raw_map part)) [
  | inl (m, read) ↦ elim (Bool-cases (is_image_type (lookup "type" m))) [
    | inl image ↦
        subst (Stripped part) (ok-injective (sym (strip_part-image part m read image) ∙ e)) (
          is_image_part-replace_image m (raw_map-IsSorted part m read),
          λ no. absurd (ground (arith, no)),
        )
    | inr other ↦
        subst (Stripped part) (ok-injective (sym (strip_part-other part m read other) ∙ e))
          (ap is_image_map read ∙ other, λ no. refl)
  ]
  | inr (x, failed) ↦ absurd (unfold strip_part in ground (arith, e, failed))
]

abbrev StrippedAll : List Json → List Json × Bool → Type 0
StrippedAll parts (new, changed) = (any is_image_part new ≡ false) × (changed ≡ false → new ≡ parts)

strip_parts-Stripped :
    (parts : List Json) (r : List Json × Bool) → strip_parts parts ≡ ok r → StrippedAll parts r
unfolding strip_parts
strip_parts-Stripped [] r e = subst (StrippedAll []) (ok-injective e) (refl, λ no. refl)
strip_parts-Stripped (part ∷ parts) r e = elim (Result-cases (strip_part part)) [
  | inr (x, failed) ↦ absurd (ground (arith, e, failed))
  | inl ((first, replaced), one) ↦ elim (Result-cases (strip_parts parts)) [
    | inr (x, failed) ↦ absurd (ground (arith, e, one, failed))
    | inl ((rest, changed), more) ↦
        let (clean, same) = strip_part-Stripped part (first, replaced) one in
        let (clean_rest, same_rest) = strip_parts-Stripped parts (rest, changed) more in
        let out : strip_parts (part ∷ parts) ≡ ok (first ∷ rest, replaced || changed) =
          ground (arith, one, more) in
        subst (StrippedAll (part ∷ parts)) (ok-injective (sym out ∙ e)) (
          ground (arith, clean, clean_rest),
          λ no. cc (same (ground (arith, no)), same_rest (ground (arith, no))),
        )
  ]
]

-- A message that is written with other parts.
has_image-content :
    (message : RawMap) (parts : List Json)
    → IsSorted message
    → has_image (marshal_map (insert "content" (marshal_list parts) message))
      ≡ any is_image_part parts
has_image-content message parts s =
    ap message_image (
      raw_map-marshal_map (insert "content" (marshal_list parts) message)
        (insert-IsSorted "content" _ message s))
    ∙ ap content_image (
        lookup-compact_values "content" (insert "content" (marshal_list parts) message)
        ∙ ap (Option.map compact) (lookup-insert "content" "content" (marshal_list parts) message))
    ∙ content_image-marshal_list parts

module _ (item : Json) (message : RawMap) (content : Json) (read : raw_map item ≡ ok message)
    (found : lookup "content" message ≡ some content) where
  has_image-read : has_image item ≡ any_image (raw_list content)
  has_image-read = ap message_image read ∙ ap content_image found

  strip_content-clean :
      (new : Json) → strip_content item message (raw_list content) ≡ ok new → has_image new ≡ false
  unfolding strip_content
  strip_content-clean new e = elim (Result-cases (raw_list content)) [
    | inr (x, failed) ↦
        let same : item ≡ new = ground (arith, e, failed) in
        ap has_image (sym same) ∙ has_image-read ∙ ap any_image failed
    | inl (parts, listed) ↦ elim (Result-cases (strip_parts parts)) [
      | inr (x, failed) ↦ absurd (ground (arith, e, listed, failed))
      | inl ((stripped, changed), did) ↦
          let (clean, same) = strip_parts-Stripped parts (stripped, changed) did in
          elim (Bool-cases changed) [
            | inl y ↦
                let out : marshal_map (insert "content" (marshal_list stripped) message) ≡ new =
                  ground (arith, e, listed, did, y) in
                ap has_image (sym out)
                ∙ has_image-content message stripped (raw_map-IsSorted item message read)
                ∙ clean
            | inr n ↦
                let out : item ≡ new = ground (arith, e, listed, did, n) in
                ap has_image (sym out)
                ∙ has_image-read
                ∙ ap any_image listed
                ∙ ap (any is_image_part) (sym (same n))
                ∙ clean
          ]
    ]
  ]

strip_item-clean : (item new : Json) → strip_item item ≡ ok new → has_image new ≡ false
unfolding strip_item
strip_item-clean item new e = elim (Result-cases (raw_map item)) [
  | inr (x, failed) ↦ absurd (ground (arith, e, failed))
  | inl (message, read) ↦ elim (Option-cases (lookup "content" message)) [
    | inl none' ↦
        let out : item ≡ new = ground (arith, e, read, none') in
        ap has_image (sym out) ∙ ap message_image read ∙ ap content_image none'
    | inr (content, found) ↦
        strip_content-clean item message content read found new (ground (arith, e, read, found))
  ]
]

strip_items-clean :
    (items out : List Json)
    → strip_items items ≡ ok out
    → (any has_image out ≡ false) × (length out ≡ length items)
unfolding strip_items
strip_items-clean [] out e =
    subst (λ o. (any has_image o ≡ false) × (length o ≡ 0)) (ok-injective e) (refl, refl)
strip_items-clean (item ∷ items) out e = elim (Result-cases (strip_item item)) [
  | inr (x, failed) ↦ absurd (ground (arith, e, failed))
  | inl (first, one) ↦ elim (Result-cases (strip_items items)) [
    | inr (x, failed) ↦ absurd (ground (arith, e, one, failed))
    | inl (rest, more) ↦
        let (clean, count) = strip_items-clean items rest more in
        let first_clean : has_image first ≡ false = strip_item-clean item first one in
        let made : strip_items (item ∷ items) ≡ ok (first ∷ rest) = ground (arith, one, more) in
        subst (λ o. (any has_image o ≡ false) × (length o ≡ length (item ∷ items)))
          (ok-injective (sym made ∙ e)) (ground (arith, first_clean, clean), ap suc count)
  ]
]

-- Where the summary model may not have images, the items that stripSummaryInputImages returns are as
-- many as it was given, and none of them, as json.Marshal writes it, has a content part of the type
-- input_image.
pub strip_summary_input_images_clean :
    (items : List Json) (summary_model : String) (image_models : List String) (out : List Json)
    → summary_model_allows_images summary_model image_models ≡ false
    → strip_summary_input_images items summary_model image_models ≡ ok out
    → (any has_image (map compact out) ≡ false) × (length out ≡ length items)
unfolding strip_summary_input_images
strip_summary_input_images_clean items summary_model image_models out refused e =
    let (clean, count) = strip_items-clean items out (ground (arith, e, refused)) in
    (any-has_image-compact out ∙ clean, count)
