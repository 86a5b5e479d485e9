-- ===== src/State/Restore.antt =====
-- rewriteCompactionItems: what the rewritten items are, and what is read back of them.
use cpa_codex_compact_bridge.Common.{
  String, ◌≡◌, refl, Bool, true, false, ◌&&◌, ◌||◌, List, [], ◌∷◌, map, arith, ap, ◌∙◌, sym, not,
  if◌then◌else◌, Bool-cases, inl, inr,
}
use cpa_codex_compact_bridge.Errors.{ok}
use cpa_codex_compact_bridge.Go.Json.{Json, obj, compact}
use cpa_codex_compact_bridge.Go.Struct.{fields_of, string_field, string_field-compact_fields}
use cpa_codex_compact_bridge.Items.{
  InputItem, parse_input_item, parse_input_items, is_cpa_compaction, is_compaction_item_any,
  compact_to_user_message, has_compaction_items,
}
use cpa_codex_compact_bridge.State.{
  CompactTarget, explicit_passthrough, unmatched_passthrough, bridge, CompactionRecord, opaque,
  plaintext, corrupt, compaction_record_of, is_restorable, rewrite_items, may_forward_opaque_state,
  check_compaction_items,
}
use cpa_codex_compact_bridge.State.Policy.{
  holds, same_record, check_compaction_items-matrix, matrix, session_state, verdict,
}

pub field-compact :
    (name : String) (v : Json)
    → string_field name (fields_of (compact v)) ≡ string_field name (fields_of v)
unfolding compact
field-compact name (obj fs) = string_field-compact_fields name fs
field-compact name _ = refl

-- Writing an item again changes nothing of what the policy reads.
module _ (v : Json) where
  pub is_compaction_item_any-compact :
      is_compaction_item_any (parse_input_item (compact v))
      ≡ is_compaction_item_any (parse_input_item v)
  unfolding is_compaction_item_any parse_input_item
  is_compaction_item_any-compact = rw (field-compact "type" v)

  compaction_record_of-compact :
      compaction_record_of (parse_input_item (compact v))
      ≡ compaction_record_of (parse_input_item v)
  unfolding compaction_record_of is_cpa_compaction parse_input_item
  compaction_record_of-compact =
      rw (field-compact "type" v, field-compact "id" v, field-compact "encrypted_content" v)

  is_restorable-compact :
      is_restorable (parse_input_item (compact v)) ≡ is_restorable (parse_input_item v)
  unfolding is_restorable
  is_restorable-compact = rw (is_compaction_item_any-compact, compaction_record_of-compact)

-- A restored summary is an ordinary message.
user_message_ordinary :
    (item : InputItem)
    → is_compaction_item_any (parse_input_item (compact (compact_to_user_message item))) ≡ false
unfolding is_compaction_item_any parse_input_item compact compact_to_user_message string_field
user_message_ordinary item = refl

-- What rewriteCompactionItems makes of one item: a user message with the summary, or the item as it
-- was received.
unfoldable pub restore : InputItem → Json
restore item = if is_restorable item then compact_to_user_message item else item.raw

-- Every item keeps its place, and only plaintext compaction items are written anew.
pub rewrite_items-restore : (items : List InputItem) → (rewrite_items items).0 ≡ map restore items
unfolding rewrite_items restore
rewrite_items-restore [] = refl
rewrite_items-restore (item ∷ items) = ground (arith, rewrite_items-restore items)

-- The rewriting reports a change exactly if there is a plaintext compaction item.
pub rewrite_items-changed :
    (items : List InputItem) → (rewrite_items items).1 ≡ holds plaintext items
unfolding rewrite_items is_restorable holds
rewrite_items-changed [] = refl
rewrite_items-changed (item ∷ items) = ground (arith, rewrite_items-changed items)

-- An item of the rewritten input, as it is read again.
abbrev pub reread_item : Json → InputItem
reread_item v = parse_input_item (compact (restore (parse_input_item v)))

abbrev is_of : CompactionRecord → InputItem → Bool
is_of kind item = is_compaction_item_any item && same_record kind (compaction_record_of item)

reread_item_restored :
    (v : Json)
    → is_restorable (parse_input_item v) ≡ true
    → is_compaction_item_any (reread_item v) ≡ false
unfolding restore
reread_item_restored v h = rw h (user_message_ordinary (parse_input_item v))

pub raw-parse_input_item : (v : Json) → (parse_input_item v).raw ≡ v
unfolding parse_input_item
raw-parse_input_item v = refl

pub reread_item_kept :
    (v : Json)
    → is_restorable (parse_input_item v) ≡ false
    → reread_item v ≡ parse_input_item (compact v)
unfolding restore
reread_item_kept v h = rw (h, raw-parse_input_item v)

is_of-compact :
    (kind : CompactionRecord) (v : Json)
    → is_of kind (parse_input_item (compact v)) ≡ is_of kind (parse_input_item v)
is_of-compact kind v = rw (is_compaction_item_any-compact v, compaction_record_of-compact v)

reread_item-plaintext : (v : Json) → is_of plaintext (reread_item v) ≡ false
reread_item-plaintext v = elim (Bool-cases (is_restorable (parse_input_item v))) [
  | inl restored ↦ rw (reread_item_restored v restored)
  | inr kept ↦
      rw (reread_item_kept v kept, is_of-compact plaintext v) (unfold is_restorable in kept)
]

is_of_restorable :
    (kind : CompactionRecord) (item : InputItem)
    → same_record kind plaintext ≡ false
    → is_restorable item ≡ true
    → is_of kind item ≡ false
unfolding is_restorable
is_of_restorable kind item h k = ground arith

reread_item-kind :
    (kind : CompactionRecord) (v : Json)
    → same_record kind plaintext ≡ false
    → is_of kind (reread_item v) ≡ is_of kind (parse_input_item v)
reread_item-kind kind v h = elim (Bool-cases (is_restorable (parse_input_item v))) [
  | inl restored ↦
      rw (reread_item_restored v restored, is_of_restorable kind (parse_input_item v) h restored)
  | inr kept ↦ rw (reread_item_kept v kept, is_of-compact kind v)
]

-- The rewritten input, as it is read again.
unfoldable pub reread : List Json → List InputItem
reread [] = []
reread (v ∷ raws) = reread_item v ∷ reread raws

pub parse-restore :
    (raws : List Json)
    → parse_input_items (map compact (map restore (parse_input_items raws))) ≡ reread raws
unfolding reread parse_input_items
parse-restore [] = refl
parse-restore (v ∷ raws) = ap (λ r. reread_item v ∷ r) (parse-restore raws)

pub parse-rewrite_items :
    (raws : List Json)
    → parse_input_items (map compact (rewrite_items (parse_input_items raws)).0) ≡ reread raws
parse-rewrite_items raws = rw (rewrite_items-restore (parse_input_items raws)) (parse-restore raws)

-- No plaintext compaction item is left.
pub reread-plaintext : (raws : List Json) → holds plaintext (reread raws) ≡ false
unfolding reread holds
reread-plaintext [] = refl
reread-plaintext (v ∷ raws) = rw (reread_item-plaintext v) (reread-plaintext raws)

-- Items of the other kinds stay.
pub reread-kind :
    (kind : CompactionRecord) (raws : List Json)
    → same_record kind plaintext ≡ false
    → holds kind (reread raws) ≡ holds kind (parse_input_items raws)
unfolding reread holds parse_input_items
reread-kind kind [] h = refl
reread-kind kind (v ∷ raws) h = rw (reread_item-kind kind v h, reread-kind kind raws h)

pub has_compaction_items-holds :
    (items : List InputItem)
    → has_compaction_items items
      ≡ (holds corrupt items || holds plaintext items || holds opaque items)
unfolding has_compaction_items holds
has_compaction_items-holds [] = refl
has_compaction_items-holds (item ∷ items) = ground (arith, has_compaction_items-holds items)

-- What the accepted states are, from the matrix.
pub accepted_kinds :
    (c p o : Bool) (target : CompactTarget)
    → verdict (matrix (session_state c p o) target) ≡ ok tt
    → (c ≡ false) × ((p && o) ≡ false) × ((o && not (may_forward_opaque_state target)) ≡ false)
unfolding matrix session_state may_forward_opaque_state
accepted_kinds c p o explicit_passthrough h = ground arith
accepted_kinds c p o unmatched_passthrough h = ground arith
accepted_kinds c p o bridge h = ground arith

accepts_kinds :
    (o : Bool) (target : CompactTarget)
    → (o && not (may_forward_opaque_state target)) ≡ false
    → verdict (matrix (session_state false false o) target) ≡ ok tt
unfolding matrix session_state may_forward_opaque_state
accepts_kinds o explicit_passthrough h = ground arith
accepts_kinds o unmatched_passthrough h = ground arith
accepts_kinds o bridge h = ground arith

module _ (raws : List Json) (target : CompactTarget)
    (accepted : check_compaction_items (parse_input_items raws) target ≡ ok tt) where
  pub kinds :
      (holds corrupt (parse_input_items raws) ≡ false)
      × ((holds plaintext (parse_input_items raws) && holds opaque (parse_input_items raws))
          ≡ false)
      × ((holds opaque (parse_input_items raws) && not (may_forward_opaque_state target)) ≡ false)
  kinds =
      accepted_kinds _ _ _ target
        (sym (check_compaction_items-matrix (parse_input_items raws) target) ∙ accepted)

  -- The policy accepts what it has rewritten.
  pub check_compaction_items-reread : check_compaction_items (reread raws) target ≡ ok tt
  check_compaction_items-reread =
      check_compaction_items-matrix (reread raws) target
      ∙ rw
          (
            reread-kind corrupt raws refl,
            reread-plaintext raws,
            reread-kind opaque raws refl,
            kinds.0,
          )
          (accepts_kinds _ target kinds.2)

  -- A target that may not carry native state receives no compaction item at all.
  pub has_compaction_items-reread :
      may_forward_opaque_state target ≡ false → has_compaction_items (reread raws) ≡ false
  has_compaction_items-reread h =
      has_compaction_items-holds (reread raws)
      ∙ rw
          (
            reread-kind corrupt raws refl,
            reread-plaintext raws,
            reread-kind opaque raws refl,
            kinds.0,
          )
          (ground (arith, kinds.2))

-- A list without plaintext compaction items goes through as it is.
pub rewrite_items_of_none :
    (items : List InputItem)
    → holds plaintext items ≡ false
    → rewrite_items items ≡ (map (λ item. item.raw) items, false)
unfolding rewrite_items is_restorable holds
rewrite_items_of_none [] h = refl
rewrite_items_of_none (item ∷ items) h = ground (arith, rewrite_items_of_none items)
