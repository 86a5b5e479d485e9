-- ===== src/State/Policy.antt =====
-- The session state matrix of docs/compact-protocol.md, and checkCompactionItems against it.
use cpa_codex_compact_bridge.Common.{
  ℕ, ◌≡◌, String, Bool, true, false, ◌&&◌, ◌||◌, List, [], ◌∷◌, Option, none, some, arith, ltb, any,
  ◌∙◌, if◌then◌else◌,
}
use cpa_codex_compact_bridge.Errors.{Result, ok, err}
use cpa_codex_compact_bridge.Items.{InputItem, is_compaction_item_any}
use cpa_codex_compact_bridge.State.{
  CompactTarget, explicit_passthrough, unmatched_passthrough, bridge, CompactionRecord, opaque,
  plaintext, corrupt, compaction_record_of, Counts, count_record, count_items, judge_counts,
  check_compaction_items, invalid_compaction_state_error, msg_corrupt_bridge_compaction,
  msg_mixed_compaction_state, msg_native_compaction_on_bridge, msg_unruled_native_compaction,
}

abbrev pub same_record : CompactionRecord → CompactionRecord → Bool
same_record opaque opaque = true
same_record plaintext plaintext = true
same_record corrupt corrupt = true
same_record _ _ = false

-- Some compaction item carries a record of the given kind.
unfoldable pub holds : CompactionRecord → List InputItem → Bool
holds kind =
    any (λ item. is_compaction_item_any item && same_record kind (compaction_record_of item))

-- The rows of the matrix.
pub data SessionState : Type 0 where
  no_compaction_item : SessionState
  only_plaintext : SessionState
  only_native : SessionState
  both_kinds : SessionState
  blank_summary : SessionState

-- `corrupt` first: the matrix rejects it whatever else the request holds.
unfoldable pub session_state : (corrupt plaintext native : Bool) → SessionState
session_state true _ _ = blank_summary
session_state false true true = both_kinds
session_state false true false = only_plaintext
session_state false false true = only_native
session_state false false false = no_compaction_item

-- The cells of the matrix: none where the request goes on, or the message of its rejection.
unfoldable pub matrix : SessionState → CompactTarget → Option String
matrix no_compaction_item _ = none
matrix only_plaintext _ = none
matrix only_native bridge = some msg_native_compaction_on_bridge
matrix only_native explicit_passthrough = none
matrix only_native unmatched_passthrough = some msg_unruled_native_compaction
matrix both_kinds _ = some msg_mixed_compaction_state
matrix blank_summary _ = some msg_corrupt_bridge_compaction

abbrev pub state_of : List InputItem → SessionState
state_of items = session_state (holds corrupt items) (holds plaintext items) (holds opaque items)

abbrev pub verdict : Option String → Result (Unit {0})
verdict none = ok tt
verdict (some message) = err (invalid_compaction_state_error message)

-- Some item of the list, or some item before it, carries a record of the given kind.
abbrev seen : ℕ → CompactionRecord → List InputItem → Bool
seen before kind items = ltb 0 before || holds kind items

module _ (item : InputItem) (items : List InputItem) where
  abbrev step : Counts → Counts
  step c = if is_compaction_item_any item then count_record (compaction_record_of item) c else c

  step-corrupt :
      (c : Counts) → seen (step c).corrupt corrupt items ≡ seen c.corrupt corrupt (item ∷ items)
  unfolding count_record holds
  step-corrupt c = ground arith

  step-plaintext :
      (c : Counts)
      → seen (step c).plaintext plaintext items ≡ seen c.plaintext plaintext (item ∷ items)
  unfolding count_record holds
  step-plaintext c = ground arith

  step-opaque :
      (c : Counts) → seen (step c).opaque opaque items ≡ seen c.opaque opaque (item ∷ items)
  unfolding count_record holds
  step-opaque c = ground arith

-- Each counter ends positive exactly if it was so before or an item of its kind follows.
count_items-corrupt :
    (c : Counts) (items : List InputItem)
    → ltb 0 (count_items c items).corrupt ≡ seen c.corrupt corrupt items
unfolding count_items
count_items-corrupt c [] = unfold holds in ground arith
count_items-corrupt c (item ∷ items) =
    count_items-corrupt (step item items c) items ∙ step-corrupt item items c

count_items-plaintext :
    (c : Counts) (items : List InputItem)
    → ltb 0 (count_items c items).plaintext ≡ seen c.plaintext plaintext items
unfolding count_items
count_items-plaintext c [] = unfold holds in ground arith
count_items-plaintext c (item ∷ items) =
    count_items-plaintext (step item items c) items ∙ step-plaintext item items c

count_items-opaque :
    (c : Counts) (items : List InputItem)
    → ltb 0 (count_items c items).opaque ≡ seen c.opaque opaque items
unfolding count_items
count_items-opaque c [] = unfold holds in ground arith
count_items-opaque c (item ∷ items) =
    count_items-opaque (step item items c) items ∙ step-opaque item items c

judge_counts_lem :
    (c : Counts) (target : CompactTarget)
    → judge_counts c target
      ≡ verdict
          (matrix (session_state (ltb 0 c.corrupt) (ltb 0 c.plaintext) (ltb 0 c.opaque)) target)
unfolding judge_counts matrix session_state
judge_counts_lem c explicit_passthrough = ground arith
judge_counts_lem c unmatched_passthrough = ground arith
judge_counts_lem c bridge = ground arith

abbrev zeros : Counts
zeros = record { plaintext = 0; opaque = 0; corrupt = 0 }

-- checkCompactionItems is the session state matrix: it accepts exactly where the matrix lets the
-- request go on, and rejects with the message of the cell.
pub check_compaction_items-matrix :
    (items : List InputItem) (target : CompactTarget)
    → check_compaction_items items target ≡ verdict (matrix (state_of items) target)
unfolding check_compaction_items
check_compaction_items-matrix items target =
    judge_counts_lem (count_items zeros items) target
    ∙ rw (
      count_items-corrupt zeros items,
      count_items-plaintext zeros items,
      count_items-opaque zeros items,
    )
