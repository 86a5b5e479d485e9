-- ===== src/State/Forward.antt =====
-- What a request carries onward from normalizeCompactionState.
use mathlib.Core.Option
use cpa_codex_compact_bridge.Common.{
  ℕ, ◌≤◌, String, ◌≡◌, ◌≢◌, Bool, true, false, List, map, arith, ap, ◌∙◌, sym, eq_iff, ◌⊎◌, inl,
  inr, Bool-cases,
}
use cpa_codex_compact_bridge.Errors.{ok}
use cpa_codex_compact_bridge.Go.Json.{Json, Body, json, compact, marshal_list}
use cpa_codex_compact_bridge.Go.RawMap.{
  RawMap, lookup, insert, raw_map, marshal_map, compact_values, lookup-insert,
}
use cpa_codex_compact_bridge.Go.RawMap.Sorted.{
  insert-IsSorted, raw_map-IsSorted, raw_map-marshal_map, lookup-compact_values,
}
use cpa_codex_compact_bridge.Items.{InputItem, parse_input_items, has_compaction_items}
use cpa_codex_compact_bridge.State.{
  CompactTarget, explicit_passthrough, unmatched_passthrough, bridge, ReplayResult, plaintext,
  check_compaction_items, normalize_compaction_state, may_forward_opaque_state,
}
use cpa_codex_compact_bridge.State.Policy.{
  holds, check_compaction_items-matrix, matrix, session_state, verdict,
}
use cpa_codex_compact_bridge.State.Restore.{restore, kinds, has_compaction_items-holds}
use cpa_codex_compact_bridge.State.Normalize.{
  HasInput, untouched, rewritten_body, outcome, items_inv, normalize-HasInput, normalize_idempotent,
}

-- No plaintext compaction item stands in a body that goes through untouched.
untouched-plaintext :
    (body : Body) (parsed : RawMap) (raws : List Json)
    → untouched body ≡ outcome body parsed raws
    → holds plaintext (parse_input_items raws) ≡ false
untouched-plaintext body parsed raws e = ground (arith, ap (λ x. x.changed) e)

-- A body that was accepted for a target which may not carry native state carries no compaction item
-- of any kind in its input array.
pub normalize_compaction_state_fail_closed :
    (body : Body) (target : CompactTarget) (r : ReplayResult) (parsed : RawMap) (raws : List Json)
    → may_forward_opaque_state target ≡ false
    → normalize_compaction_state body target ≡ ok r
    → HasInput r.body parsed raws
    → has_compaction_items (parse_input_items raws) ≡ false
normalize_compaction_state_fail_closed body target r parsed raws strict e h =
    let again = sym (normalize-HasInput target h) ∙ normalize_idempotent body target r e in
    let (accepted, same) = items_inv r.body parsed raws target (untouched r.body) again in
    let found = kinds raws target accepted in
    has_compaction_items-holds (parse_input_items raws)
    ∙ ground (arith, found, untouched-plaintext r.body parsed raws same)

module _ (body : Body) (parsed : RawMap) (raws : List Json) where
  outcome_rewritten :
      holds plaintext (parse_input_items raws) ≡ true
      → (outcome body parsed raws).body ≡ rewritten_body parsed raws
  outcome_rewritten h = rw h

  outcome_untouched :
      holds plaintext (parse_input_items raws) ≡ false → (outcome body parsed raws).body ≡ body
  outcome_untouched h = rw h

lookup_other :
    (k : String) (v : Json) (parsed : RawMap)
    → k ≢ "input"
    → lookup k (compact_values (insert "input" v parsed)) ≡ Option.map compact (lookup k parsed)
lookup_other k v parsed other =
    lookup-compact_values k (insert "input" v parsed)
    ∙ rw (lookup-insert "input" k v parsed) (ground (arith, eq_iff "input" k))

-- Every field of an accepted body but `input` is forwarded with the value it had.
pub normalize_compaction_state_frame :
    (body : Body) (target : CompactTarget) (r : ReplayResult) (parsed : RawMap) (raws : List Json)
    → HasInput body parsed raws
    → normalize_compaction_state body target ≡ ok r
    → (r.body ≡ body)
      ⊎ ((v : Json) × (written : RawMap) × (r.body ≡ json v)
          × (raw_map v ≡ ok written)
          × ((k : String) → k ≢ "input" → lookup k written ≡ Option.map compact (lookup k parsed)))
normalize_compaction_state_frame body target r parsed raws h e =
    let same = (items_inv body parsed raws target r (sym (normalize-HasInput target h) ∙ e)).1 in
    elim (Bool-cases (holds plaintext (parse_input_items raws))) [
      | inl some' ↦
          let fresh = marshal_list (map restore (parse_input_items raws)) in
          let sorted =
            insert-IsSorted "input" fresh parsed (raw_map-IsSorted h.value parsed h.decoded) in
          inr (
            marshal_map (insert "input" fresh parsed),
            compact_values (insert "input" fresh parsed),
            ap (λ x. x.body) same ∙ outcome_rewritten body parsed raws some',
            raw_map-marshal_map _ sorted,
            λ k other. lookup_other k fresh parsed other,
          )
      | inr none' ↦ inl (ap (λ x. x.body) same ∙ outcome_untouched body parsed raws none')
    ]

-- The targets from the most to the least permissive.
unfoldable pub strictness : CompactTarget → ℕ
strictness explicit_passthrough = 0
strictness unmatched_passthrough = 1
strictness bridge = 2

matrix_strict :
    (c p o : Bool) (target looser : CompactTarget)
    → strictness looser ≤ strictness target
    → verdict (matrix (session_state c p o) target) ≡ ok tt
    → verdict (matrix (session_state c p o) looser) ≡ ok tt
unfolding matrix session_state strictness
matrix_strict c p o explicit_passthrough explicit_passthrough h e = e
matrix_strict c p o explicit_passthrough unmatched_passthrough h e = absurd (omega arith)
matrix_strict c p o explicit_passthrough bridge h e = absurd (omega arith)
matrix_strict c p o unmatched_passthrough bridge h e = absurd (omega arith)
matrix_strict c p o _ _ h e = ground arith

-- State that one target accepts, every more permissive target accepts.
pub check_compaction_items-strictness :
    (items : List InputItem) (target looser : CompactTarget)
    → strictness looser ≤ strictness target
    → check_compaction_items items target ≡ ok tt
    → check_compaction_items items looser ≡ ok tt
check_compaction_items-strictness items target looser h e =
    check_compaction_items-matrix items looser
    ∙ matrix_strict _ _ _ target looser h (sym (check_compaction_items-matrix items target) ∙ e)
