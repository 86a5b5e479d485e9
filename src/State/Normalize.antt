-- ===== src/State/Normalize.antt =====
-- normalizeCompactionState on whole request bodies: what it accepts, what it changes, and that a
-- second pass finds nothing to do.

use cpa_codex_compact_bridge.Common.{
  ◌≡◌, refl, true, false, List, map, Option, none, some, arith, ap, ◌∙◌, sym, subst, if◌then◌else◌,
  ◌⊎◌, inl, inr, Bool-cases,
}
use cpa_codex_compact_bridge.Errors.{Result, ok, ◌>>=◌, bind-ok, Result-cases, wrap}
use cpa_codex_compact_bridge.Go.Json.{
  Json, arr, Elems, elems, Body, json, empty, malformed, compact, compact_elems, from_list,
  read_body, raw_list, is_json_array, marshal_list, elems-compact_elems, elems-from_list,
  map-compact_idem,
}
use cpa_codex_compact_bridge.Go.RawMap.{
  RawMap, lookup, insert, raw_map, marshal_map, compact_values, lookup-insert,
}
use cpa_codex_compact_bridge.Go.RawMap.Sorted.{
  insert-IsSorted, raw_map-IsSorted, raw_map-marshal_map, lookup-compact_values,
}
use cpa_codex_compact_bridge.Items.{parse_input_items}
use cpa_codex_compact_bridge.State.{
  CompactTarget, ReplayResult, plaintext, check_compaction_items, rewrite_items,
  rewrite_compaction_items, normalize_items, normalize_input, normalize_compaction_state,
}
use cpa_codex_compact_bridge.State.Policy.{
  holds, state_of, matrix, verdict, check_compaction_items-matrix,
}
use cpa_codex_compact_bridge.State.Restore.{
  restore, rewrite_items-restore, rewrite_items-changed, parse-restore, reread-plaintext,
  check_compaction_items-reread,
}

-- The body is an object whose value of `input` is an array of the given items.
pub record HasInput (body : Body) (parsed : RawMap) (raws : List Json) : Type 0 where
  pub value : Json
  pub is_value : body ≡ json value
  pub decoded : raw_map value ≡ ok parsed
  pub input : Elems
  pub found : lookup "input" parsed ≡ some (arr input)
  pub are_items : elems input ≡ raws

-- The result that forwards the body as it was received.
abbrev pub untouched : Body → ReplayResult
untouched body = record { changed = false; body = body }

abbrev pub rewritten_body : RawMap → List Json → Body
rewritten_body parsed raws =
    json (marshal_map (insert "input" (marshal_list (map restore (parse_input_items raws))) parsed))

-- The body that an accepted request goes on with.
abbrev pub outcome : Body → RawMap → List Json → ReplayResult
outcome body parsed raws =
    if holds plaintext (parse_input_items raws)
    then record { changed = true; body = rewritten_body parsed raws }
    else untouched body

normalize_decoded :
    (value : Json) (target : CompactTarget) {parsed : RawMap}
    → raw_map value ≡ ok parsed
    → normalize_compaction_state (json value) target
      ≡ normalize_input (json value) parsed (lookup "input" parsed) target
unfolding normalize_compaction_state wrap read_body
normalize_decoded value target h = rw h

normalize_array :
    (body : Body) (parsed : RawMap) (input : Elems) (target : CompactTarget)
    → normalize_input body parsed (some (arr input)) target
      ≡ normalize_items body parsed (parse_input_items (elems input)) target
unfolding normalize_input wrap is_json_array raw_list
normalize_array body parsed input target = refl

-- A body with an input array is judged by its items.
pub normalize-HasInput :
    {body : Body} {parsed : RawMap} {raws : List Json} (target : CompactTarget)
    → HasInput body parsed raws
    → normalize_compaction_state body target
      ≡ normalize_items body parsed (parse_input_items raws) target
normalize-HasInput {body} {parsed} {raws} target h =
    ap (λ b. normalize_compaction_state b target) h.is_value
    ∙ normalize_decoded h.value target h.decoded
    ∙ ap (λ o. normalize_input (json h.value) parsed o target) h.found
    ∙ normalize_array (json h.value) parsed h.input target
    ∙ rw (← h.is_value, h.are_items)

-- What the loop's result becomes.
normalize_items_lem :
    (body : Body) (parsed : RawMap) (raws : List Json) (target : CompactTarget)
    → normalize_items body parsed (parse_input_items raws) target ≡ (
        check_compaction_items (parse_input_items raws) target >>= λ _.
        ok (outcome body parsed raws))
unfolding normalize_items rewrite_compaction_items
normalize_items_lem body parsed raws target =
    bind-ok (check_compaction_items (parse_input_items raws) target)
      (rewrite_items (parse_input_items raws)) _
    ∙ simp (
      rewrite_items-changed (parse_input_items raws),
      rewrite_items-restore (parse_input_items raws),
    )

-- On a body with an input array normalizeCompactionState is the session state matrix: it rejects
-- with the message of the cell, and where the cell lets the request go on it returns a body, the one
-- received if no plaintext compaction item is there.
pub normalize_compaction_state-matrix :
    (body : Body) (parsed : RawMap) (raws : List Json) (target : CompactTarget)
    → HasInput body parsed raws
    → normalize_compaction_state body target ≡ (
        verdict (matrix (state_of (parse_input_items raws)) target) >>= λ _.
        ok (outcome body parsed raws))
normalize_compaction_state-matrix body parsed raws target h =
    normalize-HasInput target h
    ∙ normalize_items_lem body parsed raws target
    ∙ ap (λ (c : Result (Unit {0})). c >>= λ _. ok (outcome body parsed raws))
        (check_compaction_items-matrix (parse_input_items raws) target)

-- An accepted body was received with an input array that was rewritten.
pub record Rewritten (body : Body) (target : CompactTarget) (r : ReplayResult) : Type 0 where
  pub parsed : RawMap
  pub raws : List Json
  pub has_input : HasInput body parsed raws
  pub accepted : check_compaction_items (parse_input_items raws) target ≡ ok tt
  pub is_rewritten : r ≡ record { changed = true; body = rewritten_body parsed raws }

pub items_inv :
    (body : Body) (parsed : RawMap) (raws : List Json) (target : CompactTarget) (r : ReplayResult)
    → normalize_items body parsed (parse_input_items raws) target ≡ ok r
    → (check_compaction_items (parse_input_items raws) target ≡ ok tt)
      × (r ≡ outcome body parsed raws)
items_inv body parsed raws target r e =
    let e' = sym (normalize_items_lem body parsed raws target) ∙ e in ground (arith, e')

array_input :
    (value : Json) (parsed : RawMap) (input : Elems)
    → raw_map value ≡ ok parsed
    → lookup "input" parsed ≡ some (arr input)
    → HasInput (json value) parsed (elems input)
array_input value parsed input d f = record {
  value = value;
  is_value = refl;
  decoded = d;
  input = input;
  found = f;
  are_items = refl;
}

input_inv :
    (value : Json) (parsed : RawMap) (o : Option Json) (target : CompactTarget) (r : ReplayResult)
    → raw_map value ≡ ok parsed
    → lookup "input" parsed ≡ o
    → normalize_input (json value) parsed o target ≡ ok r
    → (r ≡ untouched (json value)) ⊎ Rewritten (json value) target r
unfolding normalize_input is_json_array
input_inv value parsed none target r d f e = inl (ground arith)
input_inv value parsed (some (arr input)) target r d f e =
    let (accepted, is) =
      items_inv (json value) parsed (elems input) target r
        (sym (normalize_array (json value) parsed input target) ∙ e) in
    elim (Bool-cases (holds plaintext (parse_input_items (elems input)))) [
      | inl some' ↦ inr (record {
        parsed = parsed;
        raws = elems input;
        has_input = array_input value parsed input d f;
        accepted = accepted;
        is_rewritten = is ∙ rw some';
      })
      | inr none' ↦ inl (is ∙ rw none')
    ]
input_inv value parsed (some v) target r d f e = inl (ground arith)

pub normalize_inv :
    (body : Body) (target : CompactTarget) (r : ReplayResult)
    → normalize_compaction_state body target ≡ ok r
    → (r ≡ untouched body) ⊎ Rewritten body target r
unfolding normalize_compaction_state read_body wrap
normalize_inv empty target r e = cc
normalize_inv (malformed text) target r e = cc
normalize_inv (json value) target r e = elim (Result-cases (raw_map value)) [
  | inl (parsed, d) ↦
      input_inv value parsed (lookup "input" parsed) target r d refl
        (sym (normalize_decoded value target d) ∙ e)
  | inr (cause, d) ↦ ground (arith, d)
]

-- The input array of the rewritten body.
rewritten_input :
    (body : Body) (parsed : RawMap) (raws : List Json)
    → HasInput body parsed raws
    → HasInput
        (rewritten_body parsed raws)
        (compact_values
          (insert "input" (marshal_list (map restore (parse_input_items raws))) parsed))
        (map compact (map restore (parse_input_items raws)))
rewritten_input body parsed raws h =
    let written = marshal_list (map restore (parse_input_items raws)) in
    let sorted =
      insert-IsSorted "input" written parsed (raw_map-IsSorted h.value parsed h.decoded) in
    record {
      value = marshal_map (insert "input" written parsed);
      is_value = refl;
      decoded = raw_map-marshal_map _ sorted;
      input = compact_elems (from_list (map compact (map restore (parse_input_items raws))));
      found =
          lookup-compact_values "input" (insert "input" written parsed)
          ∙ rw (lookup-insert "input" "input" written parsed) (unfold marshal_list compact in refl);
      are_items =
          elems-compact_elems (from_list (map compact (map restore (parse_input_items raws))))
          ∙ ap (map compact) (elems-from_list (map compact (map restore (parse_input_items raws))))
          ∙ map-compact_idem (map restore (parse_input_items raws));
    }

-- A rewritten body, judged again, is forwarded as it is.
normalize-Rewritten :
    {body : Body} {target : CompactTarget} {r : ReplayResult} (w : Rewritten body target r)
    → normalize_compaction_state (rewritten_body w.parsed w.raws) target
      ≡ ok (untouched (rewritten_body w.parsed w.raws))
normalize-Rewritten {body} {target} w =
    normalize-HasInput target (rewritten_input body w.parsed w.raws w.has_input)
    ∙ normalize_items_lem _ _ (map compact (map restore (parse_input_items w.raws))) target
    ∙ rw (
      parse-restore w.raws,
      check_compaction_items-reread w.raws target w.accepted,
      reread-plaintext w.raws,
    )

-- A second pass accepts what the first pass has returned, and forwards it as it is.
pub normalize_idempotent :
    (body : Body) (target : CompactTarget) (r : ReplayResult)
    → normalize_compaction_state body target ≡ ok r
    → normalize_compaction_state r.body target ≡ ok (untouched r.body)
normalize_idempotent body target r e = elim (normalize_inv body target r e) [
  | inl same ↦ rw (same) (e ∙ ap (λ x. ok x) same)
  | inr w ↦
      subst (λ b. normalize_compaction_state b target ≡ ok (untouched b))
        (ap (λ x. x.body) (sym w.is_rewritten)) (normalize-Rewritten w)
]
