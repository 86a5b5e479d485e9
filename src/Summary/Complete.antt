-- ===== src/Summary/Complete.antt =====
-- What extractSummaryText accepts, the other way: every finished response with a text is accepted.
use cpa_codex_compact_bridge.Common.{
  String, ◌≡◌, refl, ◌≢◌, ◌⊎◌, inl, inr, true, false, List, [], ◌∷◌, some, eq_iff, All, arith, ap,
  ◌∙◌, sym, Option-cases,
}
use cpa_codex_compact_bridge.Errors.{ok, ok-injective}
use cpa_codex_compact_bridge.Go.Strings.{trim_space}
use cpa_codex_compact_bridge.Go.Json.{
  Json, null, arr, is_json_array, str, json, read_body, raw_string,
}
use cpa_codex_compact_bridge.Go.RawMap.{RawMap, lookup, raw_map}
use cpa_codex_compact_bridge.Responses.{
  ResponseOutputContent, ResponseOutputItem, read_output, response_status, response_status_of,
  valid_status, is_call_content, check_contents, check_output_item, response_output_item_failure,
  output_text, usable, terminal_text, extract_responses_assistant_text,
}
use cpa_codex_compact_bridge.Chat.{
  Choice, read_choices, check_finish, choice_text, read_first_choice, extract_chat_assistant_text,
}
use cpa_codex_compact_bridge.Summary.{
  extract_envelope, extract_assistant_text, extract_summary_text,
}
use cpa_codex_compact_bridge.Summary.Shapes.{IsTerminalItem, IsResponsesSummary, IsChatSummary}

check_contents-All :
    (cs : List ResponseOutputContent)
    → All (λ c. is_call_content c ≡ false) cs
    → check_contents cs ≡ ok tt
unfolding check_contents
check_contents-All [] h = refl
check_contents-All (c ∷ cs) (n, h) = ground (arith, check_contents-All cs h)

check_output_item-IsTerminalItem :
    (item : ResponseOutputItem) → IsTerminalItem item → check_output_item item ≡ ok tt
unfolding check_output_item
check_output_item-IsTerminalItem item h = ground (
  arith,
  eq_iff item.type "message",
  eq_iff item.type "reasoning",
  check_contents-All item.content,
)

failure-All :
    (items : List ResponseOutputItem)
    → All IsTerminalItem items
    → response_output_item_failure items ≡ ok tt
unfolding response_output_item_failure
failure-All [] h = refl
failure-All (item ∷ items) (t, h) =
    ground (arith, check_output_item-IsTerminalItem item t, failure-All items h)

usable-some : (s : String) → s ≢ "" → usable s ≡ ok s
unfolding usable
usable-some s h = ground (arith, eq_iff s "")

trim_space_empty : trim_space "" ≡ ""
unfolding trim_space
trim_space_empty = refl

-- A text that has something left when trimmed is not empty.
some-trim_space : (text : String) → trim_space text ≢ "" → text ≢ ""
some-trim_space text h e = h (ap trim_space e ∙ trim_space_empty)

completed_status :
    (envelope : RawMap)
    → lookup "status" envelope ≡ some (str "completed")
    → response_status envelope ≡ ok "completed"
unfolding response_status response_status_of valid_status raw_string
completed_status envelope e = rw e refl

responses_complete :
    (envelope : RawMap) (text : String)
    → IsResponsesSummary envelope text
    → trim_space text ≢ ""
    → extract_responses_assistant_text envelope ≡ ok text
unfolding extract_responses_assistant_text terminal_text
responses_complete envelope text h some_text =
    let usable_text : usable (output_text h.items) ≡ ok text =
      ap usable (sym h.is_text) ∙ usable-some text (some-trim_space text some_text) in
    ground (
      arith,
      h.are_output,
      completed_status envelope h.status,
      failure-All h.items h.terminal,
      h.complete,
      usable_text,
    )

-- A field that is read as a list with an element is an array.
output_array :
    (output : Json) (items : List ResponseOutputItem)
    → read_output (some output) ≡ ok items
    → items ≢ []
    → is_json_array output ≡ true
unfolding read_output is_json_array
output_array (arr vs) items e h = refl
output_array null items e h = absurd (h (sym (ok-injective e)))
output_array _ items e h = cc

choices_array :
    (choices : Json) (first : Choice) (others : List Choice)
    → read_choices choices ≡ ok (first ∷ others)
    → is_json_array choices ≡ true
unfolding read_choices is_json_array
choices_array (arr vs) first others e = refl
choices_array null first others e = cc
choices_array _ first others e = cc

choice_complete :
    (envelope : RawMap) (text : String)
    → (h : IsChatSummary envelope text) → trim_space text ≢ ""
    → read_first_choice (h.first ∷ h.others) ≡ ok text
unfolding read_first_choice check_finish choice_text
choice_complete envelope text h some_text =
    ground
      (arith, h.stopped, h.no_calls, h.is_text, usable-some text (some-trim_space text some_text))

items_some : (items : List ResponseOutputItem) → trim_space (output_text items) ≢ "" → items ≢ []
unfolding output_text
items_some items h e = h (ap (λ i. trim_space (output_text i)) e ∙ trim_space_empty)

envelope-responses :
    (envelope : RawMap) (text : String)
    → IsResponsesSummary envelope text
    → trim_space text ≢ ""
    → extract_envelope envelope (lookup "output" envelope) (lookup "choices" envelope) ≡ ok text
unfolding extract_envelope
envelope-responses envelope text h some_text = elim (Option-cases (lookup "output" envelope)) [
  | inl missing ↦
      ground (arith, missing, h.no_choices, h.status, responses_complete envelope text h some_text)
  | inr (output, found) ↦
      let array : is_json_array output ≡ true =
        output_array output h.items (ap read_output (sym found) ∙ h.are_output)
          (items_some h.items (λ e. some_text (ap trim_space h.is_text ∙ e))) in
      ground (arith, found, h.no_choices, array, responses_complete envelope text h some_text)
]

envelope-chat :
    (envelope : RawMap) (text : String)
    → IsChatSummary envelope text
    → trim_space text ≢ ""
    → extract_envelope envelope (lookup "output" envelope) (lookup "choices" envelope) ≡ ok text
unfolding extract_envelope extract_chat_assistant_text
envelope-chat envelope text h some_text = ground (
  arith,
  h.no_output,
  h.are_choices,
  choices_array h.choices h.first h.others h.are_read,
  h.are_read,
  choice_complete envelope text h some_text,
)

-- A JSON body that is a completed Responses summary or a stopped Chat Completions summary, with a text of
-- more than white space, is accepted, and the result is the trimmed text.
pub extract_summary_text_complete :
    (value : Json) (envelope : RawMap) (text : String)
    → raw_map value ≡ ok envelope
    → IsResponsesSummary envelope text ⊎ IsChatSummary envelope text
    → trim_space text ≢ ""
    → extract_summary_text (json value) ≡ ok (trim_space text)
unfolding extract_summary_text extract_assistant_text read_body
extract_summary_text_complete value envelope text read (inl h) some_text = ground (
  arith,
  read,
  envelope-responses envelope text h some_text,
  usable-some (trim_space text) some_text,
)
extract_summary_text_complete value envelope text read (inr h) some_text =
    ground (
      arith,
      read,
      envelope-chat envelope text h some_text,
      usable-some (trim_space text) some_text,
    )
