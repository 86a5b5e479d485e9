-- ===== src/Summary/Accepted.antt =====
-- What extractSummaryText accepts: finished responses that hold text and no call.
use cpa_codex_compact_bridge.Common.{
  String, ◌≡◌, refl, ◌≢◌, ◌⊎◌, inl, inr, false, List, [], ◌∷◌, Option, none, some, eq_iff, All,
  arith, ap, ◌∙◌, sym, Option-cases,
}
use cpa_codex_compact_bridge.Errors.{ok, Result-cases}
use cpa_codex_compact_bridge.Go.Strings.{trim_space}
use cpa_codex_compact_bridge.Go.Json.{
  Json, null, str, Body, json, empty, malformed, read_body, raw_string,
}
use cpa_codex_compact_bridge.Go.RawMap.{RawMap, lookup, raw_map}
use cpa_codex_compact_bridge.Responses.{
  has_json_value, ResponseOutputContent, ResponseOutputItem, read_output, response_status,
  response_status_of, valid_status, is_call_content, check_contents, check_output_item,
  response_output_item_failure, output_text, usable, terminal_text,
  extract_responses_assistant_text,
}
use cpa_codex_compact_bridge.Chat.{
  Choice, read_choices, check_finish, choice_text, read_first_choice, extract_chat_assistant_text,
}
use cpa_codex_compact_bridge.Summary.{
  extract_envelope, extract_assistant_text, extract_summary_text,
}
use cpa_codex_compact_bridge.Summary.Shapes.{IsTerminalItem, IsResponsesSummary, IsChatSummary}

check_contents_inv :
    (cs : List ResponseOutputContent)
    → check_contents cs ≡ ok tt
    → All (λ c. is_call_content c ≡ false) cs
unfolding check_contents
check_contents_inv [] h = tt
check_contents_inv (c ∷ cs) h = ground (arith, check_contents_inv cs)

check_output_item_inv :
    (item : ResponseOutputItem) → check_output_item item ≡ ok tt → IsTerminalItem item
unfolding check_output_item
check_output_item_inv item h = ground (
  arith,
  eq_iff item.type "message",
  eq_iff item.type "reasoning",
  check_contents_inv item.content,
)

items_inv :
    (items : List ResponseOutputItem)
    → response_output_item_failure items ≡ ok tt
    → All IsTerminalItem items
unfolding response_output_item_failure
items_inv [] h = tt
items_inv (item ∷ items) h =
    (check_output_item_inv item (ground arith), items_inv items (ground arith))

valid_status_inv :
    (s status : String)
    → valid_status s ≡ ok status
    → (s ≡ status) × ((status ≡ "completed") ⊎ ((status ≡ "incomplete") ⊎ (status ≡ "failed")))
unfolding valid_status
valid_status_inv s status h =
    ground (arith, eq_iff s "completed", eq_iff s "incomplete", eq_iff s "failed")

status_inv :
    (o : Option Json) (status : String)
    → response_status_of o ≡ ok status
    → (o ≡ some (str status))
      × ((status ≡ "completed") ⊎ ((status ≡ "incomplete") ⊎ (status ≡ "failed")))
unfolding response_status_of raw_string
status_inv (some (str s)) status h =
    let (same, is) = valid_status_inv s status h in (ap (λ t. some (str t)) same, is)
status_inv none status h = cc
status_inv (some null) status h = cc
status_inv (some _) status h = cc

usable_inv : (s text : String) → usable s ≡ ok text → (s ≡ text) × (s ≢ "")
unfolding usable
usable_inv s text h = ground (arith, eq_iff s "")

terminal_text_inv :
    (envelope : RawMap) (items : List ResponseOutputItem) (status text : String)
    → terminal_text envelope items status ≡ ok text
    → (status ≢ "failed")
      × (status ≢ "incomplete")
      × (has_json_value (lookup "incomplete_details" envelope) ≡ false)
      × (text ≡ output_text items)
unfolding terminal_text
terminal_text_inv envelope items status text h =
    ground (
      arith,
      eq_iff status "failed",
      eq_iff status "incomplete",
      usable_inv (output_text items) text,
    )

completed :
    (status : String)
    → (status ≡ "completed") ⊎ ((status ≡ "incomplete") ⊎ (status ≡ "failed"))
    → status ≢ "failed"
    → status ≢ "incomplete"
    → status ≡ "completed"
completed status h f i = ground arith

-- The four steps of extractResponsesAssistantText have all succeeded.
responses_steps :
    (envelope : RawMap) (text : String)
    → extract_responses_assistant_text envelope ≡ ok text
    → (items : List ResponseOutputItem) × (status : String) × (read_output
          (lookup "output" envelope)
        ≡ ok items)
      × (response_status envelope ≡ ok status)
      × (response_output_item_failure items ≡ ok tt)
      × (terminal_text envelope items status ≡ ok text)
unfolding extract_responses_assistant_text
responses_steps envelope text h = elim (Result-cases (read_output (lookup "output" envelope))) [
  | inr (e, r) ↦ ground (arith, r)
  | inl (items, r) ↦ elim (Result-cases (response_status envelope)) [
    | inr (e, s) ↦ ground (arith, r, s)
    | inl (status, s) ↦ (items, status, r, s, ground (arith, r, s), ground (arith, r, s))
  ]
]

responses_inv :
    (envelope : RawMap) (text : String)
    → lookup "choices" envelope ≡ none
    → extract_responses_assistant_text envelope ≡ ok text
    → IsResponsesSummary envelope text
unfolding response_status
responses_inv envelope text c h =
    let (items, status, r, s, f, t) = responses_steps envelope text h in
    let (found, value) = status_inv (lookup "status" envelope) status s in
    let (not_failed, not_incomplete, complete, is_text) =
      terminal_text_inv envelope items status text t in
    record {
      status = found ∙ ap (λ x. some (str x)) (completed status value not_failed not_incomplete);
      no_choices = c;
      complete = complete;
      items = items;
      are_output = r;
      terminal = items_inv items f;
      is_text = is_text;
    }

check_finish_inv : (reason : String) → check_finish reason ≡ ok tt → reason ≡ "stop"
unfolding check_finish
check_finish_inv reason h = ground (arith, eq_iff reason "stop")

choice_text_inv : (o : Option Json) (text : String) → choice_text o ≡ ok text → o ≡ some (str text)
unfolding choice_text
choice_text_inv (some (str s)) text h = ap (λ t. some (str t)) (usable_inv s text h).0
choice_text_inv none text h = cc
choice_text_inv (some _) text h = cc

first_choice_inv :
    (cs : List Choice) (text : String)
    → read_first_choice cs ≡ ok text
    → (first : Choice) × (others : List Choice) × (cs ≡ first ∷ others)
      × (first.finish_reason ≡ some "stop")
      × (has_json_value first.tool_calls ≡ false)
      × (first.content ≡ some (str text))
unfolding read_first_choice
first_choice_inv [] text h = cc
first_choice_inv (c ∷ cs) text h = elim (Option-cases c.finish_reason) [
  | inl missing ↦ ground (arith, missing)
  | inr (reason, found) ↦ (
    c,
    cs,
    refl,
    found ∙ ap (λ x. some x) (check_finish_inv reason (ground (arith, found))),
    ground (arith, found),
    choice_text_inv c.content text (ground (arith, found)),
  )
]

chat_inv :
    (envelope : RawMap) (choices : Json) (text : String)
    → lookup "output" envelope ≡ none
    → lookup "choices" envelope ≡ some choices
    → extract_chat_assistant_text choices ≡ ok text
    → IsChatSummary envelope text
unfolding extract_chat_assistant_text
chat_inv envelope choices text o c h = elim (Result-cases (read_choices choices)) [
  | inr (e, r) ↦ ground (arith, r)
  | inl (read, r) ↦
      let (first, others, same, stopped, no_calls, is_text) =
        first_choice_inv read text (ground (arith, r)) in
      record {
        no_output = o;
        choices = choices;
        are_choices = c;
        first = first;
        others = others;
        are_read = r ∙ ap (λ x. ok x) same;
        stopped = stopped;
        no_calls = no_calls;
        is_text = is_text;
      }
]

envelope_inv :
    (envelope : RawMap) (o c : Option Json) (text : String)
    → lookup "output" envelope ≡ o
    → lookup "choices" envelope ≡ c
    → extract_envelope envelope o c ≡ ok text
    → IsResponsesSummary envelope text ⊎ IsChatSummary envelope text
unfolding extract_envelope
envelope_inv envelope (some output) (some choices) text o c h = cc
envelope_inv envelope (some output) none text o c h =
    inl (responses_inv envelope text c (ground arith))
envelope_inv envelope none (some choices) text o c h =
    inr (chat_inv envelope choices text o c (ground arith))
envelope_inv envelope none none text o c h = inl (responses_inv envelope text c (ground arith))

-- A summary is taken only from a finished response: a JSON object that is a completed Responses
-- summary or a stopped Chat Completions summary, whose text, trimmed, is the result and is not
-- empty.
pub extract_summary_text_sound :
    (body : Body) (summary : String)
    → extract_summary_text body ≡ ok summary
    → (value : Json) × (envelope : RawMap) × (text : String) × (body ≡ json value)
      × (raw_map value ≡ ok envelope)
      × (IsResponsesSummary envelope text ⊎ IsChatSummary envelope text)
      × (summary ≡ trim_space text)
      × (summary ≢ "")
unfolding extract_summary_text extract_assistant_text read_body
extract_summary_text_sound empty summary h = cc
extract_summary_text_sound (malformed cause) summary h = cc
extract_summary_text_sound (json value) summary h = elim (Result-cases (raw_map value)) [
  | inr (e, m) ↦ ground (arith, m)
  | inl (envelope, m) ↦
      elim (Result-cases
        (extract_envelope envelope (lookup "output" envelope) (lookup "choices" envelope))) [
          | inr (e, x) ↦ ground (arith, m, x)
          | inl (text, x) ↦
              let (same, some') = usable_inv (trim_space text) summary (ground (arith, m, x)) in
              (
                value,
                envelope,
                text,
                refl,
                m,
                envelope_inv envelope _ _ text refl refl x,
                sym same,
                λ e. some' (same ∙ e),
              )
        ]
]
