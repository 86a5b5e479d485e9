-- ===== src/Summary/Failures.antt =====
-- How extractSummaryText fails.
use cpa_codex_compact_bridge.Common.{
  String, ◌≡◌, refl, Bool, true, false, ◌&&◌, List, [], ◌∷◌, Option, none, some, ◌==◌, arith, eqb,
  if◌then◌else◌, inl, inr, Option-cases,
}
use cpa_codex_compact_bridge.Errors.{
  Err, plugin_err, Result, ok, err, ◌>>=◌, summary_failure, Result-cases,
}
use cpa_codex_compact_bridge.Go.Strings.{trim_space}
use cpa_codex_compact_bridge.Go.Json.{
  Json, null, str, arr, obj, Body, json, read_body, raw_string, type_error,
}
use cpa_codex_compact_bridge.Go.RawMap.{RawMap, lookup, raw_map}
use cpa_codex_compact_bridge.Responses.{
  has_json_value, ResponseOutputContent, ResponseOutputItem, read_output, response_status,
  response_status_of, valid_status, check_contents, check_output_item, response_output_item_failure,
  output_text, usable, incomplete_reason, incomplete_details, incomplete_response_failure,
  terminal_text, extract_responses_assistant_text,
}
use cpa_codex_compact_bridge.Chat.{
  Choice, read_choices, check_finish, choice_text, read_first_choice, extract_chat_assistant_text,
}
use cpa_codex_compact_bridge.Summary.{
  extract_envelope, extract_assistant_text, summary_error, extract_summary_text,
}

-- A `pluginErr` with the retryable code and no status of its own.
abbrev pub is_retryable : Err → Bool
is_retryable (plugin_err e) = e.code == "compact_bridge_failed" && eqb e.http_status 0
is_retryable _ = false

-- The same, or an error of the libraries.
abbrev is_known : Err → Bool
is_known (plugin_err e) = e.code == "compact_bridge_failed" && eqb e.http_status 0
is_known _ = true

-- The error of a result, if it is one, is a known one.
abbrev fails_known {ℓ} : {A : Type ℓ} → Result A → Bool
fails_known (ok a) = true
fails_known (err e) = is_known e

abbrev Fails : {A : Type 0} → Result A → Type 0
Fails r = fails_known r ≡ true

bind-Fails :
    {A B : Type 0} (m : Result A) (f : A → Result B)
    → Fails m
    → ((a : A) → Fails (f a))
    → Fails (m >>= f)
bind-Fails (ok a) f h k = k a
bind-Fails (err x) f h k = h

usable-Fails : (s : String) → Fails (usable s)
unfolding usable summary_failure
usable-Fails s = ground arith

check_contents-Fails : (cs : List ResponseOutputContent) → Fails (check_contents cs)
unfolding check_contents summary_failure
check_contents-Fails [] = refl
check_contents-Fails (c ∷ cs) = ground (arith, check_contents-Fails cs)

check_output_item-Fails : (item : ResponseOutputItem) → Fails (check_output_item item)
unfolding check_output_item summary_failure
check_output_item-Fails item = ground (arith, check_contents-Fails item.content)

items_fail : (items : List ResponseOutputItem) → Fails (response_output_item_failure items)
unfolding response_output_item_failure
items_fail [] = refl
items_fail (item ∷ items) =
    bind-Fails (check_output_item item) _ (check_output_item-Fails item) (λ _. items_fail items)

valid_status-Fails : (s : String) → Fails (valid_status s)
unfolding valid_status summary_failure
valid_status-Fails s = ground arith

status-Fails : (o : Option Json) → Fails (response_status_of o)
unfolding response_status_of raw_string summary_failure
status-Fails none = refl
status-Fails (some null) = refl
status-Fails (some (str s)) = valid_status-Fails s
status-Fails (some _) = refl

incomplete_known : (o : Option Json) → is_known (incomplete_details o) ≡ true
unfolding incomplete_details incomplete_reason summary_failure
incomplete_known (some (obj fs)) = ground arith
incomplete_known none = refl
incomplete_known (some _) = refl

terminal_text-Fails :
    (envelope : RawMap) (items : List ResponseOutputItem) (status : String)
    → Fails (terminal_text envelope items status)
unfolding terminal_text incomplete_response_failure summary_failure
terminal_text-Fails envelope items status = ground (
  arith,
  incomplete_known (lookup "incomplete_details" envelope),
  usable-Fails (output_text items),
)

read_output-Fails : (o : Option Json) → Fails (read_output o)
unfolding read_output
read_output-Fails none = refl
read_output-Fails (some (arr vs)) = ground arith
read_output-Fails (some null) = refl
read_output-Fails (some _) = refl

responses_fail : (envelope : RawMap) → Fails (extract_responses_assistant_text envelope)
unfolding extract_responses_assistant_text response_status
responses_fail envelope =
    bind-Fails (read_output (lookup "output" envelope)) _
      (read_output-Fails (lookup "output" envelope))
      λ items.
        bind-Fails (response_status_of (lookup "status" envelope)) _
          (status-Fails (lookup "status" envelope))
          λ status.
            bind-Fails (response_output_item_failure items) _ (items_fail items)
              λ _. terminal_text-Fails envelope items status

check_finish-Fails : (reason : String) → Fails (check_finish reason)
unfolding check_finish summary_failure
check_finish-Fails reason = ground arith

choice_text-Fails : (o : Option Json) → Fails (choice_text o)
unfolding choice_text summary_failure
choice_text-Fails (some (str s)) = usable-Fails s
choice_text-Fails none = refl
choice_text-Fails (some _) = refl

call_check-Fails :
    (c : Choice)
    → Fails (
        if has_json_value c.tool_calls
        then err (summary_failure "summary upstream returned tool call")
        else choice_text c.content)
unfolding summary_failure
call_check-Fails c = ground (arith, choice_text-Fails c.content)

first_choice-Fails : (cs : List Choice) → Fails (read_first_choice cs)
unfolding read_first_choice summary_failure
first_choice-Fails [] = refl
first_choice-Fails (c ∷ cs) = elim (Option-cases c.finish_reason) [
  | inl missing ↦ rw missing
  | inr (reason, found) ↦
      rw found
        (bind-Fails (check_finish reason) _ (check_finish-Fails reason) (λ _. call_check-Fails c))
]

read_choices-Fails : (v : Json) → Fails (read_choices v)
unfolding read_choices
read_choices-Fails (arr vs) = ground arith
read_choices-Fails null = refl
read_choices-Fails _ = refl

chat-Fails : (v : Json) → Fails (extract_chat_assistant_text v)
unfolding extract_chat_assistant_text
chat-Fails v = bind-Fails (read_choices v) _ (read_choices-Fails v) first_choice-Fails

envelope-Fails : (envelope : RawMap) (o c : Option Json) → Fails (extract_envelope envelope o c)
unfolding extract_envelope summary_failure
envelope-Fails envelope (some o) (some c) = refl
envelope-Fails envelope (some o) none = ground (arith, responses_fail envelope)
envelope-Fails envelope none (some c) = ground (arith, chat-Fails c)
envelope-Fails envelope none none = elim (Option-cases (lookup "status" envelope)) [
  | inl missing ↦ ground (arith, missing)
  | inr (status, found) ↦ ground (arith, found, responses_fail envelope)
]

raw_map-Fails : (v : Json) → Fails (raw_map v)
unfolding raw_map type_error
raw_map-Fails (obj fs) = refl
raw_map-Fails _ = refl

read_body-Fails : (body : Body) → Fails (read_body body)
unfolding read_body
read_body-Fails (json v) = refl
read_body-Fails _ = refl

text-Fails : (body : Body) → Fails (extract_assistant_text body)
unfolding extract_assistant_text
text-Fails body =
    bind-Fails (read_body body) _ (read_body-Fails body)
      λ v. bind-Fails (raw_map v) _ (raw_map-Fails v) λ envelope. envelope-Fails envelope _ _

summary_error_retryable : (e : Err) → is_known e ≡ true → is_retryable (summary_error e) ≡ true
unfolding summary_error summary_failure
summary_error_retryable (plugin_err p) h = h
summary_error_retryable _ h = refl

abbrev fails_retryable : Result String → Bool
fails_retryable (ok a) = true
fails_retryable (err e) = is_retryable e

usable_retryable : (s : String) → fails_retryable (usable s) ≡ true
unfolding usable summary_failure
usable_retryable s = ground arith

extract-Fails : (body : Body) → fails_retryable (extract_summary_text body) ≡ true
unfolding extract_summary_text
extract-Fails body = elim (Result-cases (extract_assistant_text body)) [
  | inl (text, t) ↦ ground (arith, t, usable_retryable (trim_space text))
  | inr (cause, t) ↦ ground (arith, t, summary_error_retryable cause (rw t at (text-Fails body)))
]

-- Whatever the summary model answers, a failure to take a summary from it carries the retryable
-- code, and no other.
pub extract_summary_text_retryable :
    (body : Body) (e : Err) → extract_summary_text body ≡ err e → is_retryable e ≡ true
extract_summary_text_retryable body e h = rw h at (extract-Fails body)
