-- ===== src/Summary/Shapes.antt =====
-- The two shapes of a finished summary.
use cpa_codex_compact_bridge.Common.{String, ◌≡◌, ◌⊎◌, false, List, ◌∷◌, none, some, All}
use cpa_codex_compact_bridge.Errors.{ok}
use cpa_codex_compact_bridge.Go.Json.{Json, str}
use cpa_codex_compact_bridge.Go.RawMap.{RawMap, lookup}
use cpa_codex_compact_bridge.Responses.{
  has_json_value, ResponseOutputItem, read_output, is_call_content, output_text,
}
use cpa_codex_compact_bridge.Chat.{Choice, read_choices}

-- An output item that may stand in a finished summary.
abbrev pub IsTerminalItem : ResponseOutputItem → Type 0
IsTerminalItem item =
    ((item.type ≡ "message") ⊎ (item.type ≡ "reasoning"))
    × All (λ c. is_call_content c ≡ false) item.content

-- A Responses summary: completed, without an incomplete marker, of messages and reasoning only.
pub record IsResponsesSummary (envelope : RawMap) (text : String) : Type 0 where
  pub status : lookup "status" envelope ≡ some (str "completed")
  pub no_choices : lookup "choices" envelope ≡ none
  pub complete : has_json_value (lookup "incomplete_details" envelope) ≡ false
  pub items : List ResponseOutputItem
  pub are_output : read_output (lookup "output" envelope) ≡ ok items
  pub terminal : All IsTerminalItem items
  pub is_text : text ≡ output_text items

-- A Chat Completions summary: its first choice stopped, without tool calls, with a text.
pub record IsChatSummary (envelope : RawMap) (text : String) : Type 0 where
  pub no_output : lookup "output" envelope ≡ none
  pub choices : Json
  pub are_choices : lookup "choices" envelope ≡ some choices
  pub first : Choice
  pub others : List Choice
  pub are_read : read_choices choices ≡ ok (first ∷ others)
  pub stopped : first.finish_reason ≡ some "stop"
  pub no_calls : has_json_value first.tool_calls ≡ false
  pub is_text : first.content ≡ some (str text)
