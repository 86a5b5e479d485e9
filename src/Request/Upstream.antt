-- ===== src/Request/Upstream.antt =====
-- What the summary model is sent: buildSummaryRequestBody by the fields of its request.
use mathlib.Core.Option
use cpa_codex_compact_bridge.Common.{
  String, ◌≡◌, refl, Bool, false, ◌||◌, List, [], ◌++◌, Option, none, some, ◌==◌, arith, ap, ◌∙◌,
  inl, inr,
}
use cpa_codex_compact_bridge.Errors.{ok, Result-cases}
use cpa_codex_compact_bridge.Go.Json.{Json, bool, str, arr, nil, Body, json, compact}
use cpa_codex_compact_bridge.Go.RawMap.{
  RawMap, lookup, insert, raw_map, marshal_map, compact_values, lookup-insert,
}
use cpa_codex_compact_bridge.Go.RawMap.Sorted.{
  IsSorted, insert-IsSorted, raw_map-marshal_map, lookup-compact_values,
}
use cpa_codex_compact_bridge.Config.{Config}
use cpa_codex_compact_bridge.Request.{
  insert_found, summary_fields, parse_original, or_encode_error, strip_summary_input_images,
  build_summary_request_body, encode_input, compact_instruction, summary_model_allows_images,
}

-- A key that a summary request may have.
unfoldable pub is_allowed : String → Bool
is_allowed k =
    "model" == k
    || "input" == k
    || "tools" == k
    || "parallel_tool_calls" == k
    || "stream" == k
    || "max_output_tokens" == k
    || "instructions" == k
    || "reasoning" == k
    || "service_tier" == k

other_key :
    (j k : String) (v : Json) (m : RawMap) → (k == j) ≡ false → lookup j (insert k v m) ≡ lookup j m
other_key j k v m h = lookup-insert k j v m ∙ rw h refl

found_other :
    (j k : String) (o : Option Json) (m : RawMap)
    → (k == j) ≡ false
    → lookup j (insert_found k o m) ≡ lookup j m
unfolding insert_found
found_other j k none m h = refl
found_other j k (some v) m h = other_key j k v m h

insert_found-IsSorted :
    (k : String) (o : Option Json) (m : RawMap) → IsSorted m → IsSorted (insert_found k o m)
unfolding insert_found
insert_found-IsSorted k none m s = s
insert_found-IsSorted k (some v) m s = insert-IsSorted k v m s

module _ (parsed : RawMap) (model : String) (input : Json) (cfg : Config) where
  abbrev base : RawMap
  base = insert "stream" (bool false) (
      insert "parallel_tool_calls" (bool false)
        (insert "tools" (arr nil) (insert "input" input (insert "model" (str model) []))))

  summary_fields-IsSorted : IsSorted (summary_fields parsed model input cfg)
  unfolding summary_fields
  summary_fields-IsSorted = insert_found-IsSorted _ _ _ (
      insert_found-IsSorted _ _ _ (
        insert_found-IsSorted _ _ _ (
          insert_found-IsSorted _ _ _ (
            insert-IsSorted _ _ _ (
              insert-IsSorted _ _ _
                (insert-IsSorted _ _ _ (insert-IsSorted _ _ _ (insert-IsSorted _ _ _ tt))))))))

  -- Of a key other than the four optional ones.
  fixed_field :
      (j : String)
      → ("service_tier" == j) ≡ false
      → ("reasoning" == j) ≡ false
      → ("instructions" == j) ≡ false
      → ("max_output_tokens" == j) ≡ false
      → lookup j (summary_fields parsed model input cfg) ≡ lookup j base
  unfolding summary_fields
  fixed_field j s r i t =
      found_other j "service_tier" _ _ s
      ∙ found_other j "reasoning" _ _ r
      ∙ found_other j "instructions" _ _ i
      ∙ found_other j "max_output_tokens" _ _ t

  fixed_values :
      (lookup "model" (summary_fields parsed model input cfg) ≡ some (str model))
      × (lookup "stream" (summary_fields parsed model input cfg) ≡ some (bool false))
      × (lookup "parallel_tool_calls" (summary_fields parsed model input cfg) ≡ some (bool false))
      × (lookup "tools" (summary_fields parsed model input cfg) ≡ some (arr nil))
  unfolding lookup insert
  fixed_values = (
    fixed_field "model" refl refl refl refl,
    fixed_field "stream" refl refl refl refl,
    fixed_field "parallel_tool_calls" refl refl refl refl,
    fixed_field "tools" refl refl refl refl,
  )

  no_other_field :
      (j : String) → is_allowed j ≡ false → lookup j (summary_fields parsed model input cfg) ≡ none
  unfolding is_allowed lookup
  no_other_field j h =
      fixed_field j (ground (arith, h)) (ground (arith, h)) (ground (arith, h)) (ground (arith, h))
      ∙ other_key j "stream" _ _ (ground (arith, h))
      ∙ other_key j "parallel_tool_calls" _ _ (ground (arith, h))
      ∙ other_key j "tools" _ _ (ground (arith, h))
      ∙ other_key j "input" _ _ (ground (arith, h))
      ∙ other_key j "model" _ _ (ground (arith, h))

build_summary_request_body_inv :
    (original : Body) (model : String) (items : List Json) (cfg : Config) (body : Body)
    → build_summary_request_body original model items cfg ≡ ok body
    → (parsed : RawMap) × (input : Json) × (body
        ≡ json (marshal_map (summary_fields parsed model input cfg)))
unfolding build_summary_request_body
build_summary_request_body_inv original model items cfg body h =
    elim (Result-cases (or_encode_error (parse_original original))) [
      | inr (e, p) ↦ absurd (ground (arith, h, p))
      | inl (parsed, p) ↦
          elim (Result-cases
            (or_encode_error (strip_summary_input_images items model cfg.summary_image_models))) [
              | inr (e, q) ↦ absurd (ground (arith, h, p, q))
              | inl (filtered, q) ↦ (
                parsed,
                encode_input (summary_model_allows_images model cfg.summary_image_models)
                    (filtered ++ compact_instruction cfg),
                ground (arith, h, p, q),
              )
            ]
    ]

-- The fields of a request for a summary: the summary model, no stream, no tools, and no field that is
-- not on the list.
pub record IsUpstream (model : String) (fields : RawMap) : Type 0 where
  pub is_model : lookup "model" fields ≡ some (str model)
  pub is_plain : lookup "stream" fields ≡ some (bool false)
  pub is_serial : lookup "parallel_tool_calls" fields ≡ some (bool false)
  pub no_tools : lookup "tools" fields ≡ some (arr nil)
  pub no_other : (j : String) → is_allowed j ≡ false → lookup j fields ≡ none

written_field :
    (j : String) (m : RawMap) (o : Option Json)
    → lookup j m ≡ o
    → lookup j (compact_values m) ≡ Option.map compact o
written_field j m o h = lookup-compact_values j m ∙ ap (Option.map compact) h

summary_fields-IsUpstream :
    (parsed : RawMap) (model : String) (input : Json) (cfg : Config)
    → IsUpstream model (compact_values (summary_fields parsed model input cfg))
unfolding compact
summary_fields-IsUpstream parsed model input cfg =
    let (m, s, p, t) = fixed_values parsed model input cfg in
    record {
      is_model = written_field "model" _ _ m;
      is_plain = written_field "stream" _ _ s;
      is_serial = written_field "parallel_tool_calls" _ _ p;
      no_tools = written_field "tools" _ _ t;
      no_other = λ j h. written_field j _ _ (no_other_field parsed model input cfg j h);
    }

-- A request for a summary that buildSummaryRequestBody returns reads back as an object that names the
-- summary model, is not streamed, has no tools, and has no field but the nine that may be sent.
pub build_summary_request_body-IsUpstream :
    (original : Body) (model : String) (items : List Json) (cfg : Config) (body : Body)
    → build_summary_request_body original model items cfg ≡ ok body
    → (value : Json) × (fields : RawMap) × (body ≡ json value)
      × (raw_map value ≡ ok fields)
      × IsUpstream model fields
build_summary_request_body-IsUpstream original model items cfg body h =
    let (parsed, input, is) = build_summary_request_body_inv original model items cfg body h in
    (
      marshal_map (summary_fields parsed model input cfg),
      compact_values (summary_fields parsed model input cfg),
      is,
      raw_map-marshal_map _ (summary_fields-IsSorted parsed model input cfg),
      summary_fields-IsUpstream parsed model input cfg,
    )
