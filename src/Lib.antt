-- ===== src/Lib.antt =====
-- The compaction bridge plugin (plugin/*.go): a plugin of a model gateway that answers the compact
-- turns of the Responses protocol on models that have no compaction of their own. It asks a summary
-- model for a handover text, stores it in a compaction item whose ID starts with `cpa_compact_`, and
-- restores that text on later turns.
--
-- The parts, and the code each file is about:
-- Go/: what the program uses of the Go library. Json: JSON values, encoding/json on raw messages.
--   RawMap: map[string]json.RawMessage as a list sorted by key, as it is written. Struct: decoding
--   into a struct, its case folding included. Strings: strings.TrimSpace (Strings/Trim), HasPrefix,
--   HasSuffix. Format: fmt's %d and %q. Glob: filepath.Match on the bytes of a pattern and a name;
--   Glob/Shorter, Glob/Fuel and Glob/Literal are about its fuel and its literal patterns.
-- Errors: plugin/main.go `pluginErr`, plugin/host.go `hostCallbackErr` and `hostModelError`, as one
--   type of errors and a result type.
-- Items: plugin/responses.go; parse_input_items is parseInputItems, detect_v2_trigger is
--   detectV2Trigger, and so on: every name is the name in the code in lower case.
-- State: plugin/replay.go, the compaction state policy. State/Policy has the session state matrix of
--   docs/compact-protocol.md, State/Restore, State/Normalize and State/Forward what the policy does
--   to items and to whole bodies, State/InputField the keys that the two decodings of a body take
--   for its input, State/SummaryInput the input of a summary.
-- Config: plugin/config.go, loadConfig and the routing. Config/Validation, Config/Route,
--   Config/Patterns.
-- Payload: plugin/payload.go, the compact responses. Payload/RoundTrip and Payload/Continue follow a
--   stored item into the next turn, Payload/Frames has the answers written out.
-- Responses, Chat, Summary: plugin/payload.go, extractResponsesAssistantText,
--   extractChatAssistantText, and extractSummaryText over both. Summary/Shapes has the two shapes of
--   a finished summary. Summary/Accepted, Summary/Complete, Summary/Failures.
-- Request: plugin/main.go, buildSummaryRequestBody, stripSummaryInputImages, validateSummarySize.
--   Request/Upstream, Request/Parts, Request/Images.
-- Host: plugin/host.go, callHost and callHostModelExecute, from the return of the C call.
-- Itoa: plugin/host.go, itoa. Itoa/Decimal compares it with %d, which Host prints codes with.
-- Abi: the C interface. Abi/Memory has the live blocks and cgo's functions on them, Abi/Callback
--   callHost of plugin/host.go with its C helpers, and Abi/Exports the exported functions of
--   plugin/main.go and writeResponse. Abi/Callback/Contract is the interface that a host keeps to.
--   Abi/Callback/Balance, Abi/Callback/Failures, Abi/Exports/Release, Abi/Exports/Start.
-- Executor: plugin/main.go, handleExecute and the turns below it. A handler takes the log of host
--   calls made so far and returns it with its own at the end (Executor/Execution). Executor/Effects,
--   Executor/Unprepared, Executor/Rejection, Executor/Success, Executor/Failure, Executor/Outcome,
--   Executor/Continuation.
-- Interceptor: plugin/interceptor.go, normalizeInterceptedReplay. Interceptor/Policy.
-- Plugin: plugin/main.go, handleMethod and the handlers of the RPC methods, over the configuration
--   holder of plugin/host_store.go. Plugin/Lifecycle, Plugin/Reload, Plugin/Routing.
-- Tests: the theorems at concrete values.
--
-- How they interact: Plugin decodes a request and hands it to Config for the route, to State for the
-- interceptor, or to Executor; Executor asks State for the input of a summary, Request for the body,
-- Host for the call, which Abi makes over C memory, Summary for the text and Payload for the answer.
--
-- A body is a JSON value, an empty text, or a malformed one with the error's text; white space
-- inside empty arrays and the compaction of raw messages by json.Marshal are kept apart, since the
-- code can tell them. Numbers are kept as their text. A machine integer is an unbounded integer with
-- sign; the program only compares and prints them, and itoa has the wrap of its negation written
-- out, as the C lengths have theirs. filepath.Match runs on fuel of one more than the pattern's
-- bytes, and out of fuel is a result of its own, as in Itoa, whose 21 rounds are more than a 64-bit
-- int has digits. %d of Go/Format has fuel of one more than the number. All other loops are
-- structural.
--
-- Parameters: yaml.v3 (Yaml), the host's answers and the texts of new UUIDs, which may depend on the
-- calls made before (Env), and the decoding of the SDK's request types with its schema version
-- (Sdk). At the C interface: the host's functions, which may do anything to the memory unless a
-- theorem says what they keep to, the allocations that fail (cgo documents that C.CBytes always
-- makes its copy), and encoding/json between bytes and values (Runtime, Codec).
--
-- Not modelled: C.GoString of the method's name; the allocations of the Go heap; the bytes of a JSON
-- text beyond what is said above; plugin calls that overlap, which are a sequence here; the text of
-- an error of encoding/json that the code drops; the plugin's registration fields that are constants
-- of the SDK.
pub mod Common
pub mod Go
pub mod Errors
pub mod Abi
pub mod Itoa
pub mod Items
pub mod State
pub mod Config
pub mod Payload
pub mod Responses
pub mod Chat
pub mod Summary
pub mod Request
pub mod Host
pub mod Executor
pub mod Interceptor
pub mod Plugin
pub mod Tests
