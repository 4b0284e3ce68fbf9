-- ===== src/Web/Analytics.antt =====
-- web/src/lib/analytics.ts: what the page reports of its use, and to whom.
--
-- The state is the trace of the calls of the sink, newest first; a call of the sink may throw. A
-- property that is an object of any kind is `opaque`.
pub mod Events
pub mod Privacy
use micro_ai_paygate.Prelude.{
  ℕ, String, Text, Bool, true, false, not, ◌&&◌, ◌||◌, Option, none, some, List, [], ◌∷◌, length,
  trim, is_space, if◌then◌else◌, str_eq, suc,
}
use micro_ai_paygate.Js.Json.{Number}
use micro_ai_paygate.Js.Exec.{Result, ok, throw}
use micro_ai_paygate.Sdk.Types.{Fault}

-- `SanitizedAnalyticsScalar`
pub data Scalar : Type 0 where
  text : Text → Scalar
  number : Number → Scalar
  boolean : Bool → Scalar
  null : Scalar

-- The value of an `AnalyticsProperties` record.
pub data Value : Type 0 where
  scalar : Scalar → Value
  undefined : Value
  opaque : Value

-- The entries of a record: each key once, in the order of `Object.entries`.
abbrev pub Properties : Type 0
Properties = List (String × Value)

abbrev pub SanitizedProperties : Type 0
SanitizedProperties = List (String × Scalar)

-- `BLOCKED_PROPERTY_KEYS`
unfoldable pub blocked_property_keys : List String
blocked_property_keys =
    "text" ∷ "prompt" ∷ "prompt_preview" ∷ "summary" ∷ "summary_text" ∷ "signature" ∷ "nonce"
    ∷ "receipt" ∷ "receipt_payload" ∷ "payment_context" ∷ "request_body" ∷ "response_body" ∷ []

-- `set.has(key)`
abbrev pub has_key : List String → String → Bool
has_key [] key = false
has_key (k ∷ ks) key = str_eq k key || has_key ks key

-- `BLOCKED_PROPERTY_KEYS.has(key)`
unfoldable pub is_blocked : String → Bool
unfolding blocked_property_keys
is_blocked key = has_key blocked_property_keys key

-- `sanitizeAnalyticsProperties(properties)`
unfoldable pub sanitize_analytics_properties : Properties → SanitizedProperties
unfolding is_blocked
sanitize_analytics_properties [] = []
sanitize_analytics_properties ((key, scalar value) ∷ ps) =
    let rest = sanitize_analytics_properties ps in
    if is_blocked key then rest else (key, value) ∷ rest
sanitize_analytics_properties ((key, undefined) ∷ ps) = sanitize_analytics_properties ps
sanitize_analytics_properties ((key, opaque) ∷ ps) = sanitize_analytics_properties ps

pub record FlowContext : Type 0 where
  pub flow_run_id : Text
  pub correlation_id : Text
  pub input_word_count : ℕ
  pub input_char_count : ℕ

-- `text.split(/\s+/).length`: one more than the runs of white space. The flag tells that the unit
-- before was white space.
unfoldable pub split_length : Bool → Text → ℕ
unfolding is_space
split_length in_space [] = 1
split_length in_space (c ∷ s) =
    let here = split_length true s in
    let there = split_length false s in
    if is_space c then (if in_space then here else suc here) else there

-- `createFlowContext(text, createId)`, with the ids that the two calls of `createId` gave
unfoldable pub create_flow_context : Text → Text → Text → FlowContext
unfolding trim split_length
create_flow_context input flow_run_id correlation_id = record {
  flow_run_id = flow_run_id;
  correlation_id = correlation_id;
  input_word_count = elim (trim input) [ [] ↦ 0 | c ∷ s ↦ split_length false (c ∷ s) ];
  input_char_count = length input;
}

-- A call of the sink.
pub data SinkCall : Type 0 where
  captured : String → SanitizedProperties → SinkCall
  identified : Text → SanitizedProperties → SinkCall
  forgotten : SinkCall

-- A sink: whether it has a `reset`, and how a call of it ends.
pub record AnalyticsSink : Type 0 where
  pub has_reset : Bool
  pub call : SinkCall → Result Fault Unit

-- What the page asks of an `AnalyticsClient`. A parameter that is left out is the empty record.
pub data Request : Type 0 where
  capture : String → Properties → Request
  identify_wallet : Text → Properties → Request
  reset : Request

abbrev pub is_enabled : Option AnalyticsSink → Bool → Bool
is_enabled none enabled = false
is_enabled (some sink) enabled = enabled

-- `invokeSafely(() => sink.…)`
unfoldable pub invoke_safely :
    AnalyticsSink → SinkCall → List SinkCall → Result Fault Unit × List SinkCall
invoke_safely sink call calls = elim (sink.call call) [
  | ok u ↦ (ok tt, call ∷ calls)
  | throw fault ↦ (ok tt, call ∷ calls)
]

-- A method of `createAnalytics(sink, { enabled })`
unfoldable pub create_analytics :
    Option AnalyticsSink → Bool → Request → List SinkCall → Result Fault Unit × List SinkCall
unfolding invoke_safely sanitize_analytics_properties
create_analytics none enabled request calls = (ok tt, calls)
create_analytics (some sink) enabled (capture event properties) calls =
    if not (is_enabled (some sink) enabled)
    then (ok tt, calls)
    else invoke_safely sink (captured event (sanitize_analytics_properties properties)) calls
create_analytics (some sink) enabled (identify_wallet address properties) calls =
    if not (is_enabled (some sink) enabled)
    then (ok tt, calls)
    else invoke_safely sink (identified address (sanitize_analytics_properties properties)) calls
create_analytics (some sink) enabled reset calls =
    if not (is_enabled (some sink) enabled)
    then (ok tt, calls)
    else if sink.has_reset
    then invoke_safely sink forgotten calls
    else (ok tt, calls)
