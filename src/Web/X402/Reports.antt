-- ===== src/Web/X402/Reports.antt =====
-- web/src/hooks/use-x402.ts: what a run reports and writes into the state of the hook.
use micro_ai_paygate.Prelude.{
  ℕ, suc, Text, codes, Bool, true, false, Option, none, some, [], ◌∷◌, length, ◌==◌,
}
use micro_ai_paygate.Js.Json.{
  Json, Items, nil, cons, null, bool, num, str, arr, obj, prop, Number, int, pos,
}
use micro_ai_paygate.Js.Exec.{ok, throw}
use micro_ai_paygate.Sdk.Types.{Response}
use micro_ai_paygate.Web.Errors.{
  ErrorKind, no_wallet, wrong_chain, user_rejected, expired, duplicate_nonce, invalid_signature,
  rate_limited, ai_timeout, ai_unavailable, verifier_timeout, verifier_unavailable, network,
  unknown, ClassifiedError,
}
use micro_ai_paygate.Web.Analytics as Analytics
use micro_ai_paygate.Web.Analytics.{
  Properties, FlowContext, scalar, undefined, opaque, capture, identify_wallet,
}
use micro_ai_paygate.Web.Analytics.Events.{
  AnalyticsEvent, event_name, wallet_connect_failed, chain_switch_failed, payment_signature_failed,
  summary_failed,
}
use micro_ai_paygate.Web.X402Client.{SummarizeSuccess}
use micro_ai_paygate.Web.X402.{
  X402Step, X402State, Stage, save, Flow, finish, act, lift, from_fault, tell,
}

-- The text of `stage` in a report.
unfoldable pub stage_name : Stage → Text
stage_name Stage.request = codes "request"
stage_name Stage.wallet_connect = codes "wallet-connect"
stage_name Stage.chain_lookup = codes "chain-lookup"
stage_name Stage.chain_switch = codes "chain-switch"
stage_name Stage.signer = codes "signer"
stage_name Stage.sign = codes "sign"
stage_name Stage.verify = codes "verify"
stage_name Stage.done = codes "done"

-- The text of an `ErrorKind`.
unfoldable pub kind_name : ErrorKind → Text
kind_name no_wallet = codes "no-wallet"
kind_name wrong_chain = codes "wrong-chain"
kind_name user_rejected = codes "user-rejected"
kind_name expired = codes "expired"
kind_name duplicate_nonce = codes "duplicate-nonce"
kind_name invalid_signature = codes "invalid-signature"
kind_name rate_limited = codes "rate-limited"
kind_name ai_timeout = codes "ai-timeout"
kind_name ai_unavailable = codes "ai-unavailable"
kind_name verifier_timeout = codes "verifier-timeout"
kind_name verifier_unavailable = codes "verifier-unavailable"
kind_name network = codes "network"
kind_name unknown = codes "unknown"

abbrev pub text_value : Text → Analytics.Value
text_value s = scalar (Analytics.text s)

abbrev pub number_value : Number → Analytics.Value
number_value n = scalar (Analytics.number n)

abbrev pub count_value : ℕ → Analytics.Value
count_value n = number_value (int (pos n))

abbrev pub bool_value : Bool → Analytics.Value
bool_value b = scalar (Analytics.boolean b)

abbrev pub option_value : Option ℕ → Analytics.Value
option_value none = scalar Analytics.null
option_value (some n) = count_value n

abbrev count_items : Items → ℕ
count_items nil = 0
count_items (cons v xs) = suc (count_items xs)

-- A property of a JSON value, as a value of analytics.
abbrev property_value : Option Json → Analytics.Value
property_value none = undefined
property_value (some null) = scalar Analytics.null
property_value (some (bool b)) = bool_value b
property_value (some (num n)) = number_value n
property_value (some (str s)) = text_value s
property_value (some (arr xs)) = opaque
property_value (some (obj fs)) = opaque

-- `summary.length`
unfoldable pub length_of : Json → Analytics.Value
unfolding prop
length_of (str s) = count_value (length s)
length_of (arr xs) = count_value (count_items xs)
length_of v = property_value (prop "length" v)

abbrev pub track : AnalyticsEvent → Properties → Flow Unit
track event props = tell (capture (event_name event) props)

abbrev pub is_there : Option Json → Bool
is_there none = false
is_there (some v) = true

-- `currentChain !== context.chainId`, the other way round
unfoldable pub same_chain : Option ℕ → Number → Bool
same_chain (some n) (int (pos m)) = n == m
same_chain chain chain_id = false

-- `safeText(res)`
unfoldable pub safe_text : Response → Text
safe_text res = elim res.text [ ok s ↦ s | throw fault ↦ [] ]

-- `if (receipt) saveReceipt(receipt, text)`
unfoldable pub keep_receipt : Option Json → Text → Flow Unit
keep_receipt none text = finish tt
keep_receipt (some signed) text = act (save signed text) (λ saved. lift (from_fault saved))

abbrev pub has : Text → Bool
has [] = false
has (c ∷ s) = true

-- The event that the `catch` clause reports for a stage.
unfoldable pub failure_event : Stage → AnalyticsEvent
failure_event Stage.wallet_connect = wallet_connect_failed
failure_event Stage.chain_switch = chain_switch_failed
failure_event Stage.sign = payment_signature_failed
failure_event Stage.signer = payment_signature_failed
failure_event Stage.verify = summary_failed
failure_event stage = summary_failed

-- `{ error: classified, isRunning: false }`
abbrev pub failed_with : ClassifiedError → X402State → X402State
failed_with classified s = record s { error = some classified; is_running = false }

-- `{ step: "ai" }`
abbrev pub ai_step : X402State → X402State
ai_step s = record s { step = X402Step.ai }

-- `{ step: "done", summary, receipt, isRunning: false }`
abbrev pub succeeded_with : SummarizeSuccess → X402State → X402State
succeeded_with found s = record s {
  step = X402Step.done;
  summary = some found.summary;
  receipt = found.receipt;
  is_running = false;
}

-- `{ step: "request", summary: null, receipt: null, error: null, isRunning: true }`
abbrev pub started : X402State → X402State
started s = record {
  step = X402Step.request;
  summary = none;
  receipt = none;
  error = none;
  is_running = true;
}
