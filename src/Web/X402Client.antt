-- ===== src/Web/X402Client.antt =====
-- web/src/lib/x402-client.ts: the receipt and the summary that the page reads from a response, with
-- validateReceiptFormat of web/src/lib/verify-receipt.ts. `atob` is a parameter, `none` where it
-- throws.
pub mod Requests
pub mod Agreement
pub mod Decoded
use micro_ai_paygate.Prelude.{
  String, Text, codes, starts_with, Bool, true, false, not, Option, none, some, [], ◌∷◌,
  if◌then◌else◌,
}
use micro_ai_paygate.Js.Json.{Json, null, bool, num, str, arr, obj, prop}
use micro_ai_paygate.Js.Exec.{Result, ok, throw}
use micro_ai_paygate.Js.Host.{Host}
use micro_ai_paygate.Sdk.Types.{Fault, Response}
use micro_ai_paygate.Web.Errors.{is_truthy}

abbrev pub type_error : Fault
type_error = record { message = codes "TypeError" }

-- `value?.startsWith(prefix)` as a condition: a value that is there and no text has no such method
unfoldable pub optional_starts_with : Option Json → Text → Result Fault Bool
unfolding starts_with
optional_starts_with none prefix = ok false
optional_starts_with (some null) prefix = ok false
optional_starts_with (some (str s)) prefix = ok (starts_with s prefix)
optional_starts_with (some v) prefix = throw type_error

-- `value?.key`
unfoldable pub optional : String → Option Json → Option Json
unfolding prop
optional k none = none
optional k (some v) = prop k v

-- `a && b`, where computing either may throw
abbrev pub and_also : Result Fault Bool → Result Fault Bool → Result Fault Bool
and_also (ok true) next = next
and_also (ok false) next = ok false
and_also (throw fault) next = throw fault

-- `a && b` for a value `a`
abbrev pub holds : Option Json → Result Fault Bool → Result Fault Bool
holds v next = if is_truthy v then next else ok false

-- `validateReceiptFormat(signedReceipt)`
unfoldable pub validate_receipt_format : Json → Result Fault Bool
unfolding is_truthy optional optional_starts_with
validate_receipt_format signed =
    let receipt = optional "receipt" (some signed) in
    let payment = optional "payment" receipt in
    let service = optional "service" receipt in
    let keys =
      and_also (optional_starts_with (optional "signature" (some signed)) (codes "0x"))
        (optional_starts_with (optional "server_public_key" (some signed)) (codes "0x")) in
    let fields = holds (optional "version" receipt) (
      holds (optional "timestamp" receipt) (
        holds (optional "payer" payment) (
          holds (optional "recipient" payment) (
            holds (optional "amount" payment) (
              holds (optional "token" payment) (
                holds (optional "nonce" payment) (
                  holds (optional "endpoint" service) (
                    holds (optional "request_hash" service)
                      (holds (optional "response_hash" service) keys))))))))) in
    if not (is_truthy receipt)
    then ok false
    else and_also (optional_starts_with (optional "id" receipt) (codes "rcpt_")) fields

-- `SummarizeSuccess`
pub record SummarizeSuccess : Type 0 where
  pub summary : Json
  pub receipt : Option Json

module _ (host : Host) (atob : Text → Option Text) where
  -- `JSON.parse(atob(b64))`
  unfoldable pub decode : Text → Option Json
  decode b64 = elim (atob b64) [ none ↦ none | some decoded ↦ host.parse decoded ]

  abbrev pub accepted : Json → Result Fault Bool → Option Json
  accepted v (ok true) = some v
  accepted v (ok false) = none
  accepted v (throw fault) = none

  -- `safeDecodeReceiptHeader(b64)`
  unfoldable pub safe_decode_receipt_header : Text → Option Json
  unfolding decode validate_receipt_format
  safe_decode_receipt_header b64 = elim (decode b64) [
    | none ↦ none
    | some decoded ↦ accepted decoded (validate_receipt_format decoded)
  ]

  -- `res.json()`
  unfoldable pub response_json : Response → Result Fault Json
  response_json res = elim res.text [
    | throw fault ↦ throw fault
    | ok body_text ↦ elim (host.parse body_text) [
      | none ↦ throw (record { message = codes "SyntaxError" })
      | some v ↦ ok v
    ]
  ]

  -- `res.headers.get("x-402-receipt") ?? res.headers.get("X-402-Receipt")`
  unfoldable pub receipt_header : Response → Option Text
  receipt_header res = elim (res.header "x-402-receipt") [
    | none ↦ res.header "X-402-Receipt"
    | some h ↦ some h
  ]

  abbrev pub receipt_of : Option Text → Option Json
  receipt_of none = none
  receipt_of (some []) = none
  receipt_of (some (c ∷ h)) = safe_decode_receipt_header (c ∷ h)

  -- `data.result ?? ""`
  unfoldable pub summary_of : Json → Json
  unfolding prop
  summary_of v = elim (prop "result" v) [
    | none ↦ str []
    | some null ↦ str []
    | some result ↦ result
  ]

  -- `readSummarizeSuccess(res)`, for the parsed body: `null` has no properties
  unfoldable pub read_summary : Response → Json → Result Fault SummarizeSuccess
  unfolding summary_of receipt_header safe_decode_receipt_header
  read_summary res null = throw type_error
  read_summary res v =
      ok (record { summary = summary_of v; receipt = receipt_of (receipt_header res) })

  -- `readSummarizeSuccess(res)`
  unfoldable pub read_summarize_success : Response → Result Fault SummarizeSuccess
  unfolding response_json read_summary
  read_summarize_success res = elim (response_json res) [
    | throw fault ↦ throw fault
    | ok v ↦ read_summary res v
  ]
