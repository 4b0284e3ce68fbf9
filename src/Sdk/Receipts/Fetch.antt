-- ===== src/Sdk/Receipts/Fetch.antt =====
-- sdk/typescript/src/receipts.ts: `fetchReceipt`.
pub mod Laws
use micro_ai_paygate.Prelude.{
  ℕ, String, Text, codes, Option, none, some, [], ◌∷◌, ◌++◌, not, ◌==◌, if◌then◌else◌,
}
use micro_ai_paygate.Js.Json.{Json}
use micro_ai_paygate.Js.Exec.{Result, ok, throw, rethrow, lift, raise, pure, ◌>>=◌}
use micro_ai_paygate.Js.Host.{Host}
use micro_ai_paygate.Sdk.Types.{
  SignedReceipt, Fault, Thrown, sdk, foreign, ErrorCode, receipt_decode_failed, network_error,
  Response, is_ok, RequestInit, FetchLike, fetched, from_outside, Sdk,
}
use micro_ai_paygate.Sdk.Url.{cut_slashes}
use micro_ai_paygate.Sdk.Receipts.{validate_receipt_format, as_signed_receipt}

-- The call of `fetch` with a URL alone.
abbrev pub plain_get : RequestInit
plain_get = record { method = codes "GET"; headers = []; body = none }

-- One call of the fetcher; a rejected promise throws.
unfoldable pub call_fetcher : FetchLike → Text → RequestInit → Sdk Response
call_fetcher fetcher url init calls =
    (from_outside (fetcher calls url init), fetched url init ∷ calls)

-- `encodeURIComponent(receiptId)`
encode_id : Host → Text → Result Thrown Text
encode_id host receipt_id = elim (host.encode_uri_component receipt_id) [
  | none ↦ throw (foreign (record { message = codes "URIError" }))
  | some text ↦ ok text
]

abbrev pub decode_failed : String → ℕ → Option Fault → Thrown
decode_failed message status cause = sdk (record {
  code = receipt_decode_failed;
  message = message;
  status = some status;
  body_text = none;
  cause = cause;
})

-- `response.json()` inside its `try` block: reading the body and parsing it may both fail.
read_json : Host → Response → Result Thrown Json
read_json host response =
    let not_json = decode_failed "Receipt lookup response was not JSON" response.status in
    elim response.text [
      | throw fault ↦ throw (not_json (some fault))
      | ok text ↦ elim (host.parse text) [
        | none ↦ throw (not_json (some (record { message = codes "SyntaxError" })))
        | some body ↦ ok body
      ]
    ]

-- The `catch` block around the whole lookup.
unfoldable pub only_sdk_errors : Thrown → Thrown
only_sdk_errors (sdk error) = sdk error
only_sdk_errors (foreign fault) = sdk (record {
  code = network_error;
  message = "Network error while fetching receipt";
  status = none;
  body_text = none;
  cause = some fault;
})

-- The test of the parsed body.
check_shape : ℕ → Json → Result Thrown (Option SignedReceipt)
check_shape status body =
    if validate_receipt_format body
    then ok (some (as_signed_receipt body))
    else throw
        (decode_failed "Receipt lookup response did not match SignedReceipt shape" status none)

-- What `fetchReceipt` makes of the response.
unfoldable pub read_receipt_response : Host → Response → Sdk (Option SignedReceipt)
unfolding read_json check_shape
read_receipt_response host response =
    if response.status == 404
    then pure none
    else if not (is_ok response)
    then (do
      text ← lift (from_outside response.text)
      raise (
          sdk (record {
            code = network_error;
            message = "Failed to fetch receipt";
            status = some response.status;
            body_text = some text;
            cause = none;
          })))
    else (do body ← lift (read_json host response); lift (check_shape response.status body))

-- The `try` block of `fetchReceipt`.
unfoldable pub fetch_steps : Host → FetchLike → Text → Text → Sdk (Option SignedReceipt)
unfolding encode_id call_fetcher read_receipt_response
fetch_steps host fetcher receipt_id gateway_url = do
  id ← lift (encode_id host receipt_id)
  response ←
      call_fetcher fetcher (cut_slashes gateway_url ++ codes "/api/receipts/" ++ id) plain_get
  read_receipt_response host response

-- `fetchReceipt(receiptId, gatewayUrl, fetcher)`
unfoldable pub fetch_receipt : Host → FetchLike → Text → Text → Sdk (Option SignedReceipt)
unfolding only_sdk_errors fetch_steps
fetch_receipt host fetcher receipt_id gateway_url =
    rethrow only_sdk_errors (fetch_steps host fetcher receipt_id gateway_url)
