-- ===== src/Sdk/Client.antt =====
-- sdk/typescript/src/client.ts: `PaygateClient`. The client sends an unsigned request, answers a
-- 402 challenge with one signed retry, and checks the receipt of the response.
--
-- `Host` and `Ethers` stand for the built-in functions and the package that the methods call; the
-- fetcher, the signer and the protocol adapter are the ones given to the constructor.
pub mod Receipt
pub mod Request
pub mod Exchange
pub mod Success
pub mod Settled
pub mod Refusals
pub mod Errors
pub mod Escapes
pub mod Reading
pub mod Flow
use micro_ai_paygate.Prelude.{
  ℕ, String, Text, codes, text_eq, Bool, true, false, not, ◌&&◌, Option, none, some, List, [], ◌∷◌,
  ◌++◌, drop, ◌==◌, str_eq, if◌then◌else◌,
}
use micro_ai_paygate.Js.Json.{Json, str, obj, end, field}
use micro_ai_paygate.Js.Stringify.{stringify}
use micro_ai_paygate.Js.Exec.{Result, ok, throw, rethrow, lift, raise, pure, ◌>>=◌}
use micro_ai_paygate.Js.Host.{Host, Ethers}
use micro_ai_paygate.Sdk.Types.{
  PaymentContext, SignedReceipt, PaygateRequest, PaygateResponse, Body, json, silent,
  unserializable, HeaderRecord, RequestInit, Response, is_ok, Fault, ErrorCode, Thrown, sdk,
  foreign, network_error, payment_signature_failed, signed_retry_failed,
  receipt_verification_failed, FetchLike, PaymentSigner, from_outside, Sdk,
}
use micro_ai_paygate.Sdk.Url.{cut_slashes, build_url, build_receipt_endpoint}
use micro_ai_paygate.Sdk.Receipts.{cause_of}
use micro_ai_paygate.Sdk.Receipts.Verify.{verify_receipt}
use micro_ai_paygate.Sdk.Receipts.Fetch.{call_fetcher}
use micro_ai_paygate.Sdk.Microai.{PaygateProtocolAdapter, micro_ai_protocol}

-- The fields of the class.
pub record PaygateClient : Type 0 where
  pub gateway_url : Text
  pub signer : PaymentSigner
  pub fetcher : FetchLike
  pub protocol : PaygateProtocolAdapter
  pub trusted_server_public_key : Option Text

-- `PaygateClientOptions`, with the global `fetch` of the host where no fetcher is given.
pub record PaygateClientOptions : Type 0 where
  pub gateway_url : Text
  pub signer : PaymentSigner
  pub fetch : Option FetchLike
  pub protocol : Option PaygateProtocolAdapter
  pub trusted_server_public_key : Option Text

abbrev or_else : {A : Type 0} → Option A → A → A
or_else none a = a
or_else (some a) b = a

-- `new PaygateClient(options)`
unfoldable pub new_client : Host → Ethers → FetchLike → PaygateClientOptions → PaygateClient
new_client host ethers global_fetch options = record {
  gateway_url = cut_slashes options.gateway_url;
  signer = options.signer;
  fetcher = or_else options.fetch global_fetch;
  protocol = or_else options.protocol (micro_ai_protocol host ethers);
  trusted_server_public_key = options.trusted_server_public_key;
}

abbrev pub failed : ErrorCode → String → Option Fault → Thrown
failed code message cause =
    sdk (record { code = code; message = message; status = none; body_text = none; cause = cause })

abbrev pub failed_with : ErrorCode → String → ℕ → Option Text → Option Fault → Thrown
failed_with code message status body_text cause = sdk (record {
  code = code;
  message = message;
  status = some status;
  body_text = body_text;
  cause = cause;
})

-- `serializeRequestBody(body)`
unfoldable pub serialize_request_body : Option Body → Result Thrown (Option Text)
serialize_request_body none = ok none
serialize_request_body (some (json v)) = ok (some (stringify v))
serialize_request_body (some silent) = ok none
serialize_request_body (some (unserializable fault)) =
    throw (failed network_error "Failed to serialize request body as JSON" (some fault))

-- `{ ...base, [key]: value }`
unfoldable pub set_header : HeaderRecord → String → Text → HeaderRecord
set_header [] k v = (k, v) ∷ []
set_header ((j, w) ∷ hs) k v = if str_eq j k then (j, v) ∷ hs else (j, w) ∷ set_header hs k v

-- `{ ...base, ...over }`
unfoldable pub spread : HeaderRecord → HeaderRecord → HeaderRecord
unfolding set_header
spread base [] = base
spread base ((k, v) ∷ over) = spread (set_header base k v) over

abbrev pub content_type : Option Body → HeaderRecord
content_type none = []
content_type (some body) = ("Content-Type", codes "application/json") ∷ []

abbrev pub given : Option HeaderRecord → HeaderRecord
given none = []
given (some headers) = headers

-- `buildRequestInit(request, extraHeaders, requestBodyText)`. The default of the last parameter
-- serializes a body once more whose text is `undefined`, which gives `undefined` again.
unfoldable pub build_request_init : PaygateRequest → HeaderRecord → Option Text → RequestInit
unfolding spread
build_request_init request extra_headers request_body_text = record {
  method = request.method;
  headers = spread (spread (content_type request.body) (given request.headers)) extra_headers;
  body = request_body_text;
}

-- `fetchOrThrow(input, init)`
unfoldable pub fetch_or_throw : PaygateClient → Text → RequestInit → Sdk Response
unfolding call_fetcher
fetch_or_throw client url init =
    rethrow (λ error. failed network_error "Network error while calling gateway" (cause_of error))
      (call_fetcher client.fetcher url init)
