-- ===== src/Sdk/Tests.antt =====
-- Runs of the SDK at concrete inputs, and its theorems at inputs where their hypotheses hold.
use micro_ai_paygate.Prelude.{
  ℕ, Text, codes, starts_with, ◌≡◌, ◌≢◌, refl, true, Option, none, some, [], ◌∷◌, ◌++◌, text_eq,
  arith, if◌then◌else◌, str_eq, ◌↔◌,
}
use micro_ai_paygate.Js.Json.{
  Json, obj, str, num, int, pos, field, end, prop, is_record, is_string, is_prefixed_string,
  is_safe_integer, is_positive,
}
use micro_ai_paygate.Js.Stringify.{stringify}
use micro_ai_paygate.Js.Exec.{ok, throw}
use micro_ai_paygate.Js.Host.{Host, Ethers, Bytes}
use micro_ai_paygate.Sdk.Types.{
  PaymentContext, SignedReceipt, PaygateRequest, PaygateResponse, json, Response, foreign, Calls,
  FetchLike,
}
use micro_ai_paygate.Sdk.Url.{build_url, build_receipt_endpoint, has_scheme, cut_slashes}
use micro_ai_paygate.Sdk.Url.Laws.{build_url-endpoint}
use micro_ai_paygate.Sdk.Base64.{decode_base64_to_utf8, encode_utf8_to_base64}
use micro_ai_paygate.Sdk.Base64.RoundTrip.{decode_base64-encode}
use micro_ai_paygate.Sdk.Payment.{
  build_payment_typed_data, build_signed_headers, sign_payment_context,
}
use micro_ai_paygate.Sdk.Receipts.{
  validate_receipt_format, as_signed_receipt, signed_receipt_json, decode_receipt_header,
  is_positive_safe_integer,
}
use micro_ai_paygate.Sdk.Receipts.Format.{IsSignedReceipt, validate_receipt_format_iff}
use micro_ai_paygate.Sdk.Receipts.Verify.{verify_receipt}
use micro_ai_paygate.Sdk.Receipts.Verify.Laws.{IsVerified, verify_receipt_iff}
use micro_ai_paygate.Sdk.Receipts.Fetch.{fetch_receipt}
use micro_ai_paygate.Sdk.Receipts.Fetch.Laws.{
  fetch_receipt-ne-foreign, fetch_receipt-IsLookup, IsLookup,
}
use micro_ai_paygate.Sdk.Microai.{micro_ai_protocol, is_payment_context, as_payment_context}
use micro_ai_paygate.Sdk.Client.{
  PaygateClient, serialize_request_body, build_request_init, fetch_or_throw,
}
use micro_ai_paygate.Sdk.Client.Receipt.{read_success, receipt_matches_payload, hash_body}
use micro_ai_paygate.Sdk.Client.Exchange.{Exchange, with_micro_ai}
use micro_ai_paygate.Sdk.Client.Flow.{request-Exchange}
use micro_ai_paygate.Sdk.Client.Settled.{request-IsSettled}
use micro_ai_paygate.Sdk.Client.Success.{IsSettled}
use micro_ai_paygate.Sdk.Client.Errors.{Escape}
use micro_ai_paygate.Sdk.Client.Escapes.{request-Escape}
use micro_ai_paygate.Sdk.Client.Request.{
  request, after_first, answer_challenge, signed_retry, after_retry, refuse, sign_or_throw,
}

-- One signed receipt, and the challenge of a gateway.
abbrev receipt : SignedReceipt
receipt = record {
  receipt = record {
    id = codes "rcpt_1";
    version = codes "1.0";
    timestamp = codes "2026";
    payment = record {
      payer = codes "0xa";
      recipient = codes "0xb";
      amount = codes "1";
      token = codes "USDC";
      chain_id = int (pos 84532);
      nonce = codes "n1";
    };
    service = record {
      endpoint = codes "/api/ai/summarize";
      request_hash = codes "sha256:{}";
      response_hash = codes "sha256:{\"result\":\"ok\"}";
    };
  };
  signature = codes "0x5";
  server_public_key = codes "0xkey";
}

abbrev payment : PaymentContext
payment = record {
  recipient = codes "0xb";
  token = codes "USDC";
  amount = codes "1";
  nonce = codes "n1";
  chain_id = int (pos 84532);
  timestamp = int (pos 1766611200);
}

abbrev challenge : Json
challenge = obj (
    field "paymentContext"
      (obj (
        field "recipient" (str payment.recipient) (
          field "token" (str payment.token) (
            field "amount" (str payment.amount) (
              field "nonce" (str payment.nonce) (
                field "chainId" (num payment.chain_id)
                  (field "timestamp" (num payment.timestamp) end)))))))
      end)

abbrev answer : Json
answer = obj (field "result" (str (codes "ok")) end)

-- A host that parses the texts of these tests, with the identity for its coders.
parse : Text → Option Json
parse t =
    if text_eq t (codes "challenge")
    then some challenge
    else if text_eq t (codes "{\"result\":\"ok\"}")
    then some answer
    else if text_eq t (codes "receipt")
    then some (signed_receipt_json receipt)
    else none

abbrev host : Host
host = record {
  parse = parse;
  decode_utf8 = λ bytes. bytes;
  encode_utf8 = λ t. t;
  to_lower_case = λ t. t;
  encode_uri_component = λ t. some t;
}

abbrev zeros : Bytes
zeros =
    1 ∷ 2 ∷ 3 ∷ 4 ∷ 5 ∷ 6 ∷ 7 ∷ 8 ∷ 9 ∷ 10 ∷ 11 ∷ 12 ∷ 13 ∷ 14 ∷ 15 ∷ 16 ∷ 17 ∷ 18 ∷ 19 ∷ 20 ∷ 21
    ∷ 22 ∷ 23 ∷ 24 ∷ 25 ∷ 26 ∷ 27 ∷ 28 ∷ 29 ∷ 30 ∷ 31 ∷ 32 ∷ 33 ∷ 34 ∷ 35 ∷ 36 ∷ 37 ∷ 38 ∷ 39 ∷ 40
    ∷ 41 ∷ 42 ∷ 43 ∷ 44 ∷ 45 ∷ 46 ∷ 47 ∷ 48 ∷ 49 ∷ 50 ∷ 51 ∷ 52 ∷ 53 ∷ 54 ∷ 55 ∷ 56 ∷ 57 ∷ 58 ∷ 59
    ∷ 60 ∷ 61 ∷ 62 ∷ 63 ∷ 64 ∷ 1 ∷ []

-- Hashes that are the text itself, and one key that every signature recovers to.
abbrev ethers : Ethers
ethers = record {
  zero_address = codes "0x0";
  to_utf8_bytes = λ t. some t;
  sha256 = λ bytes. codes "0x" ++ bytes;
  keccak256 = λ bytes. bytes;
  get_bytes = λ t. some zeros;
  hexlify = λ bytes. bytes;
  compute_public_key = λ key. some key;
  signature_from = λ s. some s;
  recover_public_key = λ hash s. some (codes "0xkey");
}

module_tests : Unit {0}
unfolding parse request after_first answer_challenge signed_retry after_retry refuse sign_or_throw
    read_success receipt_matches_payload hash_body fetch_or_throw build_request_init
    serialize_request_body build_url build_receipt_endpoint micro_ai_protocol decode_receipt_header
    validate_receipt_format as_signed_receipt signed_receipt_json is_payment_context
    as_payment_context verify_receipt text_eq starts_with is_record prop is_string
    is_prefixed_string is_positive_safe_integer is_safe_integer is_positive cut_slashes has_scheme
    sign_payment_context build_signed_headers build_payment_typed_data encode_utf8_to_base64
    decode_base64_to_utf8
module_tests = tt

verify_receipt_test : verify_receipt host ethers receipt (some (codes "0xkey")) ≡ true
unfolding module_tests
verify_receipt_test = refl

-- A gateway that asks for a payment first, and answers the retry with a receipt.
respond : Calls → Response
respond [] = record { status = 402; header = λ k. none; text = ok (codes "challenge") }
respond (call ∷ calls) = record {
  status = 200;
  header = λ k. if str_eq k "X-402-Receipt" then some (codes "cmVjZWlwdA==") else none;
  text = ok (codes "{\"result\":\"ok\"}");
}

abbrev client : PaygateClient
client = record {
  gateway_url = codes "http://gw";
  signer = λ calls typed. ok (codes "0xsig");
  fetcher = λ calls url init. ok (respond calls);
  protocol = micro_ai_protocol host ethers;
  trusted_server_public_key = some (codes "0xkey");
}

abbrev asked : PaygateRequest
asked = record {
  method = codes "POST";
  path = codes "/api/ai/summarize";
  body = some (json (obj end));
  headers = none;
}

abbrev paid : PaygateResponse
paid = record {
  payload = answer;
  receipt = some receipt;
  receipt_verified = some true;
  status = 200;
}

request_test : (request host ethers client asked []).0 ≡ ok paid
unfolding module_tests respond stringify
request_test = refl

-- A gateway whose first response cannot be read.
abbrev broken : PaygateClient
broken = record client {
  fetcher = λ calls url init. ok (record {
    status = 500;
    header = λ k. none;
    text = throw (record { message = codes "reset" });
  });
}

broken_test :
    (request host ethers (with_micro_ai host ethers broken) asked []).0
    ≡ throw (foreign (record { message = codes "reset" }))
unfolding module_tests stringify
broken_test = refl

request-Exchange_example :
    Exchange host ethers client asked []
      (request host ethers (with_micro_ai host ethers client) asked []).1
request-Exchange_example = request-Exchange host ethers client asked []

request-IsSettled_example :
    (body : Option Text) × (serialize_request_body asked.body ≡ ok body)
    × IsSettled host ethers client.trusted_server_public_key
        (record { endpoint = build_receipt_endpoint asked.path; request_body_text = body })
        paid
request-IsSettled_example = request-IsSettled host ethers client asked [] paid request_test

request-Escape_example :
    Escape host ethers broken asked []
      (request host ethers (with_micro_ai host ethers broken) asked []).1
      (record { message = codes "reset" })
request-Escape_example =
    request-Escape host ethers broken asked [] (record { message = codes "reset" }) broken_test

validate_receipt_format_iff_example :
    (validate_receipt_format (signed_receipt_json receipt) ≡ true)
    ↔ IsSignedReceipt
        (signed_receipt_json receipt)
        (as_signed_receipt (signed_receipt_json receipt))
validate_receipt_format_iff_example = validate_receipt_format_iff (signed_receipt_json receipt)

verify_receipt_iff_example :
    (verify_receipt host ethers receipt (some (codes "0xkey")) ≡ true)
    ↔ IsVerified host ethers receipt (some (codes "0xkey"))
verify_receipt_iff_example = verify_receipt_iff host ethers receipt (some (codes "0xkey"))

abbrev lookup : FetchLike
lookup calls url init =
    ok (record { status = 200; header = λ k. none; text = ok (codes "receipt") })

fetch_receipt_test :
    (fetch_receipt host lookup (codes "rcpt_1") (codes "http://gw/") []).0 ≡ ok (some receipt)
unfolding module_tests fetch_receipt
fetch_receipt_test = refl

fetch_receipt-IsLookup_example :
    IsLookup host lookup
      (codes "rcpt_1")
      (codes "http://gw/")
      []
      (some receipt)
      (fetch_receipt host lookup (codes "rcpt_1") (codes "http://gw/") []).1
fetch_receipt-IsLookup_example =
    fetch_receipt-IsLookup host lookup (codes "rcpt_1") (codes "http://gw/") [] (some receipt)
      fetch_receipt_test

fetch_receipt-ne-foreign_example :
    (fetch_receipt host lookup (codes "rcpt_1") (codes "http://gw/") []).0
    ≢ throw (foreign (record { message = codes "x" }))
fetch_receipt-ne-foreign_example =
    fetch_receipt-ne-foreign host lookup (codes "rcpt_1") (codes "http://gw/") []
      (record { message = codes "x" })

decode_base64-encode_example :
    decode_base64_to_utf8 host (encode_utf8_to_base64 host (codes "receipt")) ≡ ok (codes "receipt")
decode_base64-encode_example =
    decode_base64-encode host (codes "receipt") (omega arith) (λ e. cc) refl

build_url-endpoint_example :
    build_url (codes "http://gw") (codes "/a")
    ≡ ok (codes "http://gw" ++ build_receipt_endpoint (codes "/a"))
unfolding has_scheme
build_url-endpoint_example =
    build_url-endpoint (codes "http://gw") (codes "/a") (refl, refl, (refl, refl, tt)) refl

abbrev one_day : ℕ
one_day = 86400
