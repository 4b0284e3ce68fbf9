-- ===== src/Sdk/Receipts.antt =====
-- sdk/typescript/src/receipts.ts: the shape, the decoding, the verification and the lookup of
-- signed receipts.
pub mod Format
pub mod Verify
pub mod Fetch
use micro_ai_paygate.Prelude.{
  ℕ, ◌+◌, String, Text, codes, text_eq, Bool, true, false, not, ◌&&◌, Option, none, some, List, [],
  ◌∷◌, ◌++◌, length, take, drop, leb, ◌==◌, if◌then◌else◌,
}
use micro_ai_paygate.Js.Json.{
  Number, nan, Json, null, num, str, obj, end, field, is_record, is_non_empty_string,
  is_prefixed_string, is_safe_integer, is_positive, prop,
}
use micro_ai_paygate.Js.Stringify.{stringify}
use micro_ai_paygate.Js.Exec.{Result, ok, throw, rethrow_result, rethrow, lift, raise, pure, ◌>>=◌}
use micro_ai_paygate.Js.Host.{Host, Ethers, Signature, Bytes}
use micro_ai_paygate.Sdk.Types.{
  SignedReceipt, Receipt, Fault, Thrown, sdk, foreign, ErrorCode, receipt_decode_failed,
  network_error, Response, is_ok, RequestInit, FetchLike, fetched, from_outside, Sdk, SdkError,
}
use micro_ai_paygate.Sdk.Base64.{decode_base64_to_utf8}
use micro_ai_paygate.Sdk.Url.{cut_slashes}

-- `value.key` where the program goes on only with an object: `undefined` is read as `null`, which
-- `isRecord` refuses too.
abbrev pub member : String → Json → Json
member k v = elim (prop k v) [ none ↦ null | some w ↦ w ]

-- `typeof value === "number" && Number.isSafeInteger(value) && value > 0`
unfoldable pub is_positive_safe_integer : Option Json → Bool
is_positive_safe_integer (some (num n)) = is_safe_integer n && is_positive n
is_positive_safe_integer v = false

-- `validateReceiptFormat(value)`
unfoldable pub validate_receipt_format : Json → Bool
validate_receipt_format value =
    let receipt = member "receipt" value in
    let payment = member "payment" receipt in
    let service = member "service" receipt in
    if not (is_record value)
    then false
    else if not (is_record receipt)
    then false
    else if not (is_record payment && is_record service)
    then false
    else is_prefixed_string (prop "id" receipt) (codes "rcpt_")
      && is_non_empty_string (prop "version" receipt)
      && is_non_empty_string (prop "timestamp" receipt)
      && is_non_empty_string (prop "payer" payment)
      && is_non_empty_string (prop "recipient" payment)
      && is_non_empty_string (prop "amount" payment)
      && is_non_empty_string (prop "token" payment)
      && is_positive_safe_integer (prop "chainId" payment)
      && is_non_empty_string (prop "nonce" payment)
      && is_non_empty_string (prop "endpoint" service)
      && is_prefixed_string (prop "request_hash" service) (codes "sha256:")
      && is_prefixed_string (prop "response_hash" service) (codes "sha256:")
      && is_prefixed_string (prop "signature" value) (codes "0x")
      && is_prefixed_string (prop "server_public_key" value) (codes "0x")

abbrev pub text_of : Option Json → Text
text_of (some (str s)) = s
text_of v = []

abbrev pub number_of : Option Json → Number
number_of (some (num n)) = n
number_of v = nan

-- `value as SignedReceipt`, for a value that `validateReceiptFormat` accepts: the properties that
-- the type names. No other property of the value is read later.
unfoldable pub as_signed_receipt : Json → SignedReceipt
as_signed_receipt value =
    let receipt = member "receipt" value in
    let payment = member "payment" receipt in
    let service = member "service" receipt in
    record {
      receipt = record {
        id = text_of (prop "id" receipt);
        version = text_of (prop "version" receipt);
        timestamp = text_of (prop "timestamp" receipt);
        payment = record {
          payer = text_of (prop "payer" payment);
          recipient = text_of (prop "recipient" payment);
          amount = text_of (prop "amount" payment);
          token = text_of (prop "token" payment);
          chain_id = number_of (prop "chainId" payment);
          nonce = text_of (prop "nonce" payment);
        };
        service = record {
          endpoint = text_of (prop "endpoint" service);
          request_hash = text_of (prop "request_hash" service);
          response_hash = text_of (prop "response_hash" service);
        };
      };
      signature = text_of (prop "signature" value);
      server_public_key = text_of (prop "server_public_key" value);
    }

-- The object that `serializeReceiptForGateway` writes, its keys in the gateway's order.
unfoldable pub receipt_json : Receipt → Json
receipt_json r = obj (
    field "id" (str r.id) (
      field "version" (str r.version) (
        field "timestamp" (str r.timestamp) (
          field "payment"
            (obj (
              field "payer" (str r.payment.payer) (
                field "recipient" (str r.payment.recipient) (
                  field "amount" (str r.payment.amount) (
                    field "token" (str r.payment.token) (
                      field "chainId" (num r.payment.chain_id)
                        (field "nonce" (str r.payment.nonce) end)))))))
            (field "service"
              (obj (
                field "endpoint" (str r.service.endpoint) (
                  field "request_hash" (str r.service.request_hash)
                    (field "response_hash" (str r.service.response_hash) end))))
              end)))))

-- A signed receipt as the object that it is at run time.
unfoldable pub signed_receipt_json : SignedReceipt → Json
unfolding receipt_json
signed_receipt_json s = obj (
    field "receipt" (receipt_json s.receipt) (
      field "signature" (str s.signature)
        (field "server_public_key" (str s.server_public_key) end)))

-- `serializeReceiptForGateway(receipt)`
unfoldable pub serialize_receipt_for_gateway : Receipt → Text
unfolding receipt_json
serialize_receipt_for_gateway receipt = stringify (receipt_json receipt)

-- `decodeReceiptHeader(headerValue)`
parse_receipt : Host → Text → Result Thrown SignedReceipt
parse_receipt host text = elim (host.parse text) [
  | none ↦ throw (foreign (record { message = codes "SyntaxError" }))
  | some decoded ↦
      if validate_receipt_format decoded
      then ok (as_signed_receipt decoded)
      else throw (
          foreign (record { message = codes "decoded receipt does not match SignedReceipt shape" }))
]

abbrev bind_result {ℓ} : {E A B : Type ℓ} → Result E A → (A → Result E B) → Result E B
bind_result (ok a) f = f a
bind_result (throw e) f = throw e

-- The value thrown, where it comes from outside.
abbrev pub cause_of : Thrown → Option Fault
cause_of (sdk e) = none
cause_of (foreign fault) = some fault

unfoldable pub decode_receipt_header : Host → Text → Result Thrown SignedReceipt
unfolding parse_receipt
decode_receipt_header host header_value =
    rethrow_result
      (λ error. sdk (record {
        code = receipt_decode_failed;
        message = "Failed to decode X-402-Receipt as a gateway SignedReceipt";
        status = none;
        body_text = none;
        cause = cause_of error;
      }))
      (bind_result (decode_base64_to_utf8 host header_value) (parse_receipt host))
