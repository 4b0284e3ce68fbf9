-- ===== src/Sdk/Microai.antt =====
-- sdk/typescript/src/protocol/microai.ts: the payment challenge, and the adapter of the custom
-- x402-style protocol, an implementation of `PaygateProtocolAdapter`.
use micro_ai_paygate.Prelude.{
  String, Text, Bool, false, not, ◌&&◌, Option, none, some, [], ◌∷◌, if◌then◌else◌, codes,
}
use micro_ai_paygate.Js.Json.{Json, is_record, is_string, prop}
use micro_ai_paygate.Js.Exec.{Result, ok, throw, lift, ◌>>=◌}
use micro_ai_paygate.Js.Host.{Host, Ethers}
use micro_ai_paygate.Sdk.Types.{
  PaymentContext, SignedReceipt, Response, PaymentSigner, HeaderRecord, Fault, Thrown, sdk,
  payment_challenge_missing, from_outside, Sdk,
}
use micro_ai_paygate.Sdk.Payment.{sign_payment_context, build_signed_headers}
use micro_ai_paygate.Sdk.Receipts.{
  member, text_of, number_of, is_positive_safe_integer, decode_receipt_header,
}

-- `PaygateProtocolAdapter`, with the host and ethers at hand.
pub record PaygateProtocolAdapter : Type 0 where
  pub read_payment_context : Response → Sdk PaymentContext
  pub sign_payment_context : PaymentSigner → PaymentContext → Sdk Text
  pub build_signed_headers : PaymentContext → Text → HeaderRecord
  pub read_receipt : Response → Result Thrown (Option SignedReceipt)

-- `isPaymentContext(value)`
unfoldable pub is_payment_context : Json → Bool
is_payment_context value =
    if not (is_record value)
    then false
    else is_string (prop "recipient" value)
      && is_string (prop "token" value)
      && is_string (prop "amount" value)
      && is_string (prop "nonce" value)
      && is_positive_safe_integer (prop "chainId" value)
      && is_positive_safe_integer (prop "timestamp" value)

-- `value as PaymentContext`, for a value that `isPaymentContext` accepts.
unfoldable pub as_payment_context : Json → PaymentContext
as_payment_context value = record {
  recipient = text_of (prop "recipient" value);
  token = text_of (prop "token" value);
  amount = text_of (prop "amount" value);
  nonce = text_of (prop "nonce" value);
  chain_id = number_of (prop "chainId" value);
  timestamp = number_of (prop "timestamp" value);
}

challenge_missing : String → Response → Text → Option Fault → Thrown
challenge_missing message response body_text cause = sdk (record {
  code = payment_challenge_missing;
  message = message;
  status = some response.status;
  body_text = some body_text;
  cause = cause;
})

-- What the method makes of the body text.
unfoldable pub challenge_of_text : Host → Response → Text → Result Thrown PaymentContext
unfolding challenge_missing
challenge_of_text host response body_text = elim (host.parse body_text) [
  | none ↦ throw (
      challenge_missing "402 response did not contain JSON paymentContext" response body_text
        (some (record { message = codes "SyntaxError" })))
  | some parsed ↦
      if is_payment_context (member "paymentContext" parsed)
      then ok (as_payment_context (member "paymentContext" parsed))
      else throw (
          challenge_missing "402 response is missing a valid paymentContext" response body_text
            none)
]

-- `readPaymentContext(response)`
unfoldable pub read_payment_context : Host → Response → Sdk PaymentContext
unfolding challenge_of_text
read_payment_context host response = do
  body_text ← lift (from_outside response.text)
  lift (challenge_of_text host response body_text)

-- `readReceipt(response)`
unfoldable pub read_receipt : Host → Response → Result Thrown (Option SignedReceipt)
read_receipt host response = elim (response.header "X-402-Receipt") [
  | none ↦ ok none
  | some [] ↦ ok none
  | some (c ∷ s) ↦ elim (decode_receipt_header host (c ∷ s)) [
    | ok receipt ↦ ok (some receipt)
    | throw error ↦ throw error
  ]
]

-- `new MicroAIPaygateProtocol()`
unfoldable pub micro_ai_protocol : Host → Ethers → PaygateProtocolAdapter
unfolding read_payment_context read_receipt
micro_ai_protocol host ethers = record {
  read_payment_context = read_payment_context host;
  sign_payment_context = sign_payment_context ethers;
  build_signed_headers = build_signed_headers;
  read_receipt = read_receipt host;
}
