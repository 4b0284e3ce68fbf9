-- ===== src/Sdk/Payment.antt =====
-- sdk/typescript/src/payment.ts: the EIP-712 typed data of a payment context, its signature, and
-- the headers of the signed retry.
pub mod Laws
use micro_ai_paygate.Prelude.{String, Text, codes, List, [], ◌∷◌}
use micro_ai_paygate.Js.Stringify.{number_text}
use micro_ai_paygate.Js.Host.{Ethers}
use micro_ai_paygate.Sdk.Types.{
  PaymentContext, HeaderRecord, TypedData, TypedDataField, text, number, signed, PaymentSigner, Sdk,
  from_outside,
}

unfoldable pub payment_domain_name : Text
payment_domain_name = codes "MicroAI Paygate"

unfoldable pub payment_domain_version : Text
payment_domain_version = codes "1"

abbrev typed_field : String → String → TypedDataField
typed_field name type = record { name = name; type = type }

unfoldable pub payment_types : List (String × List TypedDataField)
payment_types =
    (
      "Payment",
      typed_field "recipient" "address"
          ∷ typed_field "token" "string"
          ∷ typed_field "amount" "string"
          ∷ typed_field "nonce" "string"
          ∷ typed_field "timestamp" "uint256"
          ∷ [],
    )
    ∷ []

-- `buildPaymentTypedData(ctx)`
unfoldable pub build_payment_typed_data : Ethers → PaymentContext → TypedData
build_payment_typed_data ethers ctx = record {
  domain = record {
    name = payment_domain_name;
    version = payment_domain_version;
    chain_id = ctx.chain_id;
    verifying_contract = ethers.zero_address;
  };
  types = payment_types;
  value =
      ("recipient", text ctx.recipient)
      ∷ ("token", text ctx.token)
      ∷ ("amount", text ctx.amount)
      ∷ ("nonce", text ctx.nonce)
      ∷ ("timestamp", number ctx.timestamp)
      ∷ [];
}

-- `signPaymentContext(signer, ctx)`
unfoldable pub sign_payment_context : Ethers → PaymentSigner → PaymentContext → Sdk Text
sign_payment_context ethers signer ctx calls =
    let typed = build_payment_typed_data ethers ctx in
    (from_outside (signer calls typed), signed typed ∷ calls)

-- `buildSignedHeaders(ctx, signature)`
unfoldable pub build_signed_headers : PaymentContext → Text → HeaderRecord
build_signed_headers ctx signature =
    ("X-402-Signature", signature)
    ∷ ("X-402-Nonce", ctx.nonce)
    ∷ ("X-402-Timestamp", number_text ctx.timestamp)
    ∷ []
