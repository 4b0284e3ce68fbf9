-- ===== src/Web/X402Client/Requests.antt =====
-- web/src/lib/x402-client.ts: the requests of the page, and what it has signed. The context of a
-- challenge is taken at its word: the code asserts its type and tests only that it is there, so the
-- model reads the properties that the type names.
use micro_ai_paygate.Prelude.{
  String, Text, codes, Option, none, some, [], ◌∷◌, ◌++◌, if◌then◌else◌, not,
}
use micro_ai_paygate.Js.Json.{Json, str, obj, field, end, null, prop}
use micro_ai_paygate.Js.Stringify.{stringify, number_text}
use micro_ai_paygate.Js.Exec.{Result, ok, throw}
use micro_ai_paygate.Js.Host.{Ethers}
use micro_ai_paygate.Sdk.Types.{
  PaymentContext, HeaderRecord, RequestInit, Fault, TypedData, TypedDataField, text, number,
}
use micro_ai_paygate.Sdk.Client.{spread}
use micro_ai_paygate.Sdk.Microai.{as_payment_context}
use micro_ai_paygate.Web.Errors.{is_truthy}
use micro_ai_paygate.Web.X402Client.{type_error}

-- `getGatewayUrl()`, for the variable of the environment; an empty one counts as none
unfoldable pub get_gateway_url : Option Text → Text
get_gateway_url none = codes "http://localhost:3000"
get_gateway_url (some []) = codes "http://localhost:3000"
get_gateway_url (some (c ∷ url)) = c ∷ url

abbrev pub summarize_url : Option Text → Text
summarize_url url = get_gateway_url url ++ codes "/api/ai/summarize"

-- `postSummarize(text, headers)`: the second argument of its `fetch`
unfoldable pub summarize_init : Text → HeaderRecord → RequestInit
unfolding spread stringify
summarize_init input headers = record {
  method = codes "POST";
  headers = spread (("Content-Type", codes "application/json") ∷ []) headers;
  body = some (stringify (obj (field "text" (str input) end)));
}

-- `readPaymentChallenge(res)`, for the parsed body
unfoldable pub read_payment_challenge : Json → Result Fault PaymentContext
unfolding prop is_truthy as_payment_context
read_payment_challenge null = throw type_error
read_payment_challenge v =
    if not (is_truthy (prop "paymentContext" v))
    then throw (record { message = codes "402 response missing paymentContext" })
    else elim (prop "paymentContext" v) [
      | none ↦ throw type_error
      | some context ↦ ok (as_payment_context context)
    ]

abbrev typed_field : String → String → TypedDataField
typed_field name type = record { name = name; type = type }

-- `signPaymentContext(signer, ctx)`: the arguments of `signTypedData`
unfoldable pub typed_data_to_sign : Ethers → PaymentContext → TypedData
typed_data_to_sign ethers ctx = record {
  domain = record {
    name = codes "MicroAI Paygate";
    version = codes "1";
    chain_id = ctx.chain_id;
    verifying_contract = ethers.zero_address;
  };
  types =
      (
        "Payment",
        typed_field "recipient" "address"
            ∷ typed_field "token" "string"
            ∷ typed_field "amount" "string"
            ∷ typed_field "nonce" "string"
            ∷ typed_field "timestamp" "uint256"
            ∷ [],
      )
      ∷ [];
  value =
      ("recipient", text ctx.recipient)
      ∷ ("token", text ctx.token)
      ∷ ("amount", text ctx.amount)
      ∷ ("nonce", text ctx.nonce)
      ∷ ("timestamp", number ctx.timestamp)
      ∷ [];
}

-- `buildSignedHeaders(ctx, signature)`
unfoldable pub signed_headers : PaymentContext → Text → HeaderRecord
unfolding number_text
signed_headers ctx signature =
    ("X-402-Signature", signature)
    ∷ ("X-402-Nonce", ctx.nonce)
    ∷ ("X-402-Timestamp", number_text ctx.timestamp)
    ∷ []
