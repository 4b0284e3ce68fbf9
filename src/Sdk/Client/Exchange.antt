-- ===== src/Sdk/Client/Exchange.antt =====
-- sdk/typescript/src/client.ts: the calls that one `request` may add to those made before.
use micro_ai_paygate.Prelude.{Text, Option, some, [], ◌∷◌, ◌≡◌, true}
use micro_ai_paygate.Js.Json.{Json}
use micro_ai_paygate.Js.Exec.{ok}
use micro_ai_paygate.Js.Host.{Host, Ethers}
use micro_ai_paygate.Sdk.Types.{
  PaymentContext, PaygateRequest, RequestInit, Response, Calls, fetched, signed,
}
use micro_ai_paygate.Sdk.Url.{build_url}
use micro_ai_paygate.Sdk.Payment.{build_payment_typed_data, build_signed_headers}
use micro_ai_paygate.Sdk.Receipts.{member}
use micro_ai_paygate.Sdk.Microai.{is_payment_context, as_payment_context, micro_ai_protocol}
use micro_ai_paygate.Sdk.Client.{PaygateClient, serialize_request_body, build_request_init}

module _ (host : Host) (ethers : Ethers) (client : PaygateClient) where
  -- The client with the adapter that the constructor takes by default.
  abbrev pub with_micro_ai : PaygateClient
  with_micro_ai = record client { protocol = micro_ai_protocol host ethers }

  module _ (asked : PaygateRequest) (calls : Calls) where
    abbrev pub unsigned_init : Option Text → RequestInit
    unsigned_init body = build_request_init asked [] body

    abbrev pub signed_init : Option Text → PaymentContext → Text → RequestInit
    signed_init body context signature =
        build_request_init asked (build_signed_headers context signature) body

    -- The URL and the body text of a request that the client can send.
    pub record IsSendable (url : Text) (body : Option Text) : Type 0 where
      pub built : build_url client.gateway_url asked.path ≡ ok url
      pub serialized : serialize_request_body asked.body ≡ ok body

    -- The unsigned request was answered by a 402 response that holds this payment context.
    pub record IsChallenge (url : Text) (body : Option Text) (context : PaymentContext)
        : Type 0 where
      pub response : Response
      pub body_text : Text
      pub parsed : Json
      pub answered : client.fetcher calls url (unsigned_init body) ≡ ok response
      pub status : response.status ≡ 402
      pub read : response.text ≡ ok body_text
      pub parses : host.parse body_text ≡ some parsed
      pub valid : is_payment_context (member "paymentContext" parsed) ≡ true
      pub same : context ≡ as_payment_context (member "paymentContext" parsed)

    -- The calls after a request: none, the unsigned request, that and the signing of the context
    -- of its challenge, or those and the retry with the signature that the signer returned.
    pub data Exchange (after : Calls) : Type 0 where
      unsent : after ≡ calls → Exchange after
      unsigned :
          (url : Text) (body : Option Text)
          → IsSendable url body
          → after ≡ fetched url (unsigned_init body) ∷ calls
          → Exchange after
      unretried :
          (url : Text) (body : Option Text) (context : PaymentContext)
          → IsSendable url body
          → IsChallenge url body context
          → after
            ≡ signed (build_payment_typed_data ethers context)
              ∷ fetched url (unsigned_init body)
              ∷ calls
          → Exchange after
      retried :
          (url : Text) (body : Option Text) (context : PaymentContext) (signature : Text)
          → IsSendable url body
          → IsChallenge url body context
          → client.signer
              (fetched url (unsigned_init body) ∷ calls)
              (build_payment_typed_data ethers context)
            ≡ ok signature
          → after
            ≡ fetched url (signed_init body context signature)
              ∷ signed (build_payment_typed_data ethers context)
              ∷ fetched url (unsigned_init body)
              ∷ calls
          → Exchange after
