-- ===== src/Sdk/Client/Settled.antt =====
-- sdk/typescript/src/client.ts: every way in which `request` returns goes through the checks of
-- `readSuccess`.
use micro_ai_paygate.Prelude.{
  String, Text, Option, not, ◌==◌, ◌≡◌, true, false, Bool, inl, inr, [], refl,
}
use micro_ai_paygate.Js.Exec.{ok, lift, ◌>>=◌}
use micro_ai_paygate.Js.Ends.{
  Ends, Ends-throw, Ends-if, Ends-bind, Ends-any, Ends-eq_ok, Result-cases,
}
use micro_ai_paygate.Js.Host.{Host, Ethers}
use micro_ai_paygate.Sdk.Types.{
  PaymentContext, PaygateRequest, PaygateResponse, Response, is_ok, ErrorCode, Thrown, Calls,
  from_outside,
}
use micro_ai_paygate.Sdk.Url.{build_url, build_receipt_endpoint}
use micro_ai_paygate.Sdk.Client.{
  PaygateClient, serialize_request_body, build_request_init, fetch_or_throw,
}
use micro_ai_paygate.Sdk.Client.Receipt.{ReceiptContext}
use micro_ai_paygate.Sdk.Client.Request.{
  refuse, sign_or_throw, after_retry, signed_retry, answer_challenge, after_first, request,
}
use micro_ai_paygate.Sdk.Client.Success.{IsSettled, Settled, read_success-Ends}

not-eq_false : (b : Bool) → not b ≡ false → b ≡ true
not-eq_false true h = refl
not-eq_false false h = cc

module _ (host : Host) (ethers : Ethers) (client : PaygateClient) (context : ReceiptContext) where
  abbrev Good : PaygateResponse → Calls → Type 0
  Good = Settled host ethers client context

  abbrev Any : Thrown → Calls → Type 0
  Any _ _ = Unit

  refuse-Ends :
      (code : ErrorCode) (message : String) (response : Response) (s : Calls)
      → Ends Good Any (refuse host ethers client code message response s)
  unfolding refuse
  refuse-Ends code message response s =
      Ends-bind (lift (from_outside response.text)) _ s (Ends-any _) (λ _ s' _. Ends-throw _ s' tt)

  after_retry-Ends :
      (response : Response) (s : Calls)
      → Ends Good Any (after_retry host ethers client context response s)
  unfolding after_retry
  after_retry-Ends response s =
      Ends-if (not (is_ok response)) _ _ s (λ _. refuse-Ends _ _ response s)
        (λ fine. read_success-Ends host ethers client context response s (not-eq_false _ fine))

  module _ (asked : PaygateRequest) (url : Text) (body : Option Text) where
    signed_retry-Ends :
        (payment : PaymentContext) (s : Calls)
        → Ends Good Any (signed_retry host ethers client asked url body context payment s)
    unfolding signed_retry
    signed_retry-Ends payment s =
        Ends-bind (sign_or_throw host ethers client payment) _ s (Ends-any _) (λ signature s' _.
          Ends-bind
            (fetch_or_throw client url (
              build_request_init asked (client.protocol.build_signed_headers payment signature)
                body))
            _ s' (Ends-any _) (λ retry s'' _. after_retry-Ends retry s''))

    after_first-Ends :
        (response : Response) (s : Calls)
        → Ends Good Any (after_first host ethers client asked url body context response s)
    unfolding after_first answer_challenge
    after_first-Ends response s =
        Ends-if (not (response.status == 402)) _ _ s
          (λ _.
            Ends-if (not (is_ok response)) _ _ s (λ _. refuse-Ends _ _ response s)
              (λ fine.
                read_success-Ends host ethers client context response s (not-eq_false _ fine)))
          (λ _.
            Ends-bind (client.protocol.read_payment_context response) _ s (Ends-any _)
              (λ payment s' _. signed_retry-Ends payment s'))

    first-Ends :
        (s : Calls)
        → Ends Good Any (
            (fetch_or_throw client url (build_request_init asked [] body)
                >>= after_first host ethers client asked url body context)
              s)
    first-Ends s =
        Ends-bind (fetch_or_throw client url (build_request_init asked [] body)) _ s (Ends-any _)
          (λ response s' _. after_first-Ends response s')

-- Whatever adapter, fetcher and signer the client has: a response that `request` returns has a
-- status from 200 to 299, and if it carries a receipt, then the receipt names the endpoint of the
-- request and the hashes of both bodies. With a trusted key the receipt's signature verified
-- against that key; without one the receipt is marked as not verified.
pub request-IsSettled :
    (host : Host) (ethers : Ethers) (client : PaygateClient) (asked : PaygateRequest)
    (calls : Calls) (res : PaygateResponse)
    → (request host ethers client asked calls).0 ≡ ok res
    → (body : Option Text) × (serialize_request_body asked.body ≡ ok body)
      × IsSettled host ethers client.trusted_server_public_key
          (record { endpoint = build_receipt_endpoint asked.path; request_body_text = body })
          res
unfolding request
request-IsSettled host ethers client asked calls res h =
    elim (Result-cases (build_url client.gateway_url asked.path)) [
      | inr (error, bad) ↦ cc (rw bad at h)
      | inl (url, built) ↦ elim (Result-cases (serialize_request_body asked.body)) [
        | inr (error, bad) ↦ cc (rw (built, bad) at h)
        | inl (body, serialized) ↦ (
          body,
          serialized,
          Ends-eq_ok _ res (first-Ends host ethers client _ asked url body calls)
              (rw (built, serialized) at h),
        )
      ]
    ]
