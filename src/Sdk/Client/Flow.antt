-- ===== src/Sdk/Client/Flow.antt =====
-- sdk/typescript/src/client.ts: which calls `request` makes, and in which order.
use mathlib.Core.Path.{subst}
use micro_ai_paygate.Prelude.{Text, Option, ◌∷◌, not, ◌==◌, ◌≡◌, refl, sym, inl, inr, arith}
use micro_ai_paygate.Js.Exec.{ok, lift, ◌>>=◌}
use micro_ai_paygate.Js.Ends.{
  Ends, Ends-lift, Ends-if, Ends-bind, Ends-rethrow, Ends-weaken, Ends-state, Result-cases,
}
use micro_ai_paygate.Js.Host.{Host, Ethers}
use micro_ai_paygate.Sdk.Types.{
  PaymentContext, PaygateRequest, RequestInit, Response, is_ok, Calls, fetched, signed,
  from_outside,
}
use micro_ai_paygate.Sdk.Url.{build_url, build_receipt_endpoint}
use micro_ai_paygate.Sdk.Payment.{build_payment_typed_data, sign_payment_context}
use micro_ai_paygate.Sdk.Receipts.Fetch.{call_fetcher}
use micro_ai_paygate.Sdk.Microai.{read_payment_context, micro_ai_protocol}
use micro_ai_paygate.Sdk.Client.{PaygateClient, serialize_request_body, fetch_or_throw}
use micro_ai_paygate.Sdk.Client.Receipt.{ReceiptContext}
use micro_ai_paygate.Sdk.Client.Exchange.{
  with_micro_ai, unsigned_init, IsSendable, IsChallenge, Exchange, unsent, unsigned, unretried,
  retried,
}
use micro_ai_paygate.Sdk.Client.Request.{
  sign_or_throw, signed_retry, answer_challenge, after_first, request,
}
use micro_ai_paygate.Sdk.Client.Reading.{
  refuse-calls, read_success-calls, after_retry-calls, from_outside-eq_ok, challenge_of_text-valid,
}

module _ (host : Host) (ethers : Ethers) (client : PaygateClient) (asked : PaygateRequest)
    (calls : Calls) (url : Text) (body : Option Text) where
  abbrev After : Calls → Type 0
  After = Exchange host ethers client asked calls

  abbrev opened : Calls
  opened = fetched url (unsigned_init host ethers client asked calls body) ∷ calls

  module _ (sendable : IsSendable host ethers client asked calls url body) where
    read_payment_context-Challenge :
        (response : Response)
        → client.fetcher calls url (unsigned_init host ethers client asked calls body) ≡ ok response
        → response.status ≡ 402
        → Ends
            (λ context s.
              IsChallenge host ethers client asked calls url body context × (s ≡ opened))
            (λ _ s. s ≡ opened)
            (read_payment_context host response opened)
    unfolding read_payment_context
    read_payment_context-Challenge response answered status =
        Ends-bind (lift (from_outside response.text)) _ opened
          (Ends-lift {P = λ text s. (response.text ≡ ok text) × (s ≡ opened)} _ opened
            (λ text h. (from_outside-eq_ok _ text h, refl)) (λ _ _. refl))
          (λ text s h.
            Ends-lift _ s
              (λ context e.
                let (parsed, parses, valid, same) =
                  challenge_of_text-valid host response text context e in
                (
                  record {
                    response = response;
                    body_text = text;
                    parsed = parsed;
                    answered = answered;
                    status = status;
                    read = h.0;
                    parses = parses;
                    valid = valid;
                    same = same;
                  },
                  h.1,
                ))
              (λ _ _. h.1))

    sign_or_throw-calls :
        (context : PaymentContext)
        → Ends
            (λ signature s.
              (client.signer opened (build_payment_typed_data ethers context) ≡ ok signature)
              × (s ≡ signed (build_payment_typed_data ethers context) ∷ opened))
            (λ _ s. s ≡ signed (build_payment_typed_data ethers context) ∷ opened)
            (sign_or_throw host ethers (with_micro_ai host ethers client) context opened)
    unfolding sign_or_throw micro_ai_protocol sign_payment_context
    sign_or_throw-calls context =
        Ends-rethrow _ (sign_payment_context ethers client.signer context) opened
          (Ends-lift _ _ (λ signature h. (from_outside-eq_ok _ signature h, refl)) (λ _ _. refl))
          (λ _ s h. h)

    fetch_or_throw-calls :
        (init : RequestInit) (before : Calls)
        → Ends
            (λ response s.
              (client.fetcher before url init ≡ ok response) × (s ≡ fetched url init ∷ before))
            (λ _ s. s ≡ fetched url init ∷ before)
            (fetch_or_throw (with_micro_ai host ethers client) url init before)
    unfolding fetch_or_throw call_fetcher
    fetch_or_throw-calls init before =
        Ends-rethrow _ (call_fetcher client.fetcher url init) before
          (Ends-lift _ _ (λ response h. (from_outside-eq_ok _ response h, refl)) (λ _ _. refl))
          (λ _ s h. h)

    -- What follows the challenge: the signature, the retry, and reading its response.
    signed_retry-Exchange :
        (context : ReceiptContext) (payment : PaymentContext)
        → IsChallenge host ethers client asked calls url body payment
        → Ends
            (λ _. After)
            (λ _. After)
            (signed_retry host ethers
              (with_micro_ai host ethers client)
              asked
              url
              body
              context
              payment
              opened)
    unfolding signed_retry micro_ai_protocol
    signed_retry-Exchange context payment challenge =
        Ends-bind (sign_or_throw host ethers (with_micro_ai host ethers client) payment) _ opened
          (Ends-weaken _ (sign_or_throw-calls payment) (λ _ _ h. h)
            (λ _ s h. unretried url body payment sendable challenge h))
          (λ signature s h.
            Ends-bind (fetch_or_throw (with_micro_ai host ethers client) url _) _ s
              (Ends-weaken _ (fetch_or_throw-calls _ s)
                (λ _ s' k.
                  retried url body payment signature sendable challenge h.0 (cc (k.1, h.1)))
                (λ _ s' k. retried url body payment signature sendable challenge h.0 (cc (k, h.1))))
              (λ retry s' done.
                Ends-weaken _ (after_retry-calls host ethers _ s' retry context)
                  (λ _ s'' same. subst After (sym same) done)
                  (λ _ s'' same. subst After (sym same) done)))

    answer_challenge-Exchange :
        (context : ReceiptContext) (response : Response)
        → client.fetcher calls url (unsigned_init host ethers client asked calls body) ≡ ok response
        → response.status ≡ 402
        → Ends
            (λ _. After)
            (λ _. After)
            (answer_challenge host ethers
              (with_micro_ai host ethers client)
              asked
              url
              body
              context
              response
              opened)
    unfolding answer_challenge micro_ai_protocol
    answer_challenge-Exchange context response answered status =
        Ends-bind (read_payment_context host response) _ opened
          (Ends-weaken _ (read_payment_context-Challenge response answered status) (λ _ _ h. h)
            (λ _ s h. unsigned url body sendable h))
          (λ payment s h.
            subst
              (λ (before : Calls).
                Ends (λ _. After) (λ _. After)
                  (signed_retry host ethers (with_micro_ai host ethers client) asked url body
                    context payment before))
              (sym h.1) (signed_retry-Exchange context payment h.0))

    after_first-Exchange :
        (context : ReceiptContext) (response : Response)
        → client.fetcher calls url (unsigned_init host ethers client asked calls body) ≡ ok response
        → Ends
            (λ _. After)
            (λ _. After)
            (after_first host ethers
              (with_micro_ai host ethers client)
              asked
              url
              body
              context
              response
              opened)
    unfolding after_first
    after_first-Exchange context response answered =
        Ends-if (not (response.status == 402)) _ _ opened
          (λ _.
            Ends-if (not (is_ok response)) _ _ opened
              (λ _.
                Ends-weaken _
                  (refuse-calls host ethers (with_micro_ai host ethers client) opened _ _ response)
                  sent sent)
              (λ _.
                Ends-weaken _
                  (read_success-calls host ethers (with_micro_ai host ethers client) opened response
                    context)
                  sent sent))
          (λ paid. answer_challenge-Exchange context response answered (ground arith))
      where
        sent : {A : Type 0} (a : A) (s : Calls) → s ≡ opened → After s
        sent a s same = unsigned url body sendable same

    first-Exchange :
        (context : ReceiptContext)
        → Ends
            (λ _. After)
            (λ _. After)
            ((fetch_or_throw
                  (with_micro_ai host ethers client)
                  url
                  (unsigned_init host ethers client asked calls body)
                >>= after_first host ethers
                    (with_micro_ai host ethers client)
                    asked
                    url
                    body
                    context)
              calls)
    first-Exchange context =
        Ends-bind (fetch_or_throw (with_micro_ai host ethers client) url _) _ calls
          (Ends-weaken _ (fetch_or_throw-calls _ calls) (λ _ _ h. h)
            (λ _ s h. unsigned url body sendable h))
          (λ response s h.
            subst
              (λ (before : Calls).
                Ends (λ _. After) (λ _. After)
                  (after_first host ethers (with_micro_ai host ethers client) asked url body context
                    response before))
              (sym h.1) (after_first-Exchange context response h.0))

-- The calls that a request adds are no more than: the unsigned request; after a 402 response with
-- a valid payment context, the signing of that context; and after the signature, one retry with
-- the same URL, method and body and the headers of the context and the signature.
pub request-Exchange :
    (host : Host) (ethers : Ethers) (client : PaygateClient) (asked : PaygateRequest)
    (calls : Calls)
    → Exchange host ethers client asked calls
        (request host ethers (with_micro_ai host ethers client) asked calls).1
unfolding request
request-Exchange host ethers client asked calls =
    elim (Result-cases (build_url client.gateway_url asked.path)) [
      | inr (error, bad) ↦ rw bad (unsent refl)
      | inl (url, built) ↦ rw built (elim (Result-cases (serialize_request_body asked.body)) [
        | inr (error, bad) ↦ rw bad (unsent refl)
        | inl (body, serialized) ↦ rw serialized (
            Ends-state _ _ (
              first-Exchange host ethers client asked calls url body
                (record { built = built; serialized = serialized })
                (record {
                  endpoint = build_receipt_endpoint asked.path;
                  request_body_text = body;
                })))
      ])
    ]
