-- ===== src/Sdk/Client/Escapes.antt =====
-- sdk/typescript/src/client.ts: every way in which `request` throws, step by step.
use micro_ai_paygate.Prelude.{
  String, Text, Option, not, Bool, true, false, ◌==◌, ◌≡◌, refl, ap, sym, ◌∙◌, ◌∷◌, arith, inl, inr,
  [],
}
use micro_ai_paygate.Js.Exec.{ok, throw, lift, ◌>>=◌}
use micro_ai_paygate.Js.Ends.{
  Ends, Ends-throw, Ends-lift, Ends-if, Ends-bind, Ends-eq_throw, Ends-rethrow, Result-cases,
}
use micro_ai_paygate.Js.Host.{Host, Ethers}
use micro_ai_paygate.Sdk.Types.{
  PaymentContext, HeaderRecord, fetched, signed, PaygateRequest, Response, is_ok, ErrorCode, Body,
  Fault, Thrown, sdk, foreign, Calls, from_outside,
}
use micro_ai_paygate.Sdk.Url.{build_url}
use micro_ai_paygate.Sdk.Payment.{sign_payment_context, build_payment_typed_data}
use micro_ai_paygate.Sdk.Receipts.Fetch.{call_fetcher}
use micro_ai_paygate.Sdk.Microai.{read_payment_context, micro_ai_protocol}
use micro_ai_paygate.Sdk.Client.{
  PaygateClient, serialize_request_body, build_request_init, fetch_or_throw,
}
use micro_ai_paygate.Sdk.Client.Exchange.{with_micro_ai}
use micro_ai_paygate.Sdk.Client.Refusals.{same_throw}
use micro_ai_paygate.Sdk.Client.Errors.{
  Escape, Thrown-Escape, IsAnswered, IsLater, body-Escape, read_success_text-Escape,
  challenge_of_text-Escape,
}
use micro_ai_paygate.Sdk.Client.Reading.{from_outside-eq_ok}
use micro_ai_paygate.Sdk.Client.Receipt.{ReceiptContext, read_success}
use micro_ai_paygate.Sdk.Client.Request.{
  refuse, sign_or_throw, after_retry, signed_retry, answer_challenge, after_first, request,
}

true_of_not : (b : Bool) → not b ≡ false → b ≡ true
true_of_not true h = refl
true_of_not false h = cc

module _ (host : Host) (ethers : Ethers) (client : PaygateClient) (asked : PaygateRequest)
    (calls : Calls) where
  abbrev Outside : Thrown → Calls → Type 0
  Outside = Thrown-Escape host ethers client asked calls

  abbrev Fine {ℓ} : {A : Type ℓ} → A → Calls → Type 0
  Fine _ _ = Unit

  abbrev Answered : Response → Calls → Type 0
  Answered = IsAnswered host ethers client asked calls

  abbrev Later : Calls → Type 0
  Later = IsLater host ethers client asked calls

  abbrev micro_ai : PaygateClient
  micro_ai = with_micro_ai host ethers client

  IsAnswered-IsLater : (response : Response) (s : Calls) → Answered response s → Later s
  IsAnswered-IsLater response s a = (
    fetched a.url (build_request_init asked a.headers a.body) ∷ a.later.0,
    a.last ∙ ap (λ t. fetched a.url (build_request_init asked a.headers a.body) ∷ t) a.later.1,
  )

  text-Ends :
      (response : Response) (s : Calls)
      → Answered response s
      → Ends
          (λ text s'. Answered response s' × (response.text ≡ ok text))
          Outside
          (from_outside response.text, s)
  text-Ends response s came =
      Ends-lift _ s (λ text h. (came, from_outside-eq_ok _ text h))
        (λ e h. body-Escape host ethers client asked calls response s e came h)

  refuse-Ends :
      (code : ErrorCode) (message : String) (response : Response) (s : Calls)
      → Answered response s
      → Ends Fine Outside (refuse host ethers micro_ai code message response s)
  unfolding refuse
  refuse-Ends code message response s came =
      Ends-bind (lift (from_outside response.text)) _ s (text-Ends response s came)
        (λ _ s' _. Ends-throw _ s' tt)

  read_payment_context-Ends :
      (response : Response) (s : Calls)
      → Answered response s
      → Ends (λ payment s'. Later s') Outside (read_payment_context host response s)
  unfolding read_payment_context
  read_payment_context-Ends response s came =
      Ends-bind (lift (from_outside response.text)) _ s (text-Ends response s came) (λ text s' read.
        Ends-lift _ s' (λ _ _. IsAnswered-IsLater response s' read.0)
          (λ e h. challenge_of_text-Escape host ethers client asked calls response text e s' h))

  sign_or_throw-Ends :
      (payment : PaymentContext) (s : Calls)
      → Later s
      → Ends (λ signature s'. Later s') Outside (sign_or_throw host ethers micro_ai payment s)
  unfolding sign_or_throw micro_ai_protocol sign_payment_context
  sign_or_throw-Ends payment s (added, same) =
      Ends-rethrow {Q' = Fine} _ (sign_payment_context ethers client.signer payment) s
        (Ends-lift _ _
          (λ _ _. (
            signed (build_payment_typed_data ethers payment) ∷ added,
            ap (λ t. signed (build_payment_typed_data ethers payment) ∷ t) same,
          ))
          (λ _ _. tt))
        (λ _ _ _. tt)

  module _ (url : Text) (body : Option Text) (context : ReceiptContext)
      (built : build_url client.gateway_url asked.path ≡ ok url)
      (serialized : serialize_request_body asked.body ≡ ok body)
      (hashed : context.request_body_text ≡ body) where
    fetch_or_throw-Ends :
        (headers : HeaderRecord) (s : Calls)
        → Later s
        → Ends Answered Outside
            (fetch_or_throw micro_ai url (build_request_init asked headers body) s)
    unfolding fetch_or_throw call_fetcher
    fetch_or_throw-Ends headers s later =
        Ends-rethrow {Q' = Fine} _
          (call_fetcher client.fetcher url (build_request_init asked headers body)) s
          (Ends-lift _ _
            (λ response h. record {
              url = url;
              body = body;
              headers = headers;
              before = s;
              built = built;
              serialized = serialized;
              later = later;
              last = refl;
              answered = from_outside-eq_ok _ response h;
            })
            (λ _ _. tt))
          (λ _ _ _. tt)

    read_success-Ends :
        (response : Response) (s : Calls)
        → Answered response s
        → is_ok response ≡ true
        → Ends Fine Outside (read_success host ethers micro_ai response context s)
    unfolding read_success
    read_success-Ends response s came fine =
        Ends-bind (lift (from_outside response.text)) _ s (text-Ends response s came)
          (λ text s' read.
            Ends-lift _ s' (λ _ _. tt)
              (λ e h.
                read_success_text-Escape host ethers client asked calls response context text e s'
                  read.0 fine (serialized ∙ ap ok (sym hashed)) read.1 h))

    after_retry-Ends :
        (response : Response) (s : Calls)
        → Answered response s
        → Ends Fine Outside (after_retry host ethers micro_ai context response s)
    unfolding after_retry
    after_retry-Ends response s came =
        Ends-if (not (is_ok response)) _ _ s (λ _. refuse-Ends _ _ response s came)
          (λ fine. read_success-Ends response s came (true_of_not _ fine))

    signed_retry-Ends :
        (payment : PaymentContext) (s : Calls)
        → Later s
        → Ends Fine Outside (signed_retry host ethers micro_ai asked url body context payment s)
    unfolding signed_retry
    signed_retry-Ends payment s later =
        Ends-bind (sign_or_throw host ethers micro_ai payment) _ s
          (sign_or_throw-Ends payment s later)
          (λ signature s' later'.
            Ends-bind
              (fetch_or_throw micro_ai url (
                build_request_init asked (micro_ai.protocol.build_signed_headers payment signature)
                  body))
              _ s' (fetch_or_throw-Ends _ s' later')
              (λ retry s'' came. after_retry-Ends retry s'' came))

    after_first-Ends :
        (response : Response) (s : Calls)
        → Answered response s
        → Ends Fine Outside (after_first host ethers micro_ai asked url body context response s)
    unfolding after_first answer_challenge micro_ai_protocol
    after_first-Ends response s came =
        Ends-if (not (response.status == 402)) _ _ s
          (λ _.
            Ends-if (not (is_ok response)) _ _ s (λ _. refuse-Ends _ _ response s came)
              (λ fine. read_success-Ends response s came (true_of_not _ fine)))
          (λ _.
            Ends-bind (read_payment_context host response) _ s
              (read_payment_context-Ends response s came)
              (λ payment s' later. signed_retry-Ends payment s' later))

    first-Ends : Ends Fine Outside (
        (fetch_or_throw micro_ai url (build_request_init asked [] body)
            >>= after_first host ethers micro_ai asked url body context)
          calls)
    first-Ends =
        Ends-bind (fetch_or_throw micro_ai url (build_request_init asked [] body)) _ calls
          (fetch_or_throw-Ends [] calls ([], refl))
          (λ response s' came. after_first-Ends response s' came)

  build_url-Escape :
      (base path : Text) (e : Thrown) (s : Calls) → build_url base path ≡ throw e → Outside e s
  unfolding build_url
  build_url-Escape base path (sdk error) s h = tt
  build_url-Escape base path (foreign fault) s h = ground arith

  serialize-Escape :
      (body : Option Body) (e : Thrown) (s : Calls)
      → serialize_request_body body ≡ throw e
      → Outside e s
  unfolding serialize_request_body
  serialize-Escape body (sdk error) s h = tt
  serialize-Escape body (foreign fault) s h = ground arith

  -- What a request with the default adapter throws is an error of the SDK's own class, unless the
  -- last of its calls is a fetch of its URL with its method and body that gave a response, and then
  -- either the body of this response could not be read and this is the error, or the response was
  -- `ok`, and ethers refused to turn the text of its body, or that of the request, into bytes and
  -- this is the error.
  pub request-Escape :
      (fault : Fault)
      → (request host ethers (with_micro_ai host ethers client) asked calls).0
        ≡ throw (foreign fault)
      → Escape host ethers client asked calls
          (request host ethers (with_micro_ai host ethers client) asked calls).1
          fault
  unfolding request
  request-Escape fault h = elim (Result-cases (build_url client.gateway_url asked.path)) [
    | inr (error, bad) ↦
        build_url-Escape client.gateway_url asked.path (foreign fault) _
          (same_throw bad (rw bad at h))
    | inl (url, built) ↦ elim (Result-cases (serialize_request_body asked.body)) [
      | inr (error, bad) ↦
          serialize-Escape asked.body (foreign fault) _ (same_throw bad (rw (built, bad) at h))
      | inl (body, serialized) ↦
          rw (built, serialized)
            (Ends-eq_throw _ (foreign fault) (first-Ends url body _ built serialized refl)
              (rw (built, serialized) at h))
    ]
  ]
