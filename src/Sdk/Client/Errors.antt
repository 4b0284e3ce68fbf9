-- ===== src/Sdk/Client/Errors.antt =====
-- sdk/typescript/src/client.ts: what `request` can throw that is no `PaygateSdkError`.
use mathlib.Core.Path.{subst, ap, ◌∙◌}
use micro_ai_paygate.Prelude.{
  ℕ, Text, codes, ◌++◌, Option, none, some, ◌≡◌, ◌≢◌, ◌⊎◌, ◌∷◌, true, false, Bool, arith, inl, inr,
  [], refl, Option-cases,
}
use micro_ai_paygate.Js.Exec.{Result, ok, throw, rethrow_result}
use micro_ai_paygate.Js.Ends.{Result-cases}
use micro_ai_paygate.Js.Json.{Json}
use micro_ai_paygate.Js.Host.{Host, Ethers}
use micro_ai_paygate.Sdk.Types.{
  SignedReceipt, PaygateRequest, HeaderRecord, is_ok, fetched, Response, Fault, Thrown, SdkError,
  sdk, foreign, Calls, from_outside,
}
use micro_ai_paygate.Sdk.Receipts.{decode_receipt_header}
use micro_ai_paygate.Sdk.Microai.{challenge_of_text, read_receipt, micro_ai_protocol}
use micro_ai_paygate.Sdk.Url.{build_url}
use micro_ai_paygate.Sdk.Client.{PaygateClient, serialize_request_body, build_request_init}
use micro_ai_paygate.Sdk.Client.Refusals.{
  throw-injective, same_throw, IsRefused, receipt_matches_payload-IsRefused,
}
use micro_ai_paygate.Sdk.Client.Exchange.{with_micro_ai}
use micro_ai_paygate.Sdk.Client.Receipt.{
  ReceiptContext, receipt_matches_payload, settle, read_success_text,
}

rethrow_result-ne-foreign :
    {A : Type 0} (error : Thrown → SdkError) (r : Result Thrown A) (fault : Fault)
    → rethrow_result (λ e. sdk (error e)) r ≢ throw (foreign fault)
rethrow_result-ne-foreign error (ok a) fault h = cc
rethrow_result-ne-foreign error (throw e) fault h = cc

decode_receipt_header-ne-foreign :
    (host : Host) (text : Text) (fault : Fault)
    → decode_receipt_header host text ≢ throw (foreign fault)
unfolding decode_receipt_header
decode_receipt_header-ne-foreign host text fault h = rethrow_result-ne-foreign _ _ fault h

foreign-injective : {a b : Fault} → foreign a ≡ foreign b → a ≡ b
foreign-injective h = cc

-- A request, and the calls made before it.
module _ (host : Host) (ethers : Ethers) (client : PaygateClient) (asked : PaygateRequest)
    (calls : Calls) where
  abbrev pub IsLater : Calls → Type 0
  IsLater s = (added : Calls) × (s ≡ added ++ calls)

  -- The last call is one of the request: a fetch of its URL with its method and body, which gave the
  -- response.
  pub record IsAnswered (response : Response) (s : Calls) : Type 0 where
    pub url : Text
    pub body : Option Text
    pub headers : HeaderRecord
    pub before : Calls
    pub built : build_url client.gateway_url asked.path ≡ ok url
    pub serialized : serialize_request_body asked.body ≡ ok body
    pub later : IsLater before
    pub last : s ≡ fetched url (build_request_init asked headers body) ∷ before
    pub answered : client.fetcher before url (build_request_init asked headers body) ≡ ok response

  -- The two ways in which a value from outside leaves `request`, both right after a fetch of it that
  -- gave a response: the body of this response could not be read, or the response was `ok` and
  -- ethers refused the text of its body, or that of the request, which was to be hashed.
  pub data Escape (s : Calls) (fault : Fault) : Type 0 where
    unread :
        (response : Response) → IsAnswered response s → response.text ≡ throw fault → Escape s fault
    unhashed :
        (response : Response) (text : Text)
        → IsAnswered response s
        → is_ok response ≡ true
        → (serialize_request_body asked.body ≡ ok (some text)) ⊎ (response.text ≡ ok text)
        → ethers.to_utf8_bytes text ≡ none
        → fault ≡ record { message = codes "invalid codepoint" }
        → Escape s fault

  abbrev pub Thrown-Escape : Thrown → Calls → Type 0
  Thrown-Escape (sdk error) s = Unit
  Thrown-Escape (foreign fault) s = Escape s fault

  pub body-Escape :
      (response : Response) (s : Calls) (e : Thrown)
      → IsAnswered response s
      → from_outside response.text ≡ throw e
      → Thrown-Escape e s
  body-Escape response s e answered h = go response.text refl h
    where
      go :
          (r : Result Fault Text) → response.text ≡ r → from_outside r ≡ throw e → Thrown-Escape e s
      go (ok text) same k = cc
      go (throw fault) same k =
          subst (λ x. Thrown-Escape x s) (throw-injective k) (unread response answered same)

  refused-Escape :
      (response : Response) (s : Calls) (fault : Fault) (text : Option Text)
      → IsAnswered response s
      → is_ok response ≡ true
      → ((t : Text)
          → text ≡ some t
          → (serialize_request_body asked.body ≡ ok (some t)) ⊎ (response.text ≡ ok t))
      → IsRefused ethers (foreign fault) text
      → Escape s fault
  refused-Escape response s fault text answered fine which (t, same, bad, raised) =
      unhashed response t answered fine (which t same) bad (foreign-injective raised)

  read_receipt-Escape :
      (response : Response) (e : Thrown) (s : Calls)
      → read_receipt host response ≡ throw e
      → Thrown-Escape e s
  unfolding read_receipt
  read_receipt-Escape response (sdk error) s h = tt
  read_receipt-Escape response (foreign fault) s h = go (response.header "X-402-Receipt") refl
    where
      go : (o : Option Text) → response.header "X-402-Receipt" ≡ o → Escape s fault
      go none e = cc (rw (e, read_receipt) at h)
      go (some []) e = cc (rw (e, read_receipt) at h)
      go (some (c ∷ cs)) e = elim (Result-cases (decode_receipt_header host (c ∷ cs))) [
        | inl (receipt, good) ↦ cc (rw (e, read_receipt, good) at h)
        | inr (error, bad) ↦ absurd (
            decode_receipt_header-ne-foreign host (c ∷ cs) fault
              (same_throw bad (rw (e, read_receipt, bad) at h)))
      ]

  settle-Escape :
      (status : ℕ) (payload : Json) (signed : SignedReceipt) (matches : Bool) (e : Thrown)
      (s : Calls)
      → settle host ethers client status payload signed matches ≡ throw e
      → Thrown-Escape e s
  unfolding settle
  settle-Escape status payload signed matches (sdk error) s h = tt
  settle-Escape status payload signed false (foreign fault) s h = cc
  settle-Escape status payload signed true (foreign fault) s h = ground arith

  pub read_success_text-Escape :
      (response : Response) (context : ReceiptContext) (text : Text) (e : Thrown) (s : Calls)
      → IsAnswered response s
      → is_ok response ≡ true
      → serialize_request_body asked.body ≡ ok context.request_body_text
      → response.text ≡ ok text
      → read_success_text host ethers (with_micro_ai host ethers client) response context text
        ≡ throw e
      → Thrown-Escape e s
  unfolding read_success_text micro_ai_protocol
  read_success_text-Escape response context text (sdk error) s answered fine body read h = tt
  read_success_text-Escape response context text (foreign fault) s answered fine body read h =
      elim (Option-cases (host.parse text)) [
        | inl bad ↦ cc (rw (bad, read_success_text) at h)
        | inr (payload, parses) ↦ elim (Result-cases (read_receipt host response)) [
          | inr (error, bad) ↦
              read_receipt-Escape response (foreign fault) s
                (same_throw bad (rw (parses, read_success_text, bad) at h))
          | inl (none, found) ↦ cc (rw (parses, read_success_text, found) at h)
          | inl (some signed, found) ↦
              elim (Result-cases (receipt_matches_payload host ethers signed context text)) [
                | inr (error, bad) ↦
                    elim (receipt_matches_payload-IsRefused ethers host signed context text
                      (foreign fault)
                      (same_throw bad (rw (parses, read_success_text, found, bad) at h))) [
                        | inl asked_for ↦
                            refused-Escape response s fault _ answered fine
                              (λ t same. inl (body ∙ ap ok same)) asked_for
                        | inr given ↦
                            refused-Escape response s fault _ answered fine
                              (λ t same. inr (read ∙ ap ok (cc))) given
                      ]
                | inl (matches, same) ↦
                    settle-Escape response.status payload signed matches (foreign fault) s
                      (rw (parses, read_success_text, found, same) at h)
              ]
        ]
      ]

  pub challenge_of_text-Escape :
      (response : Response) (text : Text) (e : Thrown) (s : Calls)
      → challenge_of_text host response text ≡ throw e
      → Thrown-Escape e s
  unfolding challenge_of_text
  challenge_of_text-Escape response text (sdk error) s h = tt
  challenge_of_text-Escape response text (foreign fault) s h = ground arith
