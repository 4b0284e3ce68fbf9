-- ===== src/Sdk/Client/Reading.antt =====
-- sdk/typescript/src/client.ts and protocol/microai.ts: reading a response makes no call, and what
-- reading a challenge has seen.
use micro_ai_paygate.Prelude.{
  Text, some, not, ◌≡◌, refl, true, inl, inr, Bool-cases, Option-cases, String,
}
use micro_ai_paygate.Js.Json.{Json}
use micro_ai_paygate.Js.Exec.{Result, ok, throw, lift}
use micro_ai_paygate.Js.Ends.{Ends, Ends-throw, Ends-lift, Ends-if, Ends-bind}
use micro_ai_paygate.Js.Host.{Host, Ethers}
use micro_ai_paygate.Sdk.Types.{
  PaymentContext, Response, is_ok, ErrorCode, Calls, from_outside, Fault,
}
use micro_ai_paygate.Sdk.Receipts.{member}
use micro_ai_paygate.Sdk.Microai.{is_payment_context, as_payment_context, challenge_of_text}
use micro_ai_paygate.Sdk.Client.{PaygateClient}
use micro_ai_paygate.Sdk.Client.Receipt.{ReceiptContext, read_success}
use micro_ai_paygate.Sdk.Client.Request.{refuse, after_retry}

-- Reading a response makes no call.
module _ (host : Host) (ethers : Ethers) (client : PaygateClient) (calls : Calls) where
  abbrev pub Stays : {A : Type 0} → A → Calls → Type 0
  Stays _ s = s ≡ calls

  pub refuse-calls :
      (code : ErrorCode) (message : String) (response : Response)
      → Ends Stays Stays (refuse host ethers client code message response calls)
  unfolding refuse
  refuse-calls code message response =
      Ends-bind (lift (from_outside response.text)) _ calls
        (Ends-lift _ calls (λ _ _. refl) (λ _ _. refl)) (λ text s same. Ends-throw _ s same)

  pub read_success-calls :
      (response : Response) (context : ReceiptContext)
      → Ends Stays Stays (read_success host ethers client response context calls)
  unfolding read_success
  read_success-calls response context =
      Ends-bind (lift (from_outside response.text)) _ calls
        (Ends-lift _ calls (λ _ _. refl) (λ _ _. refl))
        (λ text s same. Ends-lift _ s (λ _ _. same) (λ _ _. same))

  pub after_retry-calls :
      (response : Response) (context : ReceiptContext)
      → Ends Stays Stays (after_retry host ethers client context response calls)
  unfolding after_retry
  after_retry-calls response context =
      Ends-if (not (is_ok response)) _ _ calls (λ _. refuse-calls _ _ response)
        (λ _. read_success-calls response context)

pub from_outside-eq_ok :
    {A : Type 0} (r : Result Fault A) (a : A) → from_outside r ≡ ok a → r ≡ ok a
from_outside-eq_ok (ok b) a h = cc
from_outside-eq_ok (throw e) a h = cc

-- A challenge that is read is a valid payment context of the parsed body.
pub challenge_of_text-valid :
    (host : Host) (response : Response) (body_text : Text) (context : PaymentContext)
    → challenge_of_text host response body_text ≡ ok context
    → (parsed : Json) × (host.parse body_text ≡ some parsed)
      × (is_payment_context (member "paymentContext" parsed) ≡ true)
      × (context ≡ as_payment_context (member "paymentContext" parsed))
unfolding challenge_of_text
challenge_of_text-valid host response body_text context h =
    elim (Option-cases (host.parse body_text)) [
      | inl bad ↦ cc (rw (bad, challenge_of_text) at h)
      | inr (parsed, good) ↦
          elim (Bool-cases (is_payment_context (member "paymentContext" parsed))) [
            | inl valid ↦ (parsed, good, valid, cc (rw (good, challenge_of_text, valid) at h))
            | inr invalid ↦ cc (rw (good, challenge_of_text, invalid) at h)
          ]
    ]
