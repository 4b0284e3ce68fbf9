-- ===== src/Web/SmokeTest.antt =====
-- web/scripts/deployed-smoke-test.ts: the script that walks the whole flow against deployed services.
--
-- The state is the calls made so far, newest first, the checks that the script has printed, newest
-- first, and the count of those that failed. What a service or the wallet answers may depend on all the
-- calls before. The challenge is taken at its word, as in the page; one with no context throws where
-- it is read and not at its first use, with no call between.
pub mod Main
pub mod Exits
mod Tests
use micro_ai_paygate.Prelude.{
  ℕ, suc, ◌-◌, String, Text, codes, text_eq, Bool, true, false, not, ◌&&◌, Option, none, some, List,
  [], ◌∷◌, ◌++◌, ◌==◌, if◌then◌else◌,
}
use micro_ai_paygate.Js.Json.{Json, str, null, obj, field, end, int, pos, prop}
use micro_ai_paygate.Js.Stringify.{stringify, number_text}
use micro_ai_paygate.Js.Exec.{Result, ok, throw, Exec, pure, lift, ◌>>=◌, ◌>>◌}
use micro_ai_paygate.Js.Host.{Host, Ethers}
use micro_ai_paygate.Sdk.Types.{
  PaymentContext, HeaderRecord, RequestInit, Response, Fault, TypedData, Call, fetched, signed,
  Calls, FetchLike,
}
use micro_ai_paygate.Sdk.Microai.{as_payment_context}
use micro_ai_paygate.Web.Errors.{is_truthy}
use micro_ai_paygate.Web.X402Client.{optional, type_error}
use micro_ai_paygate.Web.X402Client.Requests.{typed_data_to_sign}

pub record Script : Type 0 where
  pub calls : Calls
  pub checks : List (String × Bool)
  pub failures : ℕ

abbrev pub Scripted : Type 0 → Type 0
Scripted A = Exec Script Fault A

-- What the script is run with: the three addresses, the services, its wallet, and the functions of the
-- host and of ethers that it calls. `none` stands for a throw.
pub record Setting : Type 0 where
  pub gateway : Text
  pub verifier : Text
  pub origin : Text
  pub fetch : FetchLike
  pub sign : Calls → TypedData → Result Fault Text
  pub address : Text
  pub host : Host
  pub ethers : Ethers
  pub get_address : Text → Option Text
  pub atob : Text → Option Text
  pub to_text : Json → Option Text
  pub now_seconds : ℕ

-- `rec(label, ok, detail)`
abbrev pub rec : String → Bool → Scripted Unit
rec label passed s = (
  ok tt,
  record s {
    checks = (label, passed) ∷ s.checks;
    failures = if not passed then suc s.failures else s.failures;
  },
)

-- The value of a function of the host that may throw.
abbrev pub or_throw : {A : Type 0} → Option A → Result Fault A
or_throw none = throw type_error
or_throw (some a) = ok a

abbrev pub is_present : Option Text → Bool
is_present (some (c ∷ s)) = true
is_present t = false

module _ (w : Setting) where
  -- `timedFetch(url, init)`
  abbrev pub timed_fetch : Text → RequestInit → Scripted Response
  timed_fetch url init s =
      (w.fetch s.calls url init, record s { calls = fetched url init ∷ s.calls })

  abbrev pub body_of : Text → Option Text
  body_of input = some (stringify (obj (field "text" (str input) end)))

  -- `(await r.json()).paymentContext`
  unfoldable pub context_in : Option Json → Result Fault PaymentContext
  unfolding as_payment_context
  context_in none = throw type_error
  context_in (some null) = throw type_error
  context_in (some context) = ok (as_payment_context context)

  unfoldable pub context_of : Result Fault Text → Result Fault PaymentContext
  unfolding context_in prop
  context_of (throw fault) = throw fault
  context_of (ok body) = elim (w.host.parse body) [
    | none ↦ throw type_error
    | some v ↦ context_in (prop "paymentContext" v)
  ]

  -- `getChallenge()`
  unfoldable pub get_challenge : Scripted PaymentContext
  unfolding stringify context_of
  get_challenge = do
    r ← timed_fetch (w.gateway ++ codes "/api/ai/summarize") (record {
      method = codes "POST";
      headers = ("Content-Type", codes "application/json") ∷ ("Origin", w.origin) ∷ [];
      body = body_of (codes "smoke");
    })
    lift (context_of r.text)

  -- `signCtx(wallet, ctx)`
  unfoldable pub sign_ctx : PaymentContext → Scripted Text
  unfolding typed_data_to_sign
  sign_ctx ctx s =
      let typed = typed_data_to_sign w.ethers ctx in
      (w.sign s.calls typed, record s { calls = signed typed ∷ s.calls })

  -- `postSigned(ctx, sig)`: the body of the response is read too, and its text is not used.
  unfoldable pub post_signed : PaymentContext → Text → Scripted Response
  unfolding stringify number_text
  post_signed ctx sig = do
    r ← timed_fetch (w.gateway ++ codes "/api/ai/summarize") (record {
      method = codes "POST";
      headers =
          ("Content-Type", codes "application/json")
          ∷ ("Origin", w.origin)
          ∷ ("X-402-Signature", sig)
          ∷ ("X-402-Nonce", ctx.nonce)
          ∷ ("X-402-Timestamp", number_text ctx.timestamp)
          ∷ [];
      body = body_of (codes "smoke test summarize");
    })
    body ← lift r.text
    pure r

  -- `ethers.getAddress(ctx.recipient) === ctx.recipient`, false where it throws
  unfoldable pub is_canonical : Text → Bool
  unfolding text_eq
  is_canonical recipient = elim (w.get_address recipient) [
    | none ↦ false
    | some address ↦ text_eq address recipient
  ]

  -- `r?.payment?.payer?.toLowerCase() === wallet.address.toLowerCase()`
  unfoldable pub is_payer : Option Json → Result Fault Bool
  unfolding text_eq
  is_payer none = ok false
  is_payer (some null) = ok false
  is_payer (some (str payer)) =
      ok (text_eq (w.host.to_lower_case payer) (w.host.to_lower_case w.address))
  is_payer (some v) = throw type_error

  -- `JSON.parse(atob(receiptHeader)).receipt`, with the parsed value
  unfoldable pub decode : Text → Result Fault Json
  decode header = elim (w.atob header) [
    | none ↦ throw type_error
    | some s ↦ elim (w.host.parse s) [
      | none ↦ throw type_error
      | some null ↦ throw type_error
      | some decoded ↦ ok decoded
    ]
  ]

  -- The checks of the receipt, which give its id.
  unfoldable pub check_receipt : Option Text → Scripted (Option Json)
  unfolding decode is_truthy optional is_payer
  check_receipt (some (c ∷ header)) = do
    decoded ← lift (decode (c ∷ header))
    let r = optional "receipt" (some decoded)
    rec "receipt has id + signature"
        (is_truthy (optional "id" r) && is_truthy (optional "signature" (some decoded)))
    same ← lift (is_payer (optional "payer" (optional "payment" r)))
    rec "receipt.payment.payer matches signer" same
    pure (optional "id" r)
  check_receipt header = pure none
