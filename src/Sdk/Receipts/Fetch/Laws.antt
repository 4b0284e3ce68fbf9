-- ===== src/Sdk/Receipts/Fetch/Laws.antt =====
-- sdk/typescript/src/receipts.ts: what `fetchReceipt` returns, and what it throws.
use mathlib.Core.Path.{subst}
use micro_ai_paygate.Prelude.{
  Text, codes, ◌≡◌, ◌≢◌, refl, Option, none, some, ◌∷◌, ◌++◌, arith, inl, inr, Option-cases,
  Bool-cases, not, true, false, Bool, ◌==◌, ◌∙◌,
}
use micro_ai_paygate.Js.Json.{Json}
use micro_ai_paygate.Js.Exec.{Result, ok, throw, lift, rethrow_result, ◌>>=◌}
use micro_ai_paygate.Js.Ends.{
  Ends, Ends-ok, Ends-throw, Ends-lift, Ends-if, Ends-bind, Ends-rethrow, Ends-any, Ends-weaken,
  Ends-eq_ok, Result-cases,
}
use micro_ai_paygate.Js.Host.{Host}
use micro_ai_paygate.Sdk.Types.{
  SignedReceipt, Response, is_ok, Fault, Thrown, sdk, foreign, FetchLike, Calls, fetched,
  from_outside,
}
use micro_ai_paygate.Sdk.Url.{cut_slashes}
use micro_ai_paygate.Sdk.Receipts.{validate_receipt_format, as_signed_receipt}
use micro_ai_paygate.Sdk.Receipts.Fetch.{
  plain_get, call_fetcher, encode_id, read_json, check_shape, only_sdk_errors,
  read_receipt_response, fetch_steps, fetch_receipt,
}

not-eq_false : (b : Bool) → not b ≡ false → b ≡ true
not-eq_false true h = refl
not-eq_false false h = cc

from_outside-eq_ok : {A : Type 0} (r : Result Fault A) (a : A) → from_outside r ≡ ok a → r ≡ ok a
from_outside-eq_ok (ok b) a h = cc
from_outside-eq_ok (throw e) a h = cc

ok-injective : {E A : Type 0} {a b : A} → ◌≡◌ {A = Result E A} (ok a) (ok b) → a ≡ b
ok-injective h = cc

throw-injective : {E A : Type 0} {a b : E} → ◌≡◌ {A = Result E A} (throw a) (throw b) → a ≡ b
throw-injective h = cc

-- What the code has seen where it returns this result for a response.
abbrev pub IsAnswer : Host → Response → Option SignedReceipt → Type 0
IsAnswer host response none = response.status ≡ 404
IsAnswer host response (some signed) =
    (body_text : Text) × (body : Json) × (is_ok response ≡ true)
    × (response.text ≡ ok body_text)
    × (host.parse body_text ≡ some body)
    × (validate_receipt_format body ≡ true)
    × (signed ≡ as_signed_receipt body)

read_json-eq_ok :
    (host : Host) (response : Response) (body : Json)
    → read_json host response ≡ ok body
    → (text : Text) × (response.text ≡ ok text) × (host.parse text ≡ some body)
unfolding read_json
read_json-eq_ok host response body h = elim (Result-cases response.text) [
  | inr (fault, bad) ↦ cc (rw (read_json, bad) at h)
  | inl (text, read) ↦ elim (Option-cases (host.parse text)) [
    | inl bad ↦ cc (rw (read_json, read, bad) at h)
    | inr (parsed, parses) ↦ (text, read, parses ∙ cc (rw (read_json, read, parses) at h))
  ]
]

body-IsAnswer :
    (host : Host) (response : Response) (body : Json) (result : Option SignedReceipt)
    → is_ok response ≡ true
    → read_json host response ≡ ok body
    → check_shape response.status body ≡ ok result
    → IsAnswer host response result
unfolding check_shape
body-IsAnswer host response body result fine read h =
    let (text, arrived, parses) = read_json-eq_ok host response body read in
    elim (Bool-cases (validate_receipt_format body)) [
      | inr bad ↦ cc (rw bad at h)
      | inl valid ↦
          subst (IsAnswer host response) (ok-injective (rw valid at h))
            (text, body, fine, arrived, parses, valid, refl)
    ]

read_receipt_response-Ends :
    (host : Host) (response : Response) (s : Calls)
    → Ends
        (λ result s'. IsAnswer host response result × (s' ≡ s))
        (λ _ _. Unit)
        (read_receipt_response host response s)
unfolding read_receipt_response
read_receipt_response-Ends host response s =
    Ends-if (response.status == 404) _ _ s (λ missing. Ends-ok _ s (ground arith, refl))
      (λ _.
        Ends-if (not (is_ok response)) _ _ s
          (λ _.
            Ends-bind (lift (from_outside response.text)) _ s (Ends-any _)
              (λ text s' _. Ends-throw _ s' tt))
          (λ fine.
            Ends-bind (lift (read_json host response)) _ s
              (Ends-lift {P = λ body s'. (read_json host response ≡ ok body) × (s' ≡ s)} _ s
                (λ body h. (h, refl)) (λ _ _. tt))
              (λ body s' h.
                Ends-lift _ s'
                  (λ result k.
                    (body-IsAnswer host response body result (not-eq_false _ fine) h.0 k, h.1))
                  (λ _ _. tt))))

only_sdk_errors-ne-foreign : (e : Thrown) (fault : Fault) → only_sdk_errors e ≢ foreign fault
unfolding only_sdk_errors
only_sdk_errors-ne-foreign (sdk error) fault h = cc
only_sdk_errors-ne-foreign (foreign other) fault h = cc

rethrow_result-ne-foreign :
    (r : Result Thrown (Option SignedReceipt)) (fault : Fault)
    → rethrow_result only_sdk_errors r ≢ throw (foreign fault)
rethrow_result-ne-foreign (ok a) fault h = cc
rethrow_result-ne-foreign (throw e) fault h = only_sdk_errors-ne-foreign e fault (throw-injective h)

-- Every error that `fetchReceipt` throws is a `PaygateSdkError`, whatever the fetcher does.
pub fetch_receipt-ne-foreign :
    (host : Host) (fetcher : FetchLike) (receipt_id gateway_url : Text) (calls : Calls)
    (fault : Fault)
    → (fetch_receipt host fetcher receipt_id gateway_url calls).0 ≢ throw (foreign fault)
unfolding fetch_receipt
fetch_receipt-ne-foreign host fetcher receipt_id gateway_url calls fault h =
    rethrow_result-ne-foreign _ fault h

encode_id-eq_ok :
    (host : Host) (receipt_id id : Text)
    → encode_id host receipt_id ≡ ok id
    → host.encode_uri_component receipt_id ≡ some id
unfolding encode_id
encode_id-eq_ok host receipt_id id h = ground arith

-- The answer of the gateway to the one lookup that was made.
pub record IsLookup (host : Host) (fetcher : FetchLike) (receipt_id gateway_url : Text)
    (calls : Calls) (result : Option SignedReceipt) (after : Calls) : Type 0 where
  pub id : Text
  pub response : Response
  pub encoded : host.encode_uri_component receipt_id ≡ some id
  pub one_call :
      after ≡ fetched (cut_slashes gateway_url ++ codes "/api/receipts/" ++ id) plain_get ∷ calls
  pub answered :
      fetcher calls (cut_slashes gateway_url ++ codes "/api/receipts/" ++ id) plain_get
      ≡ ok response
  pub answer : IsAnswer host response result

abbrev Nothing : Thrown → Calls → Type 0
Nothing _ _ = Unit

IsLookup-Ends :
    (host : Host) (fetcher : FetchLike) (receipt_id gateway_url : Text) (calls : Calls) (id : Text)
    → host.encode_uri_component receipt_id ≡ some id
    → Ends (IsLookup host fetcher receipt_id gateway_url calls) Nothing (
        (call_fetcher fetcher (cut_slashes gateway_url ++ codes "/api/receipts/" ++ id) plain_get
            >>= read_receipt_response host)
          calls)
unfolding call_fetcher
IsLookup-Ends host fetcher receipt_id gateway_url calls id encoded =
    let url = cut_slashes gateway_url ++ codes "/api/receipts/" ++ id in
    Ends-bind (call_fetcher fetcher url plain_get) _ calls
      (Ends-lift
        {P = λ response s.
          (fetcher calls url plain_get ≡ ok response) × (s ≡ fetched url plain_get ∷ calls)}
        _ _ (λ response e. (from_outside-eq_ok _ response e, refl)) (λ _ _. tt))
      (λ response s called.
        Ends-weaken _ (read_receipt_response-Ends host response s)
          (λ result s' seen. record {
            id = id;
            response = response;
            encoded = encoded;
            one_call = seen.1 ∙ called.1;
            answered = called.0;
            answer = seen.0;
          })
          (λ _ _ _. tt))

-- Where `fetchReceipt` returns, it has made one call, to the receipt's URL below the gateway's;
-- the result is null for a 404 response, and else the receipt in the body of a response with a
-- status from 200 to 299 which has the shape of a signed receipt.
pub fetch_receipt-IsLookup :
    (host : Host) (fetcher : FetchLike) (receipt_id gateway_url : Text) (calls : Calls)
    (result : Option SignedReceipt)
    → (fetch_receipt host fetcher receipt_id gateway_url calls).0 ≡ ok result
    → IsLookup host fetcher receipt_id gateway_url calls result
        (fetch_receipt host fetcher receipt_id gateway_url calls).1
unfolding fetch_receipt
fetch_receipt-IsLookup host fetcher receipt_id gateway_url calls result h =
    elim (Option-cases (host.encode_uri_component receipt_id)) [
      | inl bad ↦ cc (rw (bad, encode_id) at h)
      | inr (id, encoded) ↦
          Ends-eq_ok {P = IsLookup host fetcher receipt_id gateway_url calls} {Q = Nothing} _ result
            (Ends-rethrow {Q' = Nothing} only_sdk_errors
              (fetch_steps host fetcher receipt_id gateway_url) calls
              (rw (fetch_steps, encode_id, encoded)
                (IsLookup-Ends host fetcher receipt_id gateway_url calls id encoded))
              (λ _ _ _. tt))
            h
    ]
