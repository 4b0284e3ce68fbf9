-- ===== src/Web/VerifyReceipt/Lookup.antt =====
-- web/src/lib/verify-receipt.ts: which receipts the page finds at the gateway.
use mathlib.Core.Path.{subst}
use micro_ai_paygate.Prelude.{
  ◌≤◌, ◌<◌, arith, ◌≡◌, ◌≢◌, ◌↔◌, refl, sym, ap, codes, Text, ◌++◌, true, false, Option, none, some,
  ◌==◌, Option-cases, Bool-cases, inl, inr,
}
use micro_ai_paygate.Js.Json.{Json, null, bool, num, str, arr, obj, prop}
use micro_ai_paygate.Js.Exec.{Result, ok, throw}
use micro_ai_paygate.Js.Ends.{Result-cases}
use micro_ai_paygate.Js.Host.{Host}
use micro_ai_paygate.Sdk.Types.{Fault, Response, is_ok}
use micro_ai_paygate.Web.VerifyReceipt.{
  FetchedReceipt, parts_of, read_lookup, read_answer, fetch_receipt,
}

-- What the gateway answered where the page finds a receipt.
pub record IsFound (host : Host) (answer : Result Fault Response) (found : FetchedReceipt)
    : Type 0 where
  pub response : Response
  pub body_text : Text
  pub body : Json
  pub answered : answer ≡ ok response
  pub success : 200 ≤ response.status
  pub no_redirect : response.status < 300
  pub read : response.text ≡ ok body_text
  pub json : host.parse body_text ≡ some body
  pub there : body ≢ null
  pub has_receipt : found.receipt ≡ prop "receipt" body
  pub has_signature : found.signature ≡ prop "signature" body
  pub has_key : found.server_public_key ≡ prop "server_public_key" body

-- The properties of a body that is not `null`.
abbrev IsTaken : Json → FetchedReceipt → Type 0
IsTaken body found =
    (body ≢ null)
    × ((found.receipt ≡ prop "receipt" body)
        × (found.signature ≡ prop "signature" body)
        × (found.server_public_key ≡ prop "server_public_key" body))

some-injective : {a found : FetchedReceipt} → Option.some a ≡ some found → a ≡ found
some-injective h = cc

taken_iff :
    (receipt signature key : Option Json) (found : FetchedReceipt)
    → (some (record { receipt = receipt; signature = signature; server_public_key = key })
        ≡ some found)
      ↔ ((found.receipt ≡ receipt)
          × (found.signature ≡ signature)
          × (found.server_public_key ≡ key))
taken_iff receipt signature key found = (
  λ h.
      let same = some-injective h in
      (
        ap (λ (f : FetchedReceipt). f.receipt) (sym same),
        ap (λ (f : FetchedReceipt). f.signature) (sym same),
        ap (λ (f : FetchedReceipt). f.server_public_key) (sym same),
      ),
  λ h. rw (sym (h.0), sym (h.1), sym (h.2)) refl,
)

with_body : {P Q : Type 0} (body : Json) → body ≢ null → P ↔ Q → P ↔ ((body ≢ null) × Q)
with_body body there h = (λ p. (there, h.0 p), λ q. h.1 (q.1))

parts_of_iff :
    (body : Json) (found : FetchedReceipt) → (parts_of body ≡ some found) ↔ IsTaken body found
unfolding parts_of
parts_of_iff null found = (λ h. cc, λ h. elim (h.0 refl) [ ])
parts_of_iff (bool b) found = with_body (bool b) (λ e. cc) (taken_iff _ _ _ found)
parts_of_iff (num n) found = with_body (num n) (λ e. cc) (taken_iff _ _ _ found)
parts_of_iff (str s) found = with_body (str s) (λ e. cc) (taken_iff _ _ _ found)
parts_of_iff (arr xs) found = with_body (arr xs) (λ e. cc) (taken_iff _ _ _ found)
parts_of_iff (obj fs) found = with_body (obj fs) (λ e. cc) (taken_iff _ _ _ found)

is_ok-range :
    (response : Response)
    → is_ok response ≡ true
    → (200 ≤ response.status) × (response.status < 300)
is_ok-range response h = (ground arith, ground arith)

is_ok-true :
    (response : Response)
    → 200 ≤ response.status
    → response.status < 300
    → ((response.status == 404) ≡ false) × (is_ok response ≡ true)
is_ok-true response low high = (ground arith, ground arith)

read_lookup-IsFound :
    (host : Host) (response : Response) (found : FetchedReceipt)
    → read_lookup host response ≡ some found
    → IsFound host (ok response) found
unfolding read_lookup
read_lookup-IsFound host response found h = elim (Bool-cases (response.status == 404)) [
  | inl bad ↦ cc (rw bad at h)
  | inr there ↦ elim (Bool-cases (is_ok response)) [
    | inr bad ↦ cc (rw (there, bad) at h)
    | inl fine ↦ elim (Result-cases response.text) [
      | inr (fault, bad) ↦ cc (rw (there, fine, bad) at h)
      | inl (body_text, read) ↦ elim (Option-cases (host.parse body_text)) [
        | inl bad ↦ cc (rw (there, fine, read, bad) at h)
        | inr (body, json) ↦
            let range = is_ok-range response fine in
            let taken = (parts_of_iff body found).0 (rw (there, fine, read, json) at h) in
            record {
              response = response;
              body_text = body_text;
              body = body;
              answered = refl;
              success = range.0;
              no_redirect = range.1;
              read = read;
              json = json;
              there = taken.0;
              has_receipt = taken.1.0;
              has_signature = taken.1.1;
              has_key = taken.1.2;
            }
      ]
    ]
  ]
]

read_answer_iff :
    (host : Host) (answer : Result Fault Response) (found : FetchedReceipt)
    → (read_answer host answer ≡ some found) ↔ IsFound host answer found
unfolding read_answer read_lookup
read_answer_iff host (throw fault) found = (λ h. cc, λ f. cc (f.answered))
read_answer_iff host (ok response) found = (
  λ h. read_lookup-IsFound host response found h,
  λ f.
      let (missing, fine) = is_ok-true f.response f.success f.no_redirect in
      let parts : parts_of f.body ≡ some found =
        (parts_of_iff f.body found).1 (f.there, (f.has_receipt, f.has_signature, f.has_key)) in
      subst (λ answer. read_answer host answer ≡ some found) (sym f.answered)
        (rw (missing, fine, f.read, f.json) parts),
)

-- The page's `fetchReceipt` gives a receipt exactly if the fetch of the URL that is the gateway's
-- URL, `/api/receipts/` and the id gives a response with a status from 200 to 299 and a body that is
-- JSON other than `null`, and then it gives the properties `receipt`, `signature` and
-- `server_public_key` of that body. Without a gateway URL it takes `http://localhost:3000`.
pub fetch_receipt-some_iff :
    (host : Host) (fetch : Text → Result Fault Response) (receipt_id base : Text)
    (found : FetchedReceipt)
    → ((fetch_receipt host fetch receipt_id (some base) ≡ some found)
        ↔ IsFound host (fetch (base ++ (codes "/api/receipts/" ++ receipt_id))) found)
      × ((fetch_receipt host fetch receipt_id none ≡ some found)
          ↔ IsFound host
              (fetch (codes "http://localhost:3000" ++ (codes "/api/receipts/" ++ receipt_id)))
              found)
unfolding fetch_receipt
fetch_receipt-some_iff host fetch receipt_id base found =
    (read_answer_iff host _ found, read_answer_iff host _ found)
