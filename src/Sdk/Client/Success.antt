-- ===== src/Sdk/Client/Success.antt =====
-- sdk/typescript/src/client.ts: what a response that `request` returns has been checked for.
use mathlib.Core.Path.{subst}
use micro_ai_paygate.Prelude.{
  ℕ, Text, text_eq_iff, Bool, true, false, Option, none, some, ◌≡◌, refl, ◌≤◌, ◌<◌, inl, inr,
  Option-cases, arith, ap, sym, ◌∙◌, ◌||◌,
}
use micro_ai_paygate.Js.Json.{Json}
use micro_ai_paygate.Js.Exec.{Result, ok, throw, lift}
use micro_ai_paygate.Js.Ends.{Ends, Ends-lift, Ends-bind, Result-cases}
use micro_ai_paygate.Js.Host.{Host, Ethers}
use micro_ai_paygate.Sdk.Types.{
  SignedReceipt, PaygateResponse, Response, is_ok, Thrown, Calls, from_outside,
}
use micro_ai_paygate.Sdk.Receipts.Verify.{verify_receipt}
use micro_ai_paygate.Sdk.Client.{PaygateClient}
use micro_ai_paygate.Sdk.Client.Receipt.{
  ReceiptContext, hash_body, hash_matches, receipt_matches_payload, and_then, receipt_verified,
  is_undefined, settle, parse_payload, read_success_text, read_success,
}
use micro_ai_paygate.Sdk.Client.Request.{request}

ok-injective : {E A : Type 0} {a b : A} → ◌≡◌ {A = Result E A} (ok a) (ok b) → a ≡ b
ok-injective h = cc

and_then-eq_true :
    (host : Host) (ethers : Ethers) (a b : Result Thrown Bool)
    → and_then host ethers a b ≡ ok true
    → (a ≡ ok true) × (b ≡ ok true)
and_then-eq_true host ethers (ok true) b h = (refl, h)
and_then-eq_true host ethers (ok false) b h = cc
and_then-eq_true host ethers (throw error) b h = cc

is_ok_bounds :
    (response : Response)
    → is_ok response ≡ true
    → (200 ≤ response.status) × (response.status < 300)
is_ok_bounds response h = ground arith

module _ (host : Host) (ethers : Ethers) where
  -- The receipt names the endpoint, and carries the hashes of both bodies.
  pub record IsBound (context : ReceiptContext) (signed : SignedReceipt) (payload : Json)
      : Type 0 where
    pub response_text : Text
    pub parses : host.parse response_text ≡ some payload
    pub endpoint : signed.receipt.service.endpoint ≡ context.endpoint
    pub request_hash :
        hash_body host ethers context.request_body_text ≡ ok signed.receipt.service.request_hash
    pub response_hash :
        hash_body host ethers (some response_text) ≡ ok signed.receipt.service.response_hash

  -- The flag tells whether the signature verified against the trusted key; with a trusted key no
  -- other receipt passes, and without one no receipt counts as verified.
  abbrev pub IsTrusted : Option Text → SignedReceipt → Bool → Type 0
  IsTrusted none signed verified = verified ≡ false
  IsTrusted (some key) signed verified =
      (verified ≡ true) × (verify_receipt host ethers signed (some key) ≡ true)

  abbrev pub IsChecked :
      Option Text → ReceiptContext → PaygateResponse → Option SignedReceipt → Type 0
  IsChecked trusted context res none = res.receipt_verified ≡ none
  IsChecked trusted context res (some signed) =
      (verified : Bool) × (res.receipt_verified ≡ some verified)
      × IsBound context signed res.payload
      × IsTrusted trusted signed verified

  pub record IsSettled (trusted : Option Text) (context : ReceiptContext) (res : PaygateResponse)
      : Type 0 where
    pub status : (200 ≤ res.status) × (res.status < 300)
    pub checked : IsChecked trusted context res res.receipt

  hash_matches-eq_true :
      (hash : Text) (body_text : Option Text)
      → hash_matches host ethers hash body_text ≡ ok true
      → hash_body host ethers body_text ≡ ok hash
  unfolding hash_matches
  hash_matches-eq_true hash body_text h = elim (Result-cases (hash_body host ethers body_text)) [
    | inl (expected, e) ↦
        e ∙ ap ok (sym ((text_eq_iff hash expected).0 (ok-injective (rw (e, hash_matches) at h))))
    | inr (error, e) ↦ cc (rw (e, hash_matches) at h)
  ]

  receipt_matches_payload-eq_true :
      (signed : SignedReceipt) (context : ReceiptContext) (text : Text)
      → receipt_matches_payload host ethers signed context text ≡ ok true
      → (signed.receipt.service.endpoint ≡ context.endpoint)
        × (hash_body host ethers context.request_body_text ≡ ok signed.receipt.service.request_hash)
        × (hash_body host ethers (some text) ≡ ok signed.receipt.service.response_hash)
  unfolding receipt_matches_payload
  receipt_matches_payload-eq_true signed context text h =
      let service = signed.receipt.service in
      let (here, later) = and_then-eq_true host ethers _ _ h in
      let (request, response) = and_then-eq_true host ethers _ _ later in
      (
        (text_eq_iff service.endpoint context.endpoint).0 (ok-injective here),
        hash_matches-eq_true service.request_hash context.request_body_text request,
        hash_matches-eq_true service.response_hash (some text) response,
      )

  -- Where the code goes on, the flag is what the keys say.
  verdict-IsTrusted :
      (trusted : Option Text) (signed : SignedReceipt)
      → (receipt_verified host ethers trusted signed || is_undefined host ethers trusted) ≡ true
      → IsTrusted trusted signed (receipt_verified host ethers trusted signed)
  unfolding receipt_verified
  verdict-IsTrusted none signed h = refl
  verdict-IsTrusted (some key) signed h = (ground arith, ground arith)

  settle-eq_ok :
      (client : PaygateClient) (status : ℕ) (payload : Json) (signed : SignedReceipt)
      (matches : Bool) (res : PaygateResponse)
      → settle host ethers client status payload signed matches ≡ ok res
      → (matches ≡ true)
        × (res.payload ≡ payload)
        × (res.receipt ≡ some signed)
        × (res.status ≡ status)
        × ((verified : Bool) × (res.receipt_verified ≡ some verified)
            × IsTrusted client.trusted_server_public_key signed verified)
  unfolding settle
  settle-eq_ok client status payload signed false res h = cc
  settle-eq_ok client status payload signed true res h = (
    refl,
    ground arith,
    ground arith,
    ground arith,
    (
      receipt_verified host ethers client.trusted_server_public_key signed,
      ground arith,
      verdict-IsTrusted client.trusted_server_public_key signed (ground arith),
    ),
  )

  module _ (client : PaygateClient) (context : ReceiptContext) where
    abbrev pub Settled : PaygateResponse → Calls → Type 0
    Settled res s = IsSettled client.trusted_server_public_key context res

    bound_receipt :
        (response : Response) (text : Text) (payload : Json) (signed : SignedReceipt)
        (matches : Bool) (res : PaygateResponse)
        → is_ok response ≡ true
        → host.parse text ≡ some payload
        → receipt_matches_payload host ethers signed context text ≡ ok matches
        → settle host ethers client response.status payload signed matches ≡ ok res
        → IsSettled client.trusted_server_public_key context res
    bound_receipt response text payload signed matches res fine parses same h =
        let (matched, same_payload, same_receipt, same_status, (verified, flag, trusted)) =
          settle-eq_ok client response.status payload signed matches res h in
        let (endpoint, request_hash, response_hash) =
          receipt_matches_payload-eq_true signed context text (same ∙ ap ok matched) in
        let bounds = is_ok_bounds response fine in
        record {
          status = rw same_status bounds;
          checked =
              subst (IsChecked client.trusted_server_public_key context res) (sym same_receipt) (
                verified,
                flag,
                record {
                  response_text = text;
                  parses = parses ∙ ap some (sym same_payload);
                  endpoint = endpoint;
                  request_hash = request_hash;
                  response_hash = response_hash;
                },
                trusted,
              );
        }

    read_success_text-eq_ok :
        (response : Response) (text : Text) (res : PaygateResponse)
        → is_ok response ≡ true
        → read_success_text host ethers client response context text ≡ ok res
        → IsSettled client.trusted_server_public_key context res
    unfolding read_success_text parse_payload
    read_success_text-eq_ok response text res fine h = elim (Option-cases (host.parse text)) [
      | inl bad ↦ cc (rw (bad, read_success_text) at h)
      | inr (payload, parses) ↦ elim (Result-cases (client.protocol.read_receipt response)) [
        | inr (error, bad) ↦ cc (rw (parses, read_success_text, bad) at h)
        | inl (none, found) ↦
            subst (λ (r : PaygateResponse). IsSettled client.trusted_server_public_key context r)
              (ok-injective (rw (parses, read_success_text, found) at h))
              (record { status = is_ok_bounds response fine; checked = refl })
        | inl (some signed, found) ↦
            elim (Result-cases (receipt_matches_payload host ethers signed context text)) [
              | inr (error, bad) ↦ cc (rw (parses, read_success_text, found, bad) at h)
              | inl (matches, same) ↦
                  bound_receipt response text payload signed matches res fine parses same
                    (rw (parses, read_success_text, found, same) at h)
            ]
      ]
    ]

    pub read_success-Ends :
        (response : Response) (s : Calls)
        → is_ok response ≡ true
        → Ends Settled (λ _ _. Unit) (read_success host ethers client response context s)
    unfolding read_success
    read_success-Ends response s fine =
        Ends-bind (lift (from_outside response.text)) _ s
          (Ends-lift {P = λ _ _. Unit} _ s (λ _ _. tt) (λ _ _. tt))
          (λ text s' _.
            Ends-lift _ s' (λ res h. read_success_text-eq_ok response text res fine h) (λ _ _. tt))
