-- ===== src/Sdk/Client/Receipt.antt =====
-- sdk/typescript/src/client.ts: `hashBody`, `receiptMatchesPayload` and `readSuccess`, by which the
-- client binds a receipt to what it sent and received.
use micro_ai_paygate.Prelude.{
  ℕ, Text, codes, text_eq, Bool, true, false, not, Option, none, some, [], ◌++◌, drop,
  if◌then◌else◌,
}
use micro_ai_paygate.Js.Json.{Json}
use micro_ai_paygate.Js.Exec.{Result, ok, throw, lift, ◌>>=◌}
use micro_ai_paygate.Js.Host.{Host, Ethers}
use micro_ai_paygate.Sdk.Types.{
  SignedReceipt, PaygateResponse, Response, Thrown, foreign, network_error,
  receipt_verification_failed, from_outside, Sdk,
}
use micro_ai_paygate.Sdk.Receipts.Verify.{verify_receipt}
use micro_ai_paygate.Sdk.Client.{PaygateClient, failed_with}

-- What a receipt is compared with.
pub record ReceiptContext : Type 0 where
  pub endpoint : Text
  pub request_body_text : Option Text

abbrev pub with_receipt : ℕ → Json → SignedReceipt → Bool → PaygateResponse
with_receipt status payload signed verified = record {
  payload = payload;
  receipt = some signed;
  receipt_verified = some verified;
  status = status;
}

module _ (host : Host) (ethers : Ethers) where
  -- `hashBody(bodyText)`
  unfoldable pub hash_body : Option Text → Result Thrown Text
  hash_body none = ok (codes "sha256:" ++ drop 2 (ethers.sha256 []))
  hash_body (some text) = elim (ethers.to_utf8_bytes text) [
    | none ↦ throw (foreign (record { message = codes "invalid codepoint" }))
    | some bytes ↦ ok (codes "sha256:" ++ drop 2 (ethers.sha256 bytes))
  ]

  -- `hash === this.hashBody(bodyText)`
  unfoldable pub hash_matches : Text → Option Text → Result Thrown Bool
  unfolding hash_body text_eq
  hash_matches hash body_text = elim (hash_body body_text) [
    | ok expected ↦ ok (text_eq hash expected)
    | throw error ↦ throw error
  ]

  -- `a && b`, where computing `b` may throw
  abbrev pub and_then : Result Thrown Bool → Result Thrown Bool → Result Thrown Bool
  and_then (ok true) next = next
  and_then (ok false) next = ok false
  and_then (throw error) next = throw error

  -- `receiptMatchesPayload(receipt, context, responseBodyText)`
  unfoldable pub receipt_matches_payload :
      SignedReceipt → ReceiptContext → Text → Result Thrown Bool
  unfolding hash_matches
  receipt_matches_payload signed context response_body_text =
      let service = signed.receipt.service in
      and_then (ok (text_eq service.endpoint context.endpoint)) (
        and_then (hash_matches service.request_hash context.request_body_text)
          (hash_matches service.response_hash (some response_body_text)))

  -- The `JSON.parse` of `readSuccess`.
  unfoldable pub parse_payload : ℕ → Text → Result Thrown Json
  parse_payload status body_text = elim (host.parse body_text) [
    | none ↦ throw (
        failed_with network_error "Gateway returned invalid JSON" status (some body_text)
          (some (record { message = codes "SyntaxError" })))
    | some payload ↦ ok payload
  ]

  -- `receiptVerified` in `readSuccess`
  unfoldable pub receipt_verified : Option Text → SignedReceipt → Bool
  receipt_verified none signed = false
  receipt_verified (some key) signed = verify_receipt host ethers signed (some key)

  abbrev pub is_undefined : Option Text → Bool
  is_undefined none = true
  is_undefined (some key) = false

  -- The end of `readSuccess`, for a receipt whose payload was compared.
  unfoldable pub settle :
      PaygateClient → ℕ → Json → SignedReceipt → Bool → Result Thrown PaygateResponse
  unfolding receipt_verified
  settle client status payload signed matches =
      let verified = receipt_verified client.trusted_server_public_key signed in
      if not matches
      then throw (
          failed_with receipt_verification_failed
            "Gateway receipt does not match the request and response payload" status none none)
      else if not verified
      then if is_undefined client.trusted_server_public_key
        then ok (with_receipt status payload signed false)
        else throw (
            failed_with receipt_verification_failed "Gateway receipt signature did not verify"
              status none none)
      else ok (with_receipt status payload signed verified)

  -- `readSuccess(response, context)`, from the text of the body on
  unfoldable pub read_success_text :
      PaygateClient → Response → ReceiptContext → Text → Result Thrown PaygateResponse
  unfolding parse_payload settle
  read_success_text client response context body_text =
      elim (parse_payload response.status body_text) [
        | throw error ↦ throw error
        | ok payload ↦ elim (client.protocol.read_receipt response) [
          | throw error ↦ throw error
          | ok none ↦ ok (record {
            payload = payload;
            receipt = none;
            receipt_verified = none;
            status = response.status;
          })
          | ok (some signed) ↦ elim (receipt_matches_payload signed context body_text) [
            | throw error ↦ throw error
            | ok matches ↦ settle client response.status payload signed matches
          ]
        ]
      ]

  -- `readSuccess(response, context)`
  unfoldable pub read_success : PaygateClient → Response → ReceiptContext → Sdk PaygateResponse
  unfolding read_success_text
  read_success client response context = do
    body_text ← lift (from_outside response.text)
    lift (read_success_text client response context body_text)
