-- ===== src/Sdk/Client/Request.antt =====
-- sdk/typescript/src/client.ts: `request` and `summarize`.
use micro_ai_paygate.Prelude.{String, Text, codes, Option, none, some, [], not, ◌==◌, if◌then◌else◌}
use micro_ai_paygate.Js.Json.{str, obj, end, field}
use micro_ai_paygate.Js.Exec.{lift, raise, rethrow, ◌>>=◌}
use micro_ai_paygate.Js.Host.{Host, Ethers}
use micro_ai_paygate.Sdk.Types.{
  PaymentContext, PaygateRequest, PaygateResponse, json, Response, is_ok, ErrorCode, network_error,
  payment_signature_failed, signed_retry_failed, from_outside, Sdk,
}
use micro_ai_paygate.Sdk.Url.{build_url, build_receipt_endpoint}
use micro_ai_paygate.Sdk.Receipts.{cause_of}
use micro_ai_paygate.Sdk.Client.{
  PaygateClient, failed, failed_with, serialize_request_body, build_request_init, fetch_or_throw,
}
use micro_ai_paygate.Sdk.Client.Receipt.{ReceiptContext, read_success}

module _ (host : Host) (ethers : Ethers) (client : PaygateClient) where
  -- A response that is not `ok`: its body is read and put into the error.
  unfoldable pub refuse : ErrorCode → String → Response → Sdk PaygateResponse
  refuse code message response = do
    body_text ← lift (from_outside response.text)
    raise (failed_with code message response.status (some body_text) none)

  -- The `try` block around the signer.
  unfoldable pub sign_or_throw : PaymentContext → Sdk Text
  sign_or_throw payment_context =
      rethrow
        (λ error. failed payment_signature_failed "Failed to sign payment context" (cause_of error))
        (client.protocol.sign_payment_context client.signer payment_context)

  -- What `request` does after the signed retry has come back.
  unfoldable pub after_retry : ReceiptContext → Response → Sdk PaygateResponse
  unfolding refuse
  after_retry context response =
      if not (is_ok response)
      then refuse signed_retry_failed "Signed retry failed" response
      else read_success host ethers client response context

  -- The 402 branch of `request`, from the payment context on: the signature, the signed retry.
  unfoldable pub signed_retry :
      PaygateRequest → Text → Option Text → ReceiptContext → PaymentContext → Sdk PaygateResponse
  unfolding sign_or_throw
  signed_retry request url body_text context payment_context = do
    signature ← sign_or_throw payment_context
    retry ← fetch_or_throw client url (
        build_request_init request (client.protocol.build_signed_headers payment_context signature)
          body_text)
    after_retry context retry

  -- The 402 branch of `request`: the challenge, and the signed retry.
  unfoldable pub answer_challenge :
      PaygateRequest → Text → Option Text → ReceiptContext → Response → Sdk PaygateResponse
  answer_challenge request url body_text context response = do
    payment_context ← client.protocol.read_payment_context response
    signed_retry request url body_text context payment_context

  -- What `request` does with the response to the unsigned request.
  unfoldable pub after_first :
      PaygateRequest → Text → Option Text → ReceiptContext → Response → Sdk PaygateResponse
  unfolding refuse
  after_first request url body_text context response =
      if not (response.status == 402)
      then if not (is_ok response)
        then refuse network_error "Gateway request failed" response
        else read_success host ethers client response context
      else answer_challenge request url body_text context response

  -- `request(request)`
  unfoldable pub request : PaygateRequest → Sdk PaygateResponse
  request asked = do
    url ← lift (build_url client.gateway_url asked.path)
    body_text ← lift (serialize_request_body asked.body)
    first ← fetch_or_throw client url (build_request_init asked [] body_text)
    after_first asked url body_text
        (record { endpoint = build_receipt_endpoint asked.path; request_body_text = body_text })
        first

  -- `summarize(text)`
  unfoldable pub summarize : Text → Sdk PaygateResponse
  unfolding request
  summarize text = request (record {
    method = codes "POST";
    path = codes "/api/ai/summarize";
    body = some (json (obj (field "text" (str text) end)));
    headers = none;
  })
