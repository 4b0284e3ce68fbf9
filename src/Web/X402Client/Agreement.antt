-- ===== src/Web/X402Client/Agreement.antt =====
-- web/src/lib/x402-client.ts against sdk/typescript/src/payment.ts: the two clients of the gateway.
use micro_ai_paygate.Prelude.{Text, ◌≡◌, refl}
use micro_ai_paygate.Js.Host.{Ethers}
use micro_ai_paygate.Sdk.Types.{PaymentContext}
use micro_ai_paygate.Sdk.Payment.{
  build_payment_typed_data, build_signed_headers, payment_domain_name, payment_domain_version,
  payment_types,
}
use micro_ai_paygate.Web.X402Client.Requests.{typed_data_to_sign, signed_headers}

-- For the same payment context and signature the page asks the wallet to sign the same typed data as
-- the SDK, and sends the same three signed headers in the same order.
pub payment_agrees :
    (ethers : Ethers) (context : PaymentContext) (signature : Text)
    → (typed_data_to_sign ethers context ≡ build_payment_typed_data ethers context)
      × (signed_headers context signature ≡ build_signed_headers context signature)
unfolding typed_data_to_sign signed_headers build_payment_typed_data build_signed_headers
    payment_domain_name payment_domain_version payment_types
payment_agrees ethers context signature = (refl, refl)
