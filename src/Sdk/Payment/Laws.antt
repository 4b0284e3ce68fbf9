-- ===== src/Sdk/Payment/Laws.antt =====
-- sdk/typescript/src/payment.ts and client.ts: what is signed, and what the retry carries.
use micro_ai_paygate.Prelude.{◌≡◌, arith}
use micro_ai_paygate.Js.Host.{Ethers}
use micro_ai_paygate.Sdk.Types.{PaymentContext}
use micro_ai_paygate.Sdk.Payment.{build_payment_typed_data}

-- The typed data that a wallet signs determines the payment context, field by field.
pub build_payment_typed_data-injective :
    (ethers : Ethers) (a b : PaymentContext)
    → build_payment_typed_data ethers a ≡ build_payment_typed_data ethers b
    → a ≡ b
unfolding build_payment_typed_data
build_payment_typed_data-injective ethers a b h = ground arith
