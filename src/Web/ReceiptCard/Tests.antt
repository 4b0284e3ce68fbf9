-- ===== src/Web/ReceiptCard/Tests.antt =====
-- The receipt card at concrete inputs, and its theorems at inputs where their hypotheses hold.
use micro_ai_paygate.Prelude.{text_eq, codes, ◌≡◌, refl}
use micro_ai_paygate.Js.Stringify.{decimal}
use micro_ai_paygate.Web.Errors.{is_truthy}
use micro_ai_paygate.Js.Json.{prop}
use micro_ai_paygate.Web.X402Client.{optional}
use micro_ai_paygate.Web.VerifyReceipt.{verify_receipt}
use micro_ai_paygate.Web.VerifyReceipt.Tests.{host, ethers, signed}
use micro_ai_paygate.Web.ReceiptCard.{
  valid, Card, first_shown, end_verify, clicked_verify, checked, after_event, mount, next, age,
  format_relative,
}
use micro_ai_paygate.Web.ReceiptCard.Checked.{IsRight, Reachable-IsRight}
use micro_ai_paygate.Web.ReceiptCard.Ages.{IsAge, age-IsAge}

abbrev verified : Card
verified =
    after_event host ethers signed checked
      (after_event host ethers signed clicked_verify first_shown)

verified_test : verified.verify_state ≡ valid
unfolding after_event end_verify verify_receipt text_eq optional prop is_truthy
verified_test = refl

Reachable-IsRight_example : IsRight host ethers signed verified
Reachable-IsRight_example =
    Reachable-IsRight host ethers signed (next checked (next clicked_verify mount))

age-IsAge_example : IsAge 125000 (age 125000)
age-IsAge_example = age-IsAge 125000

age_test : format_relative 200000 75000 ≡ codes "2m ago"
unfolding format_relative age decimal
age_test = refl
