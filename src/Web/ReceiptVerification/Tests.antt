-- ===== src/Web/ReceiptVerification/Tests.antt =====
-- Runs of the hook at concrete receipts, and its theorem at such a run.
use micro_ai_paygate.Prelude.{
  ℕ, zero, suc, ◌≡◌, refl, codes, text_eq, false, some, List, [], ◌∷◌, if◌then◌else◌,
}
use micro_ai_paygate.Js.Json.{Json, obj, str, field, end, prop}
use micro_ai_paygate.Js.Stringify.{stringify}
use micro_ai_paygate.Js.Host.{Host, Ethers}
use micro_ai_paygate.Web.Errors.{is_truthy}
use micro_ai_paygate.Web.X402Client.{optional}
use micro_ai_paygate.Web.VerifyReceipt.{verify_receipt}
use micro_ai_paygate.Web.ReceiptVerification.{
  valid, verifying, missing, Hook, first_result, gave, finished, after_event,
  use_receipt_verification, start, next, get_receipt_announcement,
}
use micro_ai_paygate.Web.ReceiptVerification.Shown.{IsShown, Reachable-IsShown}

abbrev signed : Json
signed = obj (
    field "receipt" (obj (field "id" (str (codes "rcpt_1")) end))
      (field "signature" (str (codes "0x1")) (field "server_public_key" (str (codes "0xkey")) end)))

abbrev host : Host
host = record {
  parse = λ s. some signed;
  decode_utf8 = λ b. b;
  encode_utf8 = λ t. t;
  to_lower_case = λ t. if text_eq t (codes "0xKEY") then codes "0xkey" else t;
  encode_uri_component = λ t. some t;
}

abbrev zeros : ℕ → List ℕ
zeros zero = []
zeros (suc n) = 0 ∷ zeros n

-- Every signature recovers to one key.
abbrev ethers : Ethers
ethers = record {
  zero_address = codes "0x0";
  to_utf8_bytes = λ t. some t;
  sha256 = λ b. b;
  keccak256 = λ b. b;
  get_bytes = λ t. some (zeros 65);
  hexlify = λ b. b;
  compute_public_key = λ t. some t;
  signature_from = λ s. some s;
  recover_public_key = λ t s. some (codes "0xKEY");
}

abbrev other : Json
other = obj (
    field "receipt" (obj (field "id" (str (codes "rcpt_2")) end))
      (field "signature" (str (codes "0x1")) (field "server_public_key" (str (codes "0xno")) end)))

abbrev hook_given : Hook
hook_given = after_event host ethers (gave (some signed)) first_result

abbrev hook_verified : Hook
hook_verified = after_event host ethers (finished false 1) hook_given

given_test : use_receipt_verification hook_given ≡ verifying
unfolding after_event use_receipt_verification
given_test = refl

verified_test : use_receipt_verification hook_verified ≡ valid
unfolding after_event use_receipt_verification verify_receipt text_eq optional prop is_truthy
    stringify
verified_test = refl

-- The verification of the receipt before is cancelled.
cancelled_test :
    use_receipt_verification (
      after_event host ethers
        (finished false 1)
        (after_event host ethers (gave (some other)) hook_given))
    ≡ verifying
unfolding after_event use_receipt_verification
cancelled_test = refl

announced_test : get_receipt_announcement (some (str (codes "s"))) missing ≡ "Receipt not returned."
unfolding get_receipt_announcement is_truthy
announced_test = refl

Reachable-IsShown_example :
    IsShown host ethers hook_verified (use_receipt_verification hook_verified)
Reachable-IsShown_example =
    Reachable-IsShown host ethers (next (finished false 1) (next (gave (some signed)) start))
