-- ===== src/Web/VerifyReceipt/Tests.antt =====
-- Runs of the page's receipt checks at concrete inputs, and its theorems at such inputs.
use micro_ai_paygate.Prelude.{
  ℕ, zero, suc, ◌++◌, ◌≡◌, ◌↔◌, refl, Text, codes, text_eq, true, none, some, List, [], ◌∷◌,
  if◌then◌else◌,
}
use micro_ai_paygate.Js.Json.{Json, obj, str, field, end, prop}
use micro_ai_paygate.Js.Exec.{Result, ok}
use micro_ai_paygate.Js.Host.{Host, Ethers}
use micro_ai_paygate.Sdk.Types.{Fault, Response}
use micro_ai_paygate.Web.Errors.{is_truthy}
use micro_ai_paygate.Web.X402Client.{optional}
use micro_ai_paygate.Web.VerifyReceipt.{FetchedReceipt, verify_receipt, fetch_receipt}
use micro_ai_paygate.Web.VerifyReceipt.Laws.{IsSelfSigned, verify_receipt-true_iff}
use micro_ai_paygate.Web.VerifyReceipt.Lookup.{IsFound, fetch_receipt-some_iff}

abbrev pub signed : Json
signed = obj (
    field "receipt" (obj (field "id" (str (codes "rcpt_1")) end))
      (field "signature" (str (codes "0x1")) (field "server_public_key" (str (codes "0xkey")) end)))

abbrev pub host : Host
host = record {
  parse = λ s. some signed;
  decode_utf8 = λ b. b;
  encode_utf8 = λ t. t;
  to_lower_case = λ t. if text_eq t (codes "0xKEY") then codes "0xkey" else t;
  encode_uri_component = λ t. some t;
}

abbrev pub zeros : ℕ → List ℕ
zeros zero = []
zeros (suc n) = 0 ∷ zeros n

-- Every signature recovers to one key.
abbrev pub ethers : Ethers
ethers = record {
  zero_address = codes "0x0";
  to_utf8_bytes = λ t. some t;
  sha256 = λ b. b;
  keccak256 = λ b. b;
  get_bytes = λ t. some (zeros 65);
  hexlify = λ b. b;
  compute_public_key = λ t. some t;
  signature_from = λ s. some s;
  recover_public_key = λ t s. some (codes "0xKEY");
}

verified_test : verify_receipt host ethers signed ≡ true
unfolding verify_receipt text_eq optional prop is_truthy
verified_test = refl

verify_receipt-true_iff_example :
    (verify_receipt host ethers signed ≡ true) ↔ IsSelfSigned host ethers signed
verify_receipt-true_iff_example = verify_receipt-true_iff host ethers signed

abbrev fetch : Text → Result Fault Response
fetch url = ok (record { status = 200; header = λ k. none; text = ok url })

abbrev found : FetchedReceipt
found = record {
  receipt = some (obj (field "id" (str (codes "rcpt_1")) end));
  signature = some (str (codes "0x1"));
  server_public_key = some (str (codes "0xkey"));
}

found_test : fetch_receipt host fetch (codes "rcpt_1") none ≡ some found
unfolding fetch_receipt prop
found_test = refl

fetch_receipt-some_iff_example :
    ((fetch_receipt host fetch (codes "rcpt_1") (some (codes "https://g")) ≡ some found)
      ↔ IsFound host
          (fetch (codes "https://g" ++ (codes "/api/receipts/" ++ codes "rcpt_1")))
          found)
    × ((fetch_receipt host fetch (codes "rcpt_1") none ≡ some found)
        ↔ IsFound host
            (fetch (codes "http://localhost:3000" ++ (codes "/api/receipts/" ++ codes "rcpt_1")))
            found)
fetch_receipt-some_iff_example =
    fetch_receipt-some_iff host fetch (codes "rcpt_1") (codes "https://g") found
