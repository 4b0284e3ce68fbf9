-- ===== src/Web/ReceiptVerification.antt =====
-- web/src/components/output-card.tsx: the hook `useReceiptVerification`, and what the page says of its
-- state. web/src/components/summarize-form.tsx: what is announced of it.
--
-- The effect of the hook runs when another receipt is given; its clean-up cancels the verification
-- before it. The effects are numbered, and only the last one is not cancelled. A receipt is the
-- JSON value that the page has decoded.
pub mod Shown
mod Tests
use micro_ai_paygate.Prelude.{
  ℕ, suc, String, Text, text_eq, Bool, true, false, not, Option, none, some, ◌==◌, if◌then◌else◌,
  put,
}
use micro_ai_paygate.Js.Json.{Json, Fields, obj, field, end, prop}
use micro_ai_paygate.Js.Stringify.{stringify}
use micro_ai_paygate.Js.Host.{Host, Ethers}
use micro_ai_paygate.Web.Errors.{is_truthy}
use micro_ai_paygate.Web.VerifyReceipt.{verify_receipt}

-- `ReceiptVerifyState`
pub data ReceiptVerifyState : Type 0 where
  missing verifying valid invalid : ReceiptVerifyState

-- A property of an object literal; `JSON.stringify` leaves out one that is `undefined`.
abbrev pub with_field : String → Option Json → Fields → Fields
with_field name none rest = rest
with_field name (some v) rest = field name v rest

-- `getReceiptVerificationKey(receipt)`, for a receipt that is there
unfoldable pub receipt_key : Json → Text
unfolding prop stringify
receipt_key receipt = stringify (
    obj (
      with_field "receipt" (prop "receipt" receipt) (
        with_field "signature" (prop "signature" receipt)
          (with_field "server_public_key" (prop "server_public_key" receipt) end))))

-- `getReceiptVerificationKey(receipt)`
unfoldable pub get_receipt_verification_key : Option Json → Option Text
unfolding receipt_key
get_receipt_verification_key none = none
get_receipt_verification_key (some receipt) = some (receipt_key receipt)

-- The receipt that is given, the `result` of the hook, the last effect, and the receipts that the
-- effects have under verification.
pub record Hook : Type 0 where
  pub receipt : Option Json
  pub result_key : Option Text
  pub result_state : ReceiptVerifyState
  pub last_effect : ℕ
  pub under_way : ℕ → Option Json

-- `{ key: null, state: "invalid" }`
abbrev pub first_result : Hook
first_result = record {
  receipt = none;
  result_key = none;
  result_state = invalid;
  last_effect = 0;
  under_way = λ n. none;
}

-- Another receipt is given: the effect's clean-up, and the effect.
unfoldable pub given : Option Json → Hook → Hook
given receipt h = record h {
  receipt = receipt;
  last_effect = suc h.last_effect;
  under_way = put h.under_way (suc h.last_effect) receipt;
}

-- `setResult({ key: receiptKey, state })`, unless the effect was cancelled
abbrev pub set_result : ℕ → Json → ReceiptVerifyState → Hook → Hook
set_result effect receipt state h =
    if effect == h.last_effect
    then record h { result_key = some (receipt_key receipt); result_state = state }
    else h

abbrev pub ended : ℕ → Hook → Hook
ended effect h = record h { under_way = put h.under_way effect none }

-- `ok ? "valid" : "invalid"`, and `"invalid"` of the `catch` handler
unfoldable pub outcome : Host → Ethers → Bool → Json → ReceiptVerifyState
unfolding verify_receipt
outcome host ethers true receipt = invalid
outcome host ethers false receipt = if verify_receipt host ethers receipt then valid else invalid

-- `verifyReceipt(receipt)` of an effect has ended, with its result or by a throw.
unfoldable pub settle : Host → Ethers → Bool → ℕ → Option Json → Hook → Hook
unfolding outcome receipt_key
settle host ethers threw effect none h = h
settle host ethers threw effect (some receipt) h =
    set_result effect receipt (outcome host ethers threw receipt) (ended effect h)

abbrev pub same_key : Option Text → Option Text → Bool
same_key none none = true
same_key (some a) (some b) = text_eq a b
same_key a b = false

-- What the hook returns, for a receipt and a result.
unfoldable pub shown : Option Json → Option Text → ReceiptVerifyState → ReceiptVerifyState
unfolding get_receipt_verification_key text_eq
shown none result_key result_state = missing
shown (some receipt) result_key result_state =
    if not (same_key result_key (get_receipt_verification_key (some receipt)))
    then verifying
    else result_state

-- What the hook returns.
unfoldable pub use_receipt_verification : Hook → ReceiptVerifyState
unfolding shown
use_receipt_verification h = shown h.receipt h.result_key h.result_state

-- The text of `ReceiptStatusBadge`.
unfoldable pub receipt_status : ReceiptVerifyState → String
receipt_status valid = "✓ Receipt verified"
receipt_status invalid = "✗ Receipt not verified"
receipt_status verifying = "Verifying receipt…"
receipt_status missing = "Receipt not returned"

-- `describeReceiptState(state)`
unfoldable pub describe_receipt_state : ReceiptVerifyState → String
describe_receipt_state valid =
    "The signed X-402 receipt was decoded and its gateway signature verified in this browser."
describe_receipt_state invalid =
    "The X-402 receipt was decoded, but the gateway signature did not verify."
describe_receipt_state verifying =
    "The X-402 receipt was decoded and signature verification is running locally."
describe_receipt_state missing =
    "The summary succeeded without an X-402-Receipt header, so there is no receipt ID to verify."

-- `getReceiptAnnouncement(summary, state)`
unfoldable pub get_receipt_announcement : Option Json → ReceiptVerifyState → String
unfolding is_truthy
get_receipt_announcement summary state = if not (is_truthy summary) then "" else elim state [
  | valid ↦ "Receipt verified."
  | invalid ↦ "Receipt not verified."
  | verifying ↦ "Verifying receipt…"
  | missing ↦ "Receipt not returned."
]

-- What happens to the hook.
pub data Event : Type 0 where
  gave : Option Json → Event
  finished : Bool → ℕ → Event

unfoldable pub after_event : Host → Ethers → Event → Hook → Hook
unfolding given settle
after_event host ethers (gave receipt) h = given receipt h
after_event host ethers (finished threw effect) h =
    settle host ethers threw effect (h.under_way effect) h

pub data Reachable (host : Host) (ethers : Ethers) : Hook → Type 0 where
  start : Reachable host ethers first_result
  next :
      (e : Event) {h : Hook}
      → Reachable host ethers h
      → Reachable host ethers (after_event host ethers e h)
