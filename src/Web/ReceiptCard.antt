-- ===== src/Web/ReceiptCard.antt =====
-- web/src/components/receipt-card.tsx: the check of a stored receipt on a click, and the age that its
-- card shows. The card has one receipt throughout, and a click meets the state as it is then.
pub mod Checked
pub mod Ages
mod Tests
use micro_ai_paygate.Prelude.{
  ℕ, zero, suc, ◌-◌, ◌/◌, Text, codes, Bool, true, false, not, ◌++◌, ltb, if◌then◌else◌,
}
use micro_ai_paygate.Js.Json.{Json}
use micro_ai_paygate.Js.Host.{Host, Ethers}
use micro_ai_paygate.Js.Stringify.{decimal}
use micro_ai_paygate.Web.VerifyReceipt.{verify_receipt}

-- `VerifyState`
pub data VerifyState : Type 0 where
  idle verifying valid invalid : VerifyState

-- `waiting` counts the checks that have not ended.
pub record Card : Type 0 where
  pub expanded : Bool
  pub verify_state : VerifyState
  pub waiting : ℕ

abbrev pub first_shown : Card
first_shown = record { expanded = false; verify_state = idle; waiting = 0 }

-- `state === "idle"`, for the button "Verify signature"
abbrev pub has_button : VerifyState → Bool
has_button idle = true
has_button state = false

-- `handleVerify()`, up to its `await` and after it
abbrev pub begin_verify : Card → Card
begin_verify c = record c { verify_state = verifying; waiting = suc c.waiting }

module _ (host : Host) (ethers : Ethers) (signed : Json) where
  unfoldable pub end_verify : ℕ → Card → Card
  unfolding verify_receipt
  end_verify zero c = c
  end_verify (suc n) c = record c {
    verify_state = if verify_receipt host ethers signed then valid else invalid;
    waiting = n;
  }

  pub data Event : Type 0 where
    clicked_verify clicked_expand checked : Event

  unfoldable pub after_event : Event → Card → Card
  unfolding end_verify
  after_event clicked_verify c = if has_button c.verify_state then begin_verify c else c
  after_event clicked_expand c = record c { expanded = not c.expanded }
  after_event checked c = end_verify c.waiting c

  pub data Reachable : Card → Type 0 where
    mount : Reachable first_shown
    next : (e : Event) {c : Card} → Reachable c → Reachable (after_event e c)

-- What `formatRelative(ms)` says.
pub data Age : Type 0 where
  just_now : Age
  minutes hours days : ℕ → Age

unfoldable pub age : ℕ → Age
age diff =
    if ltb diff 60000
    then just_now
    else if ltb diff 3600000
    then minutes (diff / 60000)
    else if ltb diff 86400000
    then hours (diff / 3600000)
    else days (diff / 86400000)

abbrev pub age_text : Age → Text
age_text just_now = codes "just now"
age_text (minutes n) = decimal n ++ codes "m ago"
age_text (hours n) = decimal n ++ codes "h ago"
age_text (days n) = decimal n ++ codes "d ago"

-- `formatRelative(ms)`, where `Date.now()` gives `now`: a time to come is just now too.
unfoldable pub format_relative : ℕ → ℕ → Text
unfolding age
format_relative now ms = age_text (age (now - ms))
