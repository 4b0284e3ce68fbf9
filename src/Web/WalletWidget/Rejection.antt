-- ===== src/Web/WalletWidget/Rejection.antt =====
-- web/src/components/wallet-widget.tsx and web/src/lib/errors.ts: the failures that the widget passes
-- over, against those that the page calls a refusal of the user.
use micro_ai_paygate.Prelude.{Text, Bool, true, ◌≡◌, ◌↔◌, Option, none, some, if◌then◌else◌, arith}
use micro_ai_paygate.Js.Json.{Json}
use micro_ai_paygate.Js.Host.{Host}
use micro_ai_paygate.Web.Errors.{
  user_rejected, wrong_chain, no_wallet, network, unknown, Caught, object, primitive,
  classify_caught, build, looks_rejected, looks_wrong_chain, looks_walletless, looks_offline,
  message_of,
}
use micro_ai_paygate.Web.WalletWidget.{is_user_rejection}

-- `e.shortMessage ?? e.message`, for an error with no `shortMessage`
abbrev pub HasNoShortMessage : Caught → Type 0
HasNoShortMessage (primitive s) = Unit
HasNoShortMessage (object short_message message code) = short_message ≡ none

kind-rejected :
    (rejected wrong walletless offline : Bool)
    → ((if rejected
          then user_rejected
          else if wrong
          then wrong_chain
          else if walletless
          then no_wallet
          else if offline
          then network
          else unknown)
        ≡ user_rejected)
      ↔ (rejected ≡ true)
kind-rejected rejected wrong walletless offline = ground arith

-- The widget passes over an error with no `shortMessage` exactly if the page classifies it as a
-- refusal of the user.
pub is_user_rejection_iff :
    (host : Host) (to_text : Json → Option Text) (e : Caught)
    → HasNoShortMessage e
    → (is_user_rejection host e ≡ true) ↔ ((classify_caught host to_text e).kind ≡ user_rejected)
unfolding is_user_rejection classify_caught build looks_rejected
is_user_rejection_iff host to_text (primitive s) h = (λ e. cc, λ e. cc)
is_user_rejection_iff host to_text (object (some s) message code) h = cc
is_user_rejection_iff host to_text (object none message code) h =
    let m : Text = message_of none message in
    let (to, from) =
      kind-rejected (looks_rejected host m code) (looks_wrong_chain host m)
        (looks_walletless host m) (looks_offline host m) in
    (λ e. from e, λ k. to k)
