-- ===== src/Web/WalletWidget/Tests.antt =====
-- The wallet widget at concrete inputs, and its theorems at inputs where their hypotheses hold.
use micro_ai_paygate.Prelude.{
  ℕ, Text, codes, text_eq, true, false, ◌≡◌, ◌↔◌, ◌+◌, refl, none, some, List, [], ◌∷◌, arith,
}
use micro_ai_paygate.Js.Json.{int, pos}
use micro_ai_paygate.Js.Exec.{throw}
use micro_ai_paygate.Web.Errors.{Caught, object, user_rejected, classify_caught, Code}
use micro_ai_paygate.Web.X402.Tests.{host, to_text}
use micro_ai_paygate.Web.WalletWidget.{
  connected, Widget, Env, Reply, is_user_rejection, set_state, go_on, start_load, subscribe,
  end_load, take_account,
}
use micro_ai_paygate.Web.WalletWidget.Events.{
  Event, resumed, accounts_changed, rendered, first_shown, address_of, present, announced,
  run_effects, after_event, Reachable, mount, next,
}
use micro_ai_paygate.Web.WalletWidget.Busy.{IsBusyWith}
use micro_ai_paygate.Web.WalletWidget.Busy.Always.{Reachable-IsBusy}
use micro_ai_paygate.Web.WalletWidget.Rest.{IsAtRest, answer_all, answer_all-rest}
use micro_ai_paygate.Web.WalletWidget.Identity.{after_events, changes, rendered-resets}
use micro_ai_paygate.Web.WalletWidget.Mirror.{
  Address, wallet, mirror, answers_of, listening, answered, declined, opened, refuses,
}
use micro_ai_paygate.Web.WalletWidget.Mirror.Shown.{Follows-mirror}
use micro_ai_paygate.Web.WalletWidget.Rejection.{is_user_rejection_iff}

abbrev name : Text
name = codes "Base Sepolia"

abbrev refusal : Caught
refusal = object none (some (codes "no")) (some (Code.number (int (pos 4001))))

abbrev address : Address
address = record { head = 48; tail = codes "xA" }

abbrev other_address : Address
other_address = record { head = 48; tail = codes "xB" }

abbrev after : Event → Widget → Widget
after e w = after_event host 84532 name e w

abbrev replies : Reply
replies = answers_of refusal (wallet (some address) 1)

-- The widget that waits for its first answer of the wallet.
abbrev asked : Widget
asked = after (resumed listening replies 0) first_shown

abbrev asked-Reachable : Reachable host 84532 name asked
asked-Reachable = next (resumed listening replies 0) mount

mounted_test : asked.is_mounted ≡ true
unfolding after_event go_on start_load subscribe
mounted_test = refl

Reachable-IsBusy_example : IsBusyWith 0 0 asked
Reachable-IsBusy_example = Reachable-IsBusy host 84532 name asked-Reachable mounted_test

-- The wallet fails.
abbrev fails : Widget → Env × Reply × ℕ
fails w = (
  listening,
  record {
    account = throw refusal;
    chain = throw refusal;
    connected = throw refusal;
    switched = throw refusal;
  },
  5,
)

answer_all-rest_example : IsAtRest (answer_all host 84532 name 2 fails first_shown)
answer_all-rest_example = answer_all-rest host 84532 name mount refl fails 2 (omega arith)

-- The widget that shows an account.
abbrev shown : Widget
shown = answered host 84532 name refusal (wallet (some address) 1) asked

shown_test : shown.state ≡ connected (codes "0xA") (int (pos 1))
unfolding after_event go_on start_load subscribe end_load set_state
shown_test = refl

abbrev moves : List Event
moves =
    accounts_changed (codes "0xB" ∷ [])
    ∷ accounts_changed (codes "0xA" ∷ [])
    ∷ accounts_changed []
    ∷ []

shown-mounted_test : shown.is_mounted ≡ true
unfolding after_event go_on start_load subscribe end_load set_state
shown-mounted_test = refl

rendered-resets_example :
    (after_events host 84532 name moves (after rendered shown)).resets
    ≡ shown.resets
      + changes host 84532 name (present (address_of shown.state)) moves (after rendered shown)
rendered-resets_example =
    rendered-resets host 84532 name shown shown-mounted_test moves (refl, (refl, (refl, tt)))

changes_test :
    changes host 84532 name (present (address_of shown.state)) moves (after rendered shown) ≡ 2
unfolding after_event go_on start_load subscribe end_load set_state run_effects announced text_eq
changes_test = refl

Follows-mirror_example :
    let w = declined host 84532 name refusal (wallet (some address) 1) (
      answered host 84532 name refusal
        (wallet (some address) 1)
        (answered host 84532 name refusal (wallet (some address) 1) first_shown)) in
    (w.state ≡ mirror (wallet (some address) 1)) × (w.switching ≡ false) × (w.tasks ≡ [])
Follows-mirror_example =
    Follows-mirror host 84532 name (refuses refusal (opened refusal (some address) 1))

is_user_rejection_iff_example :
    (is_user_rejection host refusal ≡ true)
    ↔ ((classify_caught host to_text refusal).kind ≡ user_rejected)
is_user_rejection_iff_example = is_user_rejection_iff host to_text refusal refl

-- A look-up that is answered after the wallet has gone shows its account again.
stale_test :
    (after
      (resumed listening replies 0)
      (after (accounts_changed []) (after (accounts_changed (codes "0xB" ∷ [])) shown))).state
    ≡ connected (codes "0xB") (int (pos 1))
unfolding after_event go_on start_load subscribe end_load set_state announced take_account text_eq
stale_test = refl
