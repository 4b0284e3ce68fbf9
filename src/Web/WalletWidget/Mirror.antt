-- ===== src/Web/WalletWidget/Mirror.antt =====
-- web/src/components/wallet-widget.tsx: the wallet as the widget shows it, where every call of the
-- wallet is answered truly before anything else happens.
pub mod Steps
pub mod Shown
use mathlib.Core.Path.{subst}
use micro_ai_paygate.Prelude.{
  ℕ, suc, Text, codes, text_eq, Bool, true, false, not, ◌&&◌, ◌≡◌, refl, sym, ap, Option, none,
  some, List, [], ◌∷◌, ◌++◌, ◌==◌, ==_iff, ==_refl, Bool-cases, inl, inr, if◌then◌else◌,
}
use micro_ai_paygate.Js.Json.{Number, int, pos}
use micro_ai_paygate.Js.Exec.{Result, ok, throw}
use micro_ai_paygate.Js.Host.{Host}
use micro_ai_paygate.Web.Wallet.{hex_text}
use micro_ai_paygate.Web.Errors.{Caught}
use micro_ai_paygate.Web.WalletWidget.{
  State, loading, disconnected, connected, account_asked, Widget, Env, Reply, set_state, set_error,
  set_switching, awaits, is_user_rejection, start_load, subscribe, end_load, take_account,
  take_connected, end_connect, connect_failed, take_switched, end_switch, switch_failed,
  check_switch, go_on,
}
use micro_ai_paygate.Web.WalletWidget.Events.{
  Event, resumed, accounts_changed, chain_changed, clicked_connect, clicked_switch, rendered,
  timed_out, first_shown, present, left, replaced, announced, run_effects, click_connect,
  click_switch, after_event,
}
use micro_ai_paygate.Web.WalletWidget.Hex.{parse_hex-hex_text}

-- An address that is not empty.
pub record Address : Type 0 where
  pub head : ℕ
  pub tail : Text

abbrev pub text_of : Address → Text
text_of a = a.head ∷ a.tail

pub record Provider : Type 0 where
  pub account : Option Address
  pub chain : ℕ

abbrev pub wallet : Option Address → ℕ → Provider
wallet account chain = record { account = account; chain = chain }

-- The widget that shows the wallet as it is.
abbrev pub mirror : Provider → State
mirror p = elim p.account [
  | none ↦ disconnected
  | some a ↦ connected (text_of a) (int (pos p.chain))
]

abbrev pub accounts_of : Option Address → List Text
accounts_of none = []
accounts_of (some a) = text_of a ∷ []

abbrev pub account_of : Option Address → Option Text
account_of none = none
account_of (some a) = some (text_of a)

abbrev pub connected_to : Caught → Option Address → Result Caught Text
connected_to e none = throw e
connected_to e (some a) = ok (text_of a)

-- The true answers of a wallet; one without an account refuses to connect, with some error.
abbrev pub answers_of : Caught → Provider → Reply
answers_of e p = record {
  account = ok (account_of p.account);
  chain = ok (some p.chain);
  connected = connected_to e p.account;
  switched = ok tt;
}

-- The answers of a wallet whose user refuses to switch, with some error.
abbrev pub declines : Caught → Provider → Reply
declines e p = record (answers_of e p) { switched = throw e }

-- A wallet that announces its changes.
abbrev pub listening : Env
listening = record { wallet_there = true; on_accounts = ok true; on_chain = ok true }

-- A widget with nothing under way, that shows the wallet as it is.
abbrev pub settled : Provider → Widget → Widget
settled p w = record w {
  state = mirror p;
  switching = false;
  is_mounted = true;
  hears_accounts = true;
  hears_chain = true;
  tasks = [];
}

module _ (host : Host) (expected : ℕ) (expected_name : Text) where
  -- The first call under way is answered.
  abbrev pub answered : Caught → Provider → Widget → Widget
  answered e p w = after_event host expected expected_name (resumed listening (answers_of e p) 0) w

  abbrev pub then_answered : Caught → Provider → Event → Widget → Widget
  then_answered e p event w =
      answered e p (answered e p (after_event host expected expected_name event w))

  -- A click on "Switch" that the wallet refuses.
  abbrev pub declined : Caught → Provider → Widget → Widget
  declined e p w =
      after_event host expected expected_name (resumed listening (declines e p) 0)
        (after_event host expected expected_name clicked_switch w)

  -- What happens to a wallet, its account and chain, and the widget: the wallet changes its account, of
  -- itself or on a click on "Connect wallet", or its chain, or is asked to switch, and does so
  -- (`switches`), says that it did and stays where it is (`stays`), or refuses (`refuses`).
  pub data Follows : Option Address → ℕ → Widget → Type 0 where
    opened :
        (e : Caught) (account : Option Address) (chain : ℕ)
        → Follows account chain
            (answered e (wallet account chain) (answered e (wallet account chain) first_shown))
    moved :
        (e : Caught) {account : Option Address} (account' : Option Address) {chain : ℕ} {w : Widget}
        → Follows account chain w
        → Follows account' chain
            (then_answered e (wallet account' chain) (accounts_changed (accounts_of account')) w)
    on_chain :
        {account : Option Address} {chain : ℕ} (n : ℕ) {w : Widget}
        → Follows account chain w
        → Follows account n
            (after_event host expected expected_name (chain_changed (codes "0x" ++ hex_text n)) w)
    connects :
        (e : Caught) (account : Option Address) {chain : ℕ} {w : Widget}
        → Follows none chain w
        → Follows account chain (then_answered e (wallet account chain) clicked_connect w)
    switches :
        (e : Caught) (a : Address) {chain : ℕ} {w : Widget}
        → Follows (some a) chain w
        → Follows (some a) expected (then_answered e (wallet (some a) expected) clicked_switch w)
    stays :
        (e : Caught) {account : Option Address} {chain : ℕ} {w : Widget}
        → Follows account chain w
        → Follows account chain (then_answered e (wallet account chain) clicked_switch w)
    refuses :
        (e : Caught) {account : Option Address} {chain : ℕ} {w : Widget}
        → Follows account chain w
        → Follows account chain (declined e (wallet account chain) w)
    shows :
        {account : Option Address} {chain : ℕ} {w : Widget}
        → Follows account chain w
        → Follows account chain (after_event host expected expected_name rendered w)
    expires :
        {account : Option Address} {chain : ℕ} {w : Widget}
        → Follows account chain w
        → Follows account chain (after_event host expected expected_name timed_out w)
