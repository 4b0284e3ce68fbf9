-- ===== src/Web/WalletWidget/Events.antt =====
-- web/src/components/wallet-widget.tsx: what happens to the widget: the answers that it waits for, the
-- events of the wallet, clicks, renderings with their effects, the timer of the error, and the end. A
-- click meets the state as it is then.
use micro_ai_paygate.Prelude.{
  ℕ, zero, suc, Text, text_eq, Bool, true, false, not, ◌&&◌, Option, none, some, List, [], ◌∷◌,
  if◌then◌else◌,
}
use micro_ai_paygate.Js.ParseInt.{parse_hex}
use micro_ai_paygate.Js.Host.{Host}
use micro_ai_paygate.Web.WalletWidget.{
  State, loading, disconnected, connected, Task, load_started, account_asked, connect_asked,
  switch_asked, Widget, Env, Reply, set_state, set_error, set_switching, awaits, with_chain,
  on_correct, go_on,
}

pub data Event : Type 0 where
  resumed : Env → Reply → ℕ → Event
  accounts_changed : List Text → Event
  chain_changed : Text → Event
  clicked_connect clicked_switch rendered timed_out : Event
  unmounted : Bool → Event

-- The widget when it is mounted first.
abbrev pub first_shown : Widget
first_shown = record {
  state = loading;
  switching = false;
  action_error = none;
  last_connected = none;
  shown_error = none;
  timer = false;
  resets = 0;
  is_mounted = true;
  hears_accounts = false;
  hears_chain = false;
  tasks = load_started ∷ [];
}

abbrev pub nth : ℕ → List Task → Option Task
nth n [] = none
nth zero (t ∷ ts) = some t
nth (suc n) (t ∷ ts) = nth n ts

abbrev pub without : ℕ → List Task → List Task
without n [] = []
without zero (t ∷ ts) = ts
without (suc n) (t ∷ ts) = t ∷ without n ts

-- A text that is neither missing nor empty.
abbrev pub present : Option Text → Option Text
present (some (c ∷ s)) = some (c ∷ s)
present t = none

-- `accounts[0]`
abbrev pub first : List Text → Option Text
first [] = none
first (a ∷ accounts) = some a

-- `browserAnalytics.reset()`
abbrev pub reset_identity : Widget → Widget
reset_identity w = record w { resets = suc w.resets }

-- `if (lastConnectedAddress.current) browserAnalytics.reset()`, and the same with the comparison with
-- a new account
abbrev pub left : Option Text → Widget → Widget
left none w = w
left (some last) w = reset_identity w

abbrev pub replaced : Option Text → Text → Widget → Widget
replaced none account w = w
replaced (some last) account w = if not (text_eq last account) then reset_identity w else w

-- The handler of `accountsChanged`, up to its `await`
unfoldable pub announced : Option Text → Widget → Widget
unfolding set_state text_eq
announced none w = set_state (λ s. disconnected) (left (present w.last_connected) w)
announced (some account) w =
    awaits (account_asked account) (replaced (present w.last_connected) account w)

abbrev pub handle_accounts : List Text → Widget → Widget
handle_accounts accounts w = announced (present (first accounts)) w

-- `state.kind === "connected" ? state.address : null`
abbrev pub address_of : State → Option Text
address_of (connected address chain_id) = some address
address_of s = none

abbrev pub is_connected_wrong : ℕ → State → Bool
is_connected_wrong expected (connected address chain_id) = not (on_correct expected chain_id)
is_connected_wrong expected s = false

abbrev pub is_disconnected : State → Bool
is_disconnected disconnected = true
is_disconnected s = false

abbrev pub same_error : Option Text → Option Text → Bool
same_error none none = true
same_error (some s) (some t) = text_eq s t
same_error s t = false

abbrev pub is_there : Option Text → Bool
is_there error = elim (present error) [ none ↦ false | some e ↦ true ]

-- The two effects after a rendering: that of the state, and that of the error where it has changed
unfoldable pub run_effects : Widget → Widget
unfolding text_eq
run_effects w = record w {
  last_connected = address_of w.state;
  shown_error = w.action_error;
  timer = if same_error w.shown_error w.action_error then w.timer else is_there w.action_error;
}

-- The end of the component: a provider with no `removeListener` keeps the handlers.
unfoldable pub unmount : Bool → Widget → Widget
unmount removes w = record w {
  is_mounted = false;
  hears_accounts = w.hears_accounts && not removes;
  hears_chain = w.hears_chain && not removes;
  timer = false;
}

-- The buttons "Connect wallet" and "Switch", up to their first `await`
unfoldable pub click_connect : Widget → Widget
unfolding set_error
click_connect w = awaits connect_asked (set_error none w)

unfoldable pub click_switch : Widget → Widget
unfolding set_error set_switching
click_switch w = awaits switch_asked (set_error none (set_switching true w))

module _ (host : Host) (expected : ℕ) (expected_name : Text) where
  abbrev pub resume : Option Task → List Task → Env → Reply → Widget → Widget
  resume none tasks env reply w = w
  resume (some task) tasks env reply w =
      go_on host expected expected_name task env reply (record w { tasks = tasks })

  unfoldable pub after_event : Event → Widget → Widget
  unfolding announced set_state parse_hex click_connect click_switch run_effects set_error unmount
  after_event (resumed env reply i) w = resume (nth i w.tasks) (without i w.tasks) env reply w
  after_event (accounts_changed accounts) w =
      if w.hears_accounts then handle_accounts accounts w else w
  after_event (chain_changed hex) w =
      if w.hears_chain then set_state (with_chain (parse_hex hex)) w else w
  after_event clicked_connect w =
      if w.is_mounted && is_disconnected w.state then click_connect w else w
  after_event clicked_switch w =
      if w.is_mounted && (is_connected_wrong expected w.state && not w.switching)
      then click_switch w
      else w
  after_event rendered w = if w.is_mounted then run_effects w else w
  after_event timed_out w = if w.timer then set_error none (record w { timer = false }) else w
  after_event (unmounted removes) w = if w.is_mounted then unmount removes w else w

  pub data Reachable : Widget → Type 0 where
    mount : Reachable first_shown
    next : (e : Event) {w : Widget} → Reachable w → Reachable (after_event e w)
