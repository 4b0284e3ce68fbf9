-- ===== src/Web/WalletWidget.antt =====
-- web/src/components/wallet-widget.tsx: the state of the widget, the calls of the wallet that it waits
-- for, and what each does when it is answered.
--
-- A chain id that a look-up gives is a natural number, and so is the chain that the deployment expects,
-- a parameter with its name. What the browser and the wallet do may differ from one event to the next,
-- so each brings its `Env` or its `Reply`. After the widget is unmounted a change of its state is none.
pub mod Events
pub mod Busy
pub mod Work
pub mod Rest
pub mod Identity
pub mod Hex
pub mod Mirror
pub mod Rejection
mod Tests
use micro_ai_paygate.Prelude.{
  ℕ, Text, codes, Bool, true, false, not, ◌&&◌, ◌||◌, Option, none, some, List, [], ◌∷◌, ◌++◌, ◌==◌,
  if◌then◌else◌,
}
use micro_ai_paygate.Js.Json.{Number, int, pos}
use micro_ai_paygate.Js.Exec.{Result, ok, throw}
use micro_ai_paygate.Js.Host.{Host}
use micro_ai_paygate.Web.Errors.{Caught, object, primitive, is_rejection, any_of, or_text}

-- `State`
pub data State : Type 0 where
  loading missing disconnected : State
  connected : Text → Number → State

-- An `await` of the code: the two of `load`, that of the handler of the accounts, and the two of each
-- button.
pub data Task : Type 0 where
  load_started load_asked : Task
  account_asked : Text → Task
  connect_asked : Task
  connect_checked : Text → Task
  switch_asked switch_checked : Task

-- The state of the widget. `last_connected` is `lastConnectedAddress.current`; `shown_error` is the
-- `actionError` that the last effect saw, and `timer` says whether its timer is set; `resets` counts
-- the calls of `browserAnalytics.reset`.
pub record Widget : Type 0 where
  pub state : State
  pub switching : Bool
  pub action_error : Option Text
  pub last_connected : Option Text
  pub shown_error : Option Text
  pub timer : Bool
  pub resets : ℕ
  pub is_mounted : Bool
  pub hears_accounts : Bool
  pub hears_chain : Bool
  pub tasks : List Task

-- `hasWallet()`, and what the two subscriptions give: whether the provider has an `on`, or its throw.
pub record Env : Type 0 where
  pub wallet_there : Bool
  pub on_accounts : Result Caught Bool
  pub on_chain : Result Caught Bool

-- What the wallet answers, to whatever is asked of it.
pub record Reply : Type 0 where
  pub account : Result Caught (Option Text)
  pub chain : Result Caught (Option ℕ)
  pub connected : Result Caught Text
  pub switched : Result Caught Unit

-- `setState(p)`
unfoldable pub set_state : (State → State) → Widget → Widget
set_state p w = record w { state = if w.is_mounted then p w.state else w.state }

-- `setActionError(error)`
unfoldable pub set_error : Option Text → Widget → Widget
set_error error w = record w { action_error = if w.is_mounted then error else w.action_error }

-- `setSwitching(b)`
unfoldable pub set_switching : Bool → Widget → Widget
set_switching b w = record w { switching = if w.is_mounted then b else w.switching }

abbrev pub awaits : Task → Widget → Widget
awaits task w = record w { tasks = task ∷ w.tasks }

-- `chain ?? 0`
abbrev pub or_zero : Option ℕ → Number
or_zero none = int (pos 0)
or_zero (some n) = int (pos n)

-- `prev.kind === "connected" ? { ...prev, chainId } : prev`
abbrev pub with_chain : Number → State → State
with_chain chain_id (connected address n) = connected address chain_id
with_chain chain_id s = s

-- The update of the handler of the accounts, once it knows the chain.
abbrev pub with_account : Text → Option ℕ → State → State
with_account address chain (connected other n) = connected address n
with_account address chain s = connected address (or_zero chain)

-- `addr && chain != null`
abbrev pub loaded : Option Text → Option ℕ → State
loaded (some (c ∷ addr)) (some n) = connected (c ∷ addr) (int (pos n))
loaded addr chain = disconnected

-- `state.chainId === EXPECTED_CHAIN`
abbrev pub on_correct : ℕ → Number → Bool
on_correct expected (int (pos n)) = n == expected
on_correct expected n = false

-- `postSwitch !== EXPECTED_CHAIN`, the other way round
abbrev pub is_expected : ℕ → Option ℕ → Bool
is_expected expected none = false
is_expected expected (some n) = n == expected

-- `isUserRejection(err)`
unfoldable pub is_user_rejection : Host → Caught → Bool
is_user_rejection host (primitive s) = false
is_user_rejection host (object short_message message code) =
    is_rejection host code
    || any_of (host.to_lower_case (or_text message []))
        ("user rejected" ∷ "user denied" ∷ "rejected the request" ∷ "action_rejected" ∷ [])

-- The `catch` clause of `load`.
unfoldable pub load_failed : Widget → Widget
unfolding set_state
load_failed w = set_state (λ s. disconnected) w

-- The two subscriptions of `load`, and its calls of the wallet
unfoldable pub subscribe : Result Caught Bool → Result Caught Bool → Widget → Widget
unfolding load_failed
subscribe (throw e) chain w = load_failed w
subscribe (ok accounts) (throw e) w = load_failed (record w { hears_accounts = accounts })
subscribe (ok accounts) (ok chain) w =
    awaits load_asked (record w { hears_accounts = accounts; hears_chain = chain })

-- `load()`, after its first `await`
unfoldable pub start_load : Env → Widget → Widget
unfolding set_state subscribe
start_load env w =
    if not w.is_mounted
    then w
    else if not env.wallet_there
    then set_state (λ s. missing) w
    else subscribe env.on_accounts env.on_chain w

-- `load()`, after its second `await`, which is one of both answers
unfoldable pub end_load : Result Caught (Option Text) → Result Caught (Option ℕ) → Widget → Widget
unfolding set_state load_failed
end_load (throw e) chain w = load_failed w
end_load (ok addr) (throw e) w = load_failed w
end_load (ok addr) (ok chain) w = set_state (λ s. loaded addr chain) w

-- The handler of the accounts, after its `await`
unfoldable pub take_account : Text → Result Caught (Option ℕ) → Widget → Widget
unfolding set_state
take_account address (throw e) w = w
take_account address (ok chain) w = set_state (with_account address chain) w

module _ (host : Host) (expected : ℕ) (expected_name : Text) where
  -- The `catch` clauses of the two buttons.
  unfoldable pub connect_failed : Caught → Widget → Widget
  unfolding is_user_rejection set_error
  connect_failed e w =
      if not (is_user_rejection host e)
      then set_error (some (codes "Couldn't connect to wallet — try again or refresh.")) w
      else w

  unfoldable pub switch_failed : Caught → Widget → Widget
  unfolding is_user_rejection set_error
  switch_failed e w =
      if not (is_user_rejection host e)
      then set_error
          (some (codes "Couldn't switch to " ++ (expected_name ++ codes " — check your wallet."))) w
      else w

  -- The button "Switch", after both its awaits and before its `finally`
  unfoldable pub check_switch : Option ℕ → Widget → Widget
  unfolding set_state set_error
  check_switch post_switch w =
      if not (is_expected expected post_switch)
      then set_error
          (some (
            codes "Switch to "
            ++ (expected_name ++ codes " didn't take. Open your wallet and switch manually.")))
          w
      else set_state (with_chain (int (pos expected))) w

  -- The button "Connect wallet", after each of its awaits
  unfoldable pub take_connected : Result Caught Text → Widget → Widget
  unfolding connect_failed
  take_connected (throw e) w = connect_failed e w
  take_connected (ok addr) w = awaits (connect_checked addr) w

  unfoldable pub end_connect : Text → Result Caught (Option ℕ) → Widget → Widget
  unfolding connect_failed set_state
  end_connect addr (throw e) w = connect_failed e w
  end_connect addr (ok chain) w = set_state (λ s. connected addr (or_zero chain)) w

  -- The button "Switch", after each of its awaits, with its `finally`
  unfoldable pub take_switched : Result Caught Unit → Widget → Widget
  unfolding set_switching switch_failed
  take_switched (throw e) w = set_switching false (switch_failed e w)
  take_switched (ok u) w = awaits switch_checked w

  unfoldable pub end_switch : Result Caught (Option ℕ) → Widget → Widget
  unfolding set_switching switch_failed check_switch
  end_switch (throw e) w = set_switching false (switch_failed e w)
  end_switch (ok chain) w = set_switching false (check_switch chain w)

  -- What an `await` goes on with when it is answered.
  unfoldable pub go_on : Task → Env → Reply → Widget → Widget
  unfolding start_load end_load take_account take_connected end_connect take_switched end_switch
  go_on load_started env reply w = start_load env w
  go_on load_asked env reply w = end_load reply.account reply.chain w
  go_on (account_asked address) env reply w = take_account address reply.chain w
  go_on connect_asked env reply w = take_connected reply.connected w
  go_on (connect_checked addr) env reply w = end_connect addr reply.chain w
  go_on switch_asked env reply w = take_switched reply.switched w
  go_on switch_checked env reply w = end_switch reply.chain w
