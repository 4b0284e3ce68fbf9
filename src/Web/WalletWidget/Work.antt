-- ===== src/Web/WalletWidget/Work.antt =====
-- web/src/components/wallet-widget.tsx: how many answers the widget can still want.
use micro_ai_paygate.Prelude.{
  ℕ, zero, suc, ◌+◌, ◌≤◌, Text, Bool, true, false, not, ◌≡◌, refl, Option, some, List, [], ◌∷◌,
  arith, if◌then◌else◌,
}
use micro_ai_paygate.Js.Exec.{Result, ok, throw}
use micro_ai_paygate.Js.Host.{Host}
use micro_ai_paygate.Web.Errors.{Caught}
use micro_ai_paygate.Web.WalletWidget.{
  is_user_rejection, is_expected, Task, load_started, load_asked, account_asked, connect_asked,
  connect_checked, switch_asked, switch_checked, Widget, Env, Reply, set_state, set_error,
  set_switching, subscribe, start_load, end_load, take_account, take_connected, end_connect,
  take_switched, end_switch, load_failed, connect_failed, switch_failed, check_switch, go_on,
}
use micro_ai_paygate.Web.WalletWidget.Events.{nth, without}

-- How many answers a call of the wallet can still want.
abbrev pub work : Task → ℕ
work load_started = 2
work load_asked = 1
work (account_asked address) = 1
work connect_asked = 2
work (connect_checked addr) = 1
work switch_asked = 2
work switch_checked = 1

abbrev pub total : List Task → ℕ
total [] = 0
total (t ∷ ts) = work t + total ts

pub total-without :
    (i : ℕ) (ts : List Task) (t : Task)
    → nth i ts ≡ some t
    → total ts ≡ work t + total (without i ts)
total-without i [] t h = cc
total-without zero (x ∷ ts) t h = let same : x ≡ t = cc in rw same refl
total-without (suc i) (x ∷ ts) t h = omega (arith, total-without i ts t h)

-- What an answer leaves: whether the widget is there, the identity, and less to be answered than
-- before it.
pub record Leaves (before : ℕ) (w w' : Widget) : Type 0 where
  pub is_mounted : w'.is_mounted ≡ w.is_mounted
  pub resets : w'.resets ≡ w.resets
  pub last_connected : w'.last_connected ≡ w.last_connected
  pub tasks : suc (total w'.tasks) ≤ before + total w.tasks

end_load-Leaves :
    (account : Result Caught (Option Text)) (chain : Result Caught (Option ℕ)) (w : Widget)
    → Leaves 1 w (end_load account chain w)
unfolding end_load load_failed set_state
end_load-Leaves (throw e) chain w = record {
  is_mounted = refl;
  resets = refl;
  last_connected = refl;
  tasks = omega arith;
}
end_load-Leaves (ok a) (throw e) w = record {
  is_mounted = refl;
  resets = refl;
  last_connected = refl;
  tasks = omega arith;
}
end_load-Leaves (ok a) (ok n) w = record {
  is_mounted = refl;
  resets = refl;
  last_connected = refl;
  tasks = omega arith;
}

subscribe-Leaves :
    (accounts chain : Result Caught Bool) (w : Widget) → Leaves 2 w (subscribe accounts chain w)
unfolding subscribe load_failed set_state
subscribe-Leaves (throw e) chain w = record {
  is_mounted = refl;
  resets = refl;
  last_connected = refl;
  tasks = omega arith;
}
subscribe-Leaves (ok a) (throw e) w = record {
  is_mounted = refl;
  resets = refl;
  last_connected = refl;
  tasks = omega arith;
}
subscribe-Leaves (ok a) (ok n) w = record {
  is_mounted = refl;
  resets = refl;
  last_connected = refl;
  tasks = omega arith;
}

take_account-Leaves :
    (address : Text) (chain : Result Caught (Option ℕ)) (w : Widget)
    → Leaves 1 w (take_account address chain w)
unfolding take_account set_state
take_account-Leaves address (throw e) w = record {
  is_mounted = refl;
  resets = refl;
  last_connected = refl;
  tasks = omega arith;
}
take_account-Leaves address (ok n) w = record {
  is_mounted = refl;
  resets = refl;
  last_connected = refl;
  tasks = omega arith;
}

if-Leaves :
    (b : Bool) (n : ℕ) (w left right : Widget)
    → Leaves n w left
    → Leaves n w right
    → Leaves n w (if b then left else right)
if-Leaves true n w left right h k = h
if-Leaves false n w left right h k = k

same-Leaves : (n : ℕ) (w : Widget) → Leaves (suc n) w w
same-Leaves n w = record {
  is_mounted = refl;
  resets = refl;
  last_connected = refl;
  tasks = omega arith;
}

start_load-Leaves : (env : Env) (w : Widget) → Leaves 2 w (start_load env w)
unfolding start_load set_state
start_load-Leaves env w = if-Leaves (not w.is_mounted) 2 w w _ (same-Leaves 1 w) (
    if-Leaves (not env.wallet_there) 2 w _ _
      (record { is_mounted = refl; resets = refl; last_connected = refl; tasks = omega arith })
      (subscribe-Leaves env.on_accounts env.on_chain w))

module _ (host : Host) (expected : ℕ) (expected_name : Text) where
  connect_failed-Leaves :
      (n : ℕ) (e : Caught) (w : Widget)
      → Leaves (suc n) w (connect_failed host expected expected_name e w)
  unfolding connect_failed set_error
  connect_failed-Leaves n e w =
      if-Leaves (not (is_user_rejection host e)) (suc n) w _ w
        (record { is_mounted = refl; resets = refl; last_connected = refl; tasks = omega arith })
        (same-Leaves n w)

  take_connected-Leaves :
      (answer : Result Caught Text) (w : Widget)
      → Leaves 2 w (take_connected host expected expected_name answer w)
  unfolding take_connected
  take_connected-Leaves (throw e) w = connect_failed-Leaves 1 e w
  take_connected-Leaves (ok a) w = record {
    is_mounted = refl;
    resets = refl;
    last_connected = refl;
    tasks = omega arith;
  }

  end_connect-Leaves :
      (addr : Text) (answer : Result Caught (Option ℕ)) (w : Widget)
      → Leaves 1 w (end_connect host expected expected_name addr answer w)
  unfolding end_connect set_state
  end_connect-Leaves addr (throw e) w = connect_failed-Leaves 0 e w
  end_connect-Leaves addr (ok n) w = record {
    is_mounted = refl;
    resets = refl;
    last_connected = refl;
    tasks = omega arith;
  }

  off-Leaves : (n : ℕ) (w w' : Widget) → Leaves n w w' → Leaves n w (set_switching false w')
  unfolding set_switching
  off-Leaves n w w' h = record {
    is_mounted = h.is_mounted;
    resets = h.resets;
    last_connected = h.last_connected;
    tasks = h.tasks;
  }

  switch_failed-Leaves :
      (n : ℕ) (e : Caught) (w : Widget)
      → Leaves (suc n) w (switch_failed host expected expected_name e w)
  unfolding switch_failed set_error
  switch_failed-Leaves n e w =
      if-Leaves (not (is_user_rejection host e)) (suc n) w _ w
        (record { is_mounted = refl; resets = refl; last_connected = refl; tasks = omega arith })
        (same-Leaves n w)

  take_switched-Leaves :
      (answer : Result Caught Unit) (w : Widget)
      → Leaves 2 w (take_switched host expected expected_name answer w)
  unfolding take_switched
  take_switched-Leaves (throw e) w = off-Leaves 2 w _ (switch_failed-Leaves 1 e w)
  take_switched-Leaves (ok u) w = record {
    is_mounted = refl;
    resets = refl;
    last_connected = refl;
    tasks = omega arith;
  }

  end_switch-Leaves :
      (answer : Result Caught (Option ℕ)) (w : Widget)
      → Leaves 1 w (end_switch host expected expected_name answer w)
  unfolding end_switch check_switch set_state set_error
  end_switch-Leaves (throw e) w = off-Leaves 1 w _ (switch_failed-Leaves 0 e w)
  end_switch-Leaves (ok n) w = off-Leaves 1 w _ (
      if-Leaves (not (is_expected expected n)) 1 w _ _
        (record { is_mounted = refl; resets = refl; last_connected = refl; tasks = omega arith })
        (record { is_mounted = refl; resets = refl; last_connected = refl; tasks = omega arith }))

  pub go_on-Leaves :
      (t : Task) (env : Env) (reply : Reply) (w : Widget)
      → Leaves (work t) w (go_on host expected expected_name t env reply w)
  unfolding go_on
  go_on-Leaves load_started env reply w = start_load-Leaves env w
  go_on-Leaves load_asked env reply w = end_load-Leaves reply.account reply.chain w
  go_on-Leaves (account_asked address) env reply w = take_account-Leaves address reply.chain w
  go_on-Leaves connect_asked env reply w = take_connected-Leaves reply.connected w
  go_on-Leaves (connect_checked addr) env reply w = end_connect-Leaves addr reply.chain w
  go_on-Leaves switch_asked env reply w = take_switched-Leaves reply.switched w
  go_on-Leaves switch_checked env reply w = end_switch-Leaves reply.chain w
