-- ===== src/Web/WalletWidget/Busy/Answers.antt =====
-- web/src/components/wallet-widget.tsx: an answer keeps what is shown as under way in step with the calls
-- of the wallet that are left.
use micro_ai_paygate.Prelude.{
  ℕ, ◌+◌, Text, Bool, true, false, not, ◌≡◌, refl, ◌∙◌, Option, inl, inr, Bool-cases, arith,
  if◌then◌else◌,
}
use micro_ai_paygate.Js.Json.{int, pos}
use micro_ai_paygate.Js.Exec.{Result, ok, throw}
use micro_ai_paygate.Js.Host.{Host}
use micro_ai_paygate.Web.Errors.{Caught}
use micro_ai_paygate.Web.WalletWidget.{
  is_user_rejection, is_expected, or_zero, missing, disconnected, connected, Task, load_started,
  load_asked, account_asked, connect_asked, connect_checked, switch_asked, switch_checked, Widget,
  Env, Reply, set_state, set_error, awaits, with_chain, with_account, loaded, subscribe, start_load,
  end_load, take_account, take_connected, end_connect, take_switched, end_switch, load_failed,
  connect_failed, switch_failed, check_switch, go_on,
}
use micro_ai_paygate.Web.WalletWidget.Busy.{
  is_switch, is_load, one_if, IsBusyWith, is_loading-with_chain, is_loading-with_account,
  is_loading-loaded, set_state-IsBusyWith, set_error-IsBusyWith, off-IsBusyWith, load-IsBusyWith,
}

load_failed-IsBusyWith :
    (w : Widget) → w.is_mounted ≡ true → IsBusyWith 1 0 w → IsBusyWith 0 0 (load_failed w)
unfolding load_failed
load_failed-IsBusyWith w there h = load-IsBusyWith w there (λ s. disconnected) (λ s. refl) h

-- Fields that the invariant does not speak of.
hearing-IsBusyWith :
    (loads switches : ℕ) (accounts chain : Bool) (w : Widget)
    → IsBusyWith loads switches w
    → IsBusyWith loads switches (record w { hears_accounts = accounts; hears_chain = chain })
hearing-IsBusyWith loads switches accounts chain w h = record {
  switching = h.switching;
  load = h.load;
  loading = h.loading;
}

awaits-IsBusyWith :
    (loads switches : ℕ) (t : Task) (w : Widget)
    → IsBusyWith (one_if (is_load t) + loads) (one_if (is_switch t) + switches) w
    → IsBusyWith loads switches (awaits t w)
awaits-IsBusyWith loads switches t w h = record {
  switching = omega (arith, h.switching);
  load = omega (arith, h.load);
  loading = λ e. omega (arith, h.loading e);
}

if-IsBusyWith :
    (b : Bool) (w w' : Widget)
    → (b ≡ true → IsBusyWith 0 0 w)
    → IsBusyWith 0 0 w'
    → IsBusyWith 0 0 (if b then w else w')
if-IsBusyWith true w w' h k = h refl
if-IsBusyWith false w w' h k = k

subscribe-IsBusyWith :
    (accounts chain : Result Caught Bool) (w : Widget)
    → w.is_mounted ≡ true
    → IsBusyWith 1 0 w
    → IsBusyWith 0 0 (subscribe accounts chain w)
unfolding subscribe
subscribe-IsBusyWith (throw e) chain w there h = load_failed-IsBusyWith w there h
subscribe-IsBusyWith (ok accounts) (throw e) w there h =
    load_failed-IsBusyWith _ there (hearing-IsBusyWith 1 0 accounts w.hears_chain w h)
subscribe-IsBusyWith (ok accounts) (ok chain) w there h =
    awaits-IsBusyWith 0 0 load_asked _ (hearing-IsBusyWith 1 0 accounts chain w h)

start_load-IsBusyWith :
    (env : Env) (w : Widget)
    → w.is_mounted ≡ true
    → IsBusyWith 1 0 w
    → IsBusyWith 0 0 (start_load env w)
unfolding start_load
start_load-IsBusyWith env w there h = elim (Bool-cases env.wallet_there) [
  | inl e ↦
      if-IsBusyWith (not w.is_mounted) _ _ (λ gone. cc)
        (rw e (subscribe-IsBusyWith env.on_accounts env.on_chain w there h))
  | inr e ↦
      if-IsBusyWith (not w.is_mounted) _ _ (λ gone. cc)
        (rw e (load-IsBusyWith w there (λ s. missing) (λ s. refl) h))
]

end_load-IsBusyWith :
    (account : Result Caught (Option Text)) (chain : Result Caught (Option ℕ)) (w : Widget)
    → w.is_mounted ≡ true
    → IsBusyWith 1 0 w
    → IsBusyWith 0 0 (end_load account chain w)
unfolding end_load
end_load-IsBusyWith (throw e) chain w there h = load_failed-IsBusyWith w there h
end_load-IsBusyWith (ok addr) (throw e) w there h = load_failed-IsBusyWith w there h
end_load-IsBusyWith (ok addr) (ok chain) w there h =
    load-IsBusyWith w there (λ s. loaded addr chain) (λ s. is_loading-loaded addr chain) h

take_account-IsBusyWith :
    (address : Text) (chain : Result Caught (Option ℕ)) (w : Widget)
    → w.is_mounted ≡ true
    → IsBusyWith 0 0 w
    → IsBusyWith 0 0 (take_account address chain w)
unfolding take_account
take_account-IsBusyWith address (throw e) w there h = h
take_account-IsBusyWith address (ok chain) w there h =
    set_state-IsBusyWith w there 0 0 (with_account address chain)
      (λ on. let off = is_loading-with_account address chain w.state in cc) h

module _ (host : Host) (expected : ℕ) (expected_name : Text) where
  connect_failed-IsBusyWith :
      (e : Caught) (w : Widget)
      → w.is_mounted ≡ true
      → IsBusyWith 0 0 w
      → IsBusyWith 0 0 (connect_failed host expected expected_name e w)
  unfolding connect_failed
  connect_failed-IsBusyWith e w there h = elim (Bool-cases (is_user_rejection host e)) [
    | inl mine ↦ rw mine h
    | inr other ↦ rw other (set_error-IsBusyWith w there 0 0 _ h)
  ]

  switch_failed-is_mounted :
      (e : Caught) (w : Widget)
      → (switch_failed host expected expected_name e w).is_mounted ≡ w.is_mounted
  unfolding switch_failed set_error
  switch_failed-is_mounted e w = elim (Bool-cases (is_user_rejection host e)) [
    | inl mine ↦ rw mine refl
    | inr other ↦ rw other refl
  ]

  switch_failed-IsBusyWith :
      (e : Caught) (w : Widget)
      → w.is_mounted ≡ true
      → IsBusyWith 0 1 w
      → IsBusyWith 0 1 (switch_failed host expected expected_name e w)
  unfolding switch_failed
  switch_failed-IsBusyWith e w there h = elim (Bool-cases (is_user_rejection host e)) [
    | inl mine ↦ rw mine h
    | inr other ↦ rw other (set_error-IsBusyWith w there 0 1 _ h)
  ]

  take_connected-IsBusyWith :
      (answer : Result Caught Text) (w : Widget)
      → w.is_mounted ≡ true
      → IsBusyWith 0 0 w
      → IsBusyWith 0 0 (take_connected host expected expected_name answer w)
  unfolding take_connected
  take_connected-IsBusyWith (throw e) w there h = connect_failed-IsBusyWith e w there h
  take_connected-IsBusyWith (ok addr) w there h = awaits-IsBusyWith 0 0 (connect_checked addr) w h

  end_connect-IsBusyWith :
      (addr : Text) (answer : Result Caught (Option ℕ)) (w : Widget)
      → w.is_mounted ≡ true
      → IsBusyWith 0 0 w
      → IsBusyWith 0 0 (end_connect host expected expected_name addr answer w)
  unfolding end_connect
  end_connect-IsBusyWith addr (throw e) w there h = connect_failed-IsBusyWith e w there h
  end_connect-IsBusyWith addr (ok chain) w there h =
      set_state-IsBusyWith w there 0 0 (λ s. connected addr (or_zero chain))
        (λ (on : false ≡ true). cc) h

  check_switch-IsBusyWith :
      (chain : Option ℕ) (w : Widget)
      → w.is_mounted ≡ true
      → IsBusyWith 0 1 w
      → IsBusyWith 0 1 (check_switch host expected expected_name chain w)
  unfolding check_switch
  check_switch-IsBusyWith chain w there h = elim (Bool-cases (is_expected expected chain)) [
    | inl e ↦ rw e (
        set_state-IsBusyWith w there 0 1 (with_chain (int (pos expected)))
          (λ on. let same = is_loading-with_chain (int (pos expected)) w.state in cc) h)
    | inr e ↦ rw e (set_error-IsBusyWith w there 0 1 _ h)
  ]

  check_switch-is_mounted :
      (chain : Option ℕ) (w : Widget)
      → (check_switch host expected expected_name chain w).is_mounted ≡ w.is_mounted
  unfolding check_switch set_state set_error
  check_switch-is_mounted chain w = elim (Bool-cases (is_expected expected chain)) [
    | inl e ↦ rw e refl
    | inr e ↦ rw e refl
  ]

  take_switched-IsBusyWith :
      (answer : Result Caught Unit) (w : Widget)
      → w.is_mounted ≡ true
      → IsBusyWith 0 1 w
      → IsBusyWith 0 0 (take_switched host expected expected_name answer w)
  unfolding take_switched
  take_switched-IsBusyWith (throw e) w there h =
      off-IsBusyWith _ (switch_failed-is_mounted e w ∙ there) (switch_failed-IsBusyWith e w there h)
  take_switched-IsBusyWith (ok u) w there h = awaits-IsBusyWith 0 0 switch_checked w h

  end_switch-IsBusyWith :
      (answer : Result Caught (Option ℕ)) (w : Widget)
      → w.is_mounted ≡ true
      → IsBusyWith 0 1 w
      → IsBusyWith 0 0 (end_switch host expected expected_name answer w)
  unfolding end_switch
  end_switch-IsBusyWith (throw e) w there h =
      off-IsBusyWith _ (switch_failed-is_mounted e w ∙ there) (switch_failed-IsBusyWith e w there h)
  end_switch-IsBusyWith (ok chain) w there h =
      off-IsBusyWith _ (check_switch-is_mounted chain w ∙ there)
        (check_switch-IsBusyWith chain w there h)

  pub go_on-IsBusyWith :
      (t : Task) (env : Env) (reply : Reply) (w : Widget)
      → w.is_mounted ≡ true
      → IsBusyWith (one_if (is_load t)) (one_if (is_switch t)) w
      → IsBusyWith 0 0 (go_on host expected expected_name t env reply w)
  unfolding go_on
  go_on-IsBusyWith load_started env reply w there h = start_load-IsBusyWith env w there h
  go_on-IsBusyWith load_asked env reply w there h =
      end_load-IsBusyWith reply.account reply.chain w there h
  go_on-IsBusyWith (account_asked address) env reply w there h =
      take_account-IsBusyWith address reply.chain w there h
  go_on-IsBusyWith connect_asked env reply w there h =
      take_connected-IsBusyWith reply.connected w there h
  go_on-IsBusyWith (connect_checked addr) env reply w there h =
      end_connect-IsBusyWith addr reply.chain w there h
  go_on-IsBusyWith switch_asked env reply w there h =
      take_switched-IsBusyWith reply.switched w there h
  go_on-IsBusyWith switch_checked env reply w there h = end_switch-IsBusyWith reply.chain w there h
