-- ===== src/Web/WalletWidget/Busy/Always.antt =====
-- web/src/components/wallet-widget.tsx: what is shown as under way, over every history of the widget.
use micro_ai_paygate.Prelude.{
  ℕ, Text, Bool, true, false, not, ◌&&◌, ◌≡◌, refl, sym, ◌∙◌, Option, none, some, inl, inr,
  Option-cases, arith, if◌then◌else◌, text_eq,
}
use micro_ai_paygate.Js.ParseInt.{parse_hex}
use micro_ai_paygate.Js.Host.{Host}
use micro_ai_paygate.Web.WalletWidget.{
  State, disconnected, Task, account_asked, connect_asked, Widget, Env, Reply, set_state, set_error,
  set_switching, awaits, with_chain, go_on,
}
use micro_ai_paygate.Web.WalletWidget.Events.{
  Event, resumed, accounts_changed, chain_changed, clicked_connect, clicked_switch, rendered,
  timed_out, unmounted, nth, without, present, first, left, replaced, announced, is_disconnected,
  is_connected_wrong, run_effects, unmount, click_connect, click_switch, after_event, Reachable,
  mount, next,
}
use micro_ai_paygate.Web.WalletWidget.Busy.{is_load, is_switch, is_loading, IsBusyWith, IsBusy}
use micro_ai_paygate.Web.WalletWidget.Busy.{
  count-without, set_state-IsBusyWith, is_loading-with_chain,
}
use micro_ai_paygate.Web.WalletWidget.Busy.Answers.{go_on-IsBusyWith}
use micro_ai_paygate.Web.WalletWidget.Work.{go_on-Leaves}

-- Widgets that agree in what the invariant speaks of.
alike-IsBusy :
    (w w' : Widget)
    → w'.is_mounted ≡ w.is_mounted
    → w'.state ≡ w.state
    → w'.switching ≡ w.switching
    → w'.tasks ≡ w.tasks
    → IsBusy w
    → IsBusy w'
alike-IsBusy w w' mounted state switching tasks h there =
    let busy = h (sym mounted ∙ there) in
    record {
      switching = rw (tasks, switching) busy.switching;
      load = rw tasks busy.load;
      loading = λ e. rw tasks (busy.loading (rw state at e));
    }

if-IsBusy :
    (b : Bool) (w w' : Widget)
    → (b ≡ true → IsBusy w → IsBusy w')
    → IsBusy w
    → IsBusy (if b then w' else w)
if-IsBusy true w w' h busy = h refl busy
if-IsBusy false w w' h busy = busy

left-IsBusy : (last : Option Text) (w : Widget) → IsBusy w → IsBusy (left last w)
left-IsBusy none w h = h
left-IsBusy (some last) w h = alike-IsBusy w _ refl refl refl refl h

replaced-IsBusy :
    (last : Option Text) (account : Text) (w : Widget) → IsBusy w → IsBusy (replaced last account w)
replaced-IsBusy none account w h = h
replaced-IsBusy (some last) account w h =
    if-IsBusy (not (text_eq last account)) w _ (λ other. alike-IsBusy w _ refl refl refl refl) h

-- A call that is neither a load nor a switch.
awaits-IsBusy :
    (t : Task) (w : Widget)
    → is_load t ≡ false
    → is_switch t ≡ false
    → IsBusy w
    → IsBusy (awaits t w)
awaits-IsBusy t w no_load no_switch h there = record {
  switching = let busy = (h there).switching in rw no_switch (omega arith);
  load = let busy = (h there).load in rw no_load (omega arith);
  loading = λ e. let busy = (h there).loading e in rw no_load (omega arith);
}

set_state-IsBusy :
    (p : State → State) (w : Widget)
    → (is_loading (p w.state) ≡ true → is_loading w.state ≡ true)
    → IsBusy w
    → IsBusy (set_state p w)
unfolding set_state
set_state-IsBusy p w shown h there = set_state-IsBusyWith w there 0 0 p shown (h there)

announced-IsBusy : (account : Option Text) (w : Widget) → IsBusy w → IsBusy (announced account w)
unfolding announced
announced-IsBusy none w h =
    set_state-IsBusy (λ s. disconnected) _ (λ (on : false ≡ true). cc)
      (left-IsBusy (present w.last_connected) w h)
announced-IsBusy (some account) w h =
    awaits-IsBusy (account_asked account) _ refl refl
      (replaced-IsBusy (present w.last_connected) account w h)

-- A switch is begun only where none is under way.
click_switch-IsBusy :
    (wrong : Bool) (w : Widget)
    → w.is_mounted && (wrong && not w.switching) ≡ true
    → IsBusy w
    → IsBusy (click_switch w)
unfolding click_switch set_switching set_error
click_switch-IsBusy wrong w on h there = record {
  switching = let busy = (h there).switching in ground (arith, there);
  load = omega (arith, (h there).load);
  loading = λ e. omega (arith, (h there).loading e);
}

module _ (host : Host) (expected : ℕ) (expected_name : Text) where
  go_on-IsBusy :
      (t : Task) (env : Env) (reply : Reply) (i : ℕ) (w : Widget)
      → IsBusy w
      → nth i w.tasks ≡ some t
      → w.is_mounted ≡ true
      → IsBusyWith 0 0
          (go_on host expected expected_name t env reply (record w { tasks = without i w.tasks }))
  go_on-IsBusy t env reply i w h found there =
      let busy = h there in
      let loads = count-without is_load i w.tasks t found in
      let switches = count-without is_switch i w.tasks t found in
      go_on-IsBusyWith host expected expected_name t env reply
        (record w { tasks = without i w.tasks }) there
        (record {
          switching = omega (arith, busy.switching, switches);
          load = omega (arith, busy.load, loads);
          loading = λ e. omega (arith, busy.loading e, loads);
        })

  resumed-IsBusy :
      (env : Env) (reply : Reply) (i : ℕ) (w : Widget)
      → IsBusy w
      → IsBusy (after_event host expected expected_name (resumed env reply i) w)
  unfolding after_event
  resumed-IsBusy env reply i w h = elim (Option-cases (nth i w.tasks)) [
    | inl gone ↦ rw gone h
    | inr (t, found) ↦ rw found (λ there.
        let rest : Widget = record w { tasks = without i w.tasks } in
        let same = (go_on-Leaves host expected expected_name t env reply rest).is_mounted in
        go_on-IsBusy t env reply i w h found (sym same ∙ there))
  ]

  after_event-IsBusy :
      (e : Event) (w : Widget) → IsBusy w → IsBusy (after_event host expected expected_name e w)
  unfolding after_event click_connect run_effects unmount set_error
  after_event-IsBusy (resumed env reply i) w h = resumed-IsBusy env reply i w h
  after_event-IsBusy (accounts_changed accounts) w h =
      if-IsBusy w.hears_accounts w _ (λ on. announced-IsBusy (present (first accounts)) w) h
  after_event-IsBusy (chain_changed hex) w h =
      if-IsBusy w.hears_chain w _
        (λ on.
          set_state-IsBusy (with_chain (parse_hex hex)) w
            (λ e. let same = is_loading-with_chain (parse_hex hex) w.state in cc))
        h
  after_event-IsBusy clicked_connect w h =
      if-IsBusy (w.is_mounted && is_disconnected w.state) w _
        (λ on busy.
          awaits-IsBusy connect_asked _ refl refl (alike-IsBusy w _ refl refl refl refl busy))
        h
  after_event-IsBusy clicked_switch w h =
      if-IsBusy (w.is_mounted && (is_connected_wrong expected w.state && not w.switching)) w _
        (click_switch-IsBusy (is_connected_wrong expected w.state) w) h
  after_event-IsBusy rendered w h =
      if-IsBusy w.is_mounted w _ (λ on. alike-IsBusy w _ refl refl refl refl) h
  after_event-IsBusy timed_out w h =
      if-IsBusy w.timer w _ (λ on. alike-IsBusy w _ refl refl refl refl) h
  after_event-IsBusy (unmounted removes) w h =
      if-IsBusy w.is_mounted w _ (λ on busy (there : false ≡ true). cc) h

  -- While the widget is mounted, at every moment `switching` is shown exactly if one switch of the
  -- chain is under way, and never two are; and "Checking wallet" is shown only while the one load of
  -- the wallet is under way.
  pub Reachable-IsBusy : {w : Widget} → Reachable host expected expected_name w → IsBusy w
  Reachable-IsBusy mount =
      λ there. record { switching = refl; load = omega arith; loading = λ e. omega arith }
  Reachable-IsBusy (next e {w} r) = after_event-IsBusy e w (Reachable-IsBusy r)
