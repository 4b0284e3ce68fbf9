-- ===== src/Web/WalletWidget/Mirror/Steps.antt =====
-- web/src/components/wallet-widget.tsx: each step of a wallet and of the widget that shows it as it is.
use mathlib.Core.Path.{subst}
use micro_ai_paygate.Prelude.{
  ℕ, suc, Text, codes, text_eq, ◌≡◌, refl, sym, ap, Option, none, some, ◌++◌, ◌==◌, ==_iff, ==_refl,
  Bool-cases, inl, inr,
}
use micro_ai_paygate.Js.Host.{Host}
use micro_ai_paygate.Web.Wallet.{hex_text}
use micro_ai_paygate.Web.Errors.{Caught}
use micro_ai_paygate.Web.WalletWidget.{
  disconnected, account_asked, Widget, set_state, set_error, set_switching, awaits,
  is_user_rejection, start_load, subscribe, end_load, take_account, take_connected, end_connect,
  connect_failed, take_switched, end_switch, switch_failed, check_switch, go_on,
}
use micro_ai_paygate.Web.WalletWidget.Events.{
  accounts_changed, chain_changed, clicked_connect, clicked_switch, rendered, timed_out,
  first_shown, present, left, replaced, announced, run_effects, click_connect, click_switch,
  after_event,
}
use micro_ai_paygate.Web.WalletWidget.Hex.{parse_hex-hex_text}
use micro_ai_paygate.Web.WalletWidget.Mirror.{
  Address, text_of, Provider, wallet, accounts_of, answered, then_answered, declined, settled,
}

left-resets : (last : Option Text) (w : Widget) → (n : ℕ) × (left last w ≡ record w { resets = n })
left-resets none w = (w.resets, refl)
left-resets (some last) w = (suc w.resets, refl)

replaced-resets :
    (last : Option Text) (a : Text) (w : Widget)
    → (n : ℕ) × (replaced last a w ≡ record w { resets = n })
replaced-resets none a w = (w.resets, refl)
replaced-resets (some last) a w = elim (Bool-cases (text_eq last a)) [
  | inl e ↦ (w.resets, rw e refl)
  | inr e ↦ (suc w.resets, rw e refl)
]

module _ (host : Host) (expected : ℕ) (expected_name : Text) where
  pub opened-settled :
      (e : Caught) (p : Provider)
      → let w =
          answered host expected expected_name e p
            (answered host expected expected_name e p first_shown) in
        w ≡ settled p w
  unfolding after_event go_on start_load subscribe end_load set_state
  opened-settled e p =
      elim p.account
        as (λ account.
          let q : Provider = record { account = account; chain = p.chain } in
          let w =
            answered host expected expected_name e q
              (answered host expected expected_name e q first_shown) in
          w ≡ settled q w) [ none ↦ refl | some a ↦ refl ]

  -- What `announced` leaves does not depend on the account shown before, but for the resets.
  announced-none :
      (w : Widget)
      → (n : ℕ) × (announced none w ≡ set_state (λ s. disconnected) (record w { resets = n }))
  unfolding announced
  announced-none w =
      let (n, same) = left-resets (present w.last_connected) w in
      (n, ap (λ w'. set_state (λ s. disconnected) w') same)

  announced-some :
      (a : Text) (w : Widget)
      → (n : ℕ) × (announced (some a) w ≡ awaits (account_asked a) (record w { resets = n }))
  unfolding announced
  announced-some a w =
      let (n, same) = replaced-resets (present w.last_connected) a w in
      (n, ap (λ w'. awaits (account_asked a) w') same)

  pub moved-settled :
      (e : Caught) (account account' : Option Address) (chain : ℕ) (v : Widget)
      → let q = wallet account' chain in
        let w =
          then_answered host expected expected_name e q
            (accounts_changed (accounts_of account'))
            (settled (wallet account chain) v) in
        w ≡ settled q w
  unfolding after_event go_on take_account set_state
  moved-settled e account none chain v =
      let (n, same) = announced-none (settled (wallet account chain) v) in
      let q : Provider = wallet none chain in
      subst
        (λ w.
          answered host expected expected_name e q (answered host expected expected_name e q w)
          ≡ settled q (
              answered host expected expected_name e q
                (answered host expected expected_name e q w)))
        (sym same) refl
  moved-settled e none (some a) chain v =
      let (n, same) = announced-some (text_of a) (settled (wallet none chain) v) in
      let q : Provider = wallet (some a) chain in
      subst
        (λ w.
          answered host expected expected_name e q (answered host expected expected_name e q w)
          ≡ settled q (
              answered host expected expected_name e q
                (answered host expected expected_name e q w)))
        (sym same) refl
  moved-settled e (some b) (some a) chain v =
      let (n, same) = announced-some (text_of a) (settled (wallet (some b) chain) v) in
      let q : Provider = wallet (some a) chain in
      subst
        (λ w.
          answered host expected expected_name e q (answered host expected expected_name e q w)
          ≡ settled q (
              answered host expected expected_name e q
                (answered host expected expected_name e q w)))
        (sym same) refl

  pub on_chain-settled :
      (account : Option Address) (chain n : ℕ) (v : Widget)
      → let w =
          after_event host expected expected_name
            (chain_changed (codes "0x" ++ hex_text n))
            (settled (wallet account chain) v) in
        w ≡ settled (wallet account n) w
  unfolding after_event set_state
  on_chain-settled none chain n v = refl
  on_chain-settled (some a) chain n v = rw (parse_hex-hex_text n) refl

  pub connects-settled :
      (e : Caught) (account : Option Address) (chain : ℕ) (v : Widget)
      → let w =
          then_answered host expected expected_name e
            (wallet account chain)
            clicked_connect
            (settled (wallet none chain) v) in
        w ≡ settled (wallet account chain) w
  unfolding after_event click_connect go_on take_connected end_connect connect_failed set_state
      set_error
  connects-settled e none chain v = elim (Bool-cases (is_user_rejection host e)) [
    | inl mine ↦ rw mine refl
    | inr other ↦ rw other refl
  ]
  connects-settled e (some a) chain v = refl

  pub switches-settled :
      (e : Caught) (a : Address) (chain : ℕ) (v : Widget)
      → let q = wallet (some a) expected in
        let w =
          then_answered host expected expected_name e q clicked_switch
            (settled (wallet (some a) chain) v) in
        w ≡ settled q w
  unfolding after_event click_switch go_on take_switched end_switch check_switch set_switching
      set_state set_error
  switches-settled e a chain v = elim (Bool-cases (chain == expected)) [
    | inl right ↦
        let here : chain ≡ expected = (==_iff chain expected).0 right in
        rw right (ap (λ n. settled (wallet (some a) n) v) here)
    | inr wrong ↦ rw (wrong, ==_refl expected) refl
  ]

  pub stays-settled :
      (e : Caught) (account : Option Address) (chain : ℕ) (v : Widget)
      → let q = wallet account chain in
        let w = then_answered host expected expected_name e q clicked_switch (settled q v) in
        w ≡ settled q w
  unfolding after_event click_switch go_on take_switched end_switch check_switch set_switching
      set_state set_error
  stays-settled e none chain v = refl
  stays-settled e (some a) chain v = elim (Bool-cases (chain == expected)) [
    | inl right ↦ rw right refl
    | inr wrong ↦ rw (wrong, check_switch, wrong) refl
  ]

  pub refuses-settled :
      (e : Caught) (account : Option Address) (chain : ℕ) (v : Widget)
      → let q = wallet account chain in
        let w = declined host expected expected_name e q (settled q v) in w ≡ settled q w
  unfolding after_event click_switch go_on take_switched switch_failed set_switching set_error
  refuses-settled e none chain v = refl
  refuses-settled e (some a) chain v = elim (Bool-cases (chain == expected)) [
    | inl right ↦ rw right refl
    | inr wrong ↦ elim (Bool-cases (is_user_rejection host e)) [
      | inl mine ↦ rw (wrong, mine) refl
      | inr other ↦ rw (wrong, other) refl
    ]
  ]

  pub shows-settled :
      (p : Provider) (v : Widget)
      → let w = after_event host expected expected_name rendered (settled p v) in w ≡ settled p w
  unfolding after_event run_effects
  shows-settled p v = refl

  pub expires-settled :
      (p : Provider) (v : Widget)
      → let w = after_event host expected expected_name timed_out (settled p v) in w ≡ settled p w
  unfolding after_event set_error
  expires-settled p v = elim (Bool-cases v.timer) [ inl e ↦ rw e refl | inr e ↦ rw e refl ]
