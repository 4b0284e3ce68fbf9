-- ===== src/Web/WalletWidget/Mirror/Shown.antt =====
-- web/src/components/wallet-widget.tsx: what the widget shows of a wallet that answers truly.
use mathlib.Core.Path.{subst}
use micro_ai_paygate.Prelude.{ℕ, Text, codes, false, ◌≡◌, sym, ap, Option, none, some, [], ◌++◌}
use micro_ai_paygate.Js.Host.{Host}
use micro_ai_paygate.Web.Wallet.{hex_text}
use micro_ai_paygate.Web.WalletWidget.{Widget}
use micro_ai_paygate.Web.WalletWidget.Events.{
  accounts_changed, chain_changed, clicked_connect, clicked_switch, rendered, timed_out,
  after_event,
}
use micro_ai_paygate.Web.WalletWidget.Mirror.{
  Address, Provider, wallet, mirror, accounts_of, then_answered, declined, settled, Follows, opened,
  moved, on_chain, connects, switches, stays, refuses, shows, expires,
}
use micro_ai_paygate.Web.WalletWidget.Mirror.Steps.{
  opened-settled, moved-settled, on_chain-settled, connects-settled, switches-settled,
  stays-settled, refuses-settled, shows-settled, expires-settled,
}

module _ (host : Host) (expected : ℕ) (expected_name : Text) where
  -- A step from a settled widget is one from the widget itself.
  from-settled :
      (p q : Provider) (step : Widget → Widget) (w : Widget)
      → w ≡ settled p w
      → step (settled p w) ≡ settled q (step (settled p w))
      → step w ≡ settled q (step w)
  from-settled p q step w ih h = subst (λ v. step v ≡ settled q (step v)) (sym ih) h

  Follows-settled :
      {account : Option Address} {chain : ℕ} {w : Widget}
      → Follows host expected expected_name account chain w
      → w ≡ settled (wallet account chain) w
  Follows-settled (opened e account chain) =
      opened-settled host expected expected_name e (wallet account chain)
  Follows-settled (moved e {account} account' {chain} {w} f) =
      from-settled (wallet account chain) (wallet account' chain)
        (then_answered host expected expected_name e (wallet account' chain)
          (accounts_changed (accounts_of account')))
        w (Follows-settled f) (moved-settled host expected expected_name e account account' chain w)
  Follows-settled (on_chain {account} {chain} n {w} f) =
      from-settled (wallet account chain) (wallet account n)
        (after_event host expected expected_name (chain_changed (codes "0x" ++ hex_text n))) w
        (Follows-settled f) (on_chain-settled host expected expected_name account chain n w)
  Follows-settled (connects e account {chain} {w} f) =
      from-settled (wallet none chain) (wallet account chain)
        (then_answered host expected expected_name e (wallet account chain) clicked_connect) w
        (Follows-settled f) (connects-settled host expected expected_name e account chain w)
  Follows-settled (switches e a {chain} {w} f) =
      from-settled (wallet (some a) chain) (wallet (some a) expected)
        (then_answered host expected expected_name e (wallet (some a) expected) clicked_switch) w
        (Follows-settled f) (switches-settled host expected expected_name e a chain w)
  Follows-settled (stays e {account} {chain} {w} f) =
      from-settled (wallet account chain) (wallet account chain)
        (then_answered host expected expected_name e (wallet account chain) clicked_switch) w
        (Follows-settled f) (stays-settled host expected expected_name e account chain w)
  Follows-settled (refuses e {account} {chain} {w} f) =
      from-settled (wallet account chain) (wallet account chain)
        (declined host expected expected_name e (wallet account chain)) w (Follows-settled f)
        (refuses-settled host expected expected_name e account chain w)
  Follows-settled (shows {account} {chain} {w} f) =
      from-settled (wallet account chain) (wallet account chain)
        (after_event host expected expected_name rendered) w (Follows-settled f)
        (shows-settled host expected expected_name (wallet account chain) w)
  Follows-settled (expires {account} {chain} {w} f) =
      from-settled (wallet account chain) (wallet account chain)
        (after_event host expected expected_name timed_out) w (Follows-settled f)
        (expires-settled host expected expected_name (wallet account chain) w)

  -- Where every call of the wallet is answered truly before anything else happens, the widget shows
  -- the wallet as it is after each change of its account and of its chain, each click on "Connect
  -- wallet" and "Switch", each rendering and each timer: "Connect wallet" if the wallet gives it no
  -- account, and its account and chain otherwise. The wallet may refuse to connect and to switch, and
  -- it may say that it has switched and stay where it is; the button "Switch" then works again.
  pub Follows-mirror :
      {account : Option Address} {chain : ℕ} {w : Widget}
      → Follows host expected expected_name account chain w
      → (w.state ≡ mirror (wallet account chain)) × (w.switching ≡ false) × (w.tasks ≡ [])
  Follows-mirror f =
      let same = Follows-settled f in
      (
        ap (λ (v : Widget). v.state) same,
        ap (λ (v : Widget). v.switching) same,
        ap (λ (v : Widget). v.tasks) same,
      )
