-- ===== src/Web/WalletWidget/Identity.antt =====
-- web/src/components/wallet-widget.tsx: when the identity of the analytics is reset.
use mathlib.Core.Path.{subst}
use micro_ai_paygate.Prelude.{
  sym, ℕ, ◌+◌, Text, text_eq, Bool, true, false, not, ◌&&◌, ◌≡◌, refl, ap, Option, none, some, List,
  [], ◌∷◌, inl, inr, Bool-cases, Option-cases, arith, if◌then◌else◌,
}
use micro_ai_paygate.Js.Host.{Host}
use micro_ai_paygate.Web.WalletWidget.{Widget, Env, Reply, set_state, set_error, set_switching}
use micro_ai_paygate.Web.WalletWidget.Events.{
  Event, resumed, accounts_changed, chain_changed, clicked_connect, clicked_switch, rendered,
  timed_out, unmounted, nth, without, present, first, announced, address_of, is_disconnected,
  is_connected_wrong, run_effects, unmount, click_connect, click_switch, after_event,
}
use micro_ai_paygate.Web.WalletWidget.Busy.{one_if}
use micro_ai_paygate.Web.WalletWidget.Work.{go_on-Leaves}

-- There is an account shown, and the wallet has another, or none.
abbrev pub other_account : Option Text → Option Text → Bool
other_account none account = false
other_account (some shown) none = true
other_account (some shown) (some account) = not (text_eq shown account)

-- The widget is told by the wallet that its account is another than the one shown.
abbrev pub hears_other : Widget → Option Text → Event → Bool
hears_other w shown (accounts_changed accounts) =
    w.hears_accounts && other_account shown (present (first accounts))
hears_other w shown e = false

abbrev pub is_rendered : Event → Bool
is_rendered rendered = true
is_rendered e = false

abbrev pub AreUnrendered : List Event → Type 0
AreUnrendered [] = Unit
AreUnrendered (e ∷ es) = (is_rendered e ≡ false) × AreUnrendered es

-- What an event makes of the resets, and of the address that the identity belongs to.
record Keeps (n : ℕ) (w w' : Widget) : Type 0 where
  resets : w'.resets ≡ w.resets + n
  last_connected : w'.last_connected ≡ w.last_connected

same-Keeps : (w : Widget) → Keeps 0 w w
same-Keeps w = record { resets = omega arith; last_connected = refl }

if-true : (b : Bool) (w w' : Widget) → b ≡ true → (if b then w else w') ≡ w
if-true b w w' h = rw h refl

if-Keeps : (b : Bool) (w w' : Widget) → Keeps 0 w w' → Keeps 0 w (if b then w' else w)
if-Keeps true w w' h = h
if-Keeps false w w' h = same-Keeps w

heard-Keeps :
    (b n : Bool) (w w' : Widget)
    → Keeps (one_if n) w w'
    → Keeps (one_if (b && n)) w (if b then w' else w)
heard-Keeps true n w w' h = h
heard-Keeps false n w w' h = same-Keeps w

announced-Keeps :
    (account last : Option Text) (w : Widget)
    → present w.last_connected ≡ last
    → Keeps (one_if (other_account last account)) w (announced account w)
unfolding announced set_state
announced-Keeps none none w h = rw h (record { resets = omega arith; last_connected = refl })
announced-Keeps none (some shown) w h =
    rw h (record { resets = omega arith; last_connected = refl })
announced-Keeps (some account) none w h =
    rw h (record { resets = omega arith; last_connected = refl })
announced-Keeps (some account) (some shown) w h = elim (Bool-cases (text_eq shown account)) [
  | inl e ↦ rw (h, e) (record { resets = omega arith; last_connected = refl })
  | inr e ↦ rw (h, e) (record { resets = omega arith; last_connected = refl })
]

module _ (host : Host) (expected : ℕ) (expected_name : Text) where
  resumed-Keeps :
      (env : Env) (reply : Reply) (i : ℕ) (w : Widget)
      → Keeps 0 w (after_event host expected expected_name (resumed env reply i) w)
  unfolding after_event
  resumed-Keeps env reply i w = elim (Option-cases (nth i w.tasks)) [
    | inl gone ↦ rw gone (same-Keeps w)
    | inr (t, found) ↦
        let rest : Widget = record w { tasks = without i w.tasks } in
        let h = go_on-Leaves host expected expected_name t env reply rest in
        rw found (record { resets = omega (arith, h.resets); last_connected = h.last_connected })
  ]

  after_event-Keeps :
      (e : Event) (w : Widget)
      → is_rendered e ≡ false
      → Keeps
          (one_if (hears_other w (present w.last_connected) e))
          w
          (after_event host expected expected_name e w)
  unfolding after_event set_state click_connect click_switch set_error set_switching unmount
  after_event-Keeps (resumed env reply i) w h = resumed-Keeps env reply i w
  after_event-Keeps (accounts_changed accounts) w h =
      heard-Keeps w.hears_accounts _ w _
        (announced-Keeps (present (first accounts)) (present w.last_connected) w refl)
  after_event-Keeps (chain_changed hex) w h =
      if-Keeps w.hears_chain w _ (record { resets = omega arith; last_connected = refl })
  after_event-Keeps clicked_connect w h =
      if-Keeps (w.is_mounted && is_disconnected w.state) w _
        (record { resets = omega arith; last_connected = refl })
  after_event-Keeps clicked_switch w h =
      if-Keeps (w.is_mounted && (is_connected_wrong expected w.state && not w.switching)) w _
        (record { resets = omega arith; last_connected = refl })
  after_event-Keeps rendered w h = cc
  after_event-Keeps timed_out w h =
      if-Keeps w.timer w _ (record { resets = omega arith; last_connected = refl })
  after_event-Keeps (unmounted removes) w h =
      if-Keeps w.is_mounted w _ (record { resets = omega arith; last_connected = refl })

  abbrev pub after_events : List Event → Widget → Widget
  after_events [] w = w
  after_events (e ∷ es) w = after_events es (after_event host expected expected_name e w)

  -- How often the widget is told of another account than the one shown.
  abbrev pub changes : Option Text → List Event → Widget → ℕ
  changes shown [] w = 0
  changes shown (e ∷ es) w =
      one_if (hears_other w shown e)
      + changes shown es (after_event host expected expected_name e w)

  changes-resets :
      (es : List Event) (w : Widget)
      → AreUnrendered es
      → (after_events es w).resets ≡ w.resets + changes (present w.last_connected) es w
  changes-resets [] w h = omega arith
  changes-resets (e ∷ es) w (one, more) =
      let step = after_event-Keeps e w one in
      let w' : Widget = after_event host expected expected_name e w in
      let rest = changes-resets es w' more in
      let same = ap (λ last. changes (present last) es w') step.last_connected in
      omega (arith, rest, same, step.resets)

  -- From one rendering to the next, whatever happens between them, the identity of the analytics is
  -- reset once for every time that the wallet tells the widget of another account than the one shown,
  -- or of none while one is shown, and at no other time.
  pub rendered-resets :
      (w : Widget)
      → w.is_mounted ≡ true
      → (es : List Event) → AreUnrendered es
      → (after_events es (after_event host expected expected_name rendered w)).resets
        ≡ w.resets
          + changes
              (present (address_of w.state))
              es
              (after_event host expected expected_name rendered w)
  unfolding after_event run_effects
  rendered-resets w there es h =
      subst
        (λ w'.
          (after_events es w').resets ≡ w.resets + changes (present (address_of w.state)) es w')
        (sym (if-true w.is_mounted (run_effects w) w there)) (changes-resets es (run_effects w) h)
