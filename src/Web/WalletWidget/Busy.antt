-- ===== src/Web/WalletWidget/Busy.antt =====
-- web/src/components/wallet-widget.tsx: what the widget shows as under way against the calls of the
-- wallet that it waits for.
pub mod Answers
pub mod Always
use mathlib.Core.Path.{subst}
use micro_ai_paygate.Prelude.{
  ℕ, zero, suc, ◌+◌, ◌≤◌, Text, Bool, true, false, not, ◌&&◌, ◌≡◌, refl, ◌∙◌, Option, none, some,
  List, [], ◌∷◌, inl, inr, Bool-cases, arith, if◌then◌else◌,
}
use micro_ai_paygate.Js.Json.{Number, int, pos}
use micro_ai_paygate.Js.Exec.{Result, ok, throw}
use micro_ai_paygate.Js.Host.{Host}
use micro_ai_paygate.Web.Errors.{Caught}
use micro_ai_paygate.Web.WalletWidget.{
  is_user_rejection, is_expected, or_zero, State, loading, missing, disconnected, connected, Task,
  load_started, load_asked, account_asked, connect_asked, connect_checked, switch_asked,
  switch_checked, Widget, Env, Reply, set_state, set_error, set_switching, awaits, with_chain,
  with_account, loaded, subscribe, start_load, end_load, take_account, take_connected, end_connect,
  take_switched, end_switch, load_failed, connect_failed, switch_failed, check_switch, go_on,
}
use micro_ai_paygate.Web.WalletWidget.Events.{
  Event, resumed, accounts_changed, chain_changed, clicked_connect, clicked_switch, rendered,
  timed_out, unmounted, nth, without, run_effects, unmount, click_connect, click_switch, resume,
  after_event, Reachable, mount, next,
}

abbrev pub is_switch : Task → Bool
is_switch switch_asked = true
is_switch switch_checked = true
is_switch task = false

abbrev pub is_load : Task → Bool
is_load load_started = true
is_load load_asked = true
is_load task = false

abbrev pub is_loading : State → Bool
is_loading loading = true
is_loading s = false

abbrev pub one_if : Bool → ℕ
one_if true = 1
one_if false = 0

abbrev pub count : (Task → Bool) → List Task → ℕ
count p [] = 0
count p (t ∷ ts) = one_if (p t) + count p ts

pub count-without :
    (p : Task → Bool) (i : ℕ) (ts : List Task) (t : Task)
    → nth i ts ≡ some t
    → count p ts ≡ one_if (p t) + count p (without i ts)
count-without p i [] t h = cc
count-without p zero (x ∷ ts) t h = let same : x ≡ t = cc in rw same refl
count-without p (suc i) (x ∷ ts) t h = omega (arith, count-without p i ts t h)

-- What is under way, with so many loads and switches that are just being answered.
pub record IsBusyWith (loads switches : ℕ) (w : Widget) : Type 0 where
  pub switching : count is_switch w.tasks + switches ≡ one_if w.switching
  pub load : count is_load w.tasks + loads ≤ 1
  pub loading : is_loading w.state ≡ true → 1 ≤ count is_load w.tasks + loads

abbrev pub IsBusy : Widget → Type 0
IsBusy w = w.is_mounted ≡ true → IsBusyWith 0 0 w

pub is_loading-with_chain : (n : Number) (s : State) → is_loading (with_chain n s) ≡ is_loading s
is_loading-with_chain n loading = refl
is_loading-with_chain n missing = refl
is_loading-with_chain n disconnected = refl
is_loading-with_chain n (connected address m) = refl

pub is_loading-with_account :
    (address : Text) (chain : Option ℕ) (s : State)
    → is_loading (with_account address chain s) ≡ false
is_loading-with_account address chain loading = refl
is_loading-with_account address chain missing = refl
is_loading-with_account address chain disconnected = refl
is_loading-with_account address chain (connected other n) = refl

pub is_loading-loaded :
    (addr : Option Text) (chain : Option ℕ) → is_loading (loaded addr chain) ≡ false
is_loading-loaded none chain = refl
is_loading-loaded (some []) chain = refl
is_loading-loaded (some (c ∷ addr)) none = refl
is_loading-loaded (some (c ∷ addr)) (some n) = refl

module _ (w : Widget) (there : w.is_mounted ≡ true) where
  pub set_state-IsBusyWith :
      (loads switches : ℕ) (p : State → State)
      → (is_loading (p w.state) ≡ true → is_loading w.state ≡ true)
      → IsBusyWith loads switches w
      → IsBusyWith loads switches (set_state p w)
  unfolding set_state
  set_state-IsBusyWith loads switches p shown h = record {
    switching = h.switching;
    load = h.load;
    loading = λ e. h.loading (shown (rw there at e));
  }

  pub set_error-IsBusyWith :
      (loads switches : ℕ) (error : Option Text)
      → IsBusyWith loads switches w
      → IsBusyWith loads switches (set_error error w)
  unfolding set_error
  set_error-IsBusyWith loads switches error h = record {
    switching = h.switching;
    load = h.load;
    loading = h.loading;
  }

  pub off-IsBusyWith : IsBusyWith 0 1 w → IsBusyWith 0 0 (set_switching false w)
  unfolding set_switching
  off-IsBusyWith h = record {
    switching = let e = h.switching in ground (arith, there);
    load = h.load;
    loading = h.loading;
  }

  pub load-IsBusyWith :
      (p : State → State)
      → ((s : State) → is_loading (p s) ≡ false)
      → IsBusyWith 1 0 w
      → IsBusyWith 0 0 (set_state p w)
  unfolding set_state
  load-IsBusyWith p shown h = record {
    switching = h.switching;
    load = omega (arith, h.load);
    loading = λ e. let off = shown w.state in let on = (rw there at e) in cc;
  }
