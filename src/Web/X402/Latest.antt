-- ===== src/Web/X402/Latest.antt =====
-- web/src/hooks/use-x402.ts: the page that runs one submission at a time, without any numbers of
-- runs, and the hook as an implementation of it. A run that is superseded is dropped there; what it
-- still stores is a change of the receipts from outside.
use mathlib.Core.Path.{subst}
use micro_ai_paygate.Prelude.{ℕ, Bool, true, false, ◌≡◌, refl, List, ◌∷◌, if◌then◌else◌}
use micro_ai_paygate.Js.Exec.{Result}
use micro_ai_paygate.Js.Host.{Host}
use micro_ai_paygate.Sdk.Types.{Fault}
use micro_ai_paygate.Web.Storage.{Store, save_receipt}
use micro_ai_paygate.Web.Analytics as Analytics
use micro_ai_paygate.Web.X402.{
  X402State, initial_state, Action, update, report, save, start_timer, clear_timer, is_current,
  has_wallet, Effect, Flow, finish, fail, at, act, ask,
}
use micro_ai_paygate.Web.X402.Reports.{ai_step}
use micro_ai_paygate.Web.X402.System.{Env, World, System, Reply, is_run, perform, advance, go_on}

-- The page with its one run.
pub record Page : Type 0 where
  pub state : X402State
  pub reports : List Analytics.Request
  pub store : Store
  pub timer : Bool

pub record Single : Type 0 where
  pub page : Page
  pub run : Flow Unit

module _ (host : Host) (env : Env) where
  abbrev pub kept : Page → Result Fault Unit × Store → Result Fault Unit × Page
  kept p saved = (saved.0, record p { store = saved.1 })

  unfoldable pub carry_out : (a : Action) → Page → Effect a × Page
  unfolding save_receipt
  carry_out (update f) p = (tt, record p { state = f p.state })
  carry_out (report call) p = (tt, record p { reports = call ∷ p.reports })
  carry_out (save signed input) p = kept p (save_receipt host env.browser signed input p.store)
  carry_out start_timer p = (tt, record p { timer = true })
  carry_out clear_timer p = (tt, record p { timer = false })
  carry_out is_current p = (true, p)
  carry_out has_wallet p = (env.wallet_there, p)

  unfoldable pub run_on : Flow Unit → Page → Flow Unit × Page
  unfolding carry_out
  run_on (finish u) p = (finish u, p)
  run_on (fail e) p = (fail e, p)
  run_on (at stage m) p = run_on m p
  run_on (act a k) p = run_on (k (carry_out a p).0) (carry_out a p).1
  run_on (ask q k) p = (ask q k, p)

-- What happens to the page.
pub data Happening : Type 0 where
  submission : Env → Flow Unit → Happening
  reset : Happening
  reply : Env → Reply → Happening
  due : Happening
  stored_elsewhere : Store → Happening

abbrev pub to_single : Flow Unit × Page → Single
to_single after = record { page = after.1; run = after.0 }

abbrev pub without_timer : Page → Page
without_timer p = record p { timer = false }

abbrev pub single_step : Host → Happening → Single → Single
single_step host (submission env m) s = to_single (run_on host env m (without_timer s.page))
single_step host reset s = record {
  page = record s.page { state = initial_state; timer = false };
  run = finish tt;
}
single_step host (reply env r) s = to_single (run_on host env (go_on s.run r) s.page)
single_step host due s = record s {
  page = record s.page {
    state = if s.page.timer then ai_step s.page.state else s.page.state;
    timer = false;
  };
}
single_step host (stored_elsewhere store) s = record s { page = record s.page { store = store } }

-- What the hook shows of its latest run.
abbrev pub page_of : World → Page
page_of w = record {
  state = w.state;
  reports = w.reports;
  store = w.store;
  timer = w.timers w.run_id;
}

abbrev pub latest : System → Single
latest s = record { page = page_of s.world; run = s.runs s.world.run_id }

abbrev pub IsSame : Flow Unit × World → Flow Unit × Page → Type 0
IsSame after page = (after.0 ≡ page.0) × (page_of after.1 ≡ page.1)

module _ (host : Host) (env : Env) (my_run : ℕ) where
  -- An action of the latest run.
  perform-carry_out :
      (a : Action) (w : World)
      → is_run w my_run ≡ true
      → ((perform host env my_run a w).0 ≡ (carry_out host env a (page_of w)).0)
        × (page_of (perform host env my_run a w).1 ≡ (carry_out host env a (page_of w)).1)
        × ((perform host env my_run a w).1.run_id ≡ w.run_id)
  unfolding perform carry_out
  perform-carry_out (update p) w h = (refl, rw h refl, refl)
  perform-carry_out (report call) w h = (refl, rw h refl, refl)
  perform-carry_out (save signed input) w h = (refl, refl, refl)
  perform-carry_out start_timer w h = (refl, rw h refl, refl)
  perform-carry_out clear_timer w h = (refl, rw h refl, refl)
  perform-carry_out is_current w h = (h, refl, refl)
  perform-carry_out has_wallet w h = (refl, refl, refl)

  pub advance-run_on :
      (m : Flow Unit) (w : World)
      → is_run w my_run ≡ true
      → IsSame (advance host env my_run m w) (run_on host env m (page_of w))
  unfolding advance run_on
  advance-run_on (finish u) w h = (refl, refl)
  advance-run_on (fail e) w h = (refl, refl)
  advance-run_on (at stage m) w h = advance-run_on m w h
  advance-run_on (act a k) w h =
      let (value, page, number) = perform-carry_out a w h in
      let w' : World = (perform host env my_run a w).1 in
      let rest = advance-run_on (k (perform host env my_run a w).0) w' (rw number h) in
      let same : run_on host env (k (perform host env my_run a w).0) (page_of w')
          ≡ run_on host env (k (carry_out host env a (page_of w)).0)
              (carry_out host env a (page_of w)).1 =
        cc in
      subst (λ after. IsSame (advance host env my_run (act a k) w) after) (same) rest
  advance-run_on (ask q k) w h = (refl, refl)
