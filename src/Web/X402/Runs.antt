-- ===== src/Web/X402/Runs.antt =====
-- web/src/hooks/use-x402.ts: what one run does to the state that the runs share: the numbers of the
-- runs, the timers of the others, and, for a run that `submit` or `reset` has superseded, what the
-- page shows and reports.
use micro_ai_paygate.Prelude.{put-else, ℕ, true, false, ◌≡◌, ◌≢◌, refl, ◌∙◌}
use micro_ai_paygate.Js.Host.{Host}
use micro_ai_paygate.Web.X402.{
  Action, update, report, save, start_timer, clear_timer, is_current, has_wallet, Flow, finish,
  fail, at, act, ask,
}
use micro_ai_paygate.Web.X402.System.{Env, World, is_run, perform, advance}

-- What a superseded run leaves as it is.
pub record IsUntouched (w w' : World) : Type 0 where
  pub run_id : w'.run_id ≡ w.run_id
  pub state : w'.state ≡ w.state
  pub reports : w'.reports ≡ w.reports

module _ (host : Host) (env : Env) (my_run : ℕ) where
  perform-run_id : (a : Action) (w : World) → (perform host env my_run a w).1.run_id ≡ w.run_id
  unfolding perform
  perform-run_id (update p) w = refl
  perform-run_id (report call) w = refl
  perform-run_id (save signed input) w = refl
  perform-run_id start_timer w = refl
  perform-run_id clear_timer w = refl
  perform-run_id is_current w = refl
  perform-run_id has_wallet w = refl

  pub advance-run_id :
      (m : Flow Unit) (w : World) → (advance host env my_run m w).1.run_id ≡ w.run_id
  unfolding advance
  advance-run_id (finish u) w = refl
  advance-run_id (fail e) w = refl
  advance-run_id (at stage m) w = advance-run_id m w
  advance-run_id (act a k) w =
      advance-run_id (k (perform host env my_run a w).0) (perform host env my_run a w).1
      ∙ perform-run_id a w
  advance-run_id (ask q k) w = refl

  perform-timers :
      (n : ℕ)
      → n ≢ my_run
      → (a : Action) (w : World) → (perform host env my_run a w).1.timers n ≡ w.timers n
  unfolding perform
  perform-timers n h (update p) w = refl
  perform-timers n h (report call) w = refl
  perform-timers n h (save signed input) w = refl
  perform-timers n h start_timer w = put-else w.timers my_run n true h
  perform-timers n h clear_timer w = put-else w.timers my_run n false h
  perform-timers n h is_current w = refl
  perform-timers n h has_wallet w = refl

  pub advance-timers :
      (n : ℕ)
      → n ≢ my_run
      → (m : Flow Unit) (w : World) → (advance host env my_run m w).1.timers n ≡ w.timers n
  unfolding advance
  advance-timers n h (finish u) w = refl
  advance-timers n h (fail e) w = refl
  advance-timers n h (at stage m) w = advance-timers n h m w
  advance-timers n h (act a k) w =
      advance-timers n h (k (perform host env my_run a w).0) (perform host env my_run a w).1
      ∙ perform-timers n h a w
  advance-timers n h (ask q k) w = refl

  perform-IsUntouched :
      (a : Action) (w : World)
      → is_run w my_run ≡ false
      → IsUntouched w (perform host env my_run a w).1
  unfolding perform
  perform-IsUntouched (update p) w h = record { run_id = refl; state = rw h refl; reports = refl }
  perform-IsUntouched (report call) w h = record {
    run_id = refl;
    state = refl;
    reports = rw h refl;
  }
  perform-IsUntouched (save signed input) w h = record {
    run_id = refl;
    state = refl;
    reports = refl;
  }
  perform-IsUntouched start_timer w h = record { run_id = refl; state = refl; reports = refl }
  perform-IsUntouched clear_timer w h = record { run_id = refl; state = refl; reports = refl }
  perform-IsUntouched is_current w h = record { run_id = refl; state = refl; reports = refl }
  perform-IsUntouched has_wallet w h = record { run_id = refl; state = refl; reports = refl }

  pub advance-IsUntouched :
      (m : Flow Unit) (w : World)
      → is_run w my_run ≡ false
      → IsUntouched w (advance host env my_run m w).1
  unfolding advance
  advance-IsUntouched (finish u) w h = record { run_id = refl; state = refl; reports = refl }
  advance-IsUntouched (fail e) w h = record { run_id = refl; state = refl; reports = refl }
  advance-IsUntouched (at stage m) w h = advance-IsUntouched m w h
  advance-IsUntouched (act a k) w h =
      let w' : World = (perform host env my_run a w).1 in
      let now : IsUntouched w w' = perform-IsUntouched a w h in
      let rest = advance-IsUntouched (k (perform host env my_run a w).0) w' (rw now.run_id h) in
      record {
        run_id = rest.run_id ∙ now.run_id;
        state = rest.state ∙ now.state;
        reports = rest.reports ∙ now.reports;
      }
  advance-IsUntouched (ask q k) w h = record { run_id = refl; state = refl; reports = refl }
