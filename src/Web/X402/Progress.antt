-- ===== src/Web/X402/Progress.antt =====
-- web/src/hooks/use-x402.ts: the state that the page shows against its latest run, over every history
-- of submissions, resets, answers and timers.
use mathlib.Core.Path.{subst}
use micro_ai_paygate.Prelude.{
  Text, Bool, true, false, ◌≡◌, refl, sym, Option, ◌⊎◌, inl, inr, if◌then◌else◌, Bool-cases, trim,
}
use micro_ai_paygate.Js.Json.{Json}
use micro_ai_paygate.Js.Host.{Host, Ethers}
use micro_ai_paygate.Web.Analytics.{create_flow_context}
use micro_ai_paygate.Web.X402.{
  X402State, initial_state, update, report, save, start_timer, clear_timer, is_current, has_wallet,
  Flow, finish, fail, at, act, ask,
}
use micro_ai_paygate.Web.X402.Reports.{ai_step, has}
use micro_ai_paygate.Web.X402.System.{
  Env, System, Reply, Event, submitted, cancelled, answered, timed, is_run, go_on, Reachable, mount,
  next,
}
use micro_ai_paygate.Web.X402.Latest.{
  Page, Single, carry_out, run_on, Happening, submission, reset, reply, due, stored_elsewhere,
  single_step, latest,
}
use micro_ai_paygate.Web.X402.Refinement.{happening, after_event-latest}
use micro_ai_paygate.Web.X402.Outcome.{IsRunning, IsSettled, Meets, IsOver}
use micro_ai_paygate.Web.X402.Outcome.Submission.{submit-Meets}

-- A run that is over leaves the state fresh or settled and no timer; one that is not over waits, in a
-- running state.
abbrev pub IsInStep : Flow Unit → X402State → Bool → Type 0
IsInStep (finish u) s timer = ((s ≡ initial_state) ⊎ IsSettled s) × (timer ≡ false)
IsInStep (ask q k) s timer = IsRunning s
IsInStep (fail e) s timer = ⊥
IsInStep (at stage m) s timer = ⊥
IsInStep (act a k) s timer = ⊥

abbrev IsPaused : Flow Unit → Type 0
IsPaused (finish u) = Unit
IsPaused (fail e) = Unit
IsPaused (ask q k) = Unit
IsPaused (at stage m) = ⊥
IsPaused (act a k) = ⊥

abbrev WillSettle : Flow Unit → X402State → Bool → Type 0
WillSettle m s timer = Meets (λ a s' t'. IsOver s' t') (λ s' t'. ⊥) m s timer

abbrev IsIdle : Single → Type 0
IsIdle v = (v.run ≡ finish tt) × (v.page.state ≡ initial_state) × (v.page.timer ≡ false)

abbrev IsSound : Single → Type 0
IsSound v = IsPaused v.run × (IsIdle v ⊎ WillSettle v.run v.page.state v.page.timer)

module _ (host : Host) (env : Env) where
  run_on-IsPaused : (m : Flow Unit) (p : Page) → IsPaused (run_on host env m p).0
  unfolding run_on
  run_on-IsPaused (finish u) p = tt
  run_on-IsPaused (fail e) p = tt
  run_on-IsPaused (at stage m) p = run_on-IsPaused m p
  run_on-IsPaused (act a k) p =
      run_on-IsPaused (k (carry_out host env a p).0) (carry_out host env a p).1
  run_on-IsPaused (ask q k) p = tt

  run_on-WillSettle :
      (m : Flow Unit) (p : Page)
      → WillSettle m p.state p.timer
      → WillSettle
          (run_on host env m p).0
          (run_on host env m p).1.state
          (run_on host env m p).1.timer
  unfolding run_on carry_out Meets
  run_on-WillSettle (finish u) p h = h
  run_on-WillSettle (fail e) p h = h
  run_on-WillSettle (at stage m) p h = run_on-WillSettle m p h
  run_on-WillSettle (act (update f) k) p h =
      run_on-WillSettle (k tt) (record p { state = f p.state }) h
  run_on-WillSettle (act (report call) k) p h =
      run_on-WillSettle (k tt) (carry_out host env (report call) p).1 h
  run_on-WillSettle (act (save signed input) k) p h =
      run_on-WillSettle (k (carry_out host env (save signed input) p).0)
        (carry_out host env (save signed input) p).1 (h _)
  run_on-WillSettle (act start_timer k) p h = run_on-WillSettle (k tt) (record p { timer = true }) h
  run_on-WillSettle (act clear_timer k) p h =
      run_on-WillSettle (k tt) (record p { timer = false }) h
  run_on-WillSettle (act is_current k) p h = run_on-WillSettle (k true) p h
  run_on-WillSettle (act has_wallet k) p h = run_on-WillSettle (k env.wallet_there) p (h _)
  run_on-WillSettle (ask q k) p h = h

go_on-WillSettle :
    (m : Flow Unit) (r : Reply) (s : X402State) (t : Bool)
    → WillSettle m s t
    → WillSettle (go_on m r) s t
unfolding Meets
go_on-WillSettle (finish u) r s t h = h
go_on-WillSettle (fail e) r s t h = h
go_on-WillSettle (at stage m) r s t h = h
go_on-WillSettle (act a k) r s t h = h
go_on-WillSettle (ask q k) r s t (running, answers, on) = answers (r q)

-- The timer of a run that waits may be due; one that is over has none.
due-WillSettle :
    (m : Flow Unit) (s : X402State) (t : Bool)
    → IsPaused m
    → WillSettle m s t
    → WillSettle m (if t then ai_step s else s) false
unfolding Meets
due-WillSettle (finish u) s true paused (settled, on) = cc
due-WillSettle (finish u) s false paused h = h
due-WillSettle (fail e) s t paused h = absurd h
due-WillSettle (at stage m) s t paused h = absurd paused
due-WillSettle (act a k) s t paused h = absurd paused
due-WillSettle (ask q k) s true paused (running, answers, on) = (
  record {
    running = running.running;
    no_error = running.no_error;
    no_summary = running.no_summary;
    no_receipt = running.no_receipt;
    on_strip = refl;
  },
  on refl,
  λ off. cc,
)
due-WillSettle (ask q k) s false paused h = h

WillSettle-IsInStep :
    (m : Flow Unit) (s : X402State) (t : Bool) → IsPaused m → WillSettle m s t → IsInStep m s t
unfolding Meets
WillSettle-IsInStep (finish u) s t paused (settled, off) = (inr settled, off)
WillSettle-IsInStep (fail e) s t paused h = absurd h
WillSettle-IsInStep (at stage m) s t paused h = absurd paused
WillSettle-IsInStep (act a k) s t paused h = absurd paused
WillSettle-IsInStep (ask q k) s t paused (running, answers, on) = running

IsSound-IsInStep : (v : Single) → IsSound v → IsInStep v.run v.page.state v.page.timer
IsSound-IsInStep v (paused, inl (over, start, off)) =
    subst (λ m. IsInStep m v.page.state v.page.timer) (sym over) (inl start, off)
IsSound-IsInStep v (paused, inr h) = WillSettle-IsInStep v.run v.page.state v.page.timer paused h

-- A submission of a run that settles, from whatever state.
abbrev IsFine : Happening → Type 0
IsFine (submission env m) = (s : X402State) → WillSettle m s false
IsFine e = Unit

module _ (host : Host) where
  run_on-IsSound :
      (env : Env) (m : Flow Unit) (p : Page)
      → WillSettle m p.state p.timer
      → IsSound (record { page = (run_on host env m p).1; run = (run_on host env m p).0 })
  run_on-IsSound env m p h = (run_on-IsPaused host env m p, inr (run_on-WillSettle host env m p h))

  reply-IsSound :
      (env : Env) (r : Reply) (v : Single) → IsSound v → IsSound (single_step host (reply env r) v)
  unfolding run_on
  reply-IsSound env r v (paused, inl (over, start, off)) = rw over (tt, inl (refl, start, off))
  reply-IsSound env r v (paused, inr h) =
      run_on-IsSound env (go_on v.run r) v.page (go_on-WillSettle v.run r _ _ h)

  due-IsSound : (v : Single) → IsSound v → IsSound (single_step host due v)
  due-IsSound v (paused, inl (over, start, off)) = (paused, inl (over, rw off start, refl))
  due-IsSound v (paused, inr h) = (paused, inr (due-WillSettle v.run _ _ paused h))

  single_step-IsSound :
      (e : Happening) → IsFine e → (v : Single) → IsSound v → IsSound (single_step host e v)
  single_step-IsSound (submission env m) fine v h =
      run_on-IsSound env m (record v.page { timer = false }) (fine v.page.state)
  single_step-IsSound reset fine v h = (tt, inl (refl, refl, refl))
  single_step-IsSound (reply env r) fine v h = reply-IsSound env r v h
  single_step-IsSound due fine v h = due-IsSound v h
  single_step-IsSound (stored_elsewhere store) fine v h = h

module _ (host : Host) (atob : Text → Option Text) (to_text : Json → Option Text) (ethers : Ethers)
    (gateway_url : Option Text) where
  happening-IsFine :
      (e : Event) (s : System) → IsFine (happening host atob to_text ethers gateway_url e s)
  happening-IsFine (submitted env input flow_run_id correlation_id) s =
      elim (Bool-cases (has (trim input))) [
        | inl e ↦ rw e (
            submit-Meets host atob to_text ethers gateway_url input
              (create_flow_context input flow_run_id correlation_id))
        | inr e ↦ rw e tt
      ]
  happening-IsFine cancelled s = tt
  happening-IsFine (answered env my_run r) s = elim (Bool-cases (is_run s.world my_run)) [
    | inl e ↦ rw e tt
    | inr e ↦ rw e tt
  ]
  happening-IsFine (timed my_run) s = elim (Bool-cases (is_run s.world my_run)) [
    | inl e ↦ rw e tt
    | inr e ↦ rw e tt
  ]

  Reachable-IsSound :
      {s : System} → Reachable host atob to_text ethers gateway_url s → IsSound (latest s)
  Reachable-IsSound (mount store) = (tt, inl (refl, refl, refl))
  Reachable-IsSound (next e {s} r) =
      subst IsSound (sym (after_event-latest host atob to_text ethers gateway_url e r)) (
        single_step-IsSound host (happening host atob to_text ethers gateway_url e s)
          (happening-IsFine e s) (latest s) (Reachable-IsSound r))

  -- At every moment either the latest run waits for an answer, and the page shows a run in progress
  -- at a step with a label, with no summary, receipt or error; or that run is over without a throw, no
  -- timer of it is set, and the page shows the initial state, a summary with the step `done` and no
  -- error, or an error at a step with a label with no summary and no receipt, and `isRunning` false
  -- in each.
  pub Reachable-IsInStep :
      {s : System}
      → Reachable host atob to_text ethers gateway_url s
      → IsInStep (s.runs s.world.run_id) s.world.state (s.world.timers s.world.run_id)
  Reachable-IsInStep {s} r = IsSound-IsInStep (latest s) (Reachable-IsSound r)
