-- ===== src/Web/SummarizeForm/Single.antt =====
-- web/src/components/summarize-form.tsx: what the form gives the hook, and what of it where each click
-- meets the state that the hook is in.
use mathlib.Core.Path.{subst}
use micro_ai_paygate.Prelude.{
  ℕ, suc, Text, Bool, true, false, not, ◌&&◌, ◌||◌, ◌≡◌, ◌≢◌, refl, sym, ◌∙◌, ap, Option, none,
  some, ◌⊎◌, inl, inr, ◌==◌, ==_iff, ==-false, Bool-cases, trim, if◌then◌else◌, put-else,
}
use micro_ai_paygate.Js.Json.{Json}
use micro_ai_paygate.Js.Host.{Host, Ethers}
use micro_ai_paygate.Web.Storage.{Store}
use micro_ai_paygate.Web.Errors.{is_truthy}
use micro_ai_paygate.Web.X402.{X402State, Flow, finish, fail, at, act, ask}
use micro_ai_paygate.Web.X402.Reports.{has}
use micro_ai_paygate.Web.X402.Outcome.{IsRunning}
use micro_ai_paygate.Web.X402.Progress.{IsInStep, Reachable-IsInStep}
use micro_ai_paygate.Web.X402.Runs.{advance-run_id}
use micro_ai_paygate.Web.X402.Fresh.{unborn}
use micro_ai_paygate.Web.X402.System as System
use micro_ai_paygate.Web.X402.System.{
  Env, System, Reply, submitted, cancelled, answered, timed, advance, go_on, next_run, run_of,
  placed,
}
use micro_ai_paygate.Web.SummarizeForm.{
  Form, state_of, can_submit, has_error, has_reset, has_retry, Event, typed, clicked_sample,
  clicked_submit, clicked_retry, clicked_reset, clicked_dismiss, rendered, outside, first_shown,
  replied, due, load_sample, handle_submit, after_event, Reachable, mount, next,
}

-- Something is shown that a reset takes away.
abbrev is_shown : X402State → Bool
is_shown s = is_truthy s.summary || (elim s.error [ none ↦ false | some e ↦ true ])

-- A run that is over in the state it has left: no run is in progress.
over :
    (m : Flow Unit) (s : X402State) (t : Bool)
    → IsInStep m s t
    → s.is_running ≡ false
    → m ≡ finish tt
over (finish u) s t h off = refl
over (fail e) s t h off = absurd h
over (at stage m) s t h off = absurd h
over (act a k) s t h off = absurd h
over (ask q k) s t h off = let on = h.running in cc

hidden : (s : X402State) → IsRunning s → is_shown s ≡ false
unfolding is_truthy
hidden s h = rw h.no_summary (rw h.no_error refl)

shown-over :
    (m : Flow Unit) (s : X402State) (t : Bool) → IsInStep m s t → is_shown s ≡ true → m ≡ finish tt
shown-over (finish u) s t h on = refl
shown-over (fail e) s t h on = absurd h
shown-over (at stage m) s t h on = absurd h
shown-over (act a k) s t h on = absurd h
shown-over (ask q k) s t h on = let off = hidden s h in cc

-- What the form lets happen.
abbrev IsAllowed : System.Event → X402State → Type 0
IsAllowed (submitted env input flow_run_id correlation_id) s = s.is_running ≡ false
IsAllowed cancelled s = is_shown s ≡ true
IsAllowed (answered env my_run r) s = Unit
IsAllowed (timed my_run) s = Unit

-- Only the latest run can be under way.
abbrev pub IsSingle : System → Type 0
IsSingle s = (n : ℕ) → n ≢ s.world.run_id → s.runs n ≡ finish tt

-- A click meets the state that the hook is in.
abbrev pub IsTimely : Event → Form → Type 0
IsTimely (clicked_submit env flow_run_id correlation_id) f = f.drawn.state ≡ state_of f
IsTimely (clicked_retry env flow_run_id correlation_id) f = f.drawn.state ≡ state_of f
IsTimely clicked_reset f = f.drawn.state ≡ state_of f
IsTimely clicked_dismiss f = f.drawn.state ≡ state_of f
IsTimely (typed input) f = Unit
IsTimely clicked_sample f = Unit
IsTimely rendered f = Unit
IsTimely (outside o) f = Unit

or_right : (b c : Bool) → c ≡ true → b || c ≡ true
or_right true c h = refl
or_right false c h = h

idle_enough : (b c : Bool) → b && not c ≡ true → c ≡ false
idle_enough true true h = cc
idle_enough true false h = refl
idle_enough false c h = cc

module _ (host : Host) (atob : Text → Option Text) (to_text : Json → Option Text) (ethers : Ethers)
    (gateway_url : Option Text) where
  begun-IsSingle :
      (env : Env) (m : Flow Unit) (s : System)
      → s.runs s.world.run_id ≡ finish tt
      → IsSingle s
      → IsSingle (
          placed s
            (suc s.world.run_id)
            (advance host env (suc s.world.run_id) m (next_run s.world)))
  begun-IsSingle env m s ended h n other =
      let number = advance-run_id host env (suc s.world.run_id) m (next_run s.world) in
      put-else s.runs (suc s.world.run_id) n _ (λ e. other (e ∙ sym number))
      ∙ elim (Bool-cases (n == s.world.run_id)) [
        | inl e ↦ subst (λ k. s.runs k ≡ finish tt) (sym ((==_iff n s.world.run_id).0 e)) ended
        | inr e ↦ h n (==-false n s.world.run_id e)
      ]

  answered-IsSingle :
      (env : Env) (my_run : ℕ) (r : Reply) (s : System)
      → IsSingle s
      → IsSingle (placed s my_run (advance host env my_run (go_on (s.runs my_run) r) s.world))
  answered-IsSingle env my_run r s h n other =
      let m : Flow Unit = go_on (s.runs my_run) r in
      let stale = h n (λ e. other (e ∙ sym (advance-run_id host env my_run m s.world))) in
      elim (Bool-cases (n == my_run)) [
        | inl e ↦
            let same : s.runs my_run ≡ finish tt =
              subst (λ k. s.runs k ≡ finish tt) ((==_iff n my_run).0 e) stale in
            rw e (ap (λ after. after.0) (unborn host env my_run r s same))
        | inr e ↦ rw e stale
      ]

  cancelled-IsSingle :
      (s : System)
      → s.runs s.world.run_id ≡ finish tt
      → IsSingle s
      → IsSingle (record s { world = System.reset s.world })
  unfolding System.reset
  cancelled-IsSingle s ended h n other = elim (Bool-cases (n == s.world.run_id)) [
    | inl e ↦ subst (λ k. s.runs k ≡ finish tt) (sym ((==_iff n s.world.run_id).0 e)) ended
    | inr e ↦ h n (==-false n s.world.run_id e)
  ]

  allowed-IsSingle :
      (e : System.Event) (s : System)
      → System.Reachable host atob to_text ethers gateway_url s
      → IsAllowed e s.world.state
      → IsSingle s
      → IsSingle (System.after_event host atob to_text ethers gateway_url e s)
  unfolding System.after_event System.fire
  allowed-IsSingle (submitted env input flow_run_id correlation_id) s r off h =
      elim (Bool-cases (has (trim input))) [
        | inl e ↦ rw e (
            begun-IsSingle env
              (run_of host atob to_text ethers gateway_url input flow_run_id correlation_id) s
              (over _ _ _ (Reachable-IsInStep host atob to_text ethers gateway_url r) off) h)
        | inr e ↦ rw e h
      ]
  allowed-IsSingle cancelled s r on h =
      cancelled-IsSingle s
        (shown-over _ _ _ (Reachable-IsInStep host atob to_text ethers gateway_url r) on) h
  allowed-IsSingle (answered env my_run reply) s r allowed h =
      answered-IsSingle env my_run reply s h
  allowed-IsSingle (timed my_run) s r allowed h = h

  -- An event of the form leaves the hook as it is, or is one of the hook, which the form allows under
  -- a condition.
  data IsStep (Timely : Type 0) (f f' : Form) : Type 0 where
    nothing : f'.system ≡ f.system → IsStep Timely f f'
    step :
        (e : System.Event)
        → (Timely → IsAllowed e (state_of f))
        → f'.system ≡ System.after_event host atob to_text ethers gateway_url e f.system
        → IsStep Timely f f'

  handle_submit-IsStep :
      (env : Env) (flow_run_id correlation_id : Text) (f : Form)
      → IsStep
          (f.drawn.state ≡ state_of f)
          f
          (handle_submit host atob to_text ethers gateway_url env flow_run_id correlation_id f)
  unfolding handle_submit can_submit
  handle_submit-IsStep env flow_run_id correlation_id f = elim (Bool-cases (can_submit f.drawn)) [
    | inl e ↦ rw e (
        step (submitted env f.drawn.input flow_run_id correlation_id)
          (λ same. ap (λ (s : X402State). s.is_running) (sym same) ∙ idle_enough _ _ e) refl)
    | inr e ↦ rw e (nothing refl)
  ]

  if-IsStep :
      {T : Type 0} (b : Bool) (f f' : Form)
      → (b ≡ true → IsStep T f f')
      → IsStep T f (if b then f' else f)
  if-IsStep true f f' h = h refl
  if-IsStep false f f' h = nothing refl

  after_event-IsStep :
      (e : Event) (f : Form)
      → IsStep (IsTimely e f) f (after_event host atob to_text ethers gateway_url e f)
  unfolding after_event load_sample has_reset
  after_event-IsStep (typed input) f = nothing refl
  after_event-IsStep clicked_sample f = nothing refl
  after_event-IsStep rendered f = nothing refl
  after_event-IsStep (clicked_submit env flow_run_id correlation_id) f =
      handle_submit-IsStep env flow_run_id correlation_id f
  after_event-IsStep (clicked_retry env flow_run_id correlation_id) f =
      if-IsStep (has_retry f.drawn) f _
        (λ on. handle_submit-IsStep env flow_run_id correlation_id f)
  after_event-IsStep clicked_reset f =
      if-IsStep (has_reset f.drawn) f _
        (λ on. step cancelled (λ same. ap is_shown (sym same) ∙ on) refl)
  after_event-IsStep clicked_dismiss f =
      if-IsStep (has_error f.drawn) f _
        (λ on. step cancelled (λ same. ap is_shown (sym same) ∙ or_right _ _ on) refl)
  after_event-IsStep (outside (replied env my_run r)) f =
      step (answered env my_run r) (λ t. tt) refl
  after_event-IsStep (outside (due my_run)) f = step (timed my_run) (λ t. tt) refl

  -- The hook behind the form is one that the hook's own theorems speak of.
  pub Reachable-hook :
      {f : Form}
      → Reachable host atob to_text ethers gateway_url f
      → System.Reachable host atob to_text ethers gateway_url f.system
  Reachable-hook (mount store) = System.mount store
  Reachable-hook (next e {f} r) = elim (after_event-IsStep e f) [
    | nothing same ↦
        subst (λ s. System.Reachable host atob to_text ethers gateway_url s) (sym same)
          (Reachable-hook r)
    | step x allowed same ↦
        subst (λ s. System.Reachable host atob to_text ethers gateway_url s) (sym same)
          (System.next x (Reachable-hook r))
  ]

  -- The histories in which each click on a button of the form or of its banner meets the state that
  -- the hook is in: the page has been rendered since that state last changed.
  pub data Prompt : Form → Type 0 where
    opened : (store : Store) → Prompt (first_shown store)
    timely :
        (e : Event) {f : Form}
        → Prompt f
        → IsTimely e f
        → Prompt (after_event host atob to_text ethers gateway_url e f)

  Prompt-Reachable : {f : Form} → Prompt f → Reachable host atob to_text ethers gateway_url f
  Prompt-Reachable (opened store) = mount store
  Prompt-Reachable (timely e p now) = next e (Prompt-Reachable p)

  Prompt-IsSingle : {f : Form} → Prompt f → IsSingle f.system
  Prompt-IsSingle (opened store) = λ n other. refl
  Prompt-IsSingle (timely e {f} p now) = elim (after_event-IsStep e f) [
    | nothing same ↦ subst (λ s. IsSingle s) (sym same) (Prompt-IsSingle p)
    | step x allowed same ↦
        subst (λ s. IsSingle s) (sym same)
          (allowed-IsSingle x f.system (Reachable-hook (Prompt-Reachable p)) (allowed now)
            (Prompt-IsSingle p))
  ]

  -- However the user types, clicks and waits, and whatever is answered, where each click meets the
  -- state that the hook is in, a run of the form is over unless it is the latest run and the hook's
  -- state says that it is running: the form has no two payments open.
  pub Prompt-one_run :
      {f : Form}
      → Prompt f
      → (n : ℕ) → (n ≢ f.system.world.run_id) ⊎ ((state_of f).is_running ≡ false)
      → f.system.runs n ≡ finish tt
  Prompt-one_run {f} p n (inl other) = Prompt-IsSingle p n other
  Prompt-one_run {f} p n (inr off) = elim (Bool-cases (n == f.system.world.run_id)) [
    | inl e ↦
        subst (λ k. f.system.runs k ≡ finish tt) (sym ((==_iff n f.system.world.run_id).0 e))
          (over _ _ _
            (Reachable-IsInStep host atob to_text ethers gateway_url
              (Reachable-hook (Prompt-Reachable p)))
            off)
    | inr e ↦ Prompt-IsSingle p n (==-false n f.system.world.run_id e)
  ]
