-- ===== src/Web/SummarizeForm/Ready.antt =====
-- web/src/components/summarize-form.tsx: the form is ready for a submission again once its run has the
-- answers it waits for.
use micro_ai_paygate.Prelude.{
  ℕ, ◌≤◌, Text, Bool, true, false, ◌&&◌, ◌≡◌, refl, ◌∙◌, ap, Option, inl, inr, List, [], ◌∷◌, ltb,
  arith,
}
use micro_ai_paygate.Js.Json.{Json}
use micro_ai_paygate.Js.Host.{Host, Ethers}
use micro_ai_paygate.Web.X402.{X402State, Flow, finish, fail, at, act, ask}
use micro_ai_paygate.Web.X402.Outcome.{IsSettled, succeeded, failed}
use micro_ai_paygate.Web.X402.Progress.{IsInStep, Reachable-IsInStep}
use micro_ai_paygate.Web.X402.Runs.{advance-run_id}
use micro_ai_paygate.Web.X402.Awaits.Termination.{after_events, answers_to, after_events-finish}
use micro_ai_paygate.Web.X402.System as System
use micro_ai_paygate.Web.X402.System.{System, advance, go_on}
use micro_ai_paygate.Web.SummarizeForm.{
  Form, state_of, view_of, word_count, can_submit, Outside, replied, due, event_of, outside,
  after_event, Reachable, next,
}
use micro_ai_paygate.Web.SummarizeForm.Single.{Reachable-hook}

and_true : (b : Bool) → b && true ≡ b
and_true true = refl
and_true false = refl

settled : (s : X402State) → IsSettled s → s.is_running ≡ false
settled s (succeeded summary off step error shown) = off
settled s (failed classified off error shown receipt step) = off

at_rest :
    (m : Flow Unit) (s : X402State) (t : Bool)
    → IsInStep m s t
    → m ≡ finish tt
    → s.is_running ≡ false
at_rest (finish u) s t (inl start, off) e = ap (λ (x : X402State). x.is_running) start
at_rest (finish u) s t (inr done, off) e = settled s done
at_rest (fail x) s t h e = absurd h
at_rest (at stage m) s t h e = absurd h
at_rest (act a k) s t h e = absurd h
at_rest (ask q k) s t h e = cc

ready :
    (f : Form) (n : ℕ)
    → word_count f.input ≡ n
    → (state_of f).is_running ≡ false
    → can_submit (view_of f) ≡ ltb 0 n
unfolding can_submit
ready f n words off = rw (words, off) (and_true (ltb 0 n))

abbrev pub events_of : List Outside → List System.Event
events_of [] = []
events_of (o ∷ os) = event_of o ∷ events_of os

module _ (host : Host) (atob : Text → Option Text) (to_text : Json → Option Text) (ethers : Ethers)
    (gateway_url : Option Text) where
  abbrev pub after_outside : List Outside → Form → Form
  after_outside [] f = f
  after_outside (o ∷ os) f =
      after_outside os (after_event host atob to_text ethers gateway_url (outside o) f)

  outside-run_id :
      (o : Outside) (s : System)
      → (System.after_event host atob to_text ethers gateway_url (event_of o) s).world.run_id
        ≡ s.world.run_id
  unfolding System.after_event System.fire
  outside-run_id (replied env my_run r) s =
      advance-run_id host env my_run (go_on (s.runs my_run) r) s.world
  outside-run_id (due my_run) s = refl

  after_outside-system :
      (os : List Outside) (f : Form)
      → (after_outside os f).system
        ≡ after_events host atob to_text ethers gateway_url (events_of os) f.system
  unfolding after_event
  after_outside-system [] f = refl
  after_outside-system (o ∷ os) f = after_outside-system os _

  after_outside-input : (os : List Outside) (f : Form) → (after_outside os f).input ≡ f.input
  unfolding after_event
  after_outside-input [] f = refl
  after_outside-input (o ∷ os) f = after_outside-input os _

  after_outside-run_id :
      (os : List Outside) (f : Form)
      → (after_outside os f).system.world.run_id ≡ f.system.world.run_id
  unfolding after_event
  after_outside-run_id [] f = refl
  after_outside-run_id (o ∷ os) f = after_outside-run_id os _ ∙ outside-run_id o f.system

  after_outside-Reachable :
      (os : List Outside) {f : Form}
      → Reachable host atob to_text ethers gateway_url f
      → Reachable host atob to_text ethers gateway_url (after_outside os f)
  after_outside-Reachable [] r = r
  after_outside-Reachable (o ∷ os) r = after_outside-Reachable os (next (outside o) r)

  -- When the outside has given twelve answers to the latest run, in whatever order with answers to
  -- other runs and with timers, no run is in progress in the state that the form shows, and a
  -- rendering of it lets the user submit exactly when the text has a word.
  pub after_outside-can_submit :
      {f : Form}
      → Reachable host atob to_text ethers gateway_url f
      → (os : List Outside) → 12 ≤ answers_to f.system.world.run_id (events_of os)
      → ((state_of (after_outside os f)).is_running ≡ false)
        × (can_submit (view_of (after_outside os f)) ≡ ltb 0 (word_count f.input))
  unfolding can_submit
  after_outside-can_submit {f} r os enough =
      let hook = Reachable-hook host atob to_text ethers gateway_url r in
      let hook' =
        Reachable-hook host atob to_text ethers gateway_url (after_outside-Reachable os r) in
      let f' : Form = after_outside os f in
      let ended : f'.system.runs f'.system.world.run_id ≡ finish tt =
        ap (λ (n : ℕ). f'.system.runs n) (after_outside-run_id os f)
        ∙ ap (λ (s : System). s.runs f.system.world.run_id) (after_outside-system os f)
        ∙ after_events-finish host atob to_text ethers gateway_url hook f.system.world.run_id
            (omega arith) (events_of os) enough in
      let off : f'.system.world.state.is_running ≡ false =
        at_rest _ _ _ (Reachable-IsInStep host atob to_text ethers gateway_url hook') ended in
      (
        off,
        ready f' (word_count f.input) (ap (λ (t : Text). word_count t) (after_outside-input os f))
            off,
      )
