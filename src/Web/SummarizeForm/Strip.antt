-- ===== src/Web/SummarizeForm/Strip.antt =====
-- web/src/components/summarize-form.tsx: what the status strip of the form shows, for every state that
-- the hook can be in.
use micro_ai_paygate.Prelude.{
  ℕ, ◌<◌, Text, Bool, true, false, ◌≡◌, refl, Option, none, some, ◌⊎◌, inl, inr, List,
}
use micro_ai_paygate.Js.Json.{Json}
use micro_ai_paygate.Js.Host.{Host, Ethers}
use micro_ai_paygate.Web.Errors.{ClassifiedError}
use micro_ai_paygate.Web.X402.{X402State, initial_state, Flow, finish, fail, at, act, ask}
use micro_ai_paygate.Web.X402.Outcome.{IsRunning, IsSettled, succeeded, failed}
use micro_ai_paygate.Web.X402.Progress.{IsInStep, Reachable-IsInStep}
use micro_ai_paygate.Web.StatusStrip.{Cell, finished, active, pending, cells}
use micro_ai_paygate.Web.StatusStrip.Shows.{replicate, marked, cells-marked, cells_idle, cells_done}
use micro_ai_paygate.Web.SummarizeForm.{View, Form, state_of, view_of, has_error, Reachable}
use micro_ai_paygate.Web.SummarizeForm.Single.{Reachable-hook}

-- `<StatusStrip step={step} hasError={!!error} />`
abbrev pub strip : View → List Cell
strip v = cells v.state.step (has_error v)

abbrev strip_of : X402State → List Cell
strip_of s = cells s.step (elim s.error [ none ↦ false | some e ↦ true ])

-- Some cell is marked, those before it are finished and those after it pending.
abbrev pub IsAt : Cell → List Cell → Type 0
IsAt mark shown = (i : ℕ) × (i < 6) × (shown ≡ marked i mark)

-- The strip of a run that is over.
abbrev pub IsLeft : X402State → List Cell → Type 0
IsLeft s shown =
    ((s ≡ initial_state) × (shown ≡ replicate 6 pending))
    ⊎ ((s.error ≡ none) × (shown ≡ replicate 6 finished))
    ⊎ (((e : ClassifiedError) × (s.error ≡ some e)) × IsAt Cell.failed shown)

abbrev pub IsShownFor : Flow Unit → X402State → List Cell → Type 0
IsShownFor (finish u) s shown = IsLeft s shown
IsShownFor (ask q k) s shown = IsAt active shown
IsShownFor (fail e) s shown = ⊥
IsShownFor (at stage m) s shown = ⊥
IsShownFor (act a k) s shown = ⊥

running-IsAt : (s : X402State) → IsRunning s → IsAt active (strip_of s)
running-IsAt s h =
    let (i, inside, shown) = cells-marked s.step false h.on_strip in
    (i, inside, rw h.no_error shown)

settled-IsLeft : (s : X402State) → IsSettled s → IsLeft s (strip_of s)
settled-IsLeft s (succeeded summary off step no_error shown) =
    inr (inl (no_error, rw (step, no_error) (cells_done false)))
settled-IsLeft s (failed e off error shown receipt there) =
    let (i, inside, marks) = cells-marked s.step true there in
    inr (inr ((e, error), (i, inside, rw error marks)))

start-IsLeft : (s : X402State) → s ≡ initial_state → IsLeft s (strip_of s)
start-IsLeft s start = rw start (inl (refl, cells_idle false))

in_step-IsShownFor :
    (m : Flow Unit) (s : X402State) (t : Bool) → IsInStep m s t → IsShownFor m s (strip_of s)
in_step-IsShownFor (finish u) s t (inl start, off) = start-IsLeft s start
in_step-IsShownFor (finish u) s t (inr done, off) = settled-IsLeft s done
in_step-IsShownFor (ask q k) s t h = running-IsAt s h
in_step-IsShownFor (fail e) s t h = absurd h
in_step-IsShownFor (at stage m) s t h = absurd h
in_step-IsShownFor (act a k) s t h = absurd h

module _ (host : Host) (atob : Text → Option Text) (to_text : Json → Option Text) (ethers : Ethers)
    (gateway_url : Option Text) where
  -- At every moment the strip that a rendering shows agrees with the run. While the latest run waits, one of the six cells is
  -- active, those before it are finished and those after it pending. Once it is over, the six cells
  -- are pending in the initial state, or they are finished and there is no error, or there is an error
  -- and one cell is failed, with those before it finished and those after it pending.
  pub strip-IsShownFor :
      {f : Form}
      → Reachable host atob to_text ethers gateway_url f
      → IsShownFor (f.system.runs f.system.world.run_id) (state_of f) (strip (view_of f))
  strip-IsShownFor {f} r = in_step-IsShownFor _ _ _ (
      Reachable-IsInStep host atob to_text ethers gateway_url
        (Reachable-hook host atob to_text ethers gateway_url r))
