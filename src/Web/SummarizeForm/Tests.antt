-- ===== src/Web/SummarizeForm/Tests.antt =====
-- The form at concrete inputs, and its theorems at inputs where their hypotheses hold.
use micro_ai_paygate.Prelude.{
  ℕ, zero, suc, codes, trim, is_space, ◌≡◌, refl, false, none, List, [], ◌∷◌, inl, arith, ltb,
}
use micro_ai_paygate.Web.Analytics.{split_length}
use micro_ai_paygate.Web.X402.{finish}
use micro_ai_paygate.Web.X402.Tests.{host, atob, to_text, ethers, env, store, fine, says}
use micro_ai_paygate.Web.X402.System as System
use micro_ai_paygate.Web.StatusStrip.{active, pending, cells}
use micro_ai_paygate.Web.SummarizeForm.{
  Form, state_of, view_of, rendered, word_count, can_submit, load_sample, Event, typed,
  clicked_sample, clicked_submit, Outside, replied, handle_submit, after_event, first_shown,
  Reachable, mount, next,
}
use micro_ai_paygate.Web.SummarizeForm.Single.{Prompt, opened, timely, Prompt-one_run}
use micro_ai_paygate.Web.SummarizeForm.Ready.{after_outside, after_outside-can_submit}
use micro_ai_paygate.Web.SummarizeForm.Strip.{strip, IsShownFor, strip-IsShownFor}

abbrev after : Event → Form → Form
after e f = after_event host atob to_text ethers none e f

abbrev typing : Event
typing = typed (codes "two words")

abbrev click : Event
click = clicked_submit env (codes "f") (codes "c")

-- The text is typed and shown.
abbrev ready_form : Form
ready_form = after rendered (after typing (first_shown store))

abbrev submitted_form : Form
submitted_form = after click ready_form

timely_test : ready_form.drawn.state ≡ state_of ready_form
unfolding after_event
timely_test = refl

abbrev submitted-Prompt : Prompt host atob to_text ethers none submitted_form
submitted-Prompt = timely click (timely rendered (timely typing (opened store) tt) tt) timely_test

abbrev submitted-Reachable : Reachable host atob to_text ethers none submitted_form
submitted-Reachable = next click (next rendered (next typing (mount store)))

submitted_test : submitted_form.system.world.run_id ≡ 1
unfolding after_event handle_submit can_submit word_count split_length trim is_space
    System.after_event
submitted_test = refl

-- A second click, once the page has been rendered, is not let through; before, it begins a second run.
twice_test : (after click (after rendered submitted_form)).system.world.run_id ≡ 1
unfolding after_event handle_submit can_submit word_count split_length trim is_space
    System.after_event
twice_test = refl

double_click_test : (after click submitted_form).system.world.run_id ≡ 2
unfolding after_event handle_submit can_submit word_count split_length trim is_space
    System.after_event
double_click_test = refl

Prompt-one_run_example : submitted_form.system.runs 7 ≡ finish tt
Prompt-one_run_example =
    Prompt-one_run host atob to_text ethers none submitted-Prompt 7
      (inl (omega (arith, submitted_test)))

abbrev answers : ℕ → List Outside
answers zero = []
answers (suc n) = replied env 1 (says fine) ∷ answers n

after_outside-can_submit_example :
    ((state_of (after_outside host atob to_text ethers none (answers 12) submitted_form)).is_running
      ≡ false)
    × (can_submit
          (view_of (after_outside host atob to_text ethers none (answers 12) submitted_form))
        ≡ ltb 0 (word_count submitted_form.input))
after_outside-can_submit_example =
    after_outside-can_submit host atob to_text ethers none submitted-Reachable (answers 12)
      (rw submitted_test (omega arith))

strip-IsShownFor_example :
    IsShownFor
      (submitted_form.system.runs submitted_form.system.world.run_id)
      (state_of submitted_form)
      (strip (view_of submitted_form))
strip-IsShownFor_example = strip-IsShownFor host atob to_text ethers none submitted-Reachable

strip_test :
    strip (view_of submitted_form) ≡ (active ∷ pending ∷ pending ∷ pending ∷ pending ∷ pending ∷ [])
unfolding after_event handle_submit can_submit word_count split_length trim is_space cells
    System.after_event
strip_test = refl

sample_test : word_count (after clicked_sample (first_shown store)).input ≡ 93
unfolding after_event load_sample word_count split_length trim is_space
sample_test = refl
