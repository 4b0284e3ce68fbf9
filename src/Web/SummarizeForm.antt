-- ===== src/Web/SummarizeForm.antt =====
-- web/src/components/summarize-form.tsx and error-banner.tsx: the form of the page over the hook
-- useX402, with the buttons that it shows and what a click on each does. A click meets the handlers of
-- the last rendering, which is an event of its own: until then the text and the state may have moved on.
pub mod Single
pub mod Ready
pub mod Strip
mod Tests
use micro_ai_paygate.Prelude.{
  ℕ, Text, codes, Bool, true, false, not, ◌&&◌, ◌||◌, Option, none, some, List, [], ◌∷◌, length,
  trim, ltb, if◌then◌else◌,
}
use micro_ai_paygate.Js.Json.{Json}
use micro_ai_paygate.Js.Host.{Host, Ethers}
use micro_ai_paygate.Web.Storage.{Store}
use micro_ai_paygate.Web.Errors.{ClassifiedError, is_truthy}
use micro_ai_paygate.Web.Analytics as Analytics
use micro_ai_paygate.Web.Analytics.{capture, split_length}
use micro_ai_paygate.Web.Analytics.Events.{event_name, sample_prompt_loaded}
use micro_ai_paygate.Web.X402.{X402State, initial_state}
use micro_ai_paygate.Web.X402.Reports.{count_value}
use micro_ai_paygate.Web.X402.System as System
use micro_ai_paygate.Web.X402.System.{Env, Reply}
use micro_ai_paygate.Web.X402.System.{submitted, cancelled, answered, timed, mounted}

-- `SAMPLE_PROMPT`
unfoldable pub sample_prompt : Text
sample_prompt =
    codes
      "Bitcoin: A Peer-to-Peer Electronic Cash System. A purely peer-to-peer version of electronic cash would allow online payments to be sent directly from one party to another without going through a financial institution. Digital signatures provide part of the solution, but the main benefits are lost if a trusted third party is still required to prevent double-spending. We propose a solution to the double-spending problem using a peer-to-peer network. The network timestamps transactions by hashing them into an ongoing chain of hash-based proof-of-work, forming a record that cannot be changed without redoing the proof-of-work."

-- What a rendering sees: `input` and the state that `useX402()` gives.
pub record View : Type 0 where
  pub input : Text
  pub state : X402State

-- The state of the form. `drawn` is what the last rendering saw, which its handlers close over.
pub record Form : Type 0 where
  pub input : Text
  pub system : System.System
  pub drawn : View
  pub reports : List Analytics.Request

-- `text.trim() ? text.trim().split(/\s+/).length : 0`
unfoldable pub word_count : Text → ℕ
unfolding trim split_length
word_count input = elim (trim input) [ [] ↦ 0 | c ∷ s ↦ split_length false (c ∷ s) ]

abbrev pub state_of : Form → X402State
state_of f = f.system.world.state

abbrev pub view_of : Form → View
view_of f = record { input = f.input; state = state_of f }

-- `canSubmit`
unfoldable pub can_submit : View → Bool
unfolding word_count
can_submit v = ltb 0 (word_count v.input) && not v.state.is_running

-- The button "Use sample".
unfoldable pub load_sample : Form → Form
unfolding sample_prompt word_count event_name
load_sample f = record f {
  input = sample_prompt;
  reports =
      capture (event_name sample_prompt_loaded) (
        ("input_word_count", count_value (word_count sample_prompt))
        ∷ ("input_char_count", count_value (length sample_prompt))
        ∷ [])
      ∷ f.reports;
}

abbrev pub has_error : View → Bool
has_error v = elim v.state.error [ none ↦ false | some e ↦ true ]

-- `summary || error`, for the button "Reset"
unfoldable pub has_reset : View → Bool
unfolding is_truthy
has_reset v = is_truthy v.state.summary || has_error v

-- `error.recoverable && onRetry`, for the button "Retry" of the banner
abbrev pub has_retry : View → Bool
has_retry v = elim v.state.error [ none ↦ false | some e ↦ e.recoverable ]

-- What the outside does: it answers a run, or a timer is due.
pub data Outside : Type 0 where
  replied : Env → ℕ → Reply → Outside
  due : ℕ → Outside

abbrev pub event_of : Outside → System.Event
event_of (replied env my_run reply) = answered env my_run reply
event_of (due my_run) = timed my_run

pub data Event : Type 0 where
  typed : Text → Event
  clicked_sample : Event
  clicked_submit : Env → Text → Text → Event
  clicked_retry : Env → Text → Text → Event
  clicked_reset : Event
  clicked_dismiss : Event
  rendered : Event
  outside : Outside → Event

-- The form when the page is shown, over any stored receipts.
abbrev pub first_shown : Store → Form
first_shown store = record {
  input = [];
  system = mounted store;
  drawn = record { input = []; state = initial_state };
  reports = [];
}

module _ (host : Host) (atob : Text → Option Text) (to_text : Json → Option Text) (ethers : Ethers)
    (gateway_url : Option Text) where
  abbrev pub happened : System.Event → Form → Form
  happened e f = record f {
    system = System.after_event host atob to_text ethers gateway_url e f.system;
  }

  -- `handleSubmit()`, with the two ids of the flow context
  unfoldable pub handle_submit : Env → Text → Text → Form → Form
  unfolding can_submit
  handle_submit env flow_run_id correlation_id f =
      if not (can_submit f.drawn)
      then f
      else happened (submitted env f.drawn.input flow_run_id correlation_id) f

  -- `handleReset()`
  abbrev pub handle_reset : Form → Form
  handle_reset f = happened cancelled f

  unfoldable pub after_event : Event → Form → Form
  unfolding handle_submit load_sample has_reset
  after_event (typed input) f = record f { input = input }
  after_event clicked_sample f = load_sample f
  after_event (clicked_submit env flow_run_id correlation_id) f =
      handle_submit env flow_run_id correlation_id f
  after_event (clicked_retry env flow_run_id correlation_id) f =
      if has_retry f.drawn then handle_submit env flow_run_id correlation_id f else f
  after_event clicked_reset f = if has_reset f.drawn then handle_reset f else f
  after_event clicked_dismiss f = if has_error f.drawn then handle_reset f else f
  after_event rendered f = record f { drawn = view_of f }
  after_event (outside o) f = happened (event_of o) f

  pub data Reachable : Form → Type 0 where
    mount : (store : Store) → Reachable (first_shown store)
    next : (e : Event) {f : Form} → Reachable f → Reachable (after_event e f)
