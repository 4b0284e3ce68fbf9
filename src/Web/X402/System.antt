-- ===== src/Web/X402/System.antt =====
-- web/src/hooks/use-x402.ts: the state of the hook, its runs, and what happens to them: `submit`,
-- `reset`, an answer that a run waits for, and the timer of a run.
--
-- The runs are numbered by `runId`. Between two awaits a run is not interrupted. What the browser
-- does may differ from one event to the next, so each event brings its `Env`.
use micro_ai_paygate.Prelude.{
  ℕ, suc, Text, Bool, true, false, not, ◌&&◌, Option, List, [], ◌∷◌, ◌==◌, trim, if◌then◌else◌, put,
}
use micro_ai_paygate.Js.Json.{Json}
use micro_ai_paygate.Js.Exec.{Result}
use micro_ai_paygate.Js.Host.{Host, Ethers}
use micro_ai_paygate.Sdk.Types.{Fault}
use micro_ai_paygate.Web.Storage.{Browser, Store, save_receipt}
use micro_ai_paygate.Web.Analytics as Analytics
use micro_ai_paygate.Web.Analytics.{create_flow_context}
use micro_ai_paygate.Web.X402.{
  X402State, initial_state, Action, update, report, save, start_timer, clear_timer, is_current,
  has_wallet, Effect, Question, Answer, Flow, finish, fail, at, act, ask,
}
use micro_ai_paygate.Web.X402.Reports.{ai_step, has}
use micro_ai_paygate.Web.X402.Submit as Submit

pub record Env : Type 0 where
  pub browser : Browser
  pub wallet_there : Bool

-- What the runs share: `runId`, the state of the hook, what was reported (newest first), the stored
-- receipts, and which runs have a timer that is set.
pub record World : Type 0 where
  pub run_id : ℕ
  pub state : X402State
  pub reports : List Analytics.Request
  pub store : Store
  pub timers : ℕ → Bool

-- `runId.current === myRun`
abbrev pub is_run : World → ℕ → Bool
is_run w my_run = w.run_id == my_run

module _ (host : Host) (env : Env) (my_run : ℕ) where
  abbrev pub stored : World → Result Fault Unit × Store → Result Fault Unit × World
  stored w saved = (saved.0, record w { store = saved.1 })

  -- `update`, `track` and `identify` with their test of `runId`, and the other actions
  unfoldable pub perform : (a : Action) → World → Effect a × World
  unfolding save_receipt
  perform (update p) w = (tt, record w { state = if is_run w my_run then p w.state else w.state })
  perform (report call) w =
      (tt, record w { reports = if is_run w my_run then call ∷ w.reports else w.reports })
  perform (save signed text) w = stored w (save_receipt host env.browser signed text w.store)
  perform start_timer w = (tt, record w { timers = put w.timers my_run true })
  perform clear_timer w = (tt, record w { timers = put w.timers my_run false })
  perform is_current w = (is_run w my_run, w)
  perform has_wallet w = (env.wallet_there, w)

  -- A run up to its next `await`, or to its end.
  unfoldable pub advance : Flow Unit → World → Flow Unit × World
  unfolding perform
  advance (finish u) w = (finish u, w)
  advance (fail e) w = (fail e, w)
  advance (at stage m) w = advance m w
  advance (act a k) w = advance (k (perform a w).0) (perform a w).1
  advance (ask q k) w = (ask q k, w)

pub record System : Type 0 where
  pub world : World
  pub runs : ℕ → Flow Unit

-- What the outside answers, to whatever is asked.
abbrev pub Reply : Type 0
Reply = (q : Question) → Answer q

abbrev pub go_on : Flow Unit → Reply → Flow Unit
go_on (ask q k) reply = k (reply q)
go_on m reply = m

-- `reset()`
unfoldable pub reset : World → World
reset w = record w { run_id = suc w.run_id; state = initial_state }

-- `setTimeout(() => update({ step: "ai" }), 700)`, when it is due
unfoldable pub fire : ℕ → World → World
fire my_run w = record w {
  state = if w.timers my_run && is_run w my_run then ai_step w.state else w.state;
  timers = put w.timers my_run false;
}

-- `++runId.current`
abbrev pub next_run : World → World
next_run w = record w { run_id = suc w.run_id }

pub data Event : Type 0 where
  submitted : Env → Text → Text → Text → Event
  cancelled : Event
  answered : Env → ℕ → Reply → Event
  timed : ℕ → Event

abbrev pub placed : System → ℕ → Flow Unit × World → System
placed s my_run after = record { world = after.1; runs = put s.runs my_run after.0 }

-- The hook when its component is mounted, over any stored receipts.
abbrev pub mounted : Store → System
mounted store = record {
  world = record {
    run_id = 0;
    state = initial_state;
    reports = [];
    store = store;
    timers = λ n. false;
  };
  runs = λ n. finish tt;
}

module _ (host : Host) (atob : Text → Option Text) (to_text : Json → Option Text) (ethers : Ethers)
    (gateway_url : Option Text) where
  -- The code of a run, for the text and the two ids of its `FlowContext`.
  abbrev pub run_of : Text → Text → Text → Flow Unit
  run_of input flow_run_id correlation_id =
      Submit.submit host atob to_text ethers gateway_url input
        (create_flow_context input flow_run_id correlation_id)

  -- What an event makes of the system; a text of white space only is not submitted.
  unfoldable pub after_event : Event → System → System
  unfolding trim advance Submit.submit create_flow_context reset fire
  after_event (submitted env input flow_run_id correlation_id) s =
      if not (has (trim input))
      then s
      else placed s (suc s.world.run_id) (
          advance host env (suc s.world.run_id) (run_of input flow_run_id correlation_id)
            (next_run s.world))
  after_event cancelled s = record s { world = reset s.world }
  after_event (answered env my_run reply) s =
      placed s my_run (advance host env my_run (go_on (s.runs my_run) reply) s.world)
  after_event (timed my_run) s = record s { world = fire my_run s.world }

  pub data Reachable : System → Type 0 where
    mount : (store : Store) → Reachable (mounted store)
    next : (event : Event) {s : System} → Reachable s → Reachable (after_event event s)
