-- ===== src/Web/X402.antt =====
-- web/src/hooks/use-x402.ts: the code of the hook `useX402` as data. web/src/lib/types.ts: the
-- steps of a run.
--
-- A `Flow` is a run of the code: it acts on the shared state, it asks the browser, the wallet or the
-- gateway and waits for the answer (an `await` of the code), and it ends or throws. Other runs and
-- the user go on only while a flow waits.
pub mod Reports
pub mod Submit
pub mod System
pub mod Runs
pub mod Latest
pub mod Fresh
pub mod Refinement
pub mod Outcome
pub mod Progress
pub mod Awaits
pub mod Careful
pub mod Tests
use micro_ai_paygate.Prelude.{ℕ, String, Text, Bool, true, false, Option, none, some, List, [], ◌∷◌}
use micro_ai_paygate.Js.Json.{Json, Number}
use micro_ai_paygate.Js.Exec.{Result, ok, throw}
use micro_ai_paygate.Sdk.Types.{Fault, RequestInit, Response, TypedData}
use micro_ai_paygate.Web.Errors.{Caught, object, ClassifiedError}
use micro_ai_paygate.Web.Analytics.{Request}

-- `X402Step`
pub data X402Step : Type 0 where
  idle request challenge sign verify ai receipt done error : X402Step

-- `UseX402State`
pub record X402State : Type 0 where
  pub step : X402Step
  pub summary : Option Json
  pub receipt : Option Json
  pub error : Option ClassifiedError
  pub is_running : Bool

-- `INITIAL_STATE`
abbrev pub initial_state : X402State
initial_state = record {
  step = idle;
  summary = none;
  receipt = none;
  error = none;
  is_running = false;
}

-- The variable `stage` of a run.
pub data Stage : Type 0 where
  request wallet_connect chain_lookup chain_switch signer sign verify done : Stage

-- What the code does at once: `update(patch)`, `track` and `identify` with what they report,
-- `saveReceipt(receipt, text)`, the timer, the test `runId.current !== myRun` the other way round,
-- and `hasWallet()`.
pub data Action : Type 0 where
  update : (X402State → X402State) → Action
  report : Request → Action
  save : Json → Text → Action
  start_timer : Action
  clear_timer : Action
  is_current : Action
  has_wallet : Action

-- What an action gives back.
abbrev pub Effect : Action → Type 0
Effect (update patch) = Unit
Effect (report call) = Unit
Effect (save signed text) = Result Fault Unit
Effect start_timer = Unit
Effect clear_timer = Unit
Effect is_current = Bool
Effect has_wallet = Bool

-- What the code waits for: a fetch, the body of a response, and the wallet.
pub data Question : Type 0 where
  fetch : Text → RequestInit → Question
  body : Response → Question
  current_account : Question
  connect_wallet : Question
  current_chain_id : Question
  switch_chain : Number → Question
  get_signer : Text → Question
  sign_typed_data : TypedData → Question

-- The value that an answer brings. What the body of a response gives is in the response.
abbrev pub Value : Question → Type 0
Value (fetch url init) = Response
Value (body response) = Unit
Value current_account = Option Text
Value connect_wallet = Text
Value current_chain_id = Option ℕ
Value (switch_chain chain_id) = Unit
Value (get_signer account) = Unit
Value (sign_typed_data typed) = Text

abbrev pub Answer : Question → Type 0
Answer q = Result Caught (Value q)

pub data Flow (A : Type 0) : Type 0 where
  finish : A → Flow A
  fail : Caught → Flow A
  at : Stage → Flow A → Flow A
  act : (a : Action) → (Effect a → Flow A) → Flow A
  ask : (q : Question) → (Answer q → Flow A) → Flow A

infixl 5 ◌>>=◌ ◌>>◌
unfoldable pub ◌>>=◌ : {A B : Type 0} → Flow A → (A → Flow B) → Flow B
finish a >>= f = f a
fail e >>= f = fail e
at stage m >>= f = at stage (m >>= f)
act a k >>= f = act a (λ r. k r >>= f)
ask q k >>= f = ask q (λ r. k r >>= f)

abbrev pub ◌>>◌ : {A B : Type 0} → Flow A → Flow B → Flow B
m >> n = m >>= λ _. n

-- A result that the code computes or is given.
abbrev pub lift : {A : Type 0} → Result Caught A → Flow A
lift (ok a) = finish a
lift (throw e) = fail e

-- `new Error(message)`, and an error that the browser throws
abbrev pub new_error : Text → Caught
new_error message = object none (some message) none

abbrev pub caught : Fault → Caught
caught fault = new_error fault.message

abbrev pub from_fault : {A : Type 0} → Result Fault A → Result Caught A
from_fault (ok a) = ok a
from_fault (throw fault) = throw (caught fault)

-- `await` of an answer
abbrev pub wait_for : (q : Question) → Flow (Value q)
wait_for q = ask q (λ answer. lift answer)

-- `await res.json()` and `await res.text()` go on when the body is there; what they then give is
-- computed from the response.
abbrev pub wait_for_body : {A : Type 0} → Response → Flow A → Flow A
wait_for_body response m = ask (body response) (λ answer. m)

abbrev pub patch : (X402State → X402State) → Flow Unit
patch p = act (update p) (λ u. finish u)

abbrev pub tell : Request → Flow Unit
tell call = act (report call) (λ u. finish u)

abbrev pub stage_is : Stage → Flow Unit
stage_is stage = at stage (finish tt)

-- `try { m } finally { cleanup }`
unfoldable pub finally : {A : Type 0} → Flow A → Flow Unit → Flow A
unfolding ◌>>=◌
finally (finish a) cleanup = cleanup >>= λ u. finish a
finally (fail e) cleanup = cleanup >>= λ u. fail e
finally (at stage m) cleanup = at stage (finally m cleanup)
finally (act a k) cleanup = act a (λ r. finally (k r) cleanup)
finally (ask q k) cleanup = ask q (λ r. finally (k r) cleanup)

-- `try { m } catch (err) { handler(err) }`, where the handler reads `stage`, which is the first
-- argument before `m`
unfoldable pub try_catch : {A : Type 0} → Stage → Flow A → (Stage → Caught → Flow A) → Flow A
try_catch stage (finish a) handler = finish a
try_catch stage (fail e) handler = handler stage e
try_catch stage (at later m) handler = try_catch later m handler
try_catch stage (act a k) handler = act a (λ r. try_catch stage (k r) handler)
try_catch stage (ask q k) handler = ask q (λ r. try_catch stage (k r) handler)
