-- ===== src/Web/X402/Outcome.antt =====
-- web/src/hooks/use-x402.ts: what a run makes of the state that the page shows, whatever is answered
-- and whenever its timer is due.
pub mod Submission
use micro_ai_paygate.Prelude.{
  ℕ, Text, Bool, true, false, ◌≡◌, refl, ap, Option, none, some, ◌⊎◌, inl, inr, if◌then◌else◌,
  Bool-cases,
}
use micro_ai_paygate.Js.Json.{Json}
use micro_ai_paygate.Js.Exec.{Result, ok, throw}
use micro_ai_paygate.Sdk.Types.{Fault}
use micro_ai_paygate.Web.Errors.{Caught, ClassifiedError}
use micro_ai_paygate.Web.Analytics as Analytics
use micro_ai_paygate.Web.X402.{
  X402Step, X402State, Stage, Action, update, report, save, start_timer, clear_timer, is_current,
  has_wallet, Question, Flow, finish, fail, at, act, ask, ◌>>=◌, lift, wait_for, finally, try_catch,
}
use micro_ai_paygate.Web.StatusStrip.{is_on_strip}
use micro_ai_paygate.Web.X402.Reports.{ai_step}

-- A run that is not over: nothing is shown yet, and no failure.
pub record IsRunning (s : X402State) : Type 0 where
  pub running : s.is_running ≡ true
  pub no_error : s.error ≡ none
  pub no_summary : s.summary ≡ none
  pub no_receipt : s.receipt ≡ none
  pub on_strip : is_on_strip s.step ≡ true

pub data IsSettled (s : X402State) : Type 0 where
  succeeded :
      (summary : Json)
      → s.is_running ≡ false
      → s.step ≡ X402Step.done
      → s.error ≡ none
      → s.summary ≡ some summary
      → IsSettled s
  failed :
      (classified : ClassifiedError)
      → s.is_running ≡ false
      → s.error ≡ some classified
      → s.summary ≡ none
      → s.receipt ≡ none
      → is_on_strip s.step ≡ true
      → IsSettled s

-- A flow that is the latest run, at a state and with its timer set or not: it waits only in a state
-- that is running, with the timer due or not while it waits, and it ends as `End` says or throws as
-- `Thrown` says.
module _ {A : Type 0} (End : A → X402State → Bool → Type 0)
    (Thrown : X402State → Bool → Type 0) where
  unfoldable pub Meets : Flow A → X402State → Bool → Type 0
  Meets (finish a) s timer = End a s timer
  Meets (fail e) s timer = Thrown s timer
  Meets (at stage m) s timer = Meets m s timer
  Meets (act (update p) k) s timer = Meets (k tt) (p s) timer
  Meets (act (report call) k) s timer = Meets (k tt) s timer
  Meets (act (save signed input) k) s timer = (r : Result Fault Unit) → Meets (k r) s timer
  Meets (act start_timer k) s timer = Meets (k tt) s true
  Meets (act clear_timer k) s timer = Meets (k tt) s false
  Meets (act is_current k) s timer = Meets (k true) s timer
  Meets (act has_wallet k) s timer = (there : Bool) → Meets (k there) s timer
  Meets (ask q k) s timer =
      IsRunning s
      × ((answer : _) → Meets (k answer) s timer)
      × (timer ≡ true → (answer : _) → Meets (k answer) (ai_step s) false)

module _ {A B : Type 0} (Mid : A → X402State → Bool → Type 0) (End : B → X402State → Bool → Type 0)
    (Thrown : X402State → Bool → Type 0) (f : A → Flow B)
    (follow : (a : A) (s : X402State) (t : Bool) → Mid a s t → Meets End Thrown (f a) s t) where
  pub bind-Meets :
      (m : Flow A) (s : X402State) (t : Bool)
      → Meets Mid Thrown m s t
      → Meets End Thrown (m >>= f) s t
  unfolding Meets ◌>>=◌
  bind-Meets (finish a) s t h = follow a s t h
  bind-Meets (fail e) s t h = h
  bind-Meets (at stage m) s t h = bind-Meets m s t h
  bind-Meets (act (update p) k) s t h = bind-Meets (k tt) (p s) t h
  bind-Meets (act (report call) k) s t h = bind-Meets (k tt) s t h
  bind-Meets (act (save signed input) k) s t h = λ r. bind-Meets (k r) s t (h r)
  bind-Meets (act start_timer k) s t h = bind-Meets (k tt) s true h
  bind-Meets (act clear_timer k) s t h = bind-Meets (k tt) s false h
  bind-Meets (act is_current k) s t h = bind-Meets (k true) s t h
  bind-Meets (act has_wallet k) s t h = λ there. bind-Meets (k there) s t (h there)
  bind-Meets (ask q k) s t (running, answers, due) = (
    running,
    λ answer. bind-Meets (k answer) s t (answers answer),
    λ on answer. bind-Meets (k answer) (ai_step s) false (due on answer),
  )

module _ {A : Type 0} (End : A → X402State → Bool → Type 0) (Thrown Out : X402State → Bool → Type 0)
    (handler : Stage → Caught → Flow A)
    (follow : (stage : Stage) (e : Caught) (s : X402State) (t : Bool)
      → Thrown s t
      → Meets End Out (handler stage e) s t) where
  pub try_catch-Meets :
      (stage : Stage) (m : Flow A) (s : X402State) (t : Bool)
      → Meets End Thrown m s t
      → Meets End Out (try_catch stage m handler) s t
  unfolding Meets try_catch
  try_catch-Meets stage (finish a) s t h = h
  try_catch-Meets stage (fail e) s t h = follow stage e s t h
  try_catch-Meets stage (at later m) s t h = try_catch-Meets later m s t h
  try_catch-Meets stage (act (update p) k) s t h = try_catch-Meets stage (k tt) (p s) t h
  try_catch-Meets stage (act (report call) k) s t h = try_catch-Meets stage (k tt) s t h
  try_catch-Meets stage (act (save signed input) k) s t h =
      λ r. try_catch-Meets stage (k r) s t (h r)
  try_catch-Meets stage (act start_timer k) s t h = try_catch-Meets stage (k tt) s true h
  try_catch-Meets stage (act clear_timer k) s t h = try_catch-Meets stage (k tt) s false h
  try_catch-Meets stage (act is_current k) s t h = try_catch-Meets stage (k true) s t h
  try_catch-Meets stage (act has_wallet k) s t h =
      λ there. try_catch-Meets stage (k there) s t (h there)
  try_catch-Meets stage (ask q k) s t (running, answers, due) = (
    running,
    λ answer. try_catch-Meets stage (k answer) s t (answers answer),
    λ on answer. try_catch-Meets stage (k answer) (ai_step s) false (due on answer),
  )

-- Running, with no timer set.
abbrev pub IsCalm : X402State → Bool → Type 0
IsCalm s timer = IsRunning s × (timer ≡ false)

abbrev pub IsOver : X402State → Bool → Type 0
IsOver s timer = IsSettled s × (timer ≡ false)

-- A part of a run that starts calm, and throws in a calm state only. `IsSteady` leaves the run calm;
-- `Settles` ends it.
unfoldable pub Reaches : {A : Type 0} → (X402State → Bool → Type 0) → Flow A → Type 0
unfolding Meets
Reaches Goal m =
    (s : X402State) (t : Bool) → IsCalm s t → Meets (λ a s' t'. Goal s' t') IsCalm m s t

abbrev pub IsSteady : {A : Type 0} → Flow A → Type 0
IsSteady m = Reaches IsCalm m

abbrev pub Settles : Flow Unit → Type 0
Settles m = Reaches IsOver m

module _ {A : Type 0} (Goal : X402State → Bool → Type 0) where
  pub bind-Reaches :
      {B : Type 0} (m : Flow B) (f : B → Flow A)
      → IsSteady m
      → ((a : B) → Reaches Goal (f a))
      → Reaches Goal (m >>= f)
  unfolding Reaches
  bind-Reaches m f first rest s t calm =
      bind-Meets _ _ _ f (λ a s' t' h. rest a s' t' h) m s t (first s t calm)

  pub if-Reaches :
      (b : Bool) (m n : Flow A)
      → Reaches Goal m
      → Reaches Goal n
      → Reaches Goal (if b then m else n)
  if-Reaches true m n h k = h
  if-Reaches false m n h k = k

  pub ask-Reaches :
      (q : Question) (k : _ → Flow A)
      → ((answer : _) → Reaches Goal (k answer))
      → Reaches Goal (ask q k)
  unfolding Reaches Meets
  ask-Reaches q k h s t (running, off) = (running, λ answer. h answer s t (running, off), λ on. cc)

  pub report-Reaches :
      (call : Analytics.Request) (k : Unit → Flow A)
      → Reaches Goal (k tt)
      → Reaches Goal (act (report call) k)
  unfolding Reaches Meets
  report-Reaches call k h s t calm = h s t calm

  pub has_wallet-Reaches :
      (k : Bool → Flow A)
      → ((there : Bool) → Reaches Goal (k there))
      → Reaches Goal (act has_wallet k)
  unfolding Reaches Meets
  has_wallet-Reaches k h s t calm = λ there. h there s t calm

  pub at-Reaches : (stage : Stage) (m : Flow A) → Reaches Goal m → Reaches Goal (at stage m)
  unfolding Reaches Meets
  at-Reaches stage m h s t calm = h s t calm

  pub step-Reaches :
      (step : X402Step) (k : Unit → Flow A)
      → is_on_strip step ≡ true
      → Reaches Goal (k tt)
      → Reaches Goal (act (update (λ s. record s { step = step })) k)
  unfolding Reaches Meets
  step-Reaches step k there rest s t (h, off) = rest _ t (
    record {
      running = h.running;
      no_error = h.no_error;
      no_summary = h.no_summary;
      no_receipt = h.no_receipt;
      on_strip = there;
    },
    off,
  )

pub finish-IsSteady : {A : Type 0} (a : A) → IsSteady (finish a)
unfolding Reaches Meets
finish-IsSteady a s t calm = calm

pub fail-Reaches :
    (A : Type 0) (Goal : X402State → Bool → Type 0) (e : Caught) → Reaches {A = A} Goal (fail e)
unfolding Reaches Meets
fail-Reaches A Goal e s t calm = calm

pub lift-IsSteady : {A : Type 0} (r : Result Caught A) → IsSteady (lift r)
lift-IsSteady (ok a) = finish-IsSteady a
lift-IsSteady (throw e) = fail-Reaches _ IsCalm e
