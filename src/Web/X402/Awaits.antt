-- ===== src/Web/X402/Awaits.antt =====
-- web/src/hooks/use-x402.ts: how many awaits a run has, and how it can throw.
pub mod Parts
pub mod Termination
use micro_ai_paygate.Prelude.{
  ℕ, zero, suc, Text, text_eq, Bool, true, false, ◌&&◌, Option, none, some, if◌then◌else◌,
}
use micro_ai_paygate.Js.Json.{Json}
use micro_ai_paygate.Js.Exec.{Result, ok, throw}
use micro_ai_paygate.Js.Host.{Host, Ethers}
use micro_ai_paygate.Sdk.Types.{PaymentContext, Response}
use micro_ai_paygate.Web.Errors.{Caught}
use micro_ai_paygate.Web.Analytics.{FlowContext}
use micro_ai_paygate.Web.X402.{
  Stage, Action, Effect, clear_timer, Question, Answer, Flow, finish, fail, at, act, ask, ◌>>=◌,
  lift, finally, try_catch,
}
use micro_ai_paygate.Web.X402.Reports.{keep_receipt}
use micro_ai_paygate.Web.X402.Submit as Submit

-- At most so many awaits, whatever is answered; a throw is allowed where `Thrown` holds.
unfoldable pub Within : {A : Type 0} → Type 0 → ℕ → Flow A → Type 0
Within Thrown n (finish a) = Unit
Within Thrown n (fail e) = Thrown
Within Thrown n (at stage m) = Within Thrown n m
Within Thrown n (act a k) = (r : Effect a) → Within Thrown n (k r)
Within Thrown zero (ask q k) = ⊥
Within Thrown (suc n) (ask q k) = (answer : Answer q) → Within Thrown n (k answer)

module _ {A : Type 0} (Thrown : Type 0) where
  pub Within-none : (n : ℕ) (m : Flow A) → Within Thrown 0 m → Within Thrown n m
  unfolding Within
  Within-none n (finish a) h = tt
  Within-none n (fail e) h = h
  Within-none n (at stage m) h = Within-none n m h
  Within-none n (act a k) h = λ r. Within-none n (k r) (h r)
  Within-none n (ask q k) h = absurd h

  pub finish-Within : (n : ℕ) (a : A) → Within Thrown n (finish a)
  unfolding Within
  finish-Within n a = tt

  pub at-Within :
      (n : ℕ) (stage : Stage) (m : Flow A) → Within Thrown n m → Within Thrown n (at stage m)
  unfolding Within
  at-Within n stage m h = h

  pub act-Within :
      (n : ℕ) (a : Action) (k : Effect a → Flow A)
      → ((r : Effect a) → Within Thrown n (k r))
      → Within Thrown n (act a k)
  unfolding Within
  act-Within n a k h = h

  pub ask-Within :
      (n : ℕ) (q : Question) (k : Answer q → Flow A)
      → ((answer : Answer q) → Within Thrown n (k answer))
      → Within Thrown (suc n) (ask q k)
  unfolding Within
  ask-Within n q k h = h

  pub if-Within :
      (n : ℕ) (b : Bool) (m m' : Flow A)
      → Within Thrown n m
      → Within Thrown n m'
      → Within Thrown n (if b then m else m')
  if-Within n true m m' h k = h
  if-Within n false m m' h k = k

  pub try_catch-Within :
      (handler : Stage → Caught → Flow A)
      → ((stage : Stage) (e : Caught) → Within Thrown 0 (handler stage e))
      → (n : ℕ) (stage : Stage) (m : Flow A) → Within Unit n m
      → Within Thrown n (try_catch stage m handler)
  unfolding Within try_catch
  try_catch-Within handler safe n stage (finish a) h = tt
  try_catch-Within handler safe n stage (fail e) h = Within-none n (handler stage e) (safe stage e)
  try_catch-Within handler safe n stage (at later m) h = try_catch-Within handler safe n later m h
  try_catch-Within handler safe n stage (act a k) h =
      λ r. try_catch-Within handler safe n stage (k r) (h r)
  try_catch-Within handler safe zero stage (ask q k) h = absurd h
  try_catch-Within handler safe (suc n) stage (ask q k) h =
      λ answer. try_catch-Within handler safe n stage (k answer) (h answer)

-- What follows a part of a run, which may throw.
module _ {A B : Type 0} (n : ℕ) (f : B → Flow A) (rest : (b : B) → Within Unit n (f b)) where
  pub lift-Within : (r : Result Caught B) → Within Unit n (lift r >>= f)
  unfolding Within ◌>>=◌
  lift-Within (ok b) = rest b
  lift-Within (throw e) = tt

  pub cleared-Within :
      (r : Result Caught B)
      → Within Unit n (finally (lift r) (act clear_timer (λ u. finish u)) >>= f)
  unfolding Within ◌>>=◌ finally
  cleared-Within (ok b) = λ u. rest b
  cleared-Within (throw e) = λ u. tt

module _ {A B C : Type 0} (Thrown : Type 0) (g : B → Flow C) (f : C → Flow A) where
  pub nested-Within :
      (n : ℕ) (m : Flow B)
      → Within Thrown n (m >>= λ b. g b >>= f)
      → Within Thrown n ((m >>= g) >>= f)
  unfolding Within ◌>>=◌
  nested-Within n (finish a) h = h
  nested-Within n (fail e) h = h
  nested-Within n (at stage m) h = nested-Within n m h
  nested-Within n (act a k) h = λ r. nested-Within n (k r) (h r)
  nested-Within zero (ask q k) h = absurd h
  nested-Within (suc n) (ask q k) h = λ answer. nested-Within n (k answer) (h answer)

module _ {A B : Type 0} (Thrown : Type 0) (n : ℕ) (f : B → Flow A) where
  pub if-then-Within :
      (b : Bool) (m m' : Flow B)
      → Within Thrown n (m >>= f)
      → Within Thrown n (m' >>= f)
      → Within Thrown n ((if b then m else m') >>= f)
  if-then-Within true m m' h k = h
  if-then-Within false m m' h k = k

pub Within-more :
    {A : Type 0} (Thrown : Type 0) (n : ℕ) (m : Flow A)
    → Within Thrown n m
    → Within Thrown (suc n) m
unfolding Within
Within-more Thrown n (finish a) h = tt
Within-more Thrown n (fail e) h = h
Within-more Thrown n (at stage m) h = Within-more Thrown n m h
Within-more Thrown n (act a k) h = λ r. Within-more Thrown n (k r) (h r)
Within-more Thrown zero (ask q k) h = absurd h
Within-more Thrown (suc n) (ask q k) h = λ answer. Within-more Thrown n (k answer) (h answer)
