-- ===== src/Web/X402/Careful.antt =====
-- web/src/hooks/use-x402.ts: when a run asks for a signature, and which signature its requests carry.
pub mod Submission
use micro_ai_paygate.Prelude.{
  ℕ, String, Text, Bool, true, false, ◌≡◌, refl, Option, none, some, List, [], ◌∷◌, str_eq,
  if◌then◌else◌,
}
use micro_ai_paygate.Js.Exec.{Result, ok, throw}
use micro_ai_paygate.Sdk.Types.{HeaderRecord}
use micro_ai_paygate.Web.Errors.{Caught}
use micro_ai_paygate.Web.X402.{
  Stage, Action, Effect, clear_timer, Question, fetch, body, current_account, connect_wallet,
  current_chain_id, switch_chain, get_signer, sign_typed_data, Value, Answer, Flow, finish, fail,
  at, act, ask, ◌>>=◌, lift, finally, try_catch,
}
use micro_ai_paygate.Web.X402.Reports.{same_chain}

-- The value of `X-402-Signature`.
abbrev pub signature_header : HeaderRecord → Option Text
signature_header [] = none
signature_header ((name, value) ∷ headers) =
    let rest = signature_header headers in
    if str_eq name "X-402-Signature" then some value else rest

-- The chain that the wallet was last seen on: unknown after a switch or a failed look-up.
abbrev pub chain_after : (q : Question) → Answer q → Option ℕ → Option ℕ
chain_after current_chain_id (ok seen) chain = seen
chain_after current_chain_id (throw e) chain = none
chain_after (switch_chain chain_id) answer chain = none
chain_after (fetch url init) answer chain = chain
chain_after (body response) answer chain = chain
chain_after current_account answer chain = chain
chain_after connect_wallet answer chain = chain
chain_after (get_signer account) answer chain = chain
chain_after (sign_typed_data typed) answer chain = chain

-- The signature that the wallet gave.
abbrev pub signature_after : (q : Question) → Answer q → Option Text → Option Text
signature_after (sign_typed_data typed) (ok signature) before = some signature
signature_after (sign_typed_data typed) (throw e) before = before
signature_after current_chain_id answer before = before
signature_after (switch_chain chain_id) answer before = before
signature_after (fetch url init) answer before = before
signature_after (body response) answer before = before
signature_after current_account answer before = before
signature_after connect_wallet answer before = before
signature_after (get_signer account) answer before = before

-- A signature is asked for on the chain that the wallet was last seen on; a request carries the
-- signature that the wallet gave, and none before.
abbrev pub IsAllowed : Option ℕ → Option Text → Question → Type 0
IsAllowed chain signature (sign_typed_data typed) = same_chain chain typed.domain.chain_id ≡ true
IsAllowed chain signature (fetch url init) = signature_header init.headers ≡ signature
IsAllowed chain signature (body response) = Unit
IsAllowed chain signature current_account = Unit
IsAllowed chain signature connect_wallet = Unit
IsAllowed chain signature current_chain_id = Unit
IsAllowed chain signature (switch_chain chain_id) = Unit
IsAllowed chain signature (get_signer account) = Unit

-- A flow that asks only what is allowed, whatever is answered.
unfoldable pub IsCareful : {A : Type 0} → Option ℕ → Option Text → Flow A → Type 0
unfolding same_chain
IsCareful chain signature (finish a) = Unit
IsCareful chain signature (fail e) = Unit
IsCareful chain signature (at stage m) = IsCareful chain signature m
IsCareful chain signature (act a k) = (r : Effect a) → IsCareful chain signature (k r)
IsCareful chain signature (ask q k) =
    IsAllowed chain signature q
    × ((answer : Answer q)
        → IsCareful (chain_after q answer chain) (signature_after q answer signature) (k answer))

module _ {A : Type 0} (chain : Option ℕ) (signature : Option Text) where
  pub finish-IsCareful : (a : A) → IsCareful chain signature (finish a)
  unfolding IsCareful
  finish-IsCareful a = tt

  pub at-IsCareful :
      (stage : Stage) (m : Flow A)
      → IsCareful chain signature m
      → IsCareful chain signature (at stage m)
  unfolding IsCareful
  at-IsCareful stage m h = h

  pub act-IsCareful :
      (a : Action) (k : Effect a → Flow A)
      → ((r : Effect a) → IsCareful chain signature (k r))
      → IsCareful chain signature (act a k)
  unfolding IsCareful
  act-IsCareful a k h = h

  pub if-IsCareful :
      (b : Bool) (m m' : Flow A)
      → IsCareful chain signature m
      → IsCareful chain signature m'
      → IsCareful chain signature (if b then m else m')
  if-IsCareful true m m' h k = h
  if-IsCareful false m m' h k = k

  pub body-IsCareful :
      (response : _) (k : _ → Flow A)
      → ((answer : _) → IsCareful chain signature (k answer))
      → IsCareful chain signature (ask (body response) k)
  unfolding IsCareful
  body-IsCareful response k h = (tt, h)

  pub lift-IsCareful :
      {B : Type 0} (f : B → Flow A)
      → ((b : B) → IsCareful chain signature (f b))
      → (r : Result Caught B) → IsCareful chain signature (lift r >>= f)
  unfolding IsCareful ◌>>=◌
  lift-IsCareful f h (ok b) = h b
  lift-IsCareful f h (throw e) = tt

  -- An answer that is waited for, and goes on as `f` or is thrown.
  pub answered-IsCareful :
      (q : Question) (f : Value q → Flow A)
      → ((v : Value q)
          → IsCareful (chain_after q (ok v) chain) (signature_after q (ok v) signature) (f v))
      → (answer : Answer q)
      → IsCareful
          (chain_after q answer chain)
          (signature_after q answer signature)
          (lift answer >>= f)
  unfolding IsCareful ◌>>=◌
  answered-IsCareful q f h (ok v) = h v
  answered-IsCareful q f h (throw e) = tt

  pub wait-IsCareful :
      (q : Question) (f : Value q → Flow A)
      → IsAllowed chain signature q
      → ((v : Value q)
          → IsCareful (chain_after q (ok v) chain) (signature_after q (ok v) signature) (f v))
      → IsCareful chain signature (ask q (λ answer. lift answer >>= f))
  unfolding IsCareful
  wait-IsCareful q f allowed h = (allowed, answered-IsCareful q f h)

module _ {A B C : Type 0} (g : B → Flow C) (f : C → Flow A) where
  pub nested-IsCareful :
      (chain : Option ℕ) (signature : Option Text) (m : Flow B)
      → IsCareful chain signature (m >>= λ b. g b >>= f)
      → IsCareful chain signature ((m >>= g) >>= f)
  unfolding IsCareful ◌>>=◌
  nested-IsCareful chain signature (finish a) h = h
  nested-IsCareful chain signature (fail e) h = h
  nested-IsCareful chain signature (at stage m) h = nested-IsCareful chain signature m h
  nested-IsCareful chain signature (act a k) h = λ r. nested-IsCareful chain signature (k r) (h r)
  nested-IsCareful chain signature (ask q k) (allowed, h) =
      (allowed, λ answer. nested-IsCareful _ _ (k answer) (h answer))

module _ {A C : Type 0} (f : C → Flow A) where
  pub resumed-IsCareful :
      (chain : Option ℕ) (signature : Option Text) (q : Question) (g : Value q → Flow C)
      → ((v : Value q)
          → IsCareful (chain_after q (ok v) chain) (signature_after q (ok v) signature) (g v >>= f))
      → (answer : Answer q)
      → IsCareful
          (chain_after q answer chain)
          (signature_after q answer signature)
          ((lift answer >>= g) >>= f)
  unfolding IsCareful ◌>>=◌
  resumed-IsCareful chain signature q g h (ok v) = h v
  resumed-IsCareful chain signature q g h (throw e) = tt

-- `finally` with the clearing of the timer, around a flow that is followed by `f`.
module _ {A B : Type 0} (f : B → Flow A) where
  pub cleared-IsCareful :
      (chain : Option ℕ) (signature : Option Text) (m : Flow B)
      → IsCareful chain signature (m >>= f)
      → IsCareful chain signature (finally m (act clear_timer (λ u. finish u)) >>= f)
  unfolding IsCareful ◌>>=◌ finally
  cleared-IsCareful chain signature (finish a) h = λ u. h
  cleared-IsCareful chain signature (fail e) h = λ u. tt
  cleared-IsCareful chain signature (at stage m) h = cleared-IsCareful chain signature m h
  cleared-IsCareful chain signature (act a k) h = λ r. cleared-IsCareful chain signature (k r) (h r)
  cleared-IsCareful chain signature (ask q k) (allowed, h) =
      (allowed, λ answer. cleared-IsCareful _ _ (k answer) (h answer))

  pub if-then-IsCareful :
      (chain : Option ℕ) (signature : Option Text) (b : Bool) (m m' : Flow B)
      → (b ≡ true → IsCareful chain signature (m >>= f))
      → (b ≡ false → IsCareful chain signature (m' >>= f))
      → IsCareful chain signature ((if b then m else m') >>= f)
  if-then-IsCareful chain signature true m m' h k = h refl
  if-then-IsCareful chain signature false m m' h k = k refl

module _ {A : Type 0} (handler : Stage → Caught → Flow A)
    (safe : (stage : Stage) (e : Caught) (chain : Option ℕ) (signature : Option Text)
      → IsCareful chain signature (handler stage e)) where
  pub try_catch-IsCareful :
      (chain : Option ℕ) (signature : Option Text) (stage : Stage) (m : Flow A)
      → IsCareful chain signature m
      → IsCareful chain signature (try_catch stage m handler)
  unfolding IsCareful try_catch
  try_catch-IsCareful chain signature stage (finish a) h = tt
  try_catch-IsCareful chain signature stage (fail e) h = safe stage e chain signature
  try_catch-IsCareful chain signature stage (at later m) h =
      try_catch-IsCareful chain signature later m h
  try_catch-IsCareful chain signature stage (act a k) h =
      λ r. try_catch-IsCareful chain signature stage (k r) (h r)
  try_catch-IsCareful chain signature stage (ask q k) (allowed, h) =
      (allowed, λ answer. try_catch-IsCareful _ _ stage (k answer) (h answer))
