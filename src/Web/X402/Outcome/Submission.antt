-- ===== src/Web/X402/Outcome/Submission.antt =====
-- web/src/hooks/use-x402.ts: what each part of `submit` makes of the state.
use micro_ai_paygate.Prelude.{ℕ, Text, Bool, true, false, ◌≡◌, refl, Option, none, some}
use micro_ai_paygate.Js.Json.{Json}
use micro_ai_paygate.Js.Exec.{Result, ok, throw}
use micro_ai_paygate.Js.Host.{Host, Ethers}
use micro_ai_paygate.Sdk.Types.{PaymentContext, Response}
use micro_ai_paygate.Web.Errors.{Caught, ClassifiedError}
use micro_ai_paygate.Web.Analytics.{FlowContext}
use micro_ai_paygate.Web.X402Client.{SummarizeSuccess}
use micro_ai_paygate.Web.X402.{
  X402Step, X402State, Stage, finish, act, patch, from_fault, finally, lift, clear_timer, ◌>>=◌,
}
use micro_ai_paygate.Web.X402.Reports.{keep_receipt, failed_with, ai_step, succeeded_with, started}
use micro_ai_paygate.Web.StatusStrip.{is_on_strip}
use micro_ai_paygate.Web.X402.Submit as Submit
use micro_ai_paygate.Web.X402.Outcome.{
  IsRunning, succeeded, failed, Meets, try_catch-Meets, IsCalm, IsOver, IsSteady, Settles, Reaches,
  bind-Reaches, if-Reaches, ask-Reaches, report-Reaches, has_wallet-Reaches, at-Reaches,
  step-Reaches, fail-Reaches, finish-IsSteady, lift-IsSteady,
}

failed_with-Settles : (classified : ClassifiedError) → Settles (patch (failed_with classified))
unfolding Reaches Meets
failed_with-Settles classified s t (h, off) =
    (failed classified refl refl h.no_summary h.no_receipt h.on_strip, off)

ai_failed-Settles :
    (classified : ClassifiedError) → Settles (patch (λ s. ai_step (failed_with classified s)))
unfolding Reaches Meets
ai_failed-Settles classified s t (h, off) =
    (failed classified refl refl h.no_summary h.no_receipt refl, off)

succeeded_with-Settles : (found : SummarizeSuccess) → Settles (patch (succeeded_with found))
unfolding Reaches Meets
succeeded_with-Settles found s t (h, off) = (succeeded found.summary refl refl h.no_error refl, off)

keep_receipt-IsSteady : (signed : Option Json) (input : Text) → IsSteady (keep_receipt signed input)
unfolding keep_receipt Reaches Meets
keep_receipt-IsSteady none input s t calm = calm
keep_receipt-IsSteady (some signed) input s t calm =
    λ saved. lift-IsSteady (from_fault saved) s t calm

cleared-Meets :
    {A : Type 0} (answer : Result Caught A) (s : X402State) (t : Bool)
    → IsRunning s
    → Meets
        (λ a s' t'. IsCalm s' t')
        IsCalm
        (finally (lift answer) (act clear_timer (λ u. finish u)))
        s
        t
unfolding Meets finally ◌>>=◌
cleared-Meets (ok a) s t h = (h, refl)
cleared-Meets (throw e) s t h = (h, refl)

ruleset reaching = (
  bind-Reaches, if-Reaches, ask-Reaches, report-Reaches, has_wallet-Reaches, at-Reaches,
  step-Reaches, fail-Reaches, finish-IsSteady, lift-IsSteady, keep_receipt-IsSteady,
  failed_with-Settles, ai_failed-Settles, succeeded_with-Settles,
)

module _ (host : Host) (atob : Text → Option Text) (to_text : Json → Option Text) (ethers : Ethers)
    (gateway_url : Option Text) (input : Text) (flow : FlowContext) where
  show_summary-Settles :
      (res : Response)
      → Settles (Submit.show_summary host atob to_text ethers gateway_url input flow res)
  unfolding Submit.show_summary
  show_summary-Settles res = search reaching depth 20 fits 4000

  refuse_first-Settles :
      (res : Response)
      → Settles (Submit.refuse_first host atob to_text ethers gateway_url input flow res)
  unfolding Submit.refuse_first Submit.report_refusal
  refuse_first-Settles res = search reaching

  refuse_retry-Settles :
      (res : Response)
      → Settles (Submit.refuse_retry host atob to_text ethers gateway_url input flow res)
  unfolding Submit.refuse_retry Submit.report_refusal
  refuse_retry-Settles res = search reaching

  connect-IsSteady : IsSteady (Submit.connect host atob to_text ethers gateway_url input flow)
  unfolding Submit.connect
  connect-IsSteady = search reaching

  account_in_hand-IsSteady :
      (found : Option Text)
      → IsSteady (Submit.account_in_hand host atob to_text ethers gateway_url input flow found)
  unfolding Submit.account_in_hand
  account_in_hand-IsSteady none = connect-IsSteady
  account_in_hand-IsSteady (some account) = search (reaching, connect-IsSteady)

  check_switched-IsSteady :
      (context : PaymentContext) (chain : Option ℕ)
      → IsSteady
          (Submit.check_switched host atob to_text ethers gateway_url input flow context chain)
  unfolding Submit.check_switched
  check_switched-IsSteady context chain = search reaching

  on_chain-IsSteady :
      (context : PaymentContext) (chain : Option ℕ)
      → IsSteady (Submit.on_chain host atob to_text ethers gateway_url input flow context chain)
  unfolding Submit.on_chain
  on_chain-IsSteady context chain = search (reaching, check_switched-IsSteady) depth 20 fits 4000

  identify_live-IsSteady :
      (context : PaymentContext) (account : Text) (live : Option Text)
      → IsSteady (
          Submit.identify_live host atob to_text ethers gateway_url input flow context account live)
  unfolding Submit.identify_live
  identify_live-IsSteady context account none = search reaching
  identify_live-IsSteady context account (some live) = search reaching

  signature_of-IsSteady :
      (context : PaymentContext) (account : Text)
      → IsSteady
          (Submit.signature_of host atob to_text ethers gateway_url input flow context account)
  unfolding Submit.signature_of
  signature_of-IsSteady context account =
      search (reaching, identify_live-IsSteady) depth 20 fits 4000

  settle-Settles :
      (retry : Response)
      → Settles (Submit.settle host atob to_text ethers gateway_url input flow retry)
  unfolding Submit.settle
  settle-Settles retry = search (reaching, show_summary-Settles, refuse_retry-Settles)

  -- The timer is set and cleared again on both ways out of the signed request.
  send_signed-IsSteady :
      (context : PaymentContext) (signature : Text)
      → IsSteady
          (Submit.send_signed host atob to_text ethers gateway_url input flow context signature)
  unfolding Submit.send_signed Reaches Meets
  send_signed-IsSteady context signature s t (h, off) =
      let running : (step : X402Step)
          → is_on_strip step ≡ true
          → IsRunning (record s { step = step }) =
        λ step there. record {
          running = h.running;
          no_error = h.no_error;
          no_summary = h.no_summary;
          no_receipt = h.no_receipt;
          on_strip = there;
        } in
      (
        running X402Step.verify refl,
        λ answer. cleared-Meets answer _ true (running X402Step.verify refl),
        λ on answer. cleared-Meets answer _ false (running X402Step.ai refl),
      )

  pay_with_wallet-Settles :
      (context : PaymentContext)
      → Settles (Submit.pay_with_wallet host atob to_text ethers gateway_url input flow context)
  unfolding Submit.pay_with_wallet
  pay_with_wallet-Settles context =
      search
        (
          reaching, account_in_hand-IsSteady, on_chain-IsSteady, signature_of-IsSteady,
          send_signed-IsSteady, settle-Settles,
        )
        depth 20 fits 4000

  pay-Settles :
      (first : Response)
      → Settles (Submit.pay host atob to_text ethers gateway_url input flow first)
  unfolding Submit.pay Submit.no_wallet_found
  pay-Settles first = search (reaching, pay_with_wallet-Settles) depth 20 fits 4000

  attempt-Settles : Settles (Submit.attempt host atob to_text ethers gateway_url input flow)
  unfolding Submit.attempt
  attempt-Settles = search (reaching, show_summary-Settles, pay-Settles, refuse_first-Settles)

  attempt-Meets :
      (s : X402State)
      → IsRunning s
      → Meets
          (λ a s' t'. IsOver s' t')
          IsCalm
          (Submit.attempt host atob to_text ethers gateway_url input flow)
          s
          false
  unfolding Reaches
  attempt-Meets s h = attempt-Settles s false (h, refl)

  -- Nothing is thrown out of the run.
  handle_failure-Meets :
      (stage : Stage) (e : Caught) (s : X402State) (t : Bool)
      → IsCalm s t
      → Meets
          (λ a s' t'. IsOver s' t')
          (λ s' t'. ⊥)
          (Submit.handle_failure host atob to_text ethers gateway_url input flow stage e)
          s
          t
  unfolding Submit.handle_failure Meets
  handle_failure-Meets stage e s t (h, off) =
      (failed _ refl refl h.no_summary h.no_receipt h.on_strip, off)

  pub submit-Meets :
      (s : X402State)
      → Meets
          (λ a s' t'. IsOver s' t')
          (λ s' t'. ⊥)
          (Submit.submit host atob to_text ethers gateway_url input flow)
          s
          false
  unfolding Submit.submit Meets
  submit-Meets s there =
      try_catch-Meets _ _ _ (Submit.handle_failure host atob to_text ethers gateway_url input flow)
        handle_failure-Meets Stage.request
        (Submit.attempt host atob to_text ethers gateway_url input flow) (started s) false
        (attempt-Meets (started s) (record {
          running = refl;
          no_error = refl;
          no_summary = refl;
          no_receipt = refl;
          on_strip = refl;
        }))
