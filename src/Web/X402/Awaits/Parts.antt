-- ===== src/Web/X402/Awaits/Parts.antt =====
-- web/src/hooks/use-x402.ts: the awaits of each part of `submit`.
use micro_ai_paygate.Prelude.{ℕ, suc, Text, text_eq, ◌&&◌, Bool-cases, inl, inr, Option, none, some}
use micro_ai_paygate.Js.Json.{Json}
use micro_ai_paygate.Js.Host.{Host, Ethers}
use micro_ai_paygate.Sdk.Types.{PaymentContext, Response}
use micro_ai_paygate.Web.Errors.{Caught}
use micro_ai_paygate.Web.Analytics.{FlowContext}
use micro_ai_paygate.Web.X402.{Stage, Flow, ◌>>=◌, lift, finally}
use micro_ai_paygate.Web.X402.Reports.{has, same_chain, keep_receipt}
use micro_ai_paygate.Web.X402.Submit as Submit
use micro_ai_paygate.Web.X402.Awaits.{
  Within, finish-Within, at-Within, act-Within, ask-Within, if-Within, try_catch-Within,
  lift-Within, cleared-Within, nested-Within, if-then-Within, Within-more,
}

keep_receipt-Within :
    (signed : Option Json) (input : Text) (n : ℕ) (f : Unit → Flow Unit)
    → ((u : Unit) → Within Unit n (f u))
    → Within Unit n (keep_receipt signed input >>= f)
unfolding keep_receipt ◌>>=◌
keep_receipt-Within none input n f rest = rest tt
keep_receipt-Within (some signed) input n f rest =
    act-Within Unit n _ _ (λ saved. lift-Within n f rest _)

ruleset awaiting = (
  finish-Within, at-Within, act-Within, ask-Within, if-Within, lift-Within, cleared-Within,
  nested-Within, if-then-Within, keep_receipt-Within,
)

module _ (host : Host) (atob : Text → Option Text) (to_text : Json → Option Text) (ethers : Ethers)
    (gateway_url : Option Text) (input : Text) (flow : FlowContext) where
  show_summary-Within :
      (res : Response)
      → Within Unit 1 (Submit.show_summary host atob to_text ethers gateway_url input flow res)
  unfolding Submit.show_summary
  show_summary-Within res = search awaiting depth 20 fits 4000

  refuse_first-Within :
      (res : Response)
      → Within Unit 1 (Submit.refuse_first host atob to_text ethers gateway_url input flow res)
  unfolding Submit.refuse_first Submit.report_refusal
  refuse_first-Within res = search awaiting depth 20 fits 4000

  refuse_retry-Within :
      (res : Response)
      → Within Unit 1 (Submit.refuse_retry host atob to_text ethers gateway_url input flow res)
  unfolding Submit.refuse_retry Submit.report_refusal
  refuse_retry-Within res = search awaiting depth 20 fits 4000

  connect-Within :
      (n : ℕ) (f : Text → Flow Unit)
      → ((x : Text) → Within Unit n (f x))
      → Within Unit (suc n) (Submit.connect host atob to_text ethers gateway_url input flow >>= f)
  unfolding Submit.connect ◌>>=◌
  connect-Within n f rest = search awaiting depth 30 fits 8000

  account_in_hand-Within :
      (found : Option Text) (n : ℕ) (f : Text → Flow Unit)
      → ((x : Text) → Within Unit n (f x))
      → Within Unit
          (suc n)
          (Submit.account_in_hand host atob to_text ethers gateway_url input flow found >>= f)
  unfolding Submit.account_in_hand ◌>>=◌
  account_in_hand-Within none n f rest = connect-Within n f rest
  account_in_hand-Within (some account) n f rest = elim (Bool-cases (has account)) [
    | inl e ↦ rw e (Within-more Unit n (f account) (rest account))
    | inr e ↦ rw e (connect-Within n f rest)
  ]

  check_switched-Within :
      (context : PaymentContext) (chain : Option ℕ) (n : ℕ) (f : Unit → Flow Unit)
      → ((x : Unit) → Within Unit n (f x))
      → Within Unit n (
          Submit.check_switched host atob to_text ethers gateway_url input flow context chain >>= f)
  unfolding Submit.check_switched ◌>>=◌ Within
  check_switched-Within context chain n f rest =
      if-then-Within Unit n f (same_chain chain context.chain_id) _ _ (λ u. rest u) tt

  on_chain-Within :
      (context : PaymentContext) (chain : Option ℕ) (n : ℕ) (f : Unit → Flow Unit)
      → ((x : Unit) → Within Unit n (f x))
      → Within Unit
          (suc (suc n))
          (Submit.on_chain host atob to_text ethers gateway_url input flow context chain >>= f)
  unfolding Submit.on_chain ◌>>=◌ Within
  on_chain-Within context chain n f rest =
      if-then-Within Unit (suc (suc n)) f (same_chain chain context.chain_id) _ _
        (Within-more Unit (suc n) (f tt) (Within-more Unit n (f tt) (rest tt)))
        (λ u answer. nested-Within Unit _ f (suc n) (lift answer) (
          lift-Within (suc n) _
            (λ switched after.
              nested-Within Unit _ f n (lift after)
                (lift-Within n _ (λ chain'. check_switched-Within context chain' n f rest) after))
            answer))

  identify_live-Within :
      (context : PaymentContext) (account : Text) (live : Option Text) (n : ℕ)
      (f : Unit → Flow Unit)
      → ((x : Unit) → Within Unit n (f x))
      → Within Unit n (
          Submit.identify_live host atob to_text ethers gateway_url input flow context account live
          >>= f)
  unfolding Submit.identify_live ◌>>=◌ Within
  identify_live-Within context account none n f rest = rest tt
  identify_live-Within context account (some live) n f rest =
      if-then-Within Unit n f
        (has live && text_eq (host.to_lower_case live) (host.to_lower_case account)) _ _
        (λ u. rest u) (rest tt)

  signature_of-Within :
      (context : PaymentContext) (account : Text) (n : ℕ) (f : Text → Flow Unit)
      → ((x : Text) → Within Unit n (f x))
      → Within Unit (suc (suc (suc n))) (
          Submit.signature_of host atob to_text ethers gateway_url input flow context account >>= f)
  unfolding Submit.signature_of ◌>>=◌
  signature_of-Within context account n f rest =
      search (awaiting, identify_live-Within) depth 30 fits 8000

  send_signed-Within :
      (context : PaymentContext) (signature : Text) (n : ℕ) (f : Response → Flow Unit)
      → ((x : Response) → Within Unit n (f x))
      → Within Unit (suc n) (
          Submit.send_signed host atob to_text ethers gateway_url input flow context signature
          >>= f)
  unfolding Submit.send_signed ◌>>=◌ finally
  send_signed-Within context signature n f rest = search awaiting depth 30 fits 8000

  settle-Within :
      (retry : Response)
      → Within Unit 1 (Submit.settle host atob to_text ethers gateway_url input flow retry)
  unfolding Submit.settle
  settle-Within retry =
      search (awaiting, show_summary-Within, refuse_retry-Within) depth 30 fits 8000

  pay_with_wallet-Within :
      (context : PaymentContext)
      → Within Unit 10
          (Submit.pay_with_wallet host atob to_text ethers gateway_url input flow context)
  unfolding Submit.pay_with_wallet
  pay_with_wallet-Within context =
      search
        (
          awaiting, account_in_hand-Within, on_chain-Within, signature_of-Within,
          send_signed-Within, settle-Within,
        )
        depth 30 fits 8000

  pay-Within :
      (first : Response)
      → Within Unit 11 (Submit.pay host atob to_text ethers gateway_url input flow first)
  unfolding Submit.pay Submit.no_wallet_found
  pay-Within first = search (awaiting, pay_with_wallet-Within) depth 30 fits 8000

  attempt-Within : Within Unit 12 (Submit.attempt host atob to_text ethers gateway_url input flow)
  unfolding Submit.attempt
  attempt-Within = search (awaiting, pay-Within) depth 30 fits 8000

  handle_failure-Within :
      (stage : Stage) (e : Caught)
      → Within ⊥ 0 (Submit.handle_failure host atob to_text ethers gateway_url input flow stage e)
  unfolding Submit.handle_failure
  handle_failure-Within stage e = search awaiting

  pub submit-Within : Within ⊥ 12 (Submit.submit host atob to_text ethers gateway_url input flow)
  unfolding Submit.submit Within
  submit-Within u there reported =
      try_catch-Within ⊥ (Submit.handle_failure host atob to_text ethers gateway_url input flow)
        handle_failure-Within 12 Stage.request
        (Submit.attempt host atob to_text ethers gateway_url input flow) attempt-Within
