-- ===== src/Web/X402/Careful/Submission.antt =====
-- web/src/hooks/use-x402.ts: what each part of `submit` asks for.
use micro_ai_paygate.Prelude.{ℕ, Text, text_eq, true, ◌&&◌, ◌≡◌, refl, ◌==◌, Option, none, some}
use micro_ai_paygate.Js.Json.{Json}
use micro_ai_paygate.Js.Host.{Host, Ethers}
use micro_ai_paygate.Sdk.Types.{PaymentContext, Response}
use micro_ai_paygate.Web.Errors.{Caught}
use micro_ai_paygate.Web.Analytics.{FlowContext}
use micro_ai_paygate.Web.X402.{
  Stage, Flow, ◌>>=◌, lift, current_account, current_chain_id, switch_chain, get_signer,
  sign_typed_data,
}
use micro_ai_paygate.Web.X402Client.Requests.{typed_data_to_sign}
use micro_ai_paygate.Web.X402.Reports.{has, same_chain, keep_receipt}
use micro_ai_paygate.Web.X402.Submit as Submit
use micro_ai_paygate.Web.X402.Careful.{
  IsCareful, finish-IsCareful, at-IsCareful, act-IsCareful, if-IsCareful, body-IsCareful,
  lift-IsCareful, wait-IsCareful, nested-IsCareful, cleared-IsCareful, resumed-IsCareful,
  answered-IsCareful, if-then-IsCareful, try_catch-IsCareful,
}

keep_receipt-IsCareful :
    (chain : Option ℕ) (signature : Option Text) (signed : Option Json) (input : Text)
    (f : Unit → Flow Unit)
    → ((u : Unit) → IsCareful chain signature (f u))
    → IsCareful chain signature (keep_receipt signed input >>= f)
unfolding keep_receipt ◌>>=◌
keep_receipt-IsCareful chain signature none input f rest = rest tt
keep_receipt-IsCareful chain signature (some signed) input f rest =
    act-IsCareful chain signature _ _ (λ saved. lift-IsCareful chain signature f rest _)

ruleset careful = (
  finish-IsCareful, at-IsCareful, act-IsCareful, if-IsCareful, body-IsCareful, lift-IsCareful,
  wait-IsCareful, nested-IsCareful, keep_receipt-IsCareful,
)

module _ (host : Host) (atob : Text → Option Text) (to_text : Json → Option Text) (ethers : Ethers)
    (gateway_url : Option Text) (input : Text) (flow : FlowContext) where
  show_summary-IsCareful :
      (chain : Option ℕ) (signature : Option Text) (res : Response)
      → IsCareful chain signature
          (Submit.show_summary host atob to_text ethers gateway_url input flow res)
  unfolding Submit.show_summary
  show_summary-IsCareful chain signature res = search careful depth 20 fits 4000

  refuse_first-IsCareful :
      (chain : Option ℕ) (signature : Option Text) (res : Response)
      → IsCareful chain signature
          (Submit.refuse_first host atob to_text ethers gateway_url input flow res)
  unfolding Submit.refuse_first Submit.report_refusal
  refuse_first-IsCareful chain signature res = search careful depth 20 fits 4000

  refuse_retry-IsCareful :
      (chain : Option ℕ) (signature : Option Text) (res : Response)
      → IsCareful chain signature
          (Submit.refuse_retry host atob to_text ethers gateway_url input flow res)
  unfolding Submit.refuse_retry Submit.report_refusal
  refuse_retry-IsCareful chain signature res = search careful depth 20 fits 4000

  settle-IsCareful :
      (chain : Option ℕ) (signature : Option Text) (retry : Response)
      → IsCareful chain signature
          (Submit.settle host atob to_text ethers gateway_url input flow retry)
  unfolding Submit.settle
  settle-IsCareful chain signature retry =
      search (careful, show_summary-IsCareful, refuse_retry-IsCareful)

  connect-IsCareful :
      (chain : Option ℕ) (f : Text → Flow Unit)
      → ((x : Text) → IsCareful chain none (f x))
      → IsCareful chain none (Submit.connect host atob to_text ethers gateway_url input flow >>= f)
  unfolding Submit.connect ◌>>=◌ IsCareful
  connect-IsCareful chain f rest u = (
    tt,
    λ answer.
        nested-IsCareful _ f chain none (lift answer)
          (lift-IsCareful chain none _ (λ account v. rest account) answer),
  )

  account_in_hand-IsCareful :
      (chain : Option ℕ) (found : Option Text) (f : Text → Flow Unit)
      → ((x : Text) → IsCareful chain none (f x))
      → IsCareful chain none
          (Submit.account_in_hand host atob to_text ethers gateway_url input flow found >>= f)
  unfolding Submit.account_in_hand ◌>>=◌
  account_in_hand-IsCareful chain none f rest = connect-IsCareful chain f rest
  account_in_hand-IsCareful chain (some account) f rest =
      if-then-IsCareful f chain none (has account) _ _ (λ e. rest account)
        (λ e. connect-IsCareful chain f rest)

  check_switched-IsCareful :
      (context : PaymentContext) (chain : Option ℕ) (f : Unit → Flow Unit)
      → (same_chain chain context.chain_id ≡ true → IsCareful chain none (f tt))
      → IsCareful chain none (
          Submit.check_switched host atob to_text ethers gateway_url input flow context chain >>= f)
  unfolding Submit.check_switched ◌>>=◌ IsCareful
  check_switched-IsCareful context chain f rest =
      if-then-IsCareful f chain none (same_chain chain context.chain_id) _ _ (λ e u. rest e)
        (λ e. tt)

  -- What follows is on the chain of the context.
  on_chain-IsCareful :
      (context : PaymentContext) (chain : Option ℕ) (f : Unit → Flow Unit)
      → ((seen : Option ℕ) → same_chain seen context.chain_id ≡ true → IsCareful seen none (f tt))
      → IsCareful chain none
          (Submit.on_chain host atob to_text ethers gateway_url input flow context chain >>= f)
  unfolding Submit.on_chain ◌>>=◌ IsCareful
  on_chain-IsCareful context chain f rest =
      if-then-IsCareful f chain none (same_chain chain context.chain_id) _ _ (λ e. rest chain e)
        (λ e u. (
          tt,
          resumed-IsCareful f chain none (switch_chain context.chain_id) _ (λ switched. (
            tt,
            resumed-IsCareful f none none current_chain_id _
                (λ seen. check_switched-IsCareful context seen f (rest seen)),
          )),
        ))

  identify_live-IsCareful :
      (chain : Option ℕ) (signature : Option Text) (context : PaymentContext) (account : Text)
      (live : Option Text) (f : Unit → Flow Unit)
      → IsCareful chain signature (f tt)
      → IsCareful chain signature (
          Submit.identify_live host atob to_text ethers gateway_url input flow context account live
          >>= f)
  unfolding Submit.identify_live ◌>>=◌ IsCareful
  identify_live-IsCareful chain signature context account none f rest = rest
  identify_live-IsCareful chain signature context account (some live) f rest =
      if-then-IsCareful f chain signature
        (has live && text_eq (host.to_lower_case live) (host.to_lower_case account)) _ _
        (λ e u. rest) (λ e. rest)

  identified-IsCareful :
      (chain : Option ℕ) (signature : Option Text) (context : PaymentContext) (account : Text)
      (live : Option Text) (g : Unit → Flow Text) (f : Text → Flow Unit)
      → IsCareful chain signature (g tt >>= f)
      → IsCareful chain signature (
          (Submit.identify_live host atob to_text ethers gateway_url input flow context account live
            >>= g)
          >>= f)
  identified-IsCareful chain signature context account live g f rest =
      nested-IsCareful g f chain signature
        (Submit.identify_live host atob to_text ethers gateway_url input flow context account live)
        (identify_live-IsCareful chain signature context account live (λ u. g u >>= f) rest)

  signature_of-IsCareful :
      (context : PaymentContext) (account : Text) (chain : Option ℕ) (f : Text → Flow Unit)
      → same_chain chain context.chain_id ≡ true
      → ((signature : Text) → IsCareful chain (some signature) (f signature))
      → IsCareful chain none (
          Submit.signature_of host atob to_text ethers gateway_url input flow context account >>= f)
  unfolding Submit.signature_of ◌>>=◌ IsCareful
  signature_of-IsCareful context account chain f same rest = (
    tt,
    resumed-IsCareful f chain none (get_signer account) _ (λ signer u v. (
      same,
      resumed-IsCareful f chain none (sign_typed_data (typed_data_to_sign ethers context)) _
          (λ signature. (
            tt,
            resumed-IsCareful f chain (some signature) current_account _ (λ live.
                identified-IsCareful chain (some signature) context account live _ f
                  (λ w. rest signature)),
          )),
    )),
  )

  send_signed-IsCareful :
      (context : PaymentContext) (signature : Text) (chain : Option ℕ) (f : Response → Flow Unit)
      → ((res : Response) → IsCareful chain (some signature) (f res))
      → IsCareful chain (some signature) (
          Submit.send_signed host atob to_text ethers gateway_url input flow context signature
          >>= f)
  unfolding Submit.send_signed ◌>>=◌ IsCareful
  send_signed-IsCareful context signature chain f rest u v w = (
    refl,
    λ answer.
        cleared-IsCareful f chain (some signature) (lift answer)
          (lift-IsCareful chain (some signature) f rest answer),
  )

  pay_with_wallet-IsCareful :
      (context : PaymentContext) (chain : Option ℕ)
      → IsCareful chain none
          (Submit.pay_with_wallet host atob to_text ethers gateway_url input flow context)
  unfolding Submit.pay_with_wallet ◌>>=◌ IsCareful
  pay_with_wallet-IsCareful context chain = (
    tt,
    answered-IsCareful chain none current_account _ (λ found.
        account_in_hand-IsCareful chain found _ (λ account. (
          tt,
          answered-IsCareful chain none current_chain_id _ (λ seen.
              on_chain-IsCareful context seen _ (λ now same.
                signature_of-IsCareful context account now _ same (λ signature.
                  send_signed-IsCareful context signature now _
                    (settle-IsCareful now (some signature))))),
        ))),
  )

  pay-IsCareful :
      (chain : Option ℕ) (first : Response)
      → IsCareful chain none (Submit.pay host atob to_text ethers gateway_url input flow first)
  unfolding Submit.pay Submit.no_wallet_found
  pay-IsCareful chain first = search (careful, pay_with_wallet-IsCareful) depth 20 fits 4000

  attempt-IsCareful :
      IsCareful none none (Submit.attempt host atob to_text ethers gateway_url input flow)
  unfolding Submit.attempt ◌>>=◌ IsCareful
  attempt-IsCareful = (
    refl,
    lift-IsCareful none none _ (λ first.
        if-IsCareful none none (first.status == 200) _ _ (show_summary-IsCareful none none first) (
          if-IsCareful none none (first.status == 402) _ _ (pay-IsCareful none first)
            (refuse_first-IsCareful none none first))),
  )

  handle_failure-IsCareful :
      (stage : Stage) (e : Caught) (chain : Option ℕ) (signature : Option Text)
      → IsCareful chain signature
          (Submit.handle_failure host atob to_text ethers gateway_url input flow stage e)
  unfolding Submit.handle_failure
  handle_failure-IsCareful stage e chain signature = search careful

  -- Whatever the gateway, the wallet and the browser answer: the run asks for a signature only where
  -- the last answer about the wallet's chain was the chain of the typed data and no switch was asked
  -- for since, and its requests carry the signature that the wallet gave in this run, or none before.
  pub submit-IsCareful :
      IsCareful none none (Submit.submit host atob to_text ethers gateway_url input flow)
  unfolding Submit.submit IsCareful
  submit-IsCareful u there reported =
      try_catch-IsCareful (Submit.handle_failure host atob to_text ethers gateway_url input flow)
        handle_failure-IsCareful none none Stage.request
        (Submit.attempt host atob to_text ethers gateway_url input flow) attempt-IsCareful
