-- ===== src/Web/X402/Submit.antt =====
-- web/src/hooks/use-x402.ts: `submit`, in the parts between its branches. The parameters are the
-- host, `atob`, the conversion of a JSON value in a template, ethers, the gateway's URL in the
-- environment, the text, and what `createFlowContext` gave.
use micro_ai_paygate.Prelude.{
  ℕ, Text, codes, text_eq, Bool, true, false, not, Option, none, some, [], ◌∷◌, ◌++◌, ◌==◌, ◌&&◌,
  if◌then◌else◌,
}
use micro_ai_paygate.Js.Json.{Json}
use micro_ai_paygate.Js.Stringify.{decimal, number_text}
use micro_ai_paygate.Js.Exec.{Result, ok, throw}
use micro_ai_paygate.Js.Host.{Host, Ethers}
use micro_ai_paygate.Sdk.Types.{Fault, PaymentContext, HeaderRecord, Response, is_ok}
use micro_ai_paygate.Web.Errors.{
  ErrorKind, ai_timeout, ai_unavailable, Caught, primitive, ClassifiedError, classify_error,
}
use micro_ai_paygate.Web.Analytics.{Properties, FlowContext, identify_wallet}
use micro_ai_paygate.Web.Analytics.Events.{
  summary_requested, payment_challenge_received, wallet_connect_requested, wallet_connect_succeeded,
  wallet_connect_failed, chain_switch_requested, chain_switch_succeeded, payment_signature_started,
  payment_signature_succeeded, signed_retry_sent, summary_completed, summary_failed,
}
use micro_ai_paygate.Web.X402Client.{response_json, read_summarize_success}
use micro_ai_paygate.Web.X402Client.Requests.{
  summarize_url, summarize_init, read_payment_challenge, typed_data_to_sign, signed_headers,
}
use micro_ai_paygate.Web.X402.{
  X402Step, Stage, start_timer, clear_timer, is_current, has_wallet, fetch, current_account,
  connect_wallet, current_chain_id, switch_chain, get_signer, sign_typed_data, Flow, finish, act,
  ◌>>=◌, ◌>>◌, lift, new_error, from_fault, wait_for, wait_for_body, patch, tell, stage_is, finally,
  try_catch,
}
use micro_ai_paygate.Web.X402.Reports.{
  stage_name, kind_name, text_value, number_value, count_value, bool_value, option_value, length_of,
  track, is_there, same_chain, safe_text, keep_receipt, has, failure_event, failed_with, ai_step,
  succeeded_with, started,
}

module _ (host : Host) (atob : Text → Option Text) (to_text : Json → Option Text) (ethers : Ethers)
    (gateway_url : Option Text) (input : Text) (flow : FlowContext) where
  abbrev pub flow_props : Properties
  flow_props =
      ("flow_run_id", text_value flow.flow_run_id)
      ∷ ("correlation_id", text_value flow.correlation_id)
      ∷ ("input_word_count", count_value flow.input_word_count)
      ∷ ("input_char_count", count_value flow.input_char_count)
      ∷ []

  -- `postSummarize(text, { ...headers, "X-Correlation-ID": … })`
  unfoldable pub post_summarize : HeaderRecord → Flow Response
  unfolding summarize_init
  post_summarize headers = wait_for (
      fetch (summarize_url gateway_url)
        (summarize_init input (headers ++ (("X-Correlation-ID", flow.correlation_id) ∷ []))))

  -- A response 200, or an `ok` one after the payment: the summary is read, kept and shown.
  unfoldable pub show_summary : Response → Flow Unit
  unfolding ◌>>=◌ keep_receipt length_of read_summarize_success
  show_summary res = do
    patch (λ s. record s { step = X402Step.receipt })
    found ← wait_for_body res (lift (from_fault (read_summarize_success host atob res)))
    keep_receipt found.receipt input
    track summary_completed (
        flow_props
        ++ (("status_code", count_value res.status)
            ∷ ("has_receipt", bool_value (is_there found.receipt))
            ∷ ("summary_char_count", length_of found.summary)
            ∷ []))
    stage_is Stage.done
    patch (succeeded_with found)

  -- `classifyError(null, { status, bodyText })`
  abbrev pub classified_response : Response → ClassifiedError
  classified_response res =
      classify_error host to_text (primitive (codes "null"))
        (some (record { status = some res.status; body_text = some (safe_text res) }))

  unfoldable pub report_refusal : Stage → Response → Flow Unit
  unfolding classify_error stage_name kind_name
  report_refusal stage res = track summary_failed (
      flow_props
      ++ (("stage", text_value (stage_name stage))
          ∷ ("status_code", count_value res.status)
          ∷ ("error_kind", text_value (kind_name (classified_response res).kind))
          ∷ []))

  -- A first response that is neither 200 nor 402.
  unfoldable pub refuse_first : Response → Flow Unit
  unfolding ◌>>=◌ report_refusal
  refuse_first res =
      wait_for_body res
        (do report_refusal Stage.request res; patch (failed_with (classified_response res)))

  abbrev pub is_ai_failure : ErrorKind → Bool
  is_ai_failure ai_timeout = true
  is_ai_failure ai_unavailable = true
  is_ai_failure kind = false

  -- A response to the signed request that is not `ok`.
  unfoldable pub refuse_retry : Response → Flow Unit
  unfolding ◌>>=◌ report_refusal
  refuse_retry res =
      let classified = classified_response res in
      wait_for_body res (do
        report_refusal Stage.verify res
        if is_ai_failure classified.kind
            then patch (λ s. ai_step (failed_with classified s))
            else patch (failed_with classified))

  -- `account = await connectWallet()`
  unfoldable pub connect : Flow Text
  unfolding ◌>>=◌
  connect = do
    track wallet_connect_requested flow_props
    account ← wait_for connect_wallet
    track wallet_connect_succeeded (flow_props ++ (("wallet_connected", bool_value true) ∷ []))
    finish account

  -- The account of `await getCurrentAccount()`, or that of `connectWallet()` where there is none.
  unfoldable pub account_in_hand : Option Text → Flow Text
  unfolding connect
  account_in_hand none = connect
  account_in_hand (some account) = if has account then finish account else connect

  abbrev pub chain_props : PaymentContext → Properties
  chain_props context = flow_props ++ (("chain_id", number_value context.chain_id) ∷ [])

  abbrev pub did_not_switch : PaymentContext → Option ℕ → Text
  did_not_switch context chain =
      codes "Wallet did not switch to chain "
      ++ (number_text context.chain_id
          ++ (codes " (still on "
              ++ (elim chain [ none ↦ codes "null" | some n ↦ decimal n ]
                  ++ codes "). Switch manually and retry.")))

  -- The check of the chain after a switch.
  unfoldable pub check_switched : PaymentContext → Option ℕ → Flow Unit
  unfolding number_text same_chain
  check_switched context chain =
      if same_chain chain context.chain_id
      then track chain_switch_succeeded (chain_props context)
      else lift (throw (new_error (did_not_switch context chain)))

  -- `if (currentChain !== context.chainId) { … }`
  unfoldable pub on_chain : PaymentContext → Option ℕ → Flow Unit
  unfolding ◌>>=◌ same_chain check_switched
  on_chain context chain = if same_chain chain context.chain_id then finish tt else do
    stage_is Stage.chain_switch
    track chain_switch_requested
        (chain_props context ++ (("current_chain_id", option_value chain) ∷ []))
    wait_for (switch_chain context.chain_id)
    after ← wait_for current_chain_id
    check_switched context after

  -- `identify`, where the live account is still the one that signed
  unfoldable pub identify_live : PaymentContext → Text → Option Text → Flow Unit
  identify_live context account none = finish tt
  identify_live context account (some live) =
      if has live && text_eq (host.to_lower_case live) (host.to_lower_case account)
      then tell (
          identify_wallet account (
            ("wallet_connected", bool_value true)
            ∷ ("chain_id", number_value context.chain_id)
            ∷ []))
      else finish tt

  -- From `stage = "signer"` to `PaymentSignatureSucceeded`: the signature.
  unfoldable pub signature_of : PaymentContext → Text → Flow Text
  unfolding ◌>>=◌ typed_data_to_sign identify_live
  signature_of context account = do
    stage_is Stage.signer
    wait_for (get_signer account)
    patch (λ s. record s { step = X402Step.sign })
    stage_is Stage.sign
    track payment_signature_started (chain_props context)
    signature ← wait_for (sign_typed_data (typed_data_to_sign ethers context))
    live ← wait_for current_account
    identify_live context account live
    track payment_signature_succeeded (chain_props context)
    finish signature

  -- The signed request, under the timer.
  unfoldable pub send_signed : PaymentContext → Text → Flow Response
  unfolding ◌>>=◌ finally signed_headers post_summarize
  send_signed context signature = do
    patch (λ s. record s { step = X402Step.verify })
    stage_is Stage.verify
    act start_timer (λ u. finish u)
    finally
        (do
          track signed_retry_sent (chain_props context)
          post_summarize (signed_headers context signature))
        (act clear_timer (λ u. finish u))

  unfoldable pub settle : Response → Flow Unit
  unfolding refuse_retry show_summary
  settle retry = if is_ok retry then show_summary retry else refuse_retry retry

  -- From the wallet that is there to the end of a run.
  unfoldable pub pay_with_wallet : PaymentContext → Flow Unit
  unfolding ◌>>=◌ account_in_hand on_chain signature_of send_signed settle
  pay_with_wallet context = do
    stage_is Stage.wallet_connect
    found ← wait_for current_account
    account ← account_in_hand found
    stage_is Stage.chain_lookup
    chain ← wait_for current_chain_id
    on_chain context chain
    signature ← signature_of context account
    retry ← send_signed context signature
    settle retry

  -- `classifyError(err)`
  abbrev pub classified_error : Caught → ClassifiedError
  classified_error e = classify_error host to_text e none

  unfoldable pub no_wallet_found : Flow Unit
  unfolding ◌>>=◌ classify_error
  no_wallet_found = do
    track wallet_connect_failed (
        flow_props
        ++ (("stage", text_value (codes "wallet-connect"))
            ∷ ("error_kind", text_value (codes "no-wallet"))
            ∷ []))
    patch (failed_with (classified_error (new_error (codes "No crypto wallet found"))))

  -- `readPaymentChallenge(res)`, from the body on
  unfoldable pub challenge_of : Response → Result Fault PaymentContext
  unfolding response_json read_payment_challenge
  challenge_of res = elim (response_json host atob res) [
    | throw fault ↦ throw fault
    | ok v ↦ read_payment_challenge v
  ]

  -- A first response 402.
  unfoldable pub pay : Response → Flow Unit
  unfolding ◌>>=◌ challenge_of pay_with_wallet no_wallet_found
  pay first = do
    patch (λ s. record s { step = X402Step.challenge })
    context ← wait_for_body first (lift (from_fault (challenge_of first)))
    track payment_challenge_received (
        flow_props
        ++ (("status_code", count_value first.status)
            ∷ ("chain_id", number_value context.chain_id)
            ∷ ("payment_amount", text_value context.amount)
            ∷ ("payment_token", text_value context.token)
            ∷ []))
    act has_wallet (λ there. if there then pay_with_wallet context else no_wallet_found)

  -- The body of the `try`.
  unfoldable pub attempt : Flow Unit
  unfolding ◌>>=◌ post_summarize show_summary pay refuse_first
  attempt = do
    first ← post_summarize []
    if first.status == 200
        then show_summary first
        else if first.status == 402
        then pay first
        else refuse_first first

  -- The `catch` clause.
  unfoldable pub handle_failure : Stage → Caught → Flow Unit
  unfolding ◌>>=◌ classify_error stage_name kind_name failure_event
  handle_failure stage e = act is_current (λ current. if not current then finish tt else do
    track (failure_event stage) (
        flow_props
        ++ (("stage", text_value (stage_name stage))
            ∷ ("error_kind", text_value (kind_name (classified_error e).kind))
            ∷ []))
    patch (failed_with (classified_error e)))

  -- `submit(text)`, from its first `update` on
  unfoldable pub submit : Flow Unit
  unfolding ◌>>=◌ try_catch attempt handle_failure
  submit =
      patch started
      >> act has_wallet (λ there.
        track summary_requested (flow_props ++ (("wallet_available", bool_value there) ∷ [])))
      >> try_catch Stage.request attempt handle_failure
