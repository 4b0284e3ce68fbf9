-- ===== src/Web/X402/Tests.antt =====
-- Runs of the hook at concrete inputs, and its theorems at inputs where their hypotheses hold.
use micro_ai_paygate.Prelude.{
  ℕ, zero, suc, Text, codes, text_eq, trim, is_space, ◌≡◌, refl, true, false, Option, none, some,
  List, [], ◌∷◌, arith, if◌then◌else◌,
}
use micro_ai_paygate.Js.Json.{Json, obj, str, num, int, pos, field, end, prop}
use micro_ai_paygate.Js.Exec.{ok}
use micro_ai_paygate.Js.Host.{Host, Ethers}
use micro_ai_paygate.Sdk.Types.{Response, PaymentContext}
use micro_ai_paygate.Web.Storage.{Store, present}
use micro_ai_paygate.Web.X402.{
  X402Step, fetch, body, current_account, connect_wallet, current_chain_id, switch_chain,
  get_signer, sign_typed_data, finish,
}
use micro_ai_paygate.Web.X402.System.{
  Env, System, Reply, Event, submitted, cancelled, answered, after_event, mounted, Reachable, mount,
  next,
}
use micro_ai_paygate.Web.X402.Latest.{single_step, latest}
use micro_ai_paygate.Web.X402.Refinement.{happening, after_event-latest}
use micro_ai_paygate.Web.X402.Progress.{IsInStep, Reachable-IsInStep}
use micro_ai_paygate.Web.X402.Awaits.Termination.{after_events, after_events-finish}
use micro_ai_paygate.Web.X402.Careful.{IsCareful, signature_header}
use micro_ai_paygate.Web.X402.Careful.Submission.{submit-IsCareful}
use micro_ai_paygate.Web.X402Client.Agreement.{payment_agrees}
use micro_ai_paygate.Web.X402Client.Requests.{
  typed_data_to_sign, signed_headers, read_payment_challenge,
}
use micro_ai_paygate.Web.X402Client.{read_summarize_success, response_json}
use micro_ai_paygate.Web.X402.Reports.{same_chain}
use micro_ai_paygate.Sdk.Payment.{build_payment_typed_data, build_signed_headers}
use micro_ai_paygate.Web.X402.Submit as Submit
use micro_ai_paygate.Web.Analytics.{FlowContext}

abbrev challenge : Json
challenge = obj (
    field "paymentContext"
      (obj (
        field "recipient" (str (codes "0x2")) (
          field "token" (str (codes "USDC")) (
            field "amount" (str (codes "0.001")) (
              field "nonce" (str (codes "n1")) (
                field "chainId" (num (int (pos 84532)))
                  (field "timestamp" (num (int (pos 7))) end)))))))
      end)

abbrev summary : Json
summary = obj (field "result" (str (codes "short")) end)

-- Two bodies: that of the challenge, and any other.
abbrev pub host : Host
host = record {
  parse = λ s. if text_eq s (codes "challenge") then some challenge else some summary;
  decode_utf8 = λ b. b;
  encode_utf8 = λ t. t;
  to_lower_case = λ t. t;
  encode_uri_component = λ t. some t;
}

abbrev pub atob : Text → Option Text
atob t = none

abbrev pub to_text : Json → Option Text
to_text v = none

abbrev pub ethers : Ethers
ethers = record {
  zero_address = codes "0x0";
  to_utf8_bytes = λ t. some t;
  sha256 = λ b. b;
  keccak256 = λ b. b;
  get_bytes = λ t. some t;
  hexlify = λ b. b;
  compute_public_key = λ t. some t;
  signature_from = λ s. some s;
  recover_public_key = λ t s. some t;
}

abbrev pub env : Env
env = record {
  browser = record {
    local_storage = present;
    get_item = ok tt;
    set_item = λ s. ok tt;
    remove_item = ok tt;
    listener = λ l. ok tt;
    now = 2;
  };
  wallet_there = true;
}

abbrev pub store : Store
store = record {
  raw = none;
  cached_raw = none;
  cached_snapshot = [];
  listeners = [];
  notified = [];
}

abbrev pub payment_required : Response
payment_required = record { status = 402; header = λ k. none; text = ok (codes "challenge") }

abbrev pub fine : Response
fine = record { status = 200; header = λ k. none; text = ok (codes "summary") }

-- The outside answers `res` to a request; its wallet is on the chain of the challenge.
abbrev pub says : Response → Reply
says res (fetch url init) = ok res
says res (body response) = ok tt
says res current_account = ok (some (codes "0xA"))
says res connect_wallet = ok (codes "0xA")
says res current_chain_id = ok (some 84532)
says res (switch_chain chain_id) = ok tt
says res (get_signer account) = ok tt
says res (sign_typed_data typed) = ok (codes "0x51")

abbrev after : Event → System → System
after e s = after_event host atob to_text ethers none e s

abbrev submission : Event
submission = submitted env (codes "text") (codes "f") (codes "c")

abbrev one_run : System
one_run = after submission (mounted store)

abbrev one_run-Reachable : Reachable host atob to_text ethers none one_run
one_run-Reachable = next submission (mount store)

-- The second run supersedes the first.
abbrev two_runs-Reachable : Reachable host atob to_text ethers none (after submission one_run)
two_runs-Reachable = next submission one_run-Reachable

after_event-latest_example :
    latest (after (answered env 1 (says fine)) (after submission one_run))
    ≡ single_step host
        (happening host atob to_text ethers none
          (answered env 1 (says fine))
          (after submission one_run))
        (latest (after submission one_run))
after_event-latest_example =
    after_event-latest host atob to_text ethers none (answered env 1 (says fine)) two_runs-Reachable

Reachable-IsInStep_example :
    IsInStep
      (one_run.runs one_run.world.run_id)
      one_run.world.state
      (one_run.world.timers one_run.world.run_id)
Reachable-IsInStep_example = Reachable-IsInStep host atob to_text ethers none one_run-Reachable

abbrev answers : ℕ → List Event
answers zero = []
answers (suc n) = answered env 1 (says payment_required) ∷ answers n

one_run_test : one_run.world.run_id ≡ 1
unfolding after_event trim is_space
one_run_test = refl

after_events-finish_example :
    (after_events host atob to_text ethers none (cancelled ∷ answers 12) one_run).runs 1 ≡ finish tt
after_events-finish_example =
    after_events-finish host atob to_text ethers none one_run-Reachable 1
      (omega (arith, one_run_test)) (cancelled ∷ answers 12) (omega arith)

-- The gateway takes the signed request only.
abbrev pub sells : Reply
sells (fetch url init) = elim (signature_header init.headers) [
  | none ↦ ok payment_required
  | some signature ↦ ok fine
]
sells q = says fine q

abbrev paid : ℕ → List Event
paid zero = []
paid (suc n) = answered env 1 sells ∷ paid n

paid_test :
    (after_events host atob to_text ethers none (submission ∷ paid 9) (mounted store)).world.state
    ≡ record {
      step = X402Step.done;
      summary = some (str (codes "short"));
      receipt = none;
      error = none;
      is_running = false;
    }
unfolding after_event trim is_space text_eq signed_headers typed_data_to_sign same_chain
    read_payment_challenge read_summarize_success response_json prop
paid_test = refl

abbrev flow : FlowContext
flow = record {
  flow_run_id = codes "f";
  correlation_id = codes "c";
  input_word_count = 1;
  input_char_count = 4;
}

submit-IsCareful_example :
    IsCareful none none (Submit.submit host atob to_text ethers none (codes "text") flow)
submit-IsCareful_example = submit-IsCareful host atob to_text ethers none (codes "text") flow

abbrev context : PaymentContext
context = record {
  recipient = codes "0x2";
  token = codes "USDC";
  amount = codes "0.001";
  nonce = codes "n1";
  chain_id = int (pos 84532);
  timestamp = int (pos 7);
}

payment_agrees_example :
    (typed_data_to_sign ethers context ≡ build_payment_typed_data ethers context)
    × (signed_headers context (codes "0x51") ≡ build_signed_headers context (codes "0x51"))
payment_agrees_example = payment_agrees ethers context (codes "0x51")
