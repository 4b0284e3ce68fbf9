-- ===== src/Web/SmokeTest/Main.antt =====
-- web/scripts/deployed-smoke-test.ts: the function main, and the exit code of the script.
use micro_ai_paygate.Prelude.{
  ℕ, ◌-◌, Text, codes, Bool, true, false, Option, none, some, [], ◌∷◌, ◌++◌, ◌==◌, if◌then◌else◌,
}
use micro_ai_paygate.Js.Json.{Json, int, pos}
use micro_ai_paygate.Js.Exec.{Result, ok, throw, pure, lift, ◌>>=◌, ◌>>◌}
use micro_ai_paygate.Sdk.Types.{PaymentContext, Fault}
use micro_ai_paygate.Web.Errors.{is_truthy}
use micro_ai_paygate.Web.X402Client.{type_error}
use micro_ai_paygate.Web.SmokeTest.{
  Script, Scripted, rec, or_throw, is_present, Setting, timed_fetch, get_challenge, sign_ctx,
  post_signed, is_canonical, check_receipt,
}

module _ (w : Setting) where
  -- `main`, the happy path: the challenge with its signature, and the id of the receipt
  unfoldable pub happy_path : Scripted (PaymentContext × Text × Option Json)
  unfolding get_challenge sign_ctx post_signed is_canonical check_receipt
  happy_path = do
    ctx ← get_challenge w
    rec "recipient is EIP-55 canonical" (is_canonical w ctx.recipient)
    sig ← sign_ctx w ctx
    r ← post_signed w ctx sig
    rec "signed flow returns 200" (r.status == 200)
    rec "X-402-Receipt header present" (is_present (r.header "x-402-receipt"))
    receipt_id ← check_receipt w (r.header "x-402-receipt")
    pure (ctx, sig, receipt_id)

  abbrev pub is_absent : Option Text → Bool
  is_absent none = true
  is_absent (some t) = false

  -- `main`, the negative cases
  unfoldable pub negative_cases : PaymentContext → Text → Scripted Unit
  unfolding get_challenge sign_ctx post_signed
  negative_cases ctx sig = do
    replay ← post_signed w ctx sig
    rec "replay rejected with 409" (replay.status == 409)
    fresh ← get_challenge w
    let expired_ctx = record fresh { timestamp = int (pos (w.now_seconds - 3600)) }
    expired_sig ← sign_ctx w expired_ctx
    expired ← post_signed w expired_ctx expired_sig
    rec "expired timestamp rejected with 400" (expired.status == 400)
    wrong_origin ← timed_fetch w (w.gateway ++ codes "/api/ai/summarize") (record {
      method = codes "OPTIONS";
      headers =
          ("Origin", codes "https://evil.example.com")
          ∷ ("Access-Control-Request-Method", codes "POST")
          ∷ [];
      body = none;
    })
    rec "CORS preflight from wrong origin omits allow-origin"
        (is_absent (wrong_origin.header "access-control-allow-origin"))
    garbage ← timed_fetch w (w.verifier ++ codes "/verify") (record {
      method = codes "POST";
      headers = ("Content-Type", codes "application/json") ∷ [];
      body = some (codes "{\"foo\":\"bar\"}");
    })
    rec "verifier rejects garbage with 400" (garbage.status == 400)

  -- The look-up of the receipt, for its id as a text
  abbrev pub look_up : Result Fault Text → Scripted Unit
  look_up id = do
    text ← lift id
    lookup ←
        timed_fetch w (w.gateway ++ (codes "/api/receipts/" ++ text))
          (record { method = codes "GET"; headers = []; body = none })
    rec "receipt lookup returns 200" (lookup.status == 200)

  abbrev pub id_text : Option Json → Result Fault Text
  id_text none = throw type_error
  id_text (some id) = or_throw (w.to_text id)

  -- `main`, the receipt persistence
  unfoldable pub persistence : Option Json → Scripted Unit
  unfolding is_truthy
  persistence receipt_id =
      if is_truthy receipt_id then look_up (id_text receipt_id) else rec "receipt lookup" false

  -- `main()`, up to its last line
  unfoldable pub main : Scripted Unit
  unfolding happy_path negative_cases persistence
  main = do (ctx, sig, receipt_id) ← happy_path; negative_cases ctx sig; persistence receipt_id

-- `process.exit(failures === 0 ? 0 : 1)`, and `process.exit(2)` where `main` throws
abbrev pub exit_code : Result Fault Unit × Script → ℕ
exit_code (ok u, s) = if s.failures == 0 then 0 else 1
exit_code (throw fault, s) = 2

abbrev pub at_first : Script
at_first = record { calls = []; checks = []; failures = 0 }
