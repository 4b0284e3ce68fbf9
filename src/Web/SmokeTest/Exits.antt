-- ===== src/Web/SmokeTest/Exits.antt =====
-- web/scripts/deployed-smoke-test.ts: what the exit code of the script says.
use micro_ai_paygate.Prelude.{
  ℕ, ◌+◌, ◌-◌, String, Text, Bool, true, false, ◌≡◌, ◌≢◌, ◌↔◌, refl, ap, ◌∙◌, Option, none, some,
  List, [], ◌∷◌, ◌==◌, if◌then◌else◌, arith, ==_iff, ==-false, Bool-cases, inl, inr,
}
use micro_ai_paygate.Js.Json.{Json, int, pos}
use micro_ai_paygate.Js.Exec.{Result, ok, throw, pure, lift, ◌>>=◌}
use micro_ai_paygate.Js.Ends.{Ends, Ends-ok, Ends-lift, Ends-bind, Ends-eq_ok}
use micro_ai_paygate.Sdk.Types.{PaymentContext, RequestInit, Fault}
use micro_ai_paygate.Web.Errors.{is_truthy}
use micro_ai_paygate.Web.X402Client.{optional}
use micro_ai_paygate.Web.SmokeTest.{
  Script, Scripted, rec, is_present, Setting, timed_fetch, get_challenge, sign_ctx, post_signed,
  check_receipt, context_of, decode, is_payer,
}
use micro_ai_paygate.Web.SmokeTest.Main.{
  happy_path, negative_cases, look_up, id_text, persistence, main, exit_code, at_first,
}

abbrev pub Checks : Type 0
Checks = List (String × Bool)

-- How many checks failed.
abbrev pub failed : Checks → ℕ
failed [] = 0
failed ((label, passed) ∷ checks) = (if passed then 0 else 1) + failed checks

-- The checks that the script makes, newest first, all of them passed.
abbrev pub all_passed : Checks
all_passed =
    ("receipt lookup returns 200", true)
    ∷ ("verifier rejects garbage with 400", true)
    ∷ ("CORS preflight from wrong origin omits allow-origin", true)
    ∷ ("expired timestamp rejected with 400", true)
    ∷ ("replay rejected with 409", true)
    ∷ ("receipt.payment.payer matches signer", true)
    ∷ ("receipt has id + signature", true)
    ∷ ("X-402-Receipt header present", true)
    ∷ ("signed flow returns 200", true)
    ∷ ("recipient is EIP-55 canonical", true)
    ∷ []

-- The count is that of the failed checks, and where there are none the checks are these.
record Passing (checks : Checks) (s : Script) : Type 0 where
  counted : s.failures ≡ failed s.checks
  passing : s.failures ≡ 0 → s.checks ≡ checks

-- What a part of the script that checks nothing keeps.
abbrev Quiet : {A : Type 0} → Scripted A → Type 0
Quiet m =
    (checks : Checks) (s : Script)
    → Passing checks s
    → Ends (λ a s'. Passing checks s') (λ e s'. Unit {0}) (m s)

called :
    (checks : Checks) (s : Script) (calls : _)
    → Passing checks s
    → Passing checks (record s { calls = calls })
called checks s calls h = record { counted = h.counted; passing = h.passing }

lift-Quiet : {A : Type 0} (r : Result Fault A) → Quiet (lift r)
lift-Quiet r checks s h = Ends-lift r s (λ a e. h) (λ e p. tt)

bind-Quiet :
    {A B : Type 0} (m : Scripted A) (f : A → Scripted B)
    → Quiet m
    → ((a : A) → Quiet (f a))
    → Quiet (m >>= f)
bind-Quiet m f first rest checks s h =
    Ends-bind m f s (first checks s h) (λ a s' h'. rest a checks s' h')

pure-Quiet : {A : Type 0} (a : A) → Quiet (pure a)
pure-Quiet a checks s h = Ends-ok a s h

-- A check that is made.
rec-Passing :
    (checks : Checks) (label : String) (passed : Bool) (s : Script)
    → Passing checks s
    → Passing ((label, true) ∷ checks) (rec label passed s).1
rec-Passing checks label true s h = record {
  counted = omega (arith, h.counted);
  passing = λ e. ap (λ cs. (label, true) ∷ cs) (h.passing e);
}
rec-Passing checks label false s h = record {
  counted = omega (arith, h.counted);
  passing = λ e. absurd (omega (arith, e));
}

rec-failed :
    (label : String) (passed : Bool) (s : Script)
    → passed ≡ false
    → (rec label passed s).1.failures ≢ 0
rec-failed label true s e z = cc
rec-failed label false s e z = omega (arith, z)

module _ (w : Setting) where
  timed_fetch-Quiet : (url : Text) (init : RequestInit) → Quiet (timed_fetch w url init)
  timed_fetch-Quiet url init checks s h =
      Ends-lift (w.fetch s.calls url init) _ (λ a e. called checks s _ h) (λ e p. tt)

  sign_ctx-Quiet : (ctx : PaymentContext) → Quiet (sign_ctx w ctx)
  unfolding sign_ctx
  sign_ctx-Quiet ctx checks s h =
      Ends-lift (w.sign s.calls _) _ (λ a e. called checks s _ h) (λ e p. tt)

  get_challenge-Quiet : Quiet (get_challenge w)
  unfolding get_challenge
  get_challenge-Quiet =
      bind-Quiet (timed_fetch w _ _) _ (timed_fetch-Quiet _ _)
        (λ r. lift-Quiet (context_of w r.text))

  post_signed-Quiet : (ctx : PaymentContext) (sig : Text) → Quiet (post_signed w ctx sig)
  unfolding post_signed
  post_signed-Quiet ctx sig =
      bind-Quiet (timed_fetch w _ _) _ (timed_fetch-Quiet _ _)
        (λ r. bind-Quiet (lift r.text) _ (lift-Quiet r.text) (λ body. pure-Quiet r))

  -- Where a check has failed, nothing is said of the others.
  vacuous :
      (checks checks' : Checks) (s : Script) → Passing checks s → s.failures ≢ 0 → Passing checks' s
  vacuous checks checks' s h bad = record { counted = h.counted; passing = λ e. absurd (bad e) }

  abbrev with_receipt : Checks → Checks
  with_receipt checks =
      ("receipt.payment.payer matches signer", true) ∷ ("receipt has id + signature", true) ∷ checks

  check_receipt-Passing :
      (header : Option Text) (checks : Checks) (s : Script)
      → Passing checks s
      → (is_present header ≡ false → s.failures ≢ 0)
      → Ends
          (λ id s'. Passing (with_receipt checks) s')
          (λ e s'. Unit {0})
          (check_receipt w header s)
  unfolding check_receipt
  check_receipt-Passing none checks s h bad =
      Ends-ok none s (vacuous checks (with_receipt checks) s h (bad refl))
  check_receipt-Passing (some []) checks s h bad =
      Ends-ok none s (vacuous checks (with_receipt checks) s h (bad refl))
  check_receipt-Passing (some (c ∷ header)) checks s h bad =
      Ends-bind (lift (decode w (c ∷ header))) _ s (lift-Quiet _ checks s h) (λ decoded s1 h1.
        let r : Option Json = optional "receipt" (some decoded) in
        let payer : Result Fault Bool = is_payer w (optional "payer" (optional "payment" r)) in
        Ends-bind (lift payer) _ _ (lift-Quiet payer _ _ (rec-Passing checks _ _ s1 h1))
          (λ same s2 h2. Ends-ok _ _ (rec-Passing _ _ same s2 h2)))

  abbrev happy_checks : Checks
  happy_checks = with_receipt (
      ("X-402-Receipt header present", true)
      ∷ ("signed flow returns 200", true)
      ∷ ("recipient is EIP-55 canonical", true)
      ∷ [])

  happy_path-Passing :
      (s : Script)
      → Passing [] s
      → Ends (λ found s'. Passing happy_checks s') (λ e s'. Unit {0}) (happy_path w s)
  unfolding happy_path
  happy_path-Passing s h =
      Ends-bind (get_challenge w) _ s (get_challenge-Quiet [] s h) (λ ctx s1 h1.
        Ends-bind (sign_ctx w ctx) _ _ (sign_ctx-Quiet ctx _ _ (rec-Passing [] _ _ s1 h1))
          (λ sig s2 h2.
            Ends-bind (post_signed w ctx sig) _ s2 (post_signed-Quiet ctx sig _ s2 h2) (λ r s3 h3.
              let header : Option Text = r.header "x-402-receipt" in
              Ends-bind (check_receipt w header) _ _
                (check_receipt-Passing header _ _ (rec-Passing _ _ _ _ (rec-Passing _ _ _ s3 h3)) (
                  rec-failed "X-402-Receipt header present" (is_present header)
                    (rec "signed flow returns 200" (r.status == 200) s3).1))
                (λ id s4 h4. Ends-ok _ s4 h4))))

  abbrev negative_checks : Checks → Checks
  negative_checks checks =
      ("verifier rejects garbage with 400", true)
      ∷ ("CORS preflight from wrong origin omits allow-origin", true)
      ∷ ("expired timestamp rejected with 400", true)
      ∷ ("replay rejected with 409", true)
      ∷ checks

  negative_cases-Passing :
      (ctx : PaymentContext) (sig : Text) (checks : Checks) (s : Script)
      → Passing checks s
      → Ends
          (λ u s'. Passing (negative_checks checks) s')
          (λ e s'. Unit {0})
          (negative_cases w ctx sig s)
  unfolding negative_cases
  negative_cases-Passing ctx sig checks s h =
      Ends-bind (post_signed w ctx sig) _ s (post_signed-Quiet ctx sig checks s h) (λ replay s1 h1.
        Ends-bind (get_challenge w) _ _ (get_challenge-Quiet _ _ (rec-Passing checks _ _ s1 h1))
          (λ fresh s2 h2.
            let late : PaymentContext = record fresh {
              timestamp = int (pos (w.now_seconds - 3600));
            } in
            Ends-bind (sign_ctx w late) _ s2 (sign_ctx-Quiet late _ s2 h2) (λ late_sig s3 h3.
              Ends-bind (post_signed w late late_sig) _ s3 (post_signed-Quiet late late_sig _ s3 h3)
                (λ expired s4 h4.
                  Ends-bind (timed_fetch w _ _) _ _
                    (timed_fetch-Quiet _ _ _ _ (rec-Passing _ _ _ s4 h4))
                    (λ wrong s5 h5.
                      Ends-bind (timed_fetch w _ _) _ _
                        (timed_fetch-Quiet _ _ _ _ (rec-Passing _ _ _ s5 h5))
                        (λ garbage s6 h6. Ends-ok _ _ (rec-Passing _ _ _ s6 h6)))))))

  look_up-Passing :
      (id : Result Fault Text) (checks : Checks) (s : Script)
      → Passing checks s
      → Ends
          (λ u s'. Passing (("receipt lookup returns 200", true) ∷ checks) s')
          (λ e s'. Unit {0})
          (look_up w id s)
  look_up-Passing id checks s h = Ends-bind (lift id) _ s (lift-Quiet id checks s h) (λ text s1 h1.
      Ends-bind (timed_fetch w _ _) _ s1 (timed_fetch-Quiet _ _ checks s1 h1)
        (λ lookup s2 h2. Ends-ok _ _ (rec-Passing checks _ _ s2 h2)))

  persistence-Passing :
      (id : Option Json) (checks : Checks) (s : Script)
      → Passing checks s
      → Ends
          (λ u s'. Passing (("receipt lookup returns 200", true) ∷ checks) s')
          (λ e s'. Unit {0})
          (persistence w id s)
  unfolding persistence
  persistence-Passing id checks s h = elim (Bool-cases (is_truthy id)) [
    | inl e ↦ rw e (look_up-Passing (id_text w id) checks s h)
    | inr e ↦ rw e (
        Ends-ok tt _ (
          vacuous _ _ _ (rec-Passing checks "receipt lookup" false s h)
            (rec-failed "receipt lookup" false s refl)))
  ]

  main-Passing : Ends (λ u s'. Passing all_passed s') (λ e s'. Unit {0}) (main w at_first)
  unfolding main
  main-Passing =
      Ends-bind (happy_path w) _ at_first
        (happy_path-Passing at_first (record { counted = refl; passing = λ e. refl }))
        (λ found s1 h1.
          Ends-bind (negative_cases w found.0 found.1) _ s1
            (negative_cases-Passing found.0 found.1 happy_checks s1 h1)
            (λ u s2 h2. persistence-Passing found.2 _ s2 h2))

exits :
    (end : Result Fault Unit × Script)
    → Ends (λ u s'. Passing all_passed s') (λ e s'. Unit {0}) end
    → (exit_code end ≡ 0) ↔ ((end.0 ≡ ok tt) × (end.1.checks ≡ all_passed))
exits (ok u, s) h =
    let end : Passing all_passed s = Ends-eq_ok (ok u, s) u h refl in
    elim (Bool-cases (s.failures == 0)) [
      | inl e ↦ rw e (λ z. (refl, end.passing ((==_iff s.failures 0).0 e)), λ p. refl)
      | inr e ↦ rw e (
        λ z. absurd (omega (arith, z)),
        λ p. absurd (==-false s.failures 0 e (end.counted ∙ ap failed p.1)),
      )
    ]
exits (throw fault, s) h = (λ z. absurd (omega (arith, z)), λ p. cc)

-- The script exits with 0 exactly if it came to its end and made each of its ten checks, and all
-- passed, whatever the services and the wallet answer: no check is passed over.
pub exit_code-zero_iff :
    (w : Setting)
    → (exit_code (main w at_first) ≡ 0)
      ↔ (((main w at_first).0 ≡ ok tt) × ((main w at_first).1.checks ≡ all_passed))
exit_code-zero_iff w = exits (main w at_first) (main-Passing w)
