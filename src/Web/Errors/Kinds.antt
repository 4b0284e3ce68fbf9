-- ===== src/Web/Errors/Kinds.antt =====
-- web/src/lib/errors.ts: which failures are reported as which kind.
use mathlib.Core.Path.{subst, ◌∙◌}
use micro_ai_paygate.Prelude.{
  ℕ, ◌≤◌, ◌<◌, Text, codes, Bool, true, false, ◌≡◌, ◌≢◌, ◌↔◌, ◌⊎◌, inl, inr, refl, Option, none,
  some, [], ◌∷◌, length, take, length-append, length-take, Bool-cases, Option-cases, arith,
  if◌then◌else◌, ◌==◌, ==_iff, ltb,
}
use micro_ai_paygate.Js.Json.{Json}
use micro_ai_paygate.Js.Host.{Host}
use micro_ai_paygate.Web.Errors.{
  no_wallet, wrong_chain, user_rejected, verifier_timeout, verifier_unavailable, network, unknown,
  ErrorContext, Caught, object, primitive, Code, status_to_kind, mentions, classify_caught,
  classify_error, build, is_recoverable, looks_walletless, looks_rejected, looks_wrong_chain,
  looks_offline, message_of, sanitize_detail, error_code, shorten, or_text,
}

-- The page says that the signature was not accepted for want of a verifier exactly for a response
-- 504 that names the verifier's timeout, and for a 502 that names the verification.
pub status_to_kind-verifier_iff :
    (status : ℕ) (body : Text)
    → ((status_to_kind status body ≡ verifier_timeout)
        ↔ ((status ≡ 504) × (mentions body "verifier_timeout" ≡ true)))
      × ((status_to_kind status body ≡ verifier_unavailable)
          ↔ ((status ≡ 502) × (mentions body "verification_unavailable" ≡ true)))
unfolding status_to_kind
status_to_kind-verifier_iff status body = ground arith

-- A failure is reported as unknown exactly if its status is below 500 and none of those that the
-- gateway documents.
pub status_to_kind-unknown_iff :
    (status : ℕ) (body : Text)
    → (status_to_kind status body ≡ unknown) ↔ (
        (status < 500)
        × (status ≢ 400)
        × (status ≢ 402)
        × (status ≢ 403)
        × (status ≢ 408)
        × (status ≢ 409)
        × (status ≢ 429))
unfolding status_to_kind
status_to_kind-unknown_iff status body = ground arith

status_to_kind-recoverable :
    (status : ℕ) (body : Text) → is_recoverable (status_to_kind status body) ≡ true
unfolding status_to_kind
status_to_kind-recoverable status body = ground arith

-- The status of a context, 0 where there is none.
abbrev pub status_of : Option ErrorContext → ℕ
status_of none = 0
status_of (some ctx) = elim ctx.status [ none ↦ 0 | some status ↦ status ]

kind-recoverable :
    (rejected wrong offline : Bool)
    → is_recoverable (
        if rejected
        then user_rejected
        else if wrong
        then wrong_chain
        else if false
        then no_wallet
        else if offline
        then network
        else unknown)
      ≡ true
kind-recoverable rejected wrong offline = ground arith

some-injective : {A : Type 0} {a b : A} → some a ≡ some b → a ≡ b
some-injective h = cc

module _ (host : Host) (to_text : Json → Option Text) where
  -- An object whose message says that there is no wallet.
  abbrev pub IsWalletless : Caught → Type 0
  IsWalletless err =
      (short_message message : Option Text) × (code : Option Code) × (err
        ≡ object short_message message code)
      × (looks_walletless host (message_of short_message message) ≡ true)

  classify_caught-final :
      (err : Caught) → (classify_caught host to_text err).recoverable ≡ false → IsWalletless err
  unfolding classify_caught build
  classify_caught-final (primitive s) h = cc
  classify_caught-final (object short_message message code) h =
      elim (Bool-cases (looks_walletless host (message_of short_message message))) [
        | inl walletless ↦ (short_message, message, code, refl, walletless)
        | inr other ↦
            let m = message_of short_message message in
            cc (
              kind-recoverable (looks_rejected host m code) (looks_wrong_chain host m)
                  (looks_offline host m),
              rw other at h,
            )
      ]

-- The user is told that there is no use in trying again only where no HTTP status is known and the
-- message of the thrown object says that there is no wallet.
pub classify_error-final :
    (host : Host) (to_text : Json → Option Text) (err : Caught) (ctx : Option ErrorContext)
    → (classify_error host to_text err ctx).recoverable ≡ false
    → (status_of ctx ≡ 0) × IsWalletless host to_text err
unfolding classify_error build
classify_error-final host to_text err none h = (refl, classify_caught-final host to_text err h)
classify_error-final host to_text err (some ctx) h = elim (Option-cases ctx.status) [
  | inl unset ↦ rw unset (refl, classify_caught-final host to_text err (rw unset at h))
  | inr (status, set) ↦ rw set (elim (Bool-cases (status == 0)) [
    | inl zero_status ↦ (
      (==_iff status 0).0 zero_status,
      classify_caught-final host to_text err (rw (set, zero_status) at h),
    )
    | inr answered ↦
        cc (status_to_kind-recoverable status (or_text ctx.body_text []), rw (set, answered) at h)
  ])
]

shorten-bound : (raw : Text) → length (shorten raw) ≤ 203
unfolding shorten
shorten-bound raw = elim (Bool-cases (ltb 200 (length raw))) [
  | inl long ↦
      rw long (omega (arith, length-append (take 200 raw) (codes "..."), length-take 200 raw))
  | inr short ↦ rw short (ground arith)
]

-- A detail that the page shows has at most 203 code units, unless the response was JSON with an
-- error code, which is shown whole.
pub sanitize_detail-bound :
    (host : Host) (to_text : Json → Option Text) (raw : Option Text) (detail : Text)
    → sanitize_detail host to_text raw ≡ some detail
    → (length detail ≤ 203)
      ⊎ ((body : Text) × (parsed : Json) × (raw ≡ some body)
          × (host.parse body ≡ some parsed)
          × (error_code to_text parsed ≡ some detail))
unfolding sanitize_detail
sanitize_detail-bound host to_text none detail h = cc
sanitize_detail-bound host to_text (some []) detail h = cc
sanitize_detail-bound host to_text (some (c ∷ raw)) detail h =
    elim (Option-cases (host.parse (c ∷ raw))) [
      | inl bad ↦ inl (shortened (some-injective (rw (bad, sanitize_detail) at h)))
      | inr (parsed, parses) ↦ elim (Option-cases (error_code to_text parsed)) [
        | inl plain ↦ inl (shortened (some-injective (rw (parses, plain, sanitize_detail) at h)))
        | inr (code, coded) ↦
            inr (c ∷ raw, parsed, refl, parses, coded ∙ (rw (parses, coded, sanitize_detail) at h))
      ]
    ]
  where
    shortened : shorten (c ∷ raw) ≡ detail → length detail ≤ 203
    shortened e = subst (λ d. length d ≤ 203) e (shorten-bound (c ∷ raw))
