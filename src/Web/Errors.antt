-- ===== src/Web/Errors.antt =====
-- web/src/lib/errors.ts: what the page tells its user about a failure.
--
-- The conversion of a value in a template is a parameter that gives `none` where it throws. A value
-- that was thrown is an object with the three properties that the code reads, texts where they are
-- there, or a value that is no object, given by its `String` conversion.
pub mod Kinds
use micro_ai_paygate.Prelude.{
  ℕ, zero, String, Text, codes, includes, Bool, true, false, not, ◌&&◌, ◌||◌, Option, none, some,
  List, [], ◌∷◌, ◌++◌, length, take, if◌then◌else◌, ◌==◌, leb, ltb, text_eq,
}
use micro_ai_paygate.Js.Json.{
  Json, null, bool, num, str, arr, obj, Number, int, pos, negsuc, nan, prop,
}
use micro_ai_paygate.Js.Host.{Host}

pub data ErrorKind : Type 0 where
  no_wallet wrong_chain user_rejected expired duplicate_nonce : ErrorKind
  invalid_signature rate_limited ai_timeout ai_unavailable : ErrorKind
  verifier_timeout verifier_unavailable network unknown : ErrorKind

pub record ClassifiedError : Type 0 where
  pub kind : ErrorKind
  pub title : String
  pub message : String
  pub detail : Option Text
  pub recoverable : Bool

pub record ErrorContext : Type 0 where
  pub status : Option ℕ
  pub body_text : Option Text

-- `err.code`
pub data Code : Type 0 where
  number : Number → Code
  text : Text → Code

pub data Caught : Type 0 where
  object : Option Text → Option Text → Option Code → Caught
  primitive : Text → Caught

-- A title and a message.
pub record Copy : Type 0 where
  pub title : String
  pub message : String

abbrev says : String → String → Copy
says title message = record { title = title; message = message }

-- `COPY`
unfoldable pub copy : ErrorKind → Copy
copy no_wallet =
    says "No wallet detected" "Install MetaMask, Rabby, or Coinbase Wallet, then refresh this page."
copy wrong_chain =
    says "Wrong network"
      "Your wallet isn't on the expected network. Use the switch button in the wallet widget to fix it."
copy user_rejected =
    says "You cancelled the signature" "No payment was sent. Try again whenever you're ready."
copy expired =
    says "Payment context expired"
      "The signed challenge took too long to return. Retry to get a fresh one."
copy duplicate_nonce =
    says "Signature already used"
      "This payment context was already submitted. Each challenge can only be used once. Retry to get a fresh one."
copy invalid_signature =
    says "Signature was rejected"
      "The verifier didn't accept the signature. Double-check your wallet account hasn't changed mid-flow, then retry."
copy rate_limited = says "Rate limited" "Too many requests recently. Wait a moment and try again."
copy ai_timeout =
    says "AI provider timed out"
      "Payment was verified, but the AI provider didn't respond in time. Your wallet wasn't charged. Retry."
copy ai_unavailable =
    says "AI provider unavailable" "The upstream model is down right now. Try again in a minute."
copy verifier_timeout =
    says "Verifier timed out"
      "The signature verifier didn't respond in time. Your signature wasn't accepted — no payment occurred. Retry."
copy verifier_unavailable =
    says "Verifier unavailable"
      "The signature verifier is down. Your signature wasn't accepted — no payment occurred. Retry in a moment."
copy network = says "Network error" "Couldn't reach the gateway. Check your connection and retry."
copy unknown =
    says "Something broke"
      "An unexpected error happened. Retry — and if it persists, check the console."

-- The truth value of a property.
unfoldable pub is_truthy : Option Json → Bool
is_truthy none = false
is_truthy (some null) = false
is_truthy (some (bool b)) = b
is_truthy (some (num nan)) = false
is_truthy (some (num (int (pos zero)))) = false
is_truthy (some (num n)) = true
is_truthy (some (str [])) = false
is_truthy (some v) = true

-- `raw.length > 200 ? raw.slice(0, 200) + "..." : raw`
unfoldable pub shorten : Text → Text
shorten raw = if ltb 200 (length raw) then take 200 raw ++ codes "..." else raw

abbrev pub bracketed : Text → Text
bracketed code = codes "[" ++ code ++ codes "]"

-- The `try` block of `sanitizeDetail`, for the parsed text: `none` where it does not return.
unfoldable pub error_code : (Json → Option Text) → Json → Option Text
unfolding prop is_truthy
error_code to_text parsed = elim (prop "error" parsed) [
  | some (str (c ∷ code)) ↦
      if is_truthy (prop "correlation_id" parsed)
      then elim (prop "correlation_id" parsed) [
        | none ↦ none
        | some v ↦ elim (to_text v) [
          | none ↦ none
          | some id ↦ some (bracketed (c ∷ code) ++ codes " correlation_id=" ++ id)
        ]
      ]
      else some (bracketed (c ∷ code))
  | v ↦ none
]

-- `kind !== "no-wallet"`
abbrev pub is_recoverable : ErrorKind → Bool
is_recoverable no_wallet = false
is_recoverable kind = true

module _ (host : Host) (to_text : Json → Option Text) where
  -- `sanitizeDetail(raw)`
  unfoldable pub sanitize_detail : Option Text → Option Text
  unfolding error_code shorten
  sanitize_detail none = none
  sanitize_detail (some []) = none
  sanitize_detail (some (c ∷ raw)) = elim (host.parse (c ∷ raw)) [
    | none ↦ some (shorten (c ∷ raw))
    | some parsed ↦ elim (error_code to_text parsed) [
      | some detail ↦ some detail
      | none ↦ some (shorten (c ∷ raw))
    ]
  ]

  -- `build(kind, detail)`
  unfoldable pub build : ErrorKind → Option Text → ClassifiedError
  unfolding copy sanitize_detail
  build kind detail = record {
    kind = kind;
    title = (copy kind).title;
    message = (copy kind).message;
    detail = sanitize_detail detail;
    recoverable = is_recoverable kind;
  }

abbrev pub mentions : Text → String → Bool
mentions s part = includes s (codes part)

-- `statusToKind(status, body)`
unfoldable pub status_to_kind : ℕ → Text → ErrorKind
unfolding includes
status_to_kind status body =
    if status == 400
    then (if mentions body "chain_id_mismatch"
        then wrong_chain
        else if mentions body "invalid_timestamp"
        then expired
        else invalid_signature)
    else if status == 402
    then expired
    else if status == 403
    then invalid_signature
    else if status == 408
    then ai_timeout
    else if status == 504
    then (if mentions body "verifier_timeout" then verifier_timeout else ai_timeout)
    else if status == 409
    then (if mentions body "nonce_already_used" then duplicate_nonce else invalid_signature)
    else if status == 429
    then rate_limited
    else if status == 502
    then (if mentions body "verification_unavailable" then verifier_unavailable else ai_unavailable)
    else if leb 500 status
    then ai_unavailable
    else unknown

abbrev pub any_of : Text → List String → Bool
any_of s [] = false
any_of s (part ∷ parts) = mentions s part || any_of s parts

module _ (host : Host) where
  -- `looksWrongChain(message)`
  unfoldable pub looks_wrong_chain : Text → Bool
  unfolding includes
  looks_wrong_chain message = any_of (host.to_lower_case message) (
      "wrong network" ∷ "wrong chain" ∷ "chain mismatch" ∷ "unsupported chain"
      ∷ "chain not supported" ∷ "incorrect network" ∷ "did not switch to chain" ∷ [])

  -- `code === 4001 || code === "ACTION_REJECTED"`
  abbrev pub is_rejection : Option Code → Bool
  is_rejection (some (number (int (pos n)))) = n == 4001
  is_rejection (some (text s)) = text_eq s (codes "ACTION_REJECTED")
  is_rejection code = false

  -- `looksRejected(message, code)`
  unfoldable pub looks_rejected : Text → Option Code → Bool
  unfolding includes text_eq
  looks_rejected message code =
      is_rejection code
      || any_of (host.to_lower_case message)
          ("user rejected" ∷ "user denied" ∷ "rejected the request" ∷ "action_rejected" ∷ [])

  abbrev pub looks_walletless : Text → Bool
  looks_walletless message =
      any_of (host.to_lower_case message) ("no wallet" ∷ "no crypto wallet" ∷ [])

  abbrev pub looks_offline : Text → Bool
  looks_offline message =
      any_of (host.to_lower_case message) ("failed to fetch" ∷ "networkerror" ∷ [])

abbrev pub or_text : Option Text → Text → Text
or_text none t = t
or_text (some s) t = s

-- `e.shortMessage ?? e.message ?? ""`
abbrev pub message_of : Option Text → Option Text → Text
message_of short_message message = or_text short_message (or_text message [])

module _ (host : Host) (to_text : Json → Option Text) where
  -- `classifyError(err)`, where the context gives no status
  unfoldable pub classify_caught : Caught → ClassifiedError
  unfolding looks_rejected looks_wrong_chain build
  classify_caught (primitive s) = build host to_text unknown (some s)
  classify_caught (object short_message message code) =
      let m = message_of short_message message in
      let kind =
        if looks_rejected host m code
        then user_rejected
        else if looks_wrong_chain host m
        then wrong_chain
        else if looks_walletless host m
        then no_wallet
        else if looks_offline host m
        then network
        else unknown in
      build host to_text kind (some m)

  -- `classifyError(err, ctx)`
  unfoldable pub classify_error : Caught → Option ErrorContext → ClassifiedError
  unfolding classify_caught status_to_kind
  classify_error err none = classify_caught err
  classify_error err (some ctx) = elim ctx.status [
    | none ↦ classify_caught err
    | some status ↦
        if not (status == 0)
        then build host to_text (status_to_kind status (or_text ctx.body_text [])) ctx.body_text
        else classify_caught err
  ]
