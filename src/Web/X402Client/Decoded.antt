-- ===== src/Web/X402Client/Decoded.antt =====
-- web/src/lib/x402-client.ts: a receipt that is kept has the id under which it is stored.
use micro_ai_paygate.Prelude.{
  Text, codes, starts_with, Bool, true, false, ◌≡◌, refl, Option, none, some, inl, inr, Bool-cases,
  Option-cases, ap, sym, ◌∙◌,
}
use micro_ai_paygate.Js.Json.{Json, null, bool, num, str, arr, obj}
use micro_ai_paygate.Js.Exec.{Result, ok, throw}
use micro_ai_paygate.Js.Host.{Host}
use micro_ai_paygate.Sdk.Types.{Fault}
use micro_ai_paygate.Web.Errors.{is_truthy}
use micro_ai_paygate.Web.X402Client.{
  optional, optional_starts_with, and_also, validate_receipt_format, decode, accepted,
  safe_decode_receipt_header,
}

and_also-eq_true :
    (a b : Result Fault Bool) → and_also a b ≡ ok true → (a ≡ ok true) × (b ≡ ok true)
and_also-eq_true (ok true) b h = (refl, h)
and_also-eq_true (ok false) b h = cc
and_also-eq_true (throw fault) b h = cc

ok-injective : {E A : Type 0} {a b : A} → ◌≡◌ {A = Result E A} (ok a) (ok b) → a ≡ b
ok-injective h = cc

optional_starts_with-eq_true :
    (v : Option Json) (prefix : Text)
    → optional_starts_with v prefix ≡ ok true
    → (s : Text) × (v ≡ some (str s)) × (starts_with s prefix ≡ true)
unfolding optional_starts_with
optional_starts_with-eq_true none prefix h = cc
optional_starts_with-eq_true (some null) prefix h = cc
optional_starts_with-eq_true (some (str s)) prefix h = (s, refl, ok-injective h)
optional_starts_with-eq_true (some (bool b)) prefix h = cc
optional_starts_with-eq_true (some (num n)) prefix h = cc
optional_starts_with-eq_true (some (arr xs)) prefix h = cc
optional_starts_with-eq_true (some (obj fs)) prefix h = cc

validate_receipt_format-id :
    (v : Json)
    → validate_receipt_format v ≡ ok true
    → optional_starts_with (optional "id" (optional "receipt" (some v))) (codes "rcpt_") ≡ ok true
unfolding validate_receipt_format
validate_receipt_format-id v h = elim (Bool-cases (is_truthy (optional "receipt" (some v)))) [
  | inl there ↦ (and_also-eq_true _ _ (rw there at h)).0
  | inr missing ↦ cc (rw missing at h)
]

accepted-eq_some :
    (host : Host) (atob : Text → Option Text) (v w : Json) (r : Result Fault Bool)
    → accepted host atob v r ≡ some w
    → (v ≡ w) × (r ≡ ok true)
accepted-eq_some host atob v w (ok true) h = (cc, refl)
accepted-eq_some host atob v w (ok false) h = cc
accepted-eq_some host atob v w (throw fault) h = cc

-- A receipt that is decoded from a header has a text with the prefix `rcpt_` at `receipt.id`, by
-- which it is stored.
pub safe_decode_receipt_header-id :
    (host : Host) (atob : Text → Option Text) (b64 : Text) (v : Json)
    → safe_decode_receipt_header host atob b64 ≡ some v
    → (id : Text) × (optional "id" (optional "receipt" (some v)) ≡ some (str id))
      × (starts_with id (codes "rcpt_") ≡ true)
unfolding safe_decode_receipt_header
safe_decode_receipt_header-id host atob b64 v h = elim (Option-cases (decode host atob b64)) [
  | inl bad ↦ cc (rw (bad, safe_decode_receipt_header) at h)
  | inr (w, decoded) ↦
      let (same, fine) =
        accepted-eq_some host atob w v _ (rw (decoded, safe_decode_receipt_header) at h) in
      optional_starts_with-eq_true _ _
        (validate_receipt_format-id v (ap validate_receipt_format (sym same) ∙ fine))
]
