-- ===== src/Sdk/Client/Refusals.antt =====
-- sdk/typescript/src/client.ts: the texts that the checks of a receipt could not hash.
use mathlib.Core.Path.{ap, ◌∙◌}
use micro_ai_paygate.Prelude.{
  Text, codes, sym, Option, none, some, ◌≡◌, ◌≢◌, ◌⊎◌, true, false, Bool, inl, inr, refl,
  Option-cases, text_eq,
}
use micro_ai_paygate.Js.Exec.{Result, ok, throw}
use micro_ai_paygate.Js.Ends.{Result-cases}
use micro_ai_paygate.Js.Host.{Host, Ethers}
use micro_ai_paygate.Sdk.Types.{SignedReceipt, Thrown, foreign}
use micro_ai_paygate.Sdk.Client.Receipt.{
  ReceiptContext, hash_body, hash_matches, and_then, receipt_matches_payload,
}

pub throw-injective : {E A : Type 0} {a b : E} → ◌≡◌ {A = Result E A} (throw a) (throw b) → a ≡ b
throw-injective h = cc

ok-ne-throw : {E A : Type 0} {a : A} {e : E} → ◌≢◌ {A = Result E A} (ok a) (throw e)
ok-ne-throw h = cc

pub same_throw :
    {E A B : Type 0} {r : Result E A} {a b : E}
    → r ≡ throw a
    → ◌≡◌ {A = Result E B} (throw a) (throw b)
    → r ≡ throw b
same_throw p q = p ∙ ap throw (throw-injective q)

and_then-eq_throw :
    (host : Host) (ethers : Ethers) (a b : Result Thrown Bool) (e : Thrown)
    → and_then host ethers a b ≡ throw e
    → (a ≡ throw e) ⊎ (b ≡ throw e)
and_then-eq_throw host ethers (ok true) b e h = inr h
and_then-eq_throw host ethers (ok false) b e h = cc
and_then-eq_throw host ethers (throw error) b e h = inl h

module _ (ethers : Ethers) where
  -- Ethers refuses to turn a text into bytes, with its error.
  abbrev pub IsRefused : Thrown → Option Text → Type 0
  IsRefused e text =
      (t : Text) × (text ≡ some t)
      × (ethers.to_utf8_bytes t ≡ none)
      × (e ≡ foreign (record { message = codes "invalid codepoint" }))

  hash_body-IsRefused :
      (host : Host) (text : Option Text) (e : Thrown)
      → hash_body host ethers text ≡ throw e
      → IsRefused e text
  unfolding hash_body
  hash_body-IsRefused host none e h = cc
  hash_body-IsRefused host (some text) e h = elim (Option-cases (ethers.to_utf8_bytes text)) [
    | inl bad ↦
        let raised : ◌≡◌ {A = Result Thrown Text}
            (throw (foreign (record { message = codes "invalid codepoint" }))) (throw e) =
          rw (bad, hash_body) at h in
        (text, refl, bad, sym (throw-injective raised))
    | inr (bytes, good) ↦ cc (rw (good, hash_body) at h)
  ]

  hash_matches-IsRefused :
      (host : Host) (hash : Text) (text : Option Text) (e : Thrown)
      → hash_matches host ethers hash text ≡ throw e
      → IsRefused e text
  unfolding hash_matches
  hash_matches-IsRefused host hash text e h = elim (Result-cases (hash_body host ethers text)) [
    | inl (expected, good) ↦ cc (rw (good, hash_matches) at h)
    | inr (error, bad) ↦
        hash_body-IsRefused host text e (same_throw bad (rw (bad, hash_matches) at h))
  ]

  pub receipt_matches_payload-IsRefused :
      (host : Host) (signed : SignedReceipt) (context : ReceiptContext) (text : Text) (e : Thrown)
      → receipt_matches_payload host ethers signed context text ≡ throw e
      → IsRefused e context.request_body_text ⊎ IsRefused e (some text)
  unfolding receipt_matches_payload
  receipt_matches_payload-IsRefused host signed context text e h =
      let service = signed.receipt.service in
      let requested = hash_matches host ethers service.request_hash context.request_body_text in
      let responded = hash_matches host ethers service.response_hash (some text) in
      elim (and_then-eq_throw host ethers (ok (text_eq service.endpoint context.endpoint))
        (and_then host ethers requested responded) e h) [
          | inl first ↦ absurd (ok-ne-throw first)
          | inr later ↦ elim (and_then-eq_throw host ethers requested responded e later) [
            | inl bad ↦
                inl
                  (hash_matches-IsRefused host service.request_hash context.request_body_text e bad)
            | inr bad ↦ inr (hash_matches-IsRefused host service.response_hash (some text) e bad)
          ]
        ]
