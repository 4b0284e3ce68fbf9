-- ===== src/Web/ReceiptVerification/Shown.antt =====
-- web/src/components/output-card.tsx: what the page shows of the verification of a receipt, over
-- every order of receipts and verifications.
use mathlib.Core.Path.{subst}
use micro_ai_paygate.Prelude.{
  ℕ, suc, ◌≡◌, ◌⊎◌, inl, inr, refl, ap, sym, ◌∙◌, Text, text_eq_iff, text_eq_refl, Bool, true,
  false, Option, none, some, ◌==◌, ==_iff, Bool-cases, arith, put,
}
use micro_ai_paygate.Js.Json.{Json}
use micro_ai_paygate.Js.Host.{Host, Ethers}
use micro_ai_paygate.Web.VerifyReceipt.{verify_receipt}
use micro_ai_paygate.Web.ReceiptVerification.{
  ReceiptVerifyState, missing, verifying, valid, invalid, receipt_key, get_receipt_verification_key,
  Hook, given, ended, outcome, settle, same_key, shown, use_receipt_verification, gave, finished,
  after_event, Reachable, start, next,
}

-- The result is `valid` only for a receipt that was verified; a receipt that is given is under
-- verification by the last effect, or has the result.
pub record IsSound (host : Host) (ethers : Ethers) (h : Hook) : Type 0 where
  pub verified :
      h.result_state ≡ valid
      → (receipt : Json) × (h.result_key ≡ some (receipt_key receipt))
        × (verify_receipt host ethers receipt ≡ true)
  pub result : (h.result_state ≡ valid) ⊎ (h.result_state ≡ invalid)
  pub waits :
      (receipt : Json)
      → h.receipt ≡ some receipt
      → (h.under_way h.last_effect ≡ some receipt) ⊎ (h.result_key ≡ some (receipt_key receipt))
  pub last : (receipt : Json) → h.under_way h.last_effect ≡ some receipt → h.receipt ≡ some receipt

module _ (host : Host) (ethers : Ethers) where
  given-IsSound :
      (receipt : Option Json) (h : Hook)
      → IsSound host ethers h
      → IsSound host ethers (given receipt h)
  unfolding given
  given-IsSound receipt h s =
      let here : put h.under_way (suc h.last_effect) receipt (suc h.last_effect) ≡ receipt =
        ground arith in
      record {
        verified = s.verified;
        result = s.result;
        waits = λ r it. inl (here ∙ it);
        last = λ r it. sym here ∙ it;
      }

  outcome-valid :
      (threw : Bool) (receipt : Json)
      → outcome host ethers threw receipt ≡ valid
      → verify_receipt host ethers receipt ≡ true
  unfolding outcome
  outcome-valid true receipt h = cc
  outcome-valid false receipt h = elim (Bool-cases (verify_receipt host ethers receipt)) [
    | inl fine ↦ fine
    | inr bad ↦ cc (rw bad at h)
  ]

  outcome-cases :
      (threw : Bool) (receipt : Json)
      → (outcome host ethers threw receipt ≡ valid) ⊎ (outcome host ethers threw receipt ≡ invalid)
  unfolding outcome
  outcome-cases true receipt = inr refl
  outcome-cases false receipt = elim (Bool-cases (verify_receipt host ethers receipt)) [
    | inl fine ↦ inl (rw fine refl)
    | inr bad ↦ inr (rw bad refl)
  ]

  -- A verification of the last effect.
  current-IsSound :
      (threw : Bool) (receipt : Json) (h : Hook)
      → IsSound host ethers h
      → h.under_way h.last_effect ≡ some receipt
      → IsSound host ethers (record (ended h.last_effect h) {
        result_key = some (receipt_key receipt);
        result_state = outcome host ethers threw receipt;
      })
  current-IsSound threw receipt h s it =
      let here : put h.under_way h.last_effect none h.last_effect ≡ none = ground arith in
      record {
        verified = λ it'. (receipt, refl, outcome-valid threw receipt it');
        result = outcome-cases threw receipt;
        waits = λ r given.
            let same : some receipt ≡ some r = sym (s.last receipt it) ∙ given in
            inr (ap (λ o. elim o [ none ↦ none | some v ↦ some (receipt_key v) ]) same);
        last = λ r on. cc;
      }

  -- A cancelled one changes only what is under way.
  cancelled-IsSound :
      (effect : ℕ) (h : Hook)
      → (effect == h.last_effect) ≡ false
      → IsSound host ethers h
      → IsSound host ethers (ended effect h)
  cancelled-IsSound effect h past s =
      let here : put h.under_way effect none h.last_effect ≡ h.under_way h.last_effect =
        ground arith in
      record {
        verified = s.verified;
        result = s.result;
        waits = λ r it. elim (s.waits r it) [ inl on ↦ inl (here ∙ on) | inr had ↦ inr had ];
        last = λ r on. s.last r (sym here ∙ on);
      }

  settle-IsSound :
      (threw : Bool) (effect : ℕ) (pending : Option Json) (h : Hook)
      → h.under_way effect ≡ pending
      → IsSound host ethers h
      → IsSound host ethers (settle host ethers threw effect pending h)
  unfolding settle
  settle-IsSound threw effect none h it s = s
  settle-IsSound threw effect (some receipt) h it s = elim (Bool-cases (effect == h.last_effect)) [
    | inl now ↦
        let number : effect ≡ h.last_effect = (==_iff effect h.last_effect).0 now in
        rw now (
          subst
            (λ n. IsSound host ethers (record (ended n h) {
              result_key = some (receipt_key receipt);
              result_state = outcome host ethers threw receipt;
            }))
            (sym number) (current-IsSound threw receipt h s (ap h.under_way (sym number) ∙ it)))
    | inr past ↦ rw past (cancelled-IsSound effect h past s)
  ]

  Reachable-IsSound : {h : Hook} → Reachable host ethers h → IsSound host ethers h
  unfolding after_event
  Reachable-IsSound start = record {
    verified = λ it. cc;
    result = inr refl;
    waits = λ r it. cc;
    last = λ r it. cc;
  }
  Reachable-IsSound (next (gave receipt) {h} r) = given-IsSound receipt h (Reachable-IsSound r)
  Reachable-IsSound (next (finished threw effect) {h} r) =
      settle-IsSound threw effect (h.under_way effect) h refl (Reachable-IsSound r)

-- What the page may show of a receipt.
abbrev pub IsShown : Host → Ethers → Hook → ReceiptVerifyState → Type 0
IsShown host ethers h missing = h.receipt ≡ none
IsShown host ethers h verifying =
    (receipt : Json) × (h.receipt ≡ some receipt) × (h.under_way h.last_effect ≡ some receipt)
IsShown host ethers h valid =
    (receipt : Json) × (h.receipt ≡ some receipt)
    × ((other : Json) × (receipt_key other ≡ receipt_key receipt)
        × (verify_receipt host ethers other ≡ true))
IsShown host ethers h invalid =
    (receipt : Json) × (h.receipt ≡ some receipt) × (h.result_key ≡ some (receipt_key receipt))

same_key-eq_true : (a : Option Text) (b : Text) → same_key a (some b) ≡ true → a ≡ some b
same_key-eq_true none b h = cc
same_key-eq_true (some a) b h = ap some ((text_eq_iff a b).0 h)

same_key_refl : (a : Text) → same_key (some a) (some a) ≡ true
same_key_refl a = text_eq_refl a

key_injective : (a b : Text) → ◌≡◌ {A = Option Text} (some a) (some b) → a ≡ b
key_injective a b h = cc

module _ (host : Host) (ethers : Ethers) where
  result-IsShown :
      (receipt : Json) (h : Hook)
      → IsSound host ethers h
      → h.receipt ≡ some receipt
      → h.result_key ≡ some (receipt_key receipt)
      → IsShown host ethers h h.result_state
  result-IsShown receipt h s it key = elim s.result [
    | inl fine ↦
        let (other, had, verified) = s.verified fine in
        subst (IsShown host ethers h) (sym fine)
          (receipt, it, (other, key_injective _ _ (sym had ∙ key), verified))
    | inr bad ↦ subst (IsShown host ethers h) (sym bad) (receipt, it, key)
  ]

  shown-IsShown :
      (receipt : Option Json) (h : Hook)
      → IsSound host ethers h
      → h.receipt ≡ receipt
      → IsShown host ethers h (shown receipt h.result_key h.result_state)
  unfolding shown get_receipt_verification_key
  shown-IsShown none h s it = it
  shown-IsShown (some receipt) h s it =
      elim (Bool-cases (same_key h.result_key (some (receipt_key receipt)))) [
        | inl same ↦ rw same (result-IsShown receipt h s it (same_key-eq_true _ _ same))
        | inr other ↦ rw other (elim (s.waits receipt it) [
          | inl on ↦ (receipt, it, on)
          | inr key ↦ cc (
            ap (λ k. same_key k (some (receipt_key receipt))) key,
            same_key_refl (receipt_key receipt),
          )
        ])
      ]

  -- In every order of receipts and verifications, each of which may throw: where the hook says that
  -- a receipt is missing, there is none; where it says that one is being verified, the verification
  -- of that receipt has not ended; where it says that one is valid, `verifyReceipt` has accepted a
  -- receipt with the same key; where it says invalid, a verification for that key has ended.
  pub Reachable-IsShown :
      {h : Hook} → Reachable host ethers h → IsShown host ethers h (use_receipt_verification h)
  unfolding use_receipt_verification
  Reachable-IsShown {h} r = shown-IsShown h.receipt h (Reachable-IsSound host ethers r) refl
