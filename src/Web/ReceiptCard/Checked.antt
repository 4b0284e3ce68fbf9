-- ===== src/Web/ReceiptCard/Checked.antt =====
-- web/src/components/receipt-card.tsx: what a card says of its receipt.
use micro_ai_paygate.Prelude.{ℕ, zero, suc, Bool, true, false, ◌≡◌, refl, ap, arith, if◌then◌else◌}
use micro_ai_paygate.Js.Json.{Json}
use micro_ai_paygate.Js.Host.{Host, Ethers}
use micro_ai_paygate.Web.VerifyReceipt.{verify_receipt}
use micro_ai_paygate.Web.ReceiptCard.{
  VerifyState, idle, verifying, valid, invalid, Card, has_button, begin_verify, end_verify,
  clicked_verify, clicked_expand, checked, after_event, Reachable, mount, next,
}

-- A state, the checks under way, and what the check of the receipt gives.
abbrev pub IsChecked : VerifyState → ℕ → Bool → Type 0
IsChecked idle waiting verified = waiting ≡ 0
IsChecked verifying waiting verified = waiting ≡ 1
IsChecked valid waiting verified = (waiting ≡ 0) × (verified ≡ true)
IsChecked invalid waiting verified = (waiting ≡ 0) × (verified ≡ false)

clicked-IsChecked :
    (s : VerifyState) (c : Card) (verified : Bool)
    → c.verify_state ≡ s
    → IsChecked s c.waiting verified
    → let c' = if has_button s then begin_verify c else c in
      IsChecked c'.verify_state c'.waiting verified
clicked-IsChecked idle c verified e h = ap suc h
clicked-IsChecked verifying c verified e h = rw e h
clicked-IsChecked valid c verified e h = rw e h
clicked-IsChecked invalid c verified e h = rw e h

result-IsChecked :
    (n : ℕ) (verified : Bool) → n ≡ 0 → IsChecked (if verified then valid else invalid) n verified
result-IsChecked n true h = (h, refl)
result-IsChecked n false h = (h, refl)

-- A check that ends was under way.
one_less : (n : ℕ) (s : VerifyState) (verified : Bool) → IsChecked s (suc n) verified → n ≡ 0
one_less n idle verified h = omega (arith, h)
one_less n verifying verified h = omega (arith, h)
one_less n valid verified h = omega (arith, h.0)
one_less n invalid verified h = omega (arith, h.0)

module _ (host : Host) (ethers : Ethers) (signed : Json) where
  abbrev pub IsRight : Card → Type 0
  IsRight c = IsChecked c.verify_state c.waiting (verify_receipt host ethers signed)

  ended-IsRight :
      (n : ℕ) (c : Card)
      → IsChecked c.verify_state n (verify_receipt host ethers signed)
      → c.waiting ≡ n
      → IsRight (end_verify host ethers signed n c)
  unfolding end_verify
  ended-IsRight zero c h e = rw e h
  ended-IsRight (suc n) c h e =
      result-IsChecked n (verify_receipt host ethers signed) (one_less n c.verify_state _ h)

  -- At every moment of a card, one check of its receipt is under way while it says "Verifying" and
  -- none otherwise, it says "valid" only of a receipt that verifyReceipt accepts, and "invalid" only
  -- of one that it refuses.
  pub Reachable-IsRight : {c : Card} → Reachable host ethers signed c → IsRight c
  unfolding after_event
  Reachable-IsRight mount = refl
  Reachable-IsRight (next clicked_verify {c} r) =
      clicked-IsChecked c.verify_state c _ refl (Reachable-IsRight r)
  Reachable-IsRight (next clicked_expand {c} r) = Reachable-IsRight r
  Reachable-IsRight (next checked {c} r) = ended-IsRight c.waiting c (Reachable-IsRight r) refl
