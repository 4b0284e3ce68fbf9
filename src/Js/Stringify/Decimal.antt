-- ===== src/Js/Stringify/Decimal.antt =====
-- The decimal text of a number, which the code writes into headers, receipts and bodies: the fuel
-- that it is made with is enough.
use micro_ai_paygate.Prelude.{
  ℕ, zero, suc, ◌+◌, ◌*◌, ◌-◌, ◌/◌, ◌%◌, ◌<◌, Text, ◌≡◌, [], ◌∷◌, ltb, Bool-cases, arith, ap, ◌∙◌,
  inl, inr,
}
use micro_ai_paygate.Js.Json.{int, pos}
use micro_ai_paygate.Js.Stringify.{digits_from, decimal, number_text}

-- The number that decimal digits denote after a number.
unfoldable pub decimal_value : ℕ → Text → ℕ
decimal_value n [] = n
decimal_value n (c ∷ s) = decimal_value (n * 10 + (c - 48)) s

decimal_value-digits_from :
    (fuel n : ℕ) (digits : Text)
    → n < fuel
    → decimal_value 0 (digits_from fuel n digits) ≡ decimal_value n digits
unfolding digits_from decimal_value
decimal_value-digits_from zero n digits h = omega arith
decimal_value-digits_from (suc fuel) n digits h = elim (Bool-cases (ltb n 10)) [
  | inl small ↦ rw small (ap (λ m. decimal_value m digits) (omega arith))
  | inr large ↦ rw large (
      decimal_value-digits_from fuel (n / 10) ((48 + n % 10) ∷ digits) (ground arith)
      ∙ ap (λ m. decimal_value m digits) (omega arith))
]

-- The text that the model writes for a natural number, as in the timestamp header of the signed
-- retry, has the decimal digits of that number: none is missing.
pub decimal_value-number_text : (n : ℕ) → decimal_value 0 (number_text (int (pos n))) ≡ n
unfolding number_text decimal decimal_value
decimal_value-number_text n = decimal_value-digits_from (suc n) n [] (omega arith)
