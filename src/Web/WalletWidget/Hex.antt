-- ===== src/Web/WalletWidget/Hex.antt =====
-- web/src/lib/wallet.ts and web/src/components/wallet-widget.tsx: the text of a chain id that the
-- wallet is sent, and the number that the widget reads from one.
use mathlib.Core.Option
use micro_ai_paygate.Prelude.{
  ℕ, zero, suc, ◌+◌, ◌*◌, ◌/◌, ◌%◌, ◌<◌, Text, codes, ◌≡◌, refl, ◌∙◌, ap, some, [], ◌∷◌, ◌++◌, ltb,
  Bool-cases, inl, inr, arith, is_space,
}
use micro_ai_paygate.Js.Json.{int, pos}
use micro_ai_paygate.Js.ParseInt.{hex_value, digits_after, digits, unsigned, or_nan, parse_hex}
use micro_ai_paygate.Web.Wallet.{hex_digit, hex_from, hex_text}

hex_value-hex_digit : (n : ℕ) → n < 16 → hex_value (hex_digit n) ≡ some n
unfolding hex_value hex_digit
hex_value-hex_digit n small = ground arith

digits-digit : (n : ℕ) (s : Text) → n < 16 → digits (hex_digit n ∷ s) ≡ some (digits_after n s)
unfolding digits
digits-digit n s small = rw (hex_value-hex_digit n small, digits) refl

after-digit :
    (n m : ℕ) (s : Text) → m < 16 → digits_after n (hex_digit m ∷ s) ≡ digits_after (n * 16 + m) s
unfolding digits_after
after-digit n m s small = rw (hex_value-hex_digit m small, digits_after) refl

digits-hex_from :
    (fuel n : ℕ) (s : Text) → n < fuel → digits (hex_from fuel n s) ≡ some (digits_after n s)
unfolding hex_from
digits-hex_from zero n s h = absurd (omega (arith, h))
digits-hex_from (suc fuel) n s h = elim (Bool-cases (ltb n 16)) [
  | inl small ↦ rw small (digits-digit n s (ground arith))
  | inr large ↦ rw large (
      digits-hex_from fuel (n / 16) (hex_digit (n % 16) ∷ s) (ground arith)
      ∙ ap some (
          after-digit (n / 16) (n % 16) s (omega arith) ∙ ap (λ m. digits_after m s) (omega arith)))
]

digits-hex_text : (n : ℕ) → digits (hex_text n) ≡ some n
unfolding hex_text digits_after
digits-hex_text n = digits-hex_from (suc n) n [] (omega arith)

-- The number that the widget reads from the text of a chain id is that id, for every id.
pub parse_hex-hex_text : (n : ℕ) → parse_hex (codes "0x" ++ hex_text n) ≡ int (pos n)
unfolding parse_hex is_space unsigned
parse_hex-hex_text n = ap (λ d. or_nan (Option.map (λ m. int (pos m)) d)) (digits-hex_text n)
