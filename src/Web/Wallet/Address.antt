-- ===== src/Web/Wallet/Address.antt =====
-- web/src/lib/wallet.ts: the texts that are made of a chain id and of an address.
use micro_ai_paygate.Prelude.{
  ℕ, zero, suc, ◌+◌, ◌*◌, ◌-◌, ◌/◌, ◌%◌, ◌≤◌, ◌<◌, Text, ◌≡◌, ◌≢◌, List, [], ◌∷◌, length, take,
  drop, length-append, length-take, leb, ltb, Bool-cases, arith, ap, ◌∙◌, if◌then◌else◌, inl, inr,
}
use micro_ai_paygate.Web.Wallet.{hex_digit, hex_from, hex_text, slice_last, shorten_address}

-- The number of a hexadecimal digit, and of a text of them after a number.
unfoldable pub digit_value : ℕ → ℕ
digit_value c = if ltb c 58 then c - 48 else c - 87

unfoldable pub value_from : ℕ → Text → ℕ
unfolding digit_value
value_from n [] = n
value_from n (c ∷ s) = value_from (n * 16 + digit_value c) s

digit_value-hex_digit : (n : ℕ) → n < 16 → digit_value (hex_digit n) ≡ n
unfolding digit_value hex_digit
digit_value-hex_digit n small = ground arith

value_from-hex_from :
    (fuel n : ℕ) (digits : Text)
    → n < fuel
    → value_from 0 (hex_from fuel n digits) ≡ value_from n digits
unfolding hex_from value_from
value_from-hex_from zero n digits h = omega arith
value_from-hex_from (suc fuel) n digits h = elim (Bool-cases (ltb n 16)) [
  | inl small ↦
      rw small
        (ap (λ m. value_from m digits) (omega (arith, digit_value-hex_digit n (ground arith))))
  | inr large ↦ rw large (
      value_from-hex_from fuel (n / 16) (hex_digit (n % 16) ∷ digits) (ground arith)
      ∙ ap (λ m. value_from m digits) (omega (arith, digit_value-hex_digit (n % 16) (omega arith))))
]

-- The hexadecimal text that names a chain to the wallet denotes the chain's id, for every id: no
-- digit is missing.
pub value_from-hex_text : (n : ℕ) → value_from 0 (hex_text n) ≡ n
unfolding hex_text value_from
value_from-hex_text n = value_from-hex_from (suc n) n [] (omega arith)

length-drop : {A : Type 0} (n : ℕ) (xs : List A) → length (drop n xs) ≡ length xs - n
length-drop zero xs = omega arith
length-drop (suc n) [] = omega arith
length-drop (suc n) (x ∷ xs) = omega (arith, length-drop n xs)

length-slice_last : (n : ℕ) (s : Text) → n ≢ 0 → length (slice_last n s) ≤ n
unfolding slice_last
length-slice_last zero s h = ground arith
length-slice_last (suc n) s h = omega (arith, length-drop (length s - suc n) s)

-- A shortened address has at most the characters asked for at both ends, the two of its prefix and
-- the mark between, and it is never longer than the address, if any are asked for.
pub length-shorten_address :
    (addr : Text) (chars : ℕ)
    → chars ≢ 0
    → (length (shorten_address addr chars) ≤ chars * 2 + 3)
      × (length (shorten_address addr chars) ≤ length addr)
unfolding shorten_address
length-shorten_address [] chars h = (omega arith, omega arith)
length-shorten_address (c ∷ addr) chars h =
    elim (Bool-cases (leb (length (c ∷ addr)) (chars * 2 + 2))) [
      | inl short ↦ rw short (ground arith, omega arith)
      | inr long ↦
          let tail = slice_last chars (c ∷ addr) in
          let sum = length-append (take (chars + 2) (c ∷ addr)) (0x2026 ∷ tail) in
          let front = length-take (chars + 2) (c ∷ addr) in
          let back = length-slice_last chars (c ∷ addr) h in
          rw long (omega (arith, sum, front, back), ground (arith, sum, front, back, long))
    ]
