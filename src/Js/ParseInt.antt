-- ===== src/Js/ParseInt.antt =====
-- What the code uses of `parseInt`: a number in the digits to the base 16.
use mathlib.Core.Option
use micro_ai_paygate.Prelude.{
  ℕ, zero, suc, ◌+◌, ◌*◌, ◌-◌, Text, ◌&&◌, ◌||◌, Option, none, some, [], ◌∷◌, leb, ◌==◌,
  if◌then◌else◌, is_space,
}
use micro_ai_paygate.Js.Json.{Number, int, nan, pos, negsuc}

-- The number of a digit to the base 16.
unfoldable pub hex_value : ℕ → Option ℕ
hex_value c =
    if leb 48 c && leb c 57
    then some (c - 48)
    else if leb 97 c && leb c 102
    then some (c - 87)
    else if leb 65 c && leb c 70
    then some (c - 55)
    else none

-- The number of the digits at the front of a text, after those of `n`.
unfoldable pub digits_after : ℕ → Text → ℕ
unfolding hex_value
digits_after n [] = n
digits_after n (c ∷ s) = elim (hex_value c) [ none ↦ n | some d ↦ digits_after (n * 16 + d) s ]

-- `none` where there is no digit at the front.
unfoldable pub digits : Text → Option ℕ
unfolding digits_after hex_value
digits [] = none
digits (c ∷ s) = elim (hex_value c) [ none ↦ none | some d ↦ some (digits_after d s) ]

abbrev pub without_prefix : Text → Text
without_prefix (a ∷ b ∷ s) = if a == 48 && (b == 120 || b == 88) then s else a ∷ b ∷ s
without_prefix s = s

abbrev pub negated : ℕ → Number
negated zero = int (pos zero)
negated (suc n) = int (negsuc n)

-- The text after its sign.
unfoldable pub unsigned : Text → Option ℕ
unfolding digits
unsigned s = digits (without_prefix s)

abbrev pub or_nan : Option Number → Number
or_nan none = nan
or_nan (some n) = n

-- `parseInt(s, 16)`
unfoldable pub parse_hex : Text → Number
unfolding unsigned is_space
parse_hex [] = nan
parse_hex (c ∷ s) =
    let rest = parse_hex s in
    if is_space c
    then rest
    else if c == 45
    then or_nan (Option.map negated (unsigned s))
    else if c == 43
    then or_nan (Option.map (λ n. int (pos n)) (unsigned s))
    else or_nan (Option.map (λ n. int (pos n)) (unsigned (c ∷ s)))
