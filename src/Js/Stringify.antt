-- ===== src/Js/Stringify.antt =====
-- `JSON.stringify(value)` with no indentation, on the values of `Json`: the text that the SDK
-- hashes as the receipt (`serializeReceiptForGateway`), sends as a body and stores.
-- Properties are written in the order of the list. The decimal text of an integer is the one
-- below 10^21, where the language begins to write exponents.
pub mod Decimal
use micro_ai_paygate.Prelude.{
  ℕ, zero, suc, ◌+◌, ◌/◌, ◌%◌, Text, codes, Bool, true, false, ◌&&◌, ◌||◌, [], ◌∷◌, ◌++◌, ltb, leb,
  ◌==◌, if◌then◌else◌,
}
use micro_ai_paygate.Js.Json.{
  pos, negsuc, Number, int, frac, infinity, nan, Json, null, bool, num, str, arr, obj, Items, nil,
  cons, Fields, end, field,
}

-- The decimal digits of `n` in front of `rest`; the first argument is fuel, and `suc n` is enough.
unfoldable pub digits_from : ℕ → ℕ → Text → Text
digits_from zero n rest = rest
digits_from (suc fuel) n rest =
    let more = digits_from fuel (n / 10) ((48 + n % 10) ∷ rest) in
    if ltb n 10 then (48 + n) ∷ rest else more

unfoldable pub decimal : ℕ → Text
unfolding digits_from
decimal n = digits_from (suc n) n []

-- `String(n)` and `n.toString()`
unfoldable pub number_text : Number → Text
unfolding decimal
number_text (int (pos n)) = decimal n
number_text (int (negsuc n)) = b'-' ∷ decimal (suc n)
number_text (frac negative digits) = if negative then b'-' ∷ digits else digits
number_text (infinity negative) = if negative then codes "-Infinity" else codes "Infinity"
number_text nan = codes "NaN"

hex_digit : ℕ → ℕ
hex_digit d = if ltb d 10 then 48 + d else 87 + d

-- `\uXXXX`
unicode_escape : ℕ → Text
unfolding hex_digit
unicode_escape c =
    codes "\\u"
    ++ hex_digit (c / 4096 % 16)
      ∷ hex_digit (c / 256 % 16)
      ∷ hex_digit (c / 16 % 16)
      ∷ hex_digit (c % 16)
      ∷ []

is_high_surrogate : ℕ → Bool
is_high_surrogate c = leb 0xd800 c && leb c 0xdbff

is_low_surrogate : ℕ → Bool
is_low_surrogate c = leb 0xdc00 c && leb c 0xdfff

-- One code unit that is no part of a surrogate pair.
escape_unit : ℕ → Text
unfolding unicode_escape is_high_surrogate is_low_surrogate
escape_unit c =
    if c == 8
    then codes "\\b"
    else if c == 9
    then codes "\\t"
    else if c == 10
    then codes "\\n"
    else if c == 12
    then codes "\\f"
    else if c == 13
    then codes "\\r"
    else if c == 34 || c == 92
    then 92 ∷ c ∷ []
    else if ltb c 32 || is_high_surrogate c || is_low_surrogate c
    then unicode_escape c
    else c ∷ []

-- A surrogate pair is kept, a lone surrogate is escaped.
unfoldable pub escape : Text → Text
unfolding escape_unit
escape [] = []
escape (c ∷ []) = escape_unit c
escape (c ∷ d ∷ s) =
    let pair = c ∷ d ∷ escape s in
    let single = escape_unit c ++ escape (d ∷ s) in
    if is_high_surrogate c && is_low_surrogate d then pair else single

abbrev quote : Text → Text
quote s = 34 ∷ escape s ++ 34 ∷ []

abbrev separated : Bool → Text → Text
separated true s = 44 ∷ s
separated false s = s

unfoldable mutual
  unfolding escape number_text

  pub stringify : Json → Text
  stringify null = codes "null"
  stringify (bool true) = codes "true"
  stringify (bool false) = codes "false"
  stringify (num (int z)) = number_text (int z)
  stringify (num (frac negative digits)) = number_text (frac negative digits)
  stringify (num n) = codes "null"
  stringify (str s) = quote s
  stringify (arr xs) = 91 ∷ stringify_items false xs ++ 93 ∷ []
  stringify (obj fs) = 123 ∷ stringify_fields false fs ++ 125 ∷ []

  -- The flag tells that a comma is due.
  pub stringify_items : Bool → Items → Text
  stringify_items due nil = []
  stringify_items due (cons v xs) = separated due (stringify v) ++ stringify_items true xs

  pub stringify_fields : Bool → Fields → Text
  stringify_fields due end = []
  stringify_fields due (field k v fs) =
      separated due (quote (codes k)) ++ 58 ∷ stringify v ++ stringify_fields true fs
