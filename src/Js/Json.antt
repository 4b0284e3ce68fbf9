-- ===== src/Js/Json.antt =====
-- The values that `JSON.parse` returns, and the tests by which the program looks into them: the
-- `typeof` tests, property reads and number tests of the type guards in
-- sdk/typescript/src/receipts.ts, sdk/typescript/src/protocol/microai.ts and
-- web/src/lib/receipt-storage.ts.
--
-- A number is an integer, a finite number that is none (its sign, true for a negative one, and the
-- decimal text of its size), an infinity (its sign) or NaN; the two zeros are one. The property list
-- of an object has each key once, as `JSON.parse` makes it. An array has none of the properties that
-- the program reads.
use micro_ai_paygate.Prelude.{
  ℕ, ◌^◌, ◌-◌, String, Text, starts_with, Bool, true, false, not, ◌&&◌, Option, none, some, ◌∷◌,
  ltb, leb, if◌then◌else◌, str_eq,
}

-- `negsuc n` is -(n + 1).
pub data ℤ : Type 0 where
  pos : ℕ → ℤ
  negsuc : ℕ → ℤ

pub data Number : Type 0 where
  int : ℤ → Number
  frac : Bool → Text → Number
  infinity : Bool → Number
  nan : Number

mutual
  pub data Json : Type 0 where
    null : Json
    bool : Bool → Json
    num : Number → Json
    str : Text → Json
    arr : Items → Json
    obj : Fields → Json

  pub data Items : Type 0 where
    nil : Items
    cons : Json → Items → Items

  pub data Fields : Type 0 where
    end : Fields
    field : String → Json → Fields → Fields

-- `typeof value === "object" && value !== null`
unfoldable pub is_record : Json → Bool
is_record (arr xs) = true
is_record (obj fs) = true
is_record v = false

find_field : String → Fields → Option Json
find_field k end = none
find_field k (field j v fs) = if str_eq j k then some v else find_field k fs

-- `value.key` on a value that is no `null`; `none` is `undefined`
unfoldable pub prop : String → Json → Option Json
unfolding find_field
prop k (obj fs) = find_field k fs
prop k v = none

-- `typeof value === "string"`, `undefined` included
unfoldable pub is_string : Option Json → Bool
is_string (some (str s)) = true
is_string v = false

-- `isNonEmptyString(value)`
unfoldable pub is_non_empty_string : Option Json → Bool
is_non_empty_string (some (str (c ∷ s))) = true
is_non_empty_string v = false

-- `isPrefixedString(value, prefix)`
unfoldable pub is_prefixed_string : Option Json → Text → Bool
unfolding is_non_empty_string
is_prefixed_string (some (str s)) prefix =
    is_non_empty_string (some (str s)) && starts_with s prefix
is_prefixed_string v prefix = false

abbrev pub max_safe_integer : ℕ
max_safe_integer = 2 ^ 53 - 1

-- `Number.isSafeInteger(n)`
unfoldable pub is_safe_integer : Number → Bool
is_safe_integer (int (pos n)) = leb n max_safe_integer
is_safe_integer (int (negsuc n)) = ltb n max_safe_integer
is_safe_integer n = false

-- `n > 0`
unfoldable pub is_positive : Number → Bool
is_positive (int (pos n)) = ltb 0 n
is_positive (int (negsuc n)) = false
is_positive (frac negative digits) = not negative
is_positive (infinity negative) = not negative
is_positive nan = false
