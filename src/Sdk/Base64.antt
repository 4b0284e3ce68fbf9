-- ===== src/Sdk/Base64.antt =====
-- sdk/typescript/src/base64.ts: the base64 texts of receipt headers.
--
-- `atob` and `btoa` are written out on what the module gives to them: `atob` runs on texts that the
-- pattern accepts, `btoa` on bytes. The UTF-8 coders are those of the host.
pub mod RoundTrip
use micro_ai_paygate.Prelude.{
  ℕ, ◌+◌, ◌-◌, ◌*◌, ◌/◌, ◌%◌, Text, codes, text_eq, trim, Bool, true, false, not, ◌&&◌, ◌||◌, List,
  [], ◌∷◌, ltb, leb, ◌==◌, if◌then◌else◌,
}
use micro_ai_paygate.Js.Exec.{Result, ok, throw}
use micro_ai_paygate.Js.Host.{Host, Bytes}
use micro_ai_paygate.Sdk.Types.{Thrown, foreign}

-- `[A-Za-z0-9+/]`
is_base64_unit : ℕ → Bool
is_base64_unit c =
    (leb 65 c && leb c 90)
    || (leb 97 c && leb c 122)
    || (leb 48 c && leb c 57)
    || c == 43
    || c == 47

-- `BASE64_RE.test(value)`: four units at a time, and at the end two and `==`, or three and `=`.
matches_base64 : Text → Bool
unfolding is_base64_unit
matches_base64 [] = true
matches_base64 (a ∷ b ∷ c ∷ d ∷ s) =
    let rest = matches_base64 s in
    if is_base64_unit a && is_base64_unit b && is_base64_unit c && is_base64_unit d
    then rest
    else is_base64_unit a
      && is_base64_unit b
      && (c == 61 || is_base64_unit c)
      && d == 61
      && text_eq s []
matches_base64 s = false

-- The number that a unit of the alphabet stands for.
sextet : ℕ → ℕ
sextet c =
    if leb 97 c
    then c - 71
    else if leb 65 c
    then c - 65
    else if leb 48 c
    then c + 4
    else if c == 43
    then 62
    else 63

unit_of : ℕ → ℕ
unit_of n =
    if ltb n 26
    then n + 65
    else if ltb n 52
    then n + 71
    else if ltb n 62
    then n - 4
    else if n == 62
    then 43
    else 47

-- `atob(value)`, as the bytes of the binary string
atob : Text → Bytes
unfolding sextet
atob (a ∷ b ∷ c ∷ d ∷ s) =
    let first = sextet a * 4 + sextet b / 16 in
    let second = sextet b % 16 * 16 + sextet c / 4 in
    let third = sextet c % 4 * 64 + sextet d in
    if c == 61
    then first ∷ []
    else if d == 61
    then first ∷ second ∷ []
    else first ∷ second ∷ third ∷ atob s
atob s = []

-- `btoa(binary)`
btoa : Bytes → Text
unfolding unit_of
btoa [] = []
btoa (x ∷ []) = unit_of (x / 4) ∷ unit_of (x % 4 * 16) ∷ 61 ∷ 61 ∷ []
btoa (x ∷ y ∷ []) = unit_of (x / 4) ∷ unit_of (x % 4 * 16 + y / 16) ∷ unit_of (y % 16 * 4) ∷ 61 ∷ []
btoa (x ∷ y ∷ z ∷ bytes) =
    unit_of (x / 4)
    ∷ unit_of (x % 4 * 16 + y / 16)
    ∷ unit_of (y % 16 * 4 + z / 64)
    ∷ unit_of (z % 64)
    ∷ btoa bytes

-- `decodeBase64ToUtf8(value)`
unfoldable pub decode_base64_to_utf8 : Host → Text → Result Thrown Text
unfolding matches_base64 atob trim text_eq
decode_base64_to_utf8 host value =
    if text_eq value [] || not (text_eq (trim value) value) || not (matches_base64 value)
    then throw (foreign (record { message = codes "invalid base64" }))
    else ok (host.decode_utf8 (atob value))

-- `encodeUtf8ToBase64(value)`
unfoldable pub encode_utf8_to_base64 : Host → Text → Text
unfolding btoa
encode_utf8_to_base64 host value = btoa (host.encode_utf8 value)
