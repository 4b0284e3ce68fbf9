-- ===== src/Sdk/Base64/RoundTrip.antt =====
-- sdk/typescript/src/base64.ts: decoding undoes encoding.
use micro_ai_paygate.Prelude.{
  ℕ, ◌+◌, ◌*◌, ◌/◌, ◌%◌, ◌<◌, Text, text_eq, text_eq_refl, is_space, trim, IsVisible, trim-visible,
  ◌≡◌, ◌≢◌, refl, ap, ◌∙◌, true, false, [], ◌∷◌, All, arith, ◌==◌,
}
use mathlib.Core.Path.{ap₂}
use micro_ai_paygate.Js.Exec.{ok}
use micro_ai_paygate.Js.Host.{Host, Bytes}
use micro_ai_paygate.Sdk.Base64.{
  is_base64_unit, matches_base64, sextet, unit_of, atob, btoa, decode_base64_to_utf8,
  encode_utf8_to_base64,
}

abbrev pub IsByte : ℕ → Type 0
IsByte x = x < 256

-- A unit of the alphabet stands for one number below 64, and is no padding and no white space.
record Stands (c n : ℕ) : Type 0 where
  value : sextet c ≡ n
  listed : is_base64_unit c ≡ true
  no_padding : (c == 61) ≡ false
  no_space : is_space c ≡ false

unit_of-Stands : (n : ℕ) → n < 64 → Stands (unit_of n) n
unfolding sextet unit_of is_base64_unit is_space
unit_of-Stands n h = record {
  value = ground arith;
  listed = ground arith;
  no_padding = ground arith;
  no_space = ground arith;
}

matches_base64-btoa : (bytes : Bytes) → All IsByte bytes → matches_base64 (btoa bytes) ≡ true
unfolding matches_base64 btoa text_eq
matches_base64-btoa [] h = refl
matches_base64-btoa (x ∷ []) h =
    let a = unit_of-Stands (x / 4) (omega arith) in
    let b = unit_of-Stands (x % 4 * 16) (omega arith) in rw (a.listed, b.listed)
matches_base64-btoa (x ∷ y ∷ []) h =
    let a = unit_of-Stands (x / 4) (omega arith) in
    let b = unit_of-Stands (x % 4 * 16 + y / 16) (omega arith) in
    let c = unit_of-Stands (y % 16 * 4) (omega arith) in
    rw (a.listed, b.listed, c.listed, c.no_padding)
matches_base64-btoa (x ∷ y ∷ z ∷ bytes) h =
    let a = unit_of-Stands (x / 4) (omega arith) in
    let b = unit_of-Stands (x % 4 * 16 + y / 16) (omega arith) in
    let c = unit_of-Stands (y % 16 * 4 + z / 64) (omega arith) in
    let d = unit_of-Stands (z % 64) (omega arith) in
    rw (a.listed, b.listed, c.listed, d.listed) (matches_base64-btoa bytes h.1.1.1)

three_bytes :
    {a b c x y z : ℕ} {bytes : Bytes}
    → a ≡ x
    → b ≡ y
    → c ≡ z
    → ◌≡◌ {A = Bytes} (a ∷ b ∷ c ∷ bytes) (x ∷ y ∷ z ∷ bytes)
three_bytes p q r = cc

-- The three bytes come back from the four numbers that `btoa` makes of them.
atob-btoa : (bytes : Bytes) → All IsByte bytes → atob (btoa bytes) ≡ bytes
unfolding atob btoa
atob-btoa [] h = refl
atob-btoa (x ∷ []) h =
    let a = unit_of-Stands (x / 4) (omega arith) in
    let b = unit_of-Stands (x % 4 * 16) (omega arith) in
    rw (a.value, b.value) (ap (λ (n : ℕ). n ∷ []) (omega arith))
atob-btoa (x ∷ y ∷ []) h =
    let a = unit_of-Stands (x / 4) (omega arith) in
    let b = unit_of-Stands (x % 4 * 16 + y / 16) (omega arith) in
    let c = unit_of-Stands (y % 16 * 4) (omega arith) in
    rw (c.no_padding, a.value, b.value, c.value)
      (ap₂ (λ (m n : ℕ). m ∷ n ∷ []) (omega arith) (omega arith))
atob-btoa (x ∷ y ∷ z ∷ bytes) h =
    let a = unit_of-Stands (x / 4) (omega arith) in
    let b = unit_of-Stands (x % 4 * 16 + y / 16) (omega arith) in
    let c = unit_of-Stands (y % 16 * 4 + z / 64) (omega arith) in
    let d = unit_of-Stands (z % 64) (omega arith) in
    rw (c.no_padding, d.no_padding, a.value, b.value, c.value, d.value, atob-btoa bytes h.1.1.1)
      (three_bytes (omega arith) (omega arith) (omega arith))

IsVisible-btoa : (bytes : Bytes) → All IsByte bytes → IsVisible (btoa bytes)
unfolding btoa is_space
IsVisible-btoa [] h = tt
IsVisible-btoa (x ∷ []) h =
    let a = unit_of-Stands (x / 4) (omega arith) in
    let b = unit_of-Stands (x % 4 * 16) (omega arith) in
    (a.no_space, (b.no_space, (refl, (refl, tt))))
IsVisible-btoa (x ∷ y ∷ []) h =
    let a = unit_of-Stands (x / 4) (omega arith) in
    let b = unit_of-Stands (x % 4 * 16 + y / 16) (omega arith) in
    let c = unit_of-Stands (y % 16 * 4) (omega arith) in
    (a.no_space, (b.no_space, (c.no_space, (refl, tt))))
IsVisible-btoa (x ∷ y ∷ z ∷ bytes) h =
    let a = unit_of-Stands (x / 4) (omega arith) in
    let b = unit_of-Stands (x % 4 * 16 + y / 16) (omega arith) in
    let c = unit_of-Stands (y % 16 * 4 + z / 64) (omega arith) in
    let d = unit_of-Stands (z % 64) (omega arith) in
    (a.no_space, (b.no_space, (c.no_space, (d.no_space, IsVisible-btoa bytes h.1.1.1))))

btoa_filled : (bytes : Bytes) → bytes ≢ [] → text_eq (btoa bytes) [] ≡ false
unfolding btoa text_eq
btoa_filled [] h = absurd (h refl)
btoa_filled (x ∷ []) h = refl
btoa_filled (x ∷ y ∷ []) h = refl
btoa_filled (x ∷ y ∷ z ∷ bytes) h = refl

decode_accepted :
    (host : Host) (value : Text)
    → text_eq value [] ≡ false
    → trim value ≡ value
    → matches_base64 value ≡ true
    → decode_base64_to_utf8 host value ≡ ok (host.decode_utf8 (atob value))
unfolding decode_base64_to_utf8
decode_accepted host value filled trimmed matched =
    rw (filled, trimmed, text_eq_refl value, matched)

-- What the SDK encodes, it decodes to the same text, for a text that is not empty and that the
-- host's UTF-8 coders carry there and back.
pub decode_base64-encode :
    (host : Host) (value : Text)
    → All IsByte (host.encode_utf8 value)
    → host.encode_utf8 value ≢ []
    → host.decode_utf8 (host.encode_utf8 value) ≡ value
    → decode_base64_to_utf8 host (encode_utf8_to_base64 host value) ≡ ok value
unfolding decode_base64_to_utf8 encode_utf8_to_base64
decode_base64-encode host value bytes filled back =
    let encoded = btoa (host.encode_utf8 value) in
    decode_accepted host encoded (btoa_filled _ filled)
      (trim-visible encoded (IsVisible-btoa _ bytes)) (matches_base64-btoa _ bytes)
    ∙ ap ok (ap host.decode_utf8 (atob-btoa _ bytes) ∙ back)
