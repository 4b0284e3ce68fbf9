-- ===== src/Js/Host.antt =====
-- What the program calls and does not define: the built-in functions of the host (`JSON.parse`,
-- the UTF-8 coders, `toLowerCase`, `encodeURIComponent`) and the package ethers. Each is a field of
-- a record that the definitions take as a parameter; a function that may throw returns `none`
-- where it throws.
use micro_ai_paygate.Prelude.{ℕ, Text, Option, List}
use micro_ai_paygate.Js.Json.{Json}

abbrev pub Bytes : Type 0
Bytes = List ℕ

pub record Host : Type 0 where
  pub parse : Text → Option Json
  pub decode_utf8 : Bytes → Text
  pub encode_utf8 : Text → Bytes
  pub to_lower_case : Text → Text
  pub encode_uri_component : Text → Option Text

-- `{ r, s, v }` of `ethers.Signature`
pub record Signature : Type 0 where
  pub r : Text
  pub s : Text
  pub v : ℕ

pub record Ethers : Type 0 where
  pub zero_address : Text
  pub to_utf8_bytes : Text → Option Bytes
  pub sha256 : Bytes → Text
  pub keccak256 : Bytes → Text
  pub get_bytes : Text → Option Bytes
  pub hexlify : Bytes → Text
  pub compute_public_key : Text → Option Text
  pub signature_from : Signature → Option Signature
  pub recover_public_key : Text → Signature → Option Text
