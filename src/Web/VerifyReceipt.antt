-- ===== src/Web/VerifyReceipt.antt =====
-- web/src/lib/verify-receipt.ts: `verifyReceipt` and `fetchReceipt`, for any JSON value that is taken
-- for a receipt. `none` stands for an exception inside a `try` block. A JSON value that is no text is
-- no `BytesLike` of ethers, and it has no `toLowerCase`.
pub mod Parts
pub mod Laws
pub mod Lookup
pub mod Tests
use micro_ai_paygate.Prelude.{
  ℕ, ◌+◌, Text, codes, text_eq, Bool, true, false, not, ◌&&◌, Option, none, some, List, [], ◌∷◌,
  ◌++◌, length, take, drop, ◌==◌, if◌then◌else◌,
}
use micro_ai_paygate.Js.Json.{Json, null, str, prop}
use micro_ai_paygate.Js.Stringify.{stringify}
use micro_ai_paygate.Js.Exec.{Result, ok, throw}
use micro_ai_paygate.Js.Host.{Host, Ethers, Signature, Bytes}
use micro_ai_paygate.Sdk.Types.{Fault, Response, is_ok}
use micro_ai_paygate.Sdk.Receipts.Verify.{last_byte}
use micro_ai_paygate.Web.Errors.{is_truthy}
use micro_ai_paygate.Web.X402Client.{optional}

infixl 5 ◌>>=◌
abbrev pub ◌>>=◌ : {A B : Type 0} → Option A → (A → Option B) → Option B
none >>= k = none
some a >>= k = k a

abbrev pub as_text : Option Json → Option Text
as_text (some (str s)) = some s
as_text v = none

-- The argument of `ethers.Signature.from`
abbrev pub signature_parts : Ethers → Bytes → Signature
signature_parts ethers sig_bytes = record {
  r = ethers.hexlify (take 32 sig_bytes);
  s = ethers.hexlify (take 32 (drop 32 sig_bytes));
  v = last_byte sig_bytes + 27;
}

-- `recoveredPubKey`, for the text of the receipt and the signature
unfoldable pub recovered_pub_key : Ethers → Text → Text → Option Text
unfolding last_byte
recovered_pub_key ethers receipt_json signature_text = do
  receipt_bytes ← ethers.to_utf8_bytes receipt_json
  sig_bytes ← ethers.get_bytes signature_text
  if length sig_bytes == 65
      then (do
        signature ← ethers.signature_from (signature_parts ethers sig_bytes)
        ethers.recover_public_key (ethers.keccak256 receipt_bytes) signature)
      else none

-- `recoveredPubKey.toLowerCase() === signedReceipt.server_public_key.toLowerCase()`
abbrev pub same_key : Host → Option Text → Option Text → Bool
same_key host (some recovered) (some declared) =
    text_eq (host.to_lower_case recovered) (host.to_lower_case declared)
same_key host recovered declared = false

abbrev pub signed_key : Ethers → Option Json → Option Text → Option Text
signed_key ethers (some receipt) (some signature) =
    recovered_pub_key ethers (stringify receipt) signature
signed_key ethers receipt signature = none

-- `!signedReceipt?.receipt || !signedReceipt.signature || !signedReceipt.server_public_key`, the
-- other way round
unfoldable pub has_parts : Json → Bool
unfolding is_truthy optional
has_parts signed =
    is_truthy (optional "receipt" (some signed))
    && (is_truthy (optional "signature" (some signed))
        && is_truthy (optional "server_public_key" (some signed)))

-- `verifyReceipt(signedReceipt)`
unfoldable pub verify_receipt : Host → Ethers → Json → Bool
unfolding has_parts recovered_pub_key stringify
verify_receipt host ethers signed =
    if not (has_parts signed)
    then false
    else same_key host
        (signed_key ethers (optional "receipt" (some signed))
          (as_text (optional "signature" (some signed))))
        (as_text (optional "server_public_key" (some signed)))

-- What `fetchReceipt` returns: the three properties of the body, each there or not.
pub record FetchedReceipt : Type 0 where
  pub receipt : Option Json
  pub signature : Option Json
  pub server_public_key : Option Json

-- `{ receipt: data.receipt, … }`: reading a property of `null` throws.
unfoldable pub parts_of : Json → Option FetchedReceipt
unfolding prop
parts_of null = none
parts_of v = some (record {
  receipt = prop "receipt" v;
  signature = prop "signature" v;
  server_public_key = prop "server_public_key" v;
})

abbrev pub parsed : Host → Result Fault Text → Option Json
parsed host (ok s) = host.parse s
parsed host (throw fault) = none

-- From the response on.
unfoldable pub read_lookup : Host → Response → Option FetchedReceipt
unfolding parts_of
read_lookup host response =
    if response.status == 404
    then none
    else if not (is_ok response)
    then none
    else parsed host response.text >>= parts_of

abbrev pub gateway_or_default : Option Text → Text
gateway_or_default none = codes "http://localhost:3000"
gateway_or_default (some url) = url

abbrev pub lookup_url : Text → Option Text → Text
lookup_url receipt_id gateway_url =
    gateway_or_default gateway_url ++ (codes "/api/receipts/" ++ receipt_id)

-- From the outcome of `fetch` on.
unfoldable pub read_answer : Host → Result Fault Response → Option FetchedReceipt
unfolding read_lookup
read_answer host (throw fault) = none
read_answer host (ok response) = read_lookup host response

-- `fetchReceipt(receiptId, gatewayUrl)`, for what the global `fetch` gives for a URL
unfoldable pub fetch_receipt :
    Host → (Text → Result Fault Response) → Text → Option Text → Option FetchedReceipt
unfolding read_answer
fetch_receipt host fetch receipt_id gateway_url =
    read_answer host (fetch (lookup_url receipt_id gateway_url))
