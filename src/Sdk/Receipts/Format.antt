-- ===== src/Sdk/Receipts/Format.antt =====
-- sdk/typescript/src/receipts.ts: `validateReceiptFormat` decides which values are signed receipts.
use micro_ai_paygate.Prelude.{
  ℕ, ◌≤◌, ◌<◌, String, Text, codes, starts_with, ◌≡◌, ◌≢◌, ◌↔◌, refl, true, ◌&&◌, Option, none,
  some, [], ◌∷◌, arith, leb, ltb,
}
use micro_ai_paygate.Js.Json.{
  pos, negsuc, Number, int, frac, infinity, nan, Json, null, bool, num, str, arr, obj, is_record,
  is_non_empty_string, is_prefixed_string, is_safe_integer, is_positive, max_safe_integer, prop,
}
use micro_ai_paygate.Sdk.Types.{SignedReceipt}
use micro_ai_paygate.Sdk.Receipts.{
  member, text_of, number_of, is_positive_safe_integer, validate_receipt_format, as_signed_receipt,
}

-- The property is a text that is not empty.
abbrev pub HasText : Option Json → Text → Type 0
HasText o t = (o ≡ some (str t)) × (t ≢ [])

-- The property is a text with this prefix.
abbrev pub HasPrefixed : Text → Option Json → Text → Type 0
HasPrefixed prefix o t = (o ≡ some (str t)) × (starts_with t prefix ≡ true)

-- The property is an integer from 1 to 2^53 - 1.
abbrev pub HasChain : Option Json → Number → Type 0
HasChain o n = (o ≡ some (num n)) × ((k : ℕ) × (n ≡ int (pos k)) × (0 < k) × (k ≤ max_safe_integer))

-- `value` is an object that holds the signed receipt.
pub record IsSignedReceipt (value : Json) (signed : SignedReceipt) : Type 0 where
  pub id : HasPrefixed (codes "rcpt_") (prop "id" (member "receipt" value)) signed.receipt.id
  pub version : HasText (prop "version" (member "receipt" value)) signed.receipt.version
  pub timestamp : HasText (prop "timestamp" (member "receipt" value)) signed.receipt.timestamp
  pub payer :
      HasText
        (prop "payer" (member "payment" (member "receipt" value)))
        signed.receipt.payment.payer
  pub recipient :
      HasText
        (prop "recipient" (member "payment" (member "receipt" value)))
        signed.receipt.payment.recipient
  pub amount :
      HasText
        (prop "amount" (member "payment" (member "receipt" value)))
        signed.receipt.payment.amount
  pub token :
      HasText
        (prop "token" (member "payment" (member "receipt" value)))
        signed.receipt.payment.token
  pub chain_id :
      HasChain
        (prop "chainId" (member "payment" (member "receipt" value)))
        signed.receipt.payment.chain_id
  pub nonce :
      HasText
        (prop "nonce" (member "payment" (member "receipt" value)))
        signed.receipt.payment.nonce
  pub endpoint :
      HasText
        (prop "endpoint" (member "service" (member "receipt" value)))
        signed.receipt.service.endpoint
  pub request_hash :
      HasPrefixed
        (codes "sha256:")
        (prop "request_hash" (member "service" (member "receipt" value)))
        signed.receipt.service.request_hash
  pub response_hash :
      HasPrefixed
        (codes "sha256:")
        (prop "response_hash" (member "service" (member "receipt" value)))
        signed.receipt.service.response_hash
  pub signature : HasPrefixed (codes "0x") (prop "signature" value) signed.signature
  pub server_public_key :
      HasPrefixed (codes "0x") (prop "server_public_key" value) signed.server_public_key

text_iff : (o : Option Json) → (is_non_empty_string o ≡ true) ↔ HasText o (text_of o)
unfolding is_non_empty_string
text_iff none = ground arith
text_iff (some (str [])) = (λ h. cc, λ h. absurd (h.1 refl))
text_iff (some (str (c ∷ s))) = (λ _. (refl, λ e. cc), λ _. refl)
text_iff (some null) = ground arith
text_iff (some (bool b)) = ground arith
text_iff (some (num n)) = ground arith
text_iff (some (arr xs)) = ground arith
text_iff (some (obj fs)) = ground arith

prefixed_iff :
    (c : ℕ) (prefix : Text) (o : Option Json)
    → (is_prefixed_string o (c ∷ prefix) ≡ true) ↔ HasPrefixed (c ∷ prefix) o (text_of o)
unfolding is_prefixed_string starts_with
prefixed_iff c prefix none = ground arith
prefixed_iff c prefix (some (str [])) = (λ h. cc, λ h. cc)
prefixed_iff c prefix (some (str (d ∷ s))) = (λ h. (refl, h), λ h. h.1)
prefixed_iff c prefix (some null) = ground arith
prefixed_iff c prefix (some (bool b)) = ground arith
prefixed_iff c prefix (some (num n)) = ground arith
prefixed_iff c prefix (some (arr xs)) = ground arith
prefixed_iff c prefix (some (obj fs)) = ground arith

chain_back :
    (n : ℕ)
    → (k : ℕ) × (int (pos n) ≡ int (pos k)) × (0 < k) × (k ≤ max_safe_integer)
    → (leb n max_safe_integer && ltb 0 n) ≡ true
chain_back n (k, same, low, high) = let e : n ≡ k = cc in ground arith

chain_iff : (o : Option Json) → (is_positive_safe_integer o ≡ true) ↔ HasChain o (number_of o)
unfolding is_positive_safe_integer is_safe_integer is_positive
chain_iff none = (λ h. cc, λ h. cc)
chain_iff (some (num (int (pos n)))) =
    (λ h. (refl, (n, refl, ground arith, ground arith)), λ h. chain_back n h.1)
chain_iff (some (num (int (negsuc n)))) = (λ h. ground arith, λ h. cc (h.1.1))
chain_iff (some (num (frac s d))) = (λ h. cc, λ h. cc (h.1.1))
chain_iff (some (num (infinity s))) = (λ h. cc, λ h. cc (h.1.1))
chain_iff (some (num nan)) = (λ h. cc, λ h. cc (h.1.1))
chain_iff (some null) = (λ h. cc, λ h. cc)
chain_iff (some (bool b)) = (λ h. cc, λ h. cc)
chain_iff (some (str s)) = (λ h. cc, λ h. cc)
chain_iff (some (arr xs)) = (λ h. cc, λ h. cc)
chain_iff (some (obj fs)) = (λ h. cc, λ h. cc)

-- Only an object has properties.
is_record_of_prop : (k : String) (v w : Json) → prop k v ≡ some w → is_record v ≡ true
unfolding prop is_record
is_record_of_prop k (obj fs) w h = refl
is_record_of_prop k null w h = cc
is_record_of_prop k (bool b) w h = cc
is_record_of_prop k (num n) w h = cc
is_record_of_prop k (str s) w h = cc
is_record_of_prop k (arr xs) w h = cc

-- `validateReceiptFormat` accepts a value exactly when it is an object that holds, at the places
-- of the type `SignedReceipt`, the texts and the chain id that the code reads later: every text
-- is there and not empty, the id, the hashes, the signature and the key have their prefixes, and
-- the chain id is an integer from 1 to 2^53 - 1.
pub validate_receipt_format_iff :
    (value : Json)
    → (validate_receipt_format value ≡ true) ↔ IsSignedReceipt value (as_signed_receipt value)
unfolding validate_receipt_format as_signed_receipt
validate_receipt_format_iff value =
    let receipt = member "receipt" value in
    let payment = member "payment" receipt in
    let service = member "service" receipt in
    (
      λ h. record {
        id = (prefixed_iff _ _ (prop "id" receipt)).0 (ground arith);
        version = (text_iff (prop "version" receipt)).0 (ground arith);
        timestamp = (text_iff (prop "timestamp" receipt)).0 (ground arith);
        payer = (text_iff (prop "payer" payment)).0 (ground arith);
        recipient = (text_iff (prop "recipient" payment)).0 (ground arith);
        amount = (text_iff (prop "amount" payment)).0 (ground arith);
        token = (text_iff (prop "token" payment)).0 (ground arith);
        chain_id = (chain_iff (prop "chainId" payment)).0 (ground arith);
        nonce = (text_iff (prop "nonce" payment)).0 (ground arith);
        endpoint = (text_iff (prop "endpoint" service)).0 (ground arith);
        request_hash = (prefixed_iff _ _ (prop "request_hash" service)).0 (ground arith);
        response_hash = (prefixed_iff _ _ (prop "response_hash" service)).0 (ground arith);
        signature = (prefixed_iff _ _ (prop "signature" value)).0 (ground arith);
        server_public_key = (prefixed_iff _ _ (prop "server_public_key" value)).0 (ground arith);
      },
      λ shape. rw (
        is_record_of_prop "signature" value _ shape.signature.0,
        is_record_of_prop "id" receipt _ shape.id.0,
        is_record_of_prop "payer" payment _ shape.payer.0,
        is_record_of_prop "endpoint" service _ shape.endpoint.0,
        (prefixed_iff _ _ (prop "id" receipt)).1 shape.id,
        (text_iff (prop "version" receipt)).1 shape.version,
        (text_iff (prop "timestamp" receipt)).1 shape.timestamp,
        (text_iff (prop "payer" payment)).1 shape.payer,
        (text_iff (prop "recipient" payment)).1 shape.recipient,
        (text_iff (prop "amount" payment)).1 shape.amount,
        (text_iff (prop "token" payment)).1 shape.token,
        (chain_iff (prop "chainId" payment)).1 shape.chain_id,
        (text_iff (prop "nonce" payment)).1 shape.nonce,
        (text_iff (prop "endpoint" service)).1 shape.endpoint,
        (prefixed_iff _ _ (prop "request_hash" service)).1 shape.request_hash,
        (prefixed_iff _ _ (prop "response_hash" service)).1 shape.response_hash,
        (prefixed_iff _ _ (prop "signature" value)).1 shape.signature,
        (prefixed_iff _ _ (prop "server_public_key" value)).1 shape.server_public_key,
      ),
    )
