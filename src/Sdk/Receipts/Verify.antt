-- ===== src/Sdk/Receipts/Verify.antt =====
-- sdk/typescript/src/receipts.ts: `verifyReceipt` and the keys that it compares.
--
-- `none` stands for an exception inside the `try` block; the handler returns false.
pub mod Laws
use micro_ai_paygate.Prelude.{
  ℕ, zero, suc, ◌+◌, Text, text_eq, Bool, true, false, not, Option, none, some, List, [], ◌∷◌,
  length, take, drop, leb, ◌==◌, if◌then◌else◌,
}
use mathlib.Core.Option
use micro_ai_paygate.Js.Host.{Host, Ethers, Signature, Bytes}
use micro_ai_paygate.Sdk.Types.{SignedReceipt}
use micro_ai_paygate.Sdk.Receipts.{
  validate_receipt_format, signed_receipt_json, serialize_receipt_for_gateway,
}

infixl 5 ◌>>=◌
abbrev ◌>>=◌ : {A B : Type 0} → Option A → (A → Option B) → Option B
none >>= k = none
some a >>= k = k a

-- `normalizePublicKey(value)`
unfoldable pub normalize_public_key : Host → Ethers → Option Text → Option Text
normalize_public_key host ethers none = none
normalize_public_key host ethers (some []) = none
normalize_public_key host ethers (some (c ∷ s)) =
    Option.map host.to_lower_case (ethers.compute_public_key (c ∷ s))

-- `a === b` for `string | null`
unfoldable pub same_key : Option Text → Option Text → Bool
unfolding text_eq
same_key none none = true
same_key (some a) (some b) = text_eq a b
same_key _ _ = false

-- `sigBytes[64]`, of 65 bytes
unfoldable pub last_byte : Bytes → ℕ
last_byte bytes = elim (drop 64 bytes) [ [] ↦ 0 | b ∷ rest ↦ b ]

-- `recoveryId <= 1 ? recoveryId + 27 : recoveryId`
unfoldable pub ethereum_v : ℕ → ℕ
ethereum_v recovery_id = if leb recovery_id 1 then recovery_id + 27 else recovery_id

-- The public key that the signature of a receipt recovers to, over the serialized receipt.
unfoldable pub recover_signer : Ethers → SignedReceipt → Option Text
unfolding last_byte ethereum_v
recover_signer ethers signed = do
  receipt_bytes ← ethers.to_utf8_bytes (serialize_receipt_for_gateway signed.receipt)
  sig_bytes ← ethers.get_bytes signed.signature
  if length sig_bytes == 65
      then (do
        signature ← ethers.signature_from (record {
          r = ethers.hexlify (take 32 sig_bytes);
          s = ethers.hexlify (take 32 (drop 32 sig_bytes));
          v = ethereum_v (last_byte sig_bytes);
        })
        ethers.recover_public_key (ethers.keccak256 receipt_bytes) signature)
      else none

-- `verifyReceipt(signedReceipt, { expectedServerPublicKey })`
unfoldable pub verify_receipt : Host → Ethers → SignedReceipt → Option Text → Bool
unfolding same_key recover_signer normalize_public_key
verify_receipt host ethers signed expected_key =
    if not (validate_receipt_format (signed_receipt_json signed))
    then false
    else elim (normalize_public_key host ethers expected_key) [
      | none ↦ false
      | some expected ↦
          if not (
            same_key (normalize_public_key host ethers (some signed.server_public_key))
              (some expected))
          then false
          else elim (recover_signer ethers signed) [
            | none ↦ false
            | some recovered ↦
                same_key (normalize_public_key host ethers (some recovered)) (some expected)
          ]
    ]
