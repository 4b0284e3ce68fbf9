-- ===== src/Sdk/Receipts/Verify/Laws.antt =====
-- sdk/typescript/src/receipts.ts: what `verifyReceipt` accepts.
use micro_ai_paygate.Prelude.{
  Text, text_eq_iff, ◌≡◌, ◌↔◌, ap, true, Option, none, some, take, drop, length, arith, inl, inr,
  Option-cases, Bool-cases, ◌==◌, ==_iff,
}
use micro_ai_paygate.Js.Host.{Host, Ethers, Signature, Bytes}
use micro_ai_paygate.Sdk.Types.{SignedReceipt}
use micro_ai_paygate.Sdk.Receipts.{
  validate_receipt_format, signed_receipt_json, serialize_receipt_for_gateway,
}
use micro_ai_paygate.Sdk.Receipts.Verify.{
  normalize_public_key, same_key, last_byte, ethereum_v, recover_signer, verify_receipt,
}

abbrev pub signature_parts : Ethers → Bytes → Signature
signature_parts ethers sig_bytes = record {
  r = ethers.hexlify (take 32 sig_bytes);
  s = ethers.hexlify (take 32 (drop 32 sig_bytes));
  v = ethereum_v (last_byte sig_bytes);
}

-- The key that a signature recovers to: the signature has 65 bytes, read as r, s and a recovery
-- id, and the message is the keccak hash of the serialized receipt.
pub record IsRecovered (ethers : Ethers) (signed : SignedReceipt) (key : Text) : Type 0 where
  pub receipt_bytes : Bytes
  pub sig_bytes : Bytes
  pub signature : Signature
  pub serialized :
      ethers.to_utf8_bytes (serialize_receipt_for_gateway signed.receipt) ≡ some receipt_bytes
  pub bytes : ethers.get_bytes signed.signature ≡ some sig_bytes
  pub size : length sig_bytes ≡ 65
  pub split : ethers.signature_from (signature_parts ethers sig_bytes) ≡ some signature
  pub recovered : ethers.recover_public_key (ethers.keccak256 receipt_bytes) signature ≡ some key

-- What the caller learns from `true`.
pub record IsVerified (host : Host) (ethers : Ethers) (signed : SignedReceipt)
    (expected_key : Option Text) : Type 0 where
  pub key : Text
  pub signer : Text
  pub shape : validate_receipt_format (signed_receipt_json signed) ≡ true
  pub expected : normalize_public_key host ethers expected_key ≡ some key
  pub declared : normalize_public_key host ethers (some signed.server_public_key) ≡ some key
  pub recovered : IsRecovered ethers signed signer
  pub same : normalize_public_key host ethers (some signer) ≡ some key

same_key-eq_true : (a : Option Text) (b : Text) → (same_key a (some b) ≡ true) ↔ (a ≡ some b)
unfolding same_key
same_key-eq_true none b = (λ h. cc, λ h. cc)
same_key-eq_true (some a) b = (λ h. ap some ((text_eq_iff a b).0 h), λ h. (text_eq_iff a b).1 (cc))

recover_signer_sound :
    (ethers : Ethers) (signed : SignedReceipt) (key : Text)
    → recover_signer ethers signed ≡ some key
    → IsRecovered ethers signed key
unfolding recover_signer
recover_signer_sound ethers signed key h =
    elim (Option-cases (ethers.to_utf8_bytes (serialize_receipt_for_gateway signed.receipt))) [
      | inl bad ↦ cc (rw bad at h)
      | inr (receipt_bytes, serialized) ↦ elim (Option-cases (ethers.get_bytes signed.signature)) [
        | inl bad ↦ cc (rw (serialized, bad) at h)
        | inr (sig_bytes, bytes) ↦ elim (Bool-cases (length sig_bytes == 65)) [
          | inr bad ↦ cc (rw (serialized, bytes, bad) at h)
          | inl size ↦
              let parts : Signature = signature_parts ethers sig_bytes in
              elim (Option-cases (ethers.signature_from parts)) [
                | inl bad ↦ cc (rw (serialized, bytes, size, bad) at h)
                | inr (signature, split) ↦ record {
                  receipt_bytes = receipt_bytes;
                  sig_bytes = sig_bytes;
                  signature = signature;
                  serialized = serialized;
                  bytes = bytes;
                  size = ground arith;
                  split = split;
                  recovered = rw (serialized, bytes, size, split) at h;
                }
              ]
        ]
      ]
    ]

recover_signer_complete :
    (ethers : Ethers) (signed : SignedReceipt) (key : Text)
    → IsRecovered ethers signed key
    → recover_signer ethers signed ≡ some key
unfolding recover_signer
recover_signer_complete ethers signed key h =
    rw (h.serialized, h.bytes, (==_iff (length h.sig_bytes) 65).1 h.size, h.split) h.recovered

-- `verifyReceipt` returns true exactly if the receipt has the shape of a signed receipt, the
-- expected key and the key that the receipt declares normalize to one key, and so does the key to
-- which the 65 bytes of its signature recover over the keccak hash of the serialized receipt.
pub verify_receipt_iff :
    (host : Host) (ethers : Ethers) (signed : SignedReceipt) (expected_key : Option Text)
    → (verify_receipt host ethers signed expected_key ≡ true)
      ↔ IsVerified host ethers signed expected_key
unfolding verify_receipt
verify_receipt_iff host ethers signed expected_key = (
  λ h. elim (Bool-cases (validate_receipt_format (signed_receipt_json signed))) [
    | inr bad ↦ cc (rw bad at h)
    | inl shape ↦ elim (Option-cases (normalize_public_key host ethers expected_key)) [
      | inl bad ↦ cc (rw (shape, bad) at h)
      | inr (key, expected) ↦
          elim (Bool-cases (
            same_key (normalize_public_key host ethers (some signed.server_public_key))
              (some key))) [
                | inr bad ↦ cc (rw (shape, expected, bad) at h)
                | inl declared ↦ elim (Option-cases (recover_signer ethers signed)) [
                  | inl bad ↦ cc (rw (shape, expected, declared, bad) at h)
                  | inr (signer, recovered) ↦ record {
                    key = key;
                    signer = signer;
                    shape = shape;
                    expected = expected;
                    declared = (same_key-eq_true _ key).0 declared;
                    recovered = recover_signer_sound ethers signed signer recovered;
                    same =
                        (same_key-eq_true _ key).0 (rw (shape, expected, declared, recovered) at h);
                  }
                ]
              ]
    ]
  ],
  λ v. rw (
    v.shape,
    v.expected,
    (same_key-eq_true _ v.key).1 v.declared,
    recover_signer_complete ethers signed v.signer v.recovered,
    (same_key-eq_true _ v.key).1 v.same,
  ),
)
