-- ===== src/Web/VerifyReceipt/Laws.antt =====
-- web/src/lib/verify-receipt.ts: which receipts the page accepts.
use micro_ai_paygate.Prelude.{
  ◌≡◌, ◌↔◌, refl, ap, Text, text_eq_iff, true, false, Option, none, some, Bool, ◌&&◌, ◌≢◌, ℕ, ◌+◌,
  [], ◌∷◌, take, drop, length, ◌==◌, ==_iff, Option-cases, Bool-cases, inl, inr,
}
use micro_ai_paygate.Js.Json.{Json, null, bool, num, str, arr, obj, prop}
use micro_ai_paygate.Js.Stringify.{stringify}
use micro_ai_paygate.Js.Host.{Host, Ethers, Signature, Bytes}
use micro_ai_paygate.Sdk.Receipts.Verify.{last_byte}
use micro_ai_paygate.Web.Errors.{is_truthy}
use micro_ai_paygate.Web.X402Client.{optional}
use micro_ai_paygate.Web.VerifyReceipt.Parts.{
  IsFalsy, is_truthy_iff, IsSplit, IsSplit-take, IsSplit-eq,
}
use micro_ai_paygate.Web.VerifyReceipt.{
  as_text, signature_parts, recovered_pub_key, same_key, has_parts, verify_receipt,
}

-- The key that a signature of 65 bytes recovers to, over the keccak hash of a text.
pub record IsRecovered (ethers : Ethers) (receipt_json signature_text key : Text) : Type 0 where
  pub receipt_bytes : Bytes
  pub sig_bytes : Bytes
  pub r_bytes : Bytes
  pub s_bytes : Bytes
  pub recovery_id : ℕ
  pub signature : Signature
  pub serialized : ethers.to_utf8_bytes receipt_json ≡ some receipt_bytes
  pub bytes : ethers.get_bytes signature_text ≡ some sig_bytes
  pub parts : IsSplit sig_bytes r_bytes s_bytes recovery_id
  pub taken :
      ethers.signature_from
        (record { r = ethers.hexlify r_bytes; s = ethers.hexlify s_bytes; v = recovery_id + 27 })
      ≡ some signature
  pub recovered : ethers.recover_public_key (ethers.keccak256 receipt_bytes) signature ≡ some key

-- What `true` tells of a receipt.
pub record IsSelfSigned (host : Host) (ethers : Ethers) (signed : Json) : Type 0 where
  pub receipt : Json
  pub signature : Text
  pub declared : Text
  pub signer : Text
  pub has_receipt : prop "receipt" signed ≡ some receipt
  pub has_signature : prop "signature" signed ≡ some (str signature)
  pub has_key : prop "server_public_key" signed ≡ some (str declared)
  pub there : ¬ IsFalsy receipt
  pub signature_there : signature ≢ []
  pub key_there : declared ≢ []
  pub signs : IsRecovered ethers (stringify receipt) signature signer
  pub same : host.to_lower_case signer ≡ host.to_lower_case declared

recovered_pub_key_sound :
    (ethers : Ethers) (receipt_json signature_text key : Text)
    → recovered_pub_key ethers receipt_json signature_text ≡ some key
    → IsRecovered ethers receipt_json signature_text key
unfolding recovered_pub_key
recovered_pub_key_sound ethers receipt_json signature_text key h =
    elim (Option-cases (ethers.to_utf8_bytes receipt_json)) [
      | inl bad ↦ cc (rw bad at h)
      | inr (receipt_bytes, serialized) ↦ elim (Option-cases (ethers.get_bytes signature_text)) [
        | inl bad ↦ cc (rw (serialized, bad) at h)
        | inr (sig_bytes, bytes) ↦ elim (Bool-cases (length sig_bytes == 65)) [
          | inr bad ↦ cc (rw (serialized, bytes, bad) at h)
          | inl size ↦
              elim (Option-cases (ethers.signature_from (signature_parts ethers sig_bytes))) [
                | inl bad ↦ cc (rw (serialized, bytes, size, bad) at h)
                | inr (signature, split) ↦ record {
                  receipt_bytes = receipt_bytes;
                  sig_bytes = sig_bytes;
                  r_bytes = take 32 sig_bytes;
                  s_bytes = take 32 (drop 32 sig_bytes);
                  recovery_id = last_byte sig_bytes;
                  signature = signature;
                  serialized = serialized;
                  bytes = bytes;
                  parts = IsSplit-take sig_bytes ((==_iff (length sig_bytes) 65).0 size);
                  taken = split;
                  recovered = rw (serialized, bytes, size, split) at h;
                }
              ]
        ]
      ]
    ]

recovered_pub_key_complete :
    (ethers : Ethers) (receipt_json signature_text key : Text)
    → IsRecovered ethers receipt_json signature_text key
    → recovered_pub_key ethers receipt_json signature_text ≡ some key
unfolding recovered_pub_key
recovered_pub_key_complete ethers receipt_json signature_text key r =
    let (r_same, s_same, last, size) = IsSplit-eq r.parts in
    let split : ethers.signature_from (signature_parts ethers r.sig_bytes) ≡ some r.signature =
      rw (r_same, s_same, last) r.taken in
    rw (r.serialized, r.bytes, (==_iff (length r.sig_bytes) 65).1 size, split) r.recovered

as_text-eq_some : (v : Option Json) (s : Text) → as_text v ≡ some s → v ≡ some (str s)
as_text-eq_some none s h = cc
as_text-eq_some (some null) s h = cc
as_text-eq_some (some (bool b)) s h = cc
as_text-eq_some (some (num n)) s h = cc
as_text-eq_some (some (str t)) s h = ap (λ o. o) (cc)
as_text-eq_some (some (arr xs)) s h = cc
as_text-eq_some (some (obj fs)) s h = cc

same_key-eq_true :
    (host : Host) (a b : Text)
    → (same_key host (some a) (some b) ≡ true) ↔ (host.to_lower_case a ≡ host.to_lower_case b)
same_key-eq_true host a b = text_eq_iff (host.to_lower_case a) (host.to_lower_case b)

text_there : (s : Text) → (is_truthy (some (str s)) ≡ true) ↔ (s ≢ [])
unfolding is_truthy
text_there [] = (λ h. cc, λ h. elim (h refl) [ ])
text_there (c ∷ s) = (λ h e. cc, λ h. refl)

both_true : (a b : Bool) → (a && b ≡ true) ↔ ((a ≡ true) × (b ≡ true))
both_true true b = (λ h. (refl, h), λ h. h.1)
both_true false b = (λ h. cc, λ h. cc (h.0))

has_parts_iff :
    (signed receipt : Json) (signature declared : Text)
    → prop "receipt" signed ≡ some receipt
    → prop "signature" signed ≡ some (str signature)
    → prop "server_public_key" signed ≡ some (str declared)
    → (has_parts signed ≡ true) ↔ ((¬ IsFalsy receipt) × (signature ≢ []) × (declared ≢ []))
unfolding has_parts optional
has_parts_iff signed receipt signature declared r s k =
    rw (r, s, k)
      (
        λ h.
            let (first, rest) = (both_true _ _).0 h in
            let (second, third) = (both_true _ _).0 rest in
            (
              (is_truthy_iff receipt).0 first,
              (text_there signature).0 second,
              (text_there declared).0 third,
            ),
        λ h. (both_true _ _).1 (
          (is_truthy_iff receipt).1 h.0,
          (both_true _ _).1 ((text_there signature).1 h.1, (text_there declared).1 h.2),
        ),
      )

-- The page's `verifyReceipt` returns true exactly if the value has a receipt that is not `null`,
-- false, 0, NaN or empty, and a signature and a declared key that are texts and not empty; the
-- signature is 32 bytes, 32 bytes and one byte, and these, with 27 added to the last, recover over
-- the keccak hash of the receipt's JSON text to a key that in lower case is the declared one.
pub verify_receipt-true_iff :
    (host : Host) (ethers : Ethers) (signed : Json)
    → (verify_receipt host ethers signed ≡ true) ↔ IsSelfSigned host ethers signed
unfolding verify_receipt optional
verify_receipt-true_iff host ethers signed = (
  λ h. elim (Bool-cases (has_parts signed)) [
    | inr bad ↦ cc (rw bad at h)
    | inl parts ↦ elim (Option-cases (optional "receipt" (some signed))) [
      | inl bad ↦ cc (rw (parts, bad) at h)
      | inr (receipt, has_receipt) ↦
          elim (Option-cases (as_text (optional "signature" (some signed)))) [
            | inl bad ↦ cc (rw (parts, has_receipt, bad) at h)
            | inr (signature, has_signature) ↦
                elim (Option-cases (recovered_pub_key ethers (stringify receipt) signature)) [
                  | inl bad ↦ cc (rw (parts, has_receipt, has_signature, bad) at h)
                  | inr (signer, recovered) ↦
                      elim (Option-cases (as_text (optional "server_public_key" (some signed)))) [
                        | inl bad ↦ cc (rw (parts, has_receipt, has_signature, recovered, bad) at h)
                        | inr (declared, has_key) ↦
                            let has_text = as_text-eq_some _ signature has_signature in
                            let key_text = as_text-eq_some _ declared has_key in
                            let there =
                              (has_parts_iff signed receipt signature declared has_receipt has_text
                                  key_text).0
                                parts in
                            record {
                              receipt = receipt;
                              signature = signature;
                              declared = declared;
                              signer = signer;
                              has_receipt = has_receipt;
                              has_signature = has_text;
                              has_key = key_text;
                              there = there.0;
                              signature_there = there.1;
                              key_there = there.2;
                              signs =
                                  recovered_pub_key_sound ethers (stringify receipt) signature
                                    signer recovered;
                              same =
                                  (same_key-eq_true host signer declared).0 (
                                    rw (parts, has_receipt, has_signature, recovered, has_key) at
                                      h);
                            }
                      ]
                ]
          ]
    ]
  ],
  λ v.
      rw
        (
          (has_parts_iff signed v.receipt v.signature v.declared v.has_receipt v.has_signature
                v.has_key).1
              (v.there, v.signature_there, v.key_there),
          v.has_receipt,
          v.has_signature,
          v.has_key,
          recovered_pub_key_complete ethers (stringify v.receipt) v.signature v.signer v.signs,
        )
        ((same_key-eq_true host v.signer v.declared).1 v.same),
)
