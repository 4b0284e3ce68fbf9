-- ===== src/Web/VerifyReceipt/Parts.antt =====
-- web/src/lib/verify-receipt.ts: the bytes of a signature, and which values are there.
use mathlib.Core.Path.{subst}
use native.Mathlib.Numerals.{unary_clauses}
use micro_ai_paygate.Prelude.{
  ℕ, zero, suc, ◌+◌, ◌-◌, arith, ◌≡◌, ◌↔◌, ◌∙◌, refl, ap, sym, true, false, List, [], ◌∷◌, ◌++◌,
  length, length-append, length-take, take, drop, some,
}
use micro_ai_paygate.Js.Json.{
  Json, null, bool, num, str, arr, obj, int, pos, negsuc, frac, infinity, nan,
}
use micro_ai_paygate.Js.Host.{Bytes}
use micro_ai_paygate.Sdk.Receipts.Verify.{last_byte}
use micro_ai_paygate.Web.Errors.{is_truthy}

-- The values that JavaScript takes for false; `undefined` aside.
pub data IsFalsy : Json → Type 0 where
  is_null : IsFalsy null
  is_false : IsFalsy (bool false)
  is_nan : IsFalsy (num nan)
  is_zero : IsFalsy (num (int (pos 0)))
  is_empty : IsFalsy (str [])

pub is_truthy_iff : (v : Json) → (is_truthy (some v) ≡ true) ↔ ¬ IsFalsy v
unfolding is_truthy
is_truthy_iff null = (λ h. cc, λ h. elim (h is_null) [ ])
is_truthy_iff (bool false) = (λ h. cc, λ h. elim (h is_false) [ ])
is_truthy_iff (bool true) = (λ h f. elim f [ ], λ h. refl)
is_truthy_iff (num nan) = (λ h. cc, λ h. elim (h is_nan) [ ])
is_truthy_iff (num (int (pos zero))) = (λ h. cc, λ h. elim (h is_zero) [ ])
is_truthy_iff (num (int (pos (suc n)))) = (λ h f. elim f [ ], λ h. refl)
is_truthy_iff (num (int (negsuc n))) = (λ h f. elim f [ ], λ h. refl)
is_truthy_iff (num (frac b t)) = (λ h f. elim f [ ], λ h. refl)
is_truthy_iff (num (infinity b)) = (λ h f. elim f [ ], λ h. refl)
is_truthy_iff (str []) = (λ h. cc, λ h. elim (h is_empty) [ ])
is_truthy_iff (str (c ∷ s)) = (λ h f. elim f [ ], λ h. refl)
is_truthy_iff (arr xs) = (λ h f. elim f [ ], λ h. refl)
is_truthy_iff (obj fs) = (λ h f. elim f [ ], λ h. refl)

take-drop : {A : Type 0} (n : ℕ) (xs : List A) → xs ≡ take n xs ++ drop n xs
take-drop zero xs = refl
take-drop (suc n) [] = refl
take-drop (suc n) (x ∷ xs) = ap (λ t. x ∷ t) (take-drop n xs)

length-drop : {A : Type 0} (n : ℕ) (xs : List A) → length (drop n xs) ≡ length xs - n
length-drop zero xs = omega arith
length-drop (suc n) [] = omega arith
length-drop (suc n) (x ∷ xs) = omega (arith, length-drop n xs)

zero_add : (m : ℕ) → m ≡ 0 + m
zero_add m = omega arith

suc_add : (n m : ℕ) → suc (n + m) ≡ suc n + m
suc_add n m = omega arith

drop-drop : {A : Type 0} (n m : ℕ) (xs : List A) → drop m (drop n xs) ≡ drop (n + m) xs
drop-drop zero m xs = ap (λ k. drop k xs) (zero_add m)
drop-drop (suc n) zero [] = simp unary_clauses refl
drop-drop (suc n) (suc m) [] = simp unary_clauses refl
drop-drop (suc n) m (x ∷ xs) = drop-drop n m xs ∙ ap (λ k. drop k (x ∷ xs)) (suc_add n m)

take-append : {A : Type 0} (xs ys : List A) → take (length xs) (xs ++ ys) ≡ xs
take-append [] ys = refl
take-append (x ∷ xs) ys = ap (λ t. x ∷ t) (take-append xs ys)

drop-append : {A : Type 0} (xs ys : List A) → drop (length xs) (xs ++ ys) ≡ ys
drop-append [] ys = refl
drop-append (x ∷ xs) ys = drop-append xs ys

-- The parts of a signature: 32 bytes, 32 bytes and one.
pub record IsSplit (sig_bytes r_bytes s_bytes : Bytes) (recovery_id : ℕ) : Type 0 where
  pub whole : sig_bytes ≡ r_bytes ++ (s_bytes ++ (recovery_id ∷ []))
  pub r_size : length r_bytes ≡ 32
  pub s_size : length s_bytes ≡ 32

one_byte : (xs : Bytes) → length xs ≡ 1 → xs ≡ (elim xs [ [] ↦ 0 | b ∷ rest ↦ b ]) ∷ []
one_byte [] h = absurd (omega (arith, h))
one_byte (b ∷ []) h = refl
one_byte (b ∷ c ∷ xs) h = absurd (omega (arith, h))

pub IsSplit-take :
    (xs : Bytes) → length xs ≡ 65 → IsSplit xs (take 32 xs) (take 32 (drop 32 xs)) (last_byte xs)
unfolding last_byte
IsSplit-take xs size =
    let last = one_byte (drop 64 xs) (length-drop 64 xs ∙ omega (arith, size)) in
    record {
      whole =
          take-drop 32 xs
          ∙ ap (λ t. take 32 xs ++ t)
              (take-drop 32 (drop 32 xs)
                ∙ ap (λ t. take 32 (drop 32 xs) ++ t) (drop-drop 32 32 xs ∙ last));
      r_size = length-take 32 xs ∙ rw size refl;
      s_size = length-take 32 (drop 32 xs) ∙ rw (length-drop 32 xs, size) refl;
    }

-- The parts that the code takes are the only ones.
pub IsSplit-eq :
    {xs r_bytes s_bytes : Bytes} {recovery_id : ℕ}
    → IsSplit xs r_bytes s_bytes recovery_id
    → (take 32 xs ≡ r_bytes)
      × (take 32 (drop 32 xs) ≡ s_bytes)
      × (last_byte xs ≡ recovery_id)
      × (length xs ≡ 65)
unfolding last_byte
IsSplit-eq {xs} {r_bytes} {s_bytes} {recovery_id} h =
    let rest : drop 32 xs ≡ s_bytes ++ (recovery_id ∷ []) =
      ap (drop 32) h.whole
      ∙ subst
          (λ n. drop n (r_bytes ++ (s_bytes ++ (recovery_id ∷ []))) ≡ s_bytes ++ (recovery_id ∷ []))
          h.r_size (drop-append r_bytes _) in
    let last : drop 64 xs ≡ recovery_id ∷ [] =
      sym (drop-drop 32 32 xs)
      ∙ ap (drop 32) rest
      ∙ subst (λ n. drop n (s_bytes ++ (recovery_id ∷ [])) ≡ recovery_id ∷ []) h.s_size
          (drop-append s_bytes _) in
    (
      ap (take 32) h.whole
          ∙ subst (λ n. take n (r_bytes ++ (s_bytes ++ (recovery_id ∷ []))) ≡ r_bytes) h.r_size
              (take-append r_bytes _),
      ap (take 32) rest
          ∙ subst (λ n. take n (s_bytes ++ (recovery_id ∷ [])) ≡ s_bytes) h.s_size
              (take-append s_bytes _),
      rw (last, last_byte) refl,
      ap length h.whole
          ∙ rw
              (
                length-append r_bytes (s_bytes ++ (recovery_id ∷ [])),
                length-append s_bytes (recovery_id ∷ []),
                h.r_size,
                h.s_size,
              )
              refl,
    )
