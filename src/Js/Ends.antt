-- ===== src/Js/Ends.antt =====
-- What holds where a call ends: of the value and the state if it returns, of the error and the
-- state if it throws. One rule for each way to build a call.
use mathlib.Core.Path.{subst}
use micro_ai_paygate.Prelude.{◌≡◌, refl, ◌⊎◌, inl, inr, Bool, true, false, if◌then◌else◌}
use micro_ai_paygate.Js.Exec.{Result, ok, throw, Exec, rethrow, rethrow_result, ◌>>=◌, continue}

abbrev EndsAt {ℓ} : {S E A : Type ℓ} → (A → S → Type ℓ) → (E → S → Type ℓ) → Result E A × S → Type ℓ
EndsAt P Q (ok a, s) = P a s
EndsAt P Q (throw e, s) = Q e s

pub record Ends {ℓ} {S E A : Type ℓ} (P : A → S → Type ℓ) (Q : E → S → Type ℓ)
    (end : Result E A × S) : Type ℓ where
  at : EndsAt P Q end

pub Result-cases {ℓ} :
    {E A : Type ℓ} (r : Result E A) → ((a : A) × (r ≡ ok a)) ⊎ ((e : E) × (r ≡ throw e))
Result-cases (ok a) = inl (a, refl)
Result-cases (throw e) = inr (e, refl)

module _ {ℓ} {S E A : Type ℓ} {P : A → S → Type ℓ} {Q : E → S → Type ℓ} where
  pub Ends-ok : (a : A) (s : S) → P a s → Ends P Q (ok a, s)
  Ends-ok a s h = record { at = h }

  pub Ends-throw : (e : E) (s : S) → Q e s → Ends P Q (throw e, s)
  Ends-throw e s h = record { at = h }

  -- A result that is only computed leaves the state.
  pub Ends-lift :
      (r : Result E A) (s : S)
      → ((a : A) → r ≡ ok a → P a s)
      → ((e : E) → r ≡ throw e → Q e s)
      → Ends P Q (r, s)
  Ends-lift (ok a) s returned thrown = record { at = returned a refl }
  Ends-lift (throw e) s returned thrown = record { at = thrown e refl }

  pub Ends-if :
      (b : Bool) (m n : Exec S E A) (s : S)
      → (b ≡ true → Ends P Q (m s))
      → (b ≡ false → Ends P Q (n s))
      → Ends P Q ((if b then m else n) s)
  Ends-if true m n s km kn = km refl
  Ends-if false m n s km kn = kn refl

  pub Ends-eq_ok : (end : Result E A × S) (a : A) → Ends P Q end → end.0 ≡ ok a → P a end.1
  Ends-eq_ok (ok b, s) a h e = subst (λ x. P x s) (cc) h.at
  Ends-eq_ok (throw b, s) a h e = cc

  pub Ends-eq_throw : (end : Result E A × S) (e : E) → Ends P Q end → end.0 ≡ throw e → Q e end.1
  Ends-eq_throw (ok b, s) e h p = cc
  Ends-eq_throw (throw b, s) e h p = subst (λ x. Q x s) (cc) h.at

-- What holds of the state on both ways out.
pub Ends-state {ℓ} :
    {S E A : Type ℓ} (P : S → Type ℓ) (end : Result E A × S) → Ends (λ _. P) (λ _. P) end → P end.1
Ends-state P (ok a, s) h = h.at
Ends-state P (throw e, s) h = h.at

module _ {ℓ} {S E A : Type ℓ} {P P' : A → S → Type ℓ} {Q Q' : E → S → Type ℓ} where
  pub Ends-weaken :
      (end : Result E A × S)
      → Ends P' Q' end
      → ((a : A) (s : S) → P' a s → P a s)
      → ((e : E) (s : S) → Q' e s → Q e s)
      → Ends P Q end
  Ends-weaken (ok a, s) h kp kq = record { at = kp a s h.at }
  Ends-weaken (throw e, s) h kp kq = record { at = kq e s h.at }

module _ {ℓ} {S E A : Type ℓ} {P : A → S → Type ℓ} {Q Q' : E → S → Type ℓ} where
  Ends-rethrow_result :
      (handler : E → E) (end : Result E A × S)
      → Ends P Q' end
      → ((e : E) (s : S) → Q' e s → Q (handler e) s)
      → Ends P Q (rethrow_result handler end.0, end.1)
  Ends-rethrow_result handler (ok a, s) h k = record { at = h.at }
  Ends-rethrow_result handler (throw e, s) h k = record { at = k e s h.at }

  pub Ends-rethrow :
      (handler : E → E) (m : Exec S E A) (s : S)
      → Ends P Q' (m s)
      → ((e : E) (s' : S) → Q' e s' → Q (handler e) s')
      → Ends P Q (rethrow handler m s)
  Ends-rethrow handler m s h k = Ends-rethrow_result handler (m s) h k

module _ {ℓ} {S E A B : Type ℓ} {P : A → S → Type ℓ} {R : B → S → Type ℓ} {Q : E → S → Type ℓ} where
  Ends-continue :
      (end : Result E A × S) (f : A → Exec S E B)
      → Ends P Q end
      → ((a : A) (s : S) → P a s → Ends R Q (f a s))
      → Ends R Q (continue end.0 f end.1)
  Ends-continue (ok a, s) f h k = k a s h.at
  Ends-continue (throw e, s) f h k = record { at = h.at }

  pub Ends-bind :
      (m : Exec S E A) (f : A → Exec S E B) (s : S)
      → Ends P Q (m s)
      → ((a : A) (s' : S) → P a s' → Ends R Q (f a s'))
      → Ends R Q ((m >>= f) s)
  Ends-bind m f s h k = Ends-continue (m s) f h k

-- Nothing is claimed.
pub Ends-any {ℓ} :
    {S E A : Type ℓ} (end : Result E A × S)
    → Ends (λ (a : A) (s : S). Unit {ℓ}) (λ (e : E) (s : S). Unit {ℓ}) end
Ends-any (ok a, s) = record { at = tt }
Ends-any (throw e, s) = record { at = tt }
