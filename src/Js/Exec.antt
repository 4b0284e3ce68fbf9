-- ===== src/Js/Exec.antt =====
-- Calls that return a value or throw. `Result E A` is the outcome of code that only computes;
-- `Exec S E A` also acts on a state, and what it did before it threw stays done.

pub data Result {ℓ} (E A : Type ℓ) : Type ℓ where
  ok : A → Result E A
  throw : E → Result E A

abbrev pub Exec {ℓ} : Type ℓ → Type ℓ → Type ℓ → Type ℓ
Exec S E A = S → Result E A × S

-- `try { … } catch (error) { throw handler(error) }` around a call that ended with this result.
abbrev pub rethrow_result {ℓ} : {E A : Type ℓ} → (E → E) → Result E A → Result E A
rethrow_result handler (ok a) = ok a
rethrow_result handler (throw e) = throw (handler e)

module _ {ℓ} {S E A : Type ℓ} where
  abbrev pub pure : A → Exec S E A
  pure a s = (ok a, s)

  abbrev pub raise : E → Exec S E A
  raise e s = (throw e, s)

  abbrev pub lift : Result E A → Exec S E A
  lift r s = (r, s)

  abbrev pub rethrow : (E → E) → Exec S E A → Exec S E A
  rethrow handler m s = let (r, s') = m s in (rethrow_result handler r, s')

module _ {ℓ} {S E A B : Type ℓ} where
  abbrev pub continue : Result E A → (A → Exec S E B) → Exec S E B
  continue (ok a) f s = f a s
  continue (throw e) f s = (throw e, s)

  infixl 5 ◌>>=◌ ◌>>◌
  abbrev pub ◌>>=◌ : Exec S E A → (A → Exec S E B) → Exec S E B
  ◌>>=◌ m f s = let (r, s') = m s in continue r f s'

  abbrev pub ◌>>◌ : Exec S E A → Exec S E B → Exec S E B
  m >> k = m >>= λ _. k
