-- ===== src/Base/Outcome.antt =====
-- What a call of a C++ function comes to: it returns, it throws, or its behaviour is undefined
-- (a null pointer or an end iterator is dereferenced).
use mathlib.Core.Path.{◌≡◌, refl, subst}

pub data Outcome {ℓ} (A : Type ℓ) : Type ℓ where
  done : A → Outcome A
  threw : Outcome A
  undefined : Outcome A

infixl 5 ◌>>=◌
abbrev pub ◌>>=◌ {ℓ κ} : {A : Type ℓ} {B : Type κ} → Outcome A → (A → Outcome B) → Outcome B
done a >>= f = f a
threw >>= f = threw
undefined >>= f = undefined

-- Inversion of a bind that returns.
pub >>=-eq-done {ℓ κ} :
    {A : Type ℓ} {B : Type κ} (m : Outcome A) (f : A → Outcome B) {b : B}
    → (m >>= f) ≡ done b
    → (a : A) × (m ≡ done a) × (f a ≡ done b)
>>=-eq-done (done a) f h = (a, refl, h)
>>=-eq-done threw f h = cc
>>=-eq-done undefined f h = cc

-- What holds of the value that a call returns.
pub done-returns {ℓ κ} :
    {A : Type ℓ} (Holds : A → Type κ) {a b : A}
    → ◌≡◌ {A = Outcome A} (done a) (done b)
    → Holds a
    → Holds b
done-returns Holds e holds = subst Holds (done-injective e) holds
  where
    done-injective : {A : Type ℓ} {a b : A} → ◌≡◌ {A = Outcome A} (done a) (done b) → a ≡ b
    done-injective e = cc
