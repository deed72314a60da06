-- ===== src/Base/Tests.antt =====
-- Boolean tests, the conditional, and equality as an interface with instances.
use Prim.Native.Nat.{ℕ, compare, Ordering, ◌<◌}
use mathlib.Core.Path.{◌≡◌, refl}
use mathlib.Core.Logic.{◌↔◌, ◌⊎◌, inl, inr}
use mathlib.Core.Bool.{Bool, true, false, ◌&&◌}
use mathlib.Core.List.{List, [], ◌∷◌}
use mathlib.Core.Option.{Option, none, some}
use native.Mathlib.Omega.{arith}

abbrev pub ltb : ℕ → ℕ → Bool
ltb a b = elim (compare a b) [ Ordering.lt ↦ true | _ ↦ false ]

abbrev pub leb : ℕ → ℕ → Bool
leb a b = elim (compare a b) [ Ordering.gt ↦ false | _ ↦ true ]

abbrev pub nat_beq : ℕ → ℕ → Bool
nat_beq a b = elim (compare a b) [ Ordering.eq ↦ true | _ ↦ false ]

infix 1 if◌then◌else◌
abbrev pub if◌then◌else◌ {ℓ} : {A : Type ℓ} → Bool → A → A → A
if true then x else y = x
if false then x else y = y

pub if-true {ℓ} : {A : Type ℓ} (x y : A) (b : Bool) → b ≡ true → (if b then x else y) ≡ x
if-true x y true e = refl
if-true x y false e = cc

pub if-false {ℓ} : {A : Type ℓ} (x y : A) (b : Bool) → b ≡ false → (if b then x else y) ≡ y
if-false x y true e = cc
if-false x y false e = refl

pub not_positive : 0 < 0 → ⊥
not_positive h = omega arith

pub nat_beq_iff : (a b : ℕ) → (nat_beq a b ≡ true) ↔ (a ≡ b)
nat_beq_iff a b = ground arith

pub Bool-cases : (b : Bool) → (b ≡ true) ⊎ (b ≡ false)
Bool-cases true = inl refl
Bool-cases false = inr refl

pub Option-cases {ℓ} : {A : Type ℓ} (o : Option A) → (o ≡ none) ⊎ ((a : A) × (o ≡ some a))
Option-cases none = inl refl
Option-cases (some a) = inr (a, refl)

-- `operator==` of a key type, with what it decides.
pub record HasEq {ℓ} (K : Type ℓ) : Type ℓ where
  pub equals : K → K → Bool
  pub equals_iff : (x y : K) → (equals x y ≡ true) ↔ (x ≡ y)

instance abbrev pub nat_eq : HasEq ℕ
nat_eq = record { equals = nat_beq; equals_iff = nat_beq_iff }

infix 50 ◌==◌
abbrev pub ◌==◌ {ℓ} : {K : Type ℓ} ⦃has_eq : HasEq K⦄ → K → K → Bool
◌==◌ ⦃has_eq⦄ = has_eq.equals

pub eq_iff {ℓ} : {K : Type ℓ} ⦃has_eq : HasEq K⦄ (x y : K) → ((x == y) ≡ true) ↔ (x ≡ y)
eq_iff ⦃has_eq⦄ = has_eq.equals_iff

pub eq_refl {ℓ} : {K : Type ℓ} ⦃has_eq : HasEq K⦄ (x : K) → (x == x) ≡ true
eq_refl x = (eq_iff x x).1 refl

-- `operator==` of a sequence of numbers: of a C++ string, byte by byte.
unfoldable pub list_beq : List ℕ → List ℕ → Bool
list_beq [] [] = true
list_beq [] (y ∷ ys) = false
list_beq (x ∷ xs) [] = false
list_beq (x ∷ xs) (y ∷ ys) = nat_beq x y && list_beq xs ys

list_beq_sound : (xs ys : List ℕ) → list_beq xs ys ≡ true → xs ≡ ys
unfolding list_beq
list_beq_sound [] [] h = refl
list_beq_sound [] (y ∷ ys) h = cc
list_beq_sound (x ∷ xs) [] h = cc
list_beq_sound (x ∷ xs) (y ∷ ys) h = ground (arith, list_beq_sound xs ys)

list_beq_refl : (xs : List ℕ) → list_beq xs xs ≡ true
unfolding list_beq
list_beq_refl [] = refl
list_beq_refl (x ∷ xs) = ground (arith, list_beq_refl xs)

pub list_beq_iff : (xs ys : List ℕ) → (list_beq xs ys ≡ true) ↔ (xs ≡ ys)
list_beq_iff xs ys = (list_beq_sound xs ys, λ e. rw e (list_beq_refl ys))

instance abbrev pub list_eq : HasEq (List ℕ)
list_eq = record { equals = list_beq; equals_iff = list_beq_iff }
