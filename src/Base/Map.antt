-- ===== src/Base/Map.antt =====
-- `std::map` and `std::unordered_map` as association lists. The order of the entries stands for
-- the order in which the container iterates.
use mathlib.Core.Path.{◌≡◌, refl, subst}
use mathlib.Core.Logic.{inl, inr}
use mathlib.Core.Option.{Option, none, some}
use mathlib.Core.List.{List, [], ◌∷◌}
use Prim.Native.Nat.{◌≤◌, ◌<◌}
use bzapi.Base.Lists.{length, count_if, All}
use native.Mathlib.Omega.{arith}
use bzapi.Base.Tests.{Bool-cases, HasEq, ◌==◌, eq_iff, if◌then◌else◌}

abbrev pub Map {ℓ κ} : Type ℓ → Type κ → Type (ℓ ⊔ κ)
Map K V = List (K × V)

some-injective {ℓ} : {A : Type ℓ} {a b : A} → ◌≡◌ {A = Option A} (some a) (some b) → a ≡ b
some-injective e = cc

module _ {ℓ κ} {K : Type ℓ} {V : Type κ} ⦃has_eq : HasEq K⦄ where
  -- `find(k)`
  unfoldable pub lookup : K → Map K V → Option V
  lookup k [] = none
  lookup k ((j, v) ∷ m) = if j == k then some v else lookup k m

  -- `m[k] = v`: one entry per key.
  unfoldable pub insert : K → V → Map K V → Map K V
  insert key value [] = (key, value) ∷ []
  insert key value ((first, old) ∷ rest) =
      if first == key then (key, value) ∷ rest else (first, old) ∷ insert key value rest

  -- `erase(k)`
  unfoldable pub erase : K → Map K V → Map K V
  erase k [] = []
  erase k ((j, v) ∷ m) = let rest = erase k m in if j == k then rest else (j, v) ∷ rest

  pub lookup-insert :
      (key other : K) (value : V) (m : Map K V)
      → lookup other (insert key value m) ≡ (if key == other then some value else lookup other m)
  unfolding insert lookup
  lookup-insert key other value [] = refl
  lookup-insert key other value ((first, v) ∷ rest) = ground (
    arith,
    lookup-insert key other value rest,
    eq_iff first key,
    eq_iff first other,
    eq_iff key other,
  )

  pub lookup-erase :
      (k j : K) (m : Map K V) → lookup j (erase k m) ≡ (if k == j then none else lookup j m)
  unfolding lookup erase
  lookup-erase k j [] = ground arith
  lookup-erase k j ((i, w) ∷ m) =
      ground (arith, eq_iff k j, eq_iff i k, eq_iff i j, lookup-erase k j m)

  -- The value of a key has what all entries have.
  pub lookup-Holds {μ} :
      (Holds : K → V → Type μ) (k : K) (m : Map K V) (v : V)
      → All (λ e. Holds e.0 e.1) m
      → lookup k m ≡ some v
      → Holds k v
  unfolding lookup
  lookup-Holds Holds k [] v h e = cc
  lookup-Holds Holds k ((j, x) ∷ m) v h e = elim (Bool-cases (j == k)) [
    | inl here ↦
        subst (λ i. Holds i v) ((eq_iff j k).0 here)
          (subst (Holds j) (some-injective (rw here at e)) h.0)
    | inr other ↦ lookup-Holds Holds k m v h.1 (rw other at e)
  ]

  pub length-insert-pos : (k : K) (v : V) (m : Map K V) → 0 < length (insert k v m)
  unfolding insert
  length-insert-pos k v [] = omega arith
  length-insert-pos k v ((j, w) ∷ m) = ground arith

  -- Each key has one entry.
  abbrev pub Distinct : Map K V → Type κ
  Distinct [] = Unit {κ}
  Distinct ((k, v) ∷ m) = (lookup k m ≡ none) × Distinct m

  pub insert-Distinct : (k : K) (v : V) (m : Map K V) → Distinct m → Distinct (insert k v m)
  unfolding insert lookup
  insert-Distinct k v [] d = (refl, tt)
  insert-Distinct k v ((j, w) ∷ m) d =
      ground (arith, eq_iff j k, eq_iff k j, lookup-insert k j v m, insert-Distinct k v m d.1)

  -- How many entries have a given key.
  count_key-none : (k : K) (m : Map K V) → lookup k m ≡ none → count_if (λ e. e.0 == k) m ≡ 0
  unfolding lookup
  count_key-none k [] h = refl
  count_key-none k ((j, w) ∷ m) h = ground (arith, count_key-none k m)

  pub count_key-le : (k : K) (m : Map K V) → Distinct m → count_if (λ e. e.0 == k) m ≤ 1
  count_key-le k [] d = omega arith
  count_key-le k ((j, w) ∷ m) d =
      ground (arith, eq_iff j k, count_key-none j m, count_key-le k m d.1)

pub ruleset map_laws = (lookup-insert, lookup-erase)
