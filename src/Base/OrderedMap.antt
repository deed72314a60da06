-- ===== src/Base/OrderedMap.antt =====
-- `std::map` with strings for keys: the entries in the lexicographic order of their keys.
use Prim.Native.Nat.{ℕ}
use mathlib.Core.Path.{◌≡◌, refl}
use mathlib.Core.Bool.{Bool, true, false}
use mathlib.Core.Option.{none, some}
use mathlib.Core.List.{List, [], ◌∷◌}
use native.Mathlib.Omega.{arith}
use bzapi.Base.Tests.{◌==◌, eq_iff, if◌then◌else◌, ltb, list_eq}
use bzapi.Base.Map.{Map, lookup}

-- `operator<` of strings.
bytes_ltb : List ℕ → List ℕ → Bool
bytes_ltb xs [] = false
bytes_ltb [] (y ∷ ys) = true
bytes_ltb (x ∷ xs) (y ∷ ys) = if ltb x y then true else if ltb y x then false else bytes_ltb xs ys

module _ {ℓ} {V : Type ℓ} where
  -- `m[k] = v`
  unfoldable pub assign : List ℕ → V → Map (List ℕ) V → Map (List ℕ) V
  unfolding bytes_ltb
  assign k v [] = (k, v) ∷ []
  assign k v ((j, w) ∷ m) =
      if j == k
      then (k, v) ∷ m
      else if bytes_ltb k j
      then (k, v) ∷ (j, w) ∷ m
      else (j, w) ∷ assign k v m

  -- A change of the value that a key has.
  unfoldable pub modify : List ℕ → (V → V) → Map (List ℕ) V → Map (List ℕ) V
  modify k f [] = []
  modify k f ((j, w) ∷ m) = if j == k then (j, f w) ∷ m else (j, w) ∷ modify k f m

  abbrev pub keys_of : Map (List ℕ) V → List (List ℕ)
  keys_of [] = []
  keys_of ((j, w) ∷ m) = j ∷ keys_of m

  pub lookup-assign :
      (k j : List ℕ) (v : V) (m : Map (List ℕ) V)
      → lookup j (assign k v m) ≡ (if k == j then some v else lookup j m)
  unfolding lookup assign
  lookup-assign k j v [] = refl
  lookup-assign k j v ((i, w) ∷ m) =
      ground (arith, lookup-assign k j v m, eq_iff i k, eq_iff i j, eq_iff k j)

  pub keys_of-modify :
      (k : List ℕ) (f : V → V) (m : Map (List ℕ) V) → keys_of (modify k f m) ≡ keys_of m
  unfolding modify
  keys_of-modify k f [] = refl
  keys_of-modify k f ((j, w) ∷ m) = ground (arith, keys_of-modify k f m)

  pub lookup-modify :
      (k j : List ℕ) (f : V → V) (m : Map (List ℕ) V)
      → lookup j (modify k f m)
        ≡ (if k == j then elim (lookup j m) [ none ↦ none | some w ↦ some (f w) ] else lookup j m)
  unfolding lookup modify
  lookup-modify k j f [] = ground arith
  lookup-modify k j f ((i, w) ∷ m) =
      ground (arith, lookup-modify k j f m, eq_iff i k, eq_iff i j, eq_iff k j)
