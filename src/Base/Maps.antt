-- ===== src/Base/Maps.antt =====
-- Go's maps as association lists. The program's ranges over a map go in an order that Go does not
-- fix: a list is one such order.
use mathlib.Core.Path.{◌≡◌}
use mathlib.Core.Logic.{◌≢◌, inl, inr}
use mathlib.Core.Bool.{Bool, true, false}
use mathlib.Core.Option.{Option, none, some}
use mathlib.Core.List.{List, [], ◌∷◌}
use native.Mathlib.Omega.{arith}
use interchaintest.Base.Tests.{Comparable, ◌==◌, Bool-cases, if◌then◌else◌}
use interchaintest.Base.Lists.{All, Pairs}

abbrev pub Map {ℓ κ} : Type ℓ → Type κ → Type (ℓ ⊔ κ)
Map K V = List (K × V)

module _ {ℓ κ} {K : Type ℓ} {V : Type κ} ⦃e : Comparable K⦄ where
  unfoldable pub lookup : K → Map K V → Option V
  lookup k [] = none
  lookup k ((j, v) ∷ m) = if j == k then some v else lookup k m

  -- `_, exists := m[k]`
  unfoldable pub has : K → Map K V → Bool
  has k [] = false
  has k ((j, v) ∷ m) = if j == k then true else has k m

  unfoldable pub delete : K → Map K V → Map K V
  delete k [] = []
  delete k ((j, v) ∷ m) = let rest = delete k m in if j == k then rest else (j, v) ∷ rest

  -- `m[k] = v`
  unfoldable pub assign : K → V → Map K V → Map K V
  unfolding delete
  assign k v m = (k, v) ∷ delete k m

  pub lookup-delete :
      (k j : K) (m : Map K V) → lookup j (delete k m) ≡ (if k == j then none else lookup j m)
  unfolding lookup delete
  lookup-delete k j [] = ground arith
  lookup-delete k j ((i, v) ∷ m) =
      ground (arith, lookup-delete k j m, e.same_iff i k, e.same_iff i j, e.same_iff k j)

  pub lookup-assign :
      (k j : K) (v : V) (m : Map K V)
      → lookup j (assign k v m) ≡ (if k == j then some v else lookup j m)
  unfolding lookup assign
  lookup-assign k j v m = ground (arith, lookup-delete k j m)

  pub lookup_of_has : (k : K) (m : Map K V) → has k m ≡ true → (v : V) × (lookup k m ≡ some v)
  unfolding has lookup
  lookup_of_has k [] h = cc
  lookup_of_has k ((j, v) ∷ m) h = elim (Bool-cases (j == k)) [
    | inl e ↦ (v, rw e)
    | inr e ↦ let (w, q) = lookup_of_has k m (rw e at h) in (w, rw e q)
  ]

  pub has-delete :
      (k j : K) (m : Map K V) → has j (delete k m) ≡ (if k == j then false else has j m)
  unfolding has delete
  has-delete k j [] = ground arith
  has-delete k j ((i, v) ∷ m) =
      ground (arith, has-delete k j m, e.same_iff i k, e.same_iff i j, e.same_iff k j)

  pub has-assign :
      (k j : K) (v : V) (m : Map K V) → has j (assign k v m) ≡ (if k == j then true else has j m)
  unfolding has assign
  has-assign k j v m = ground (arith, has-delete k j m)

  pub All-delete {μ} : (P : K × V → Type μ) (k : K) (m : Map K V) → All P m → All P (delete k m)
  unfolding delete
  All-delete P k [] h = tt
  All-delete P k ((j, v) ∷ m) h = ground (arith, All-delete P k m h.1)

  pub Pairs-delete {μ} :
      (R : K × V → K × V → Type μ) (k : K) (m : Map K V) → Pairs R m → Pairs R (delete k m)
  unfolding delete
  Pairs-delete R k [] h = tt
  Pairs-delete R k ((j, v) ∷ m) h =
      ground (arith, Pairs-delete R k m h.1, All-delete (R (j, v)) k m h.0)

  pub delete-ne : (k : K) (m : Map K V) → All (λ p. p.0 ≢ k) (delete k m)
  unfolding delete
  delete-ne k [] = tt
  delete-ne k ((j, v) ∷ m) = ground (arith, delete-ne k m, e.same_iff j k)

module _ {ℓ κ} {K : Type ℓ} {V : Type κ} ⦃e : Comparable K⦄ where
  -- `m[k]` of a map of slices or sets: the nil one, if there is none.
  unfoldable pub get_list : K → Map K (List V) → List V
  get_list k m = elim (lookup k m) [ none ↦ [] | some l ↦ l ]

  pub get_list-assign :
      (k j : K) (l : List V) (m : Map K (List V))
      → get_list j (assign k l m) ≡ (if k == j then l else get_list j m)
  unfolding get_list
  get_list-assign k j l m = ground (arith, lookup-assign k j l m)
