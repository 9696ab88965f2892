-- ===== src/Base/Map.antt =====
-- Go maps with string keys: association lists without order. `range` visits the entries in the
-- order of the list; a theorem over every list is one over every order.
use mathlib.Core.Bool.{true, ◌||◌}
use mathlib.Core.List.{List, [], ◌∷◌}
use mathlib.Core.Option.{Option, none, some}
use mathlib.Core.Path.{◌≡◌, refl}
use native.Mathlib.Omega.{arith}
use buildfarm.Base.Text.{Bytes, eqb, eqb_iff}
use buildfarm.Base.Lists.{elem}
use buildfarm.Base.Sort.{IsNodup}
use buildfarm.Base.Tests.{if◌then◌else◌, Bool-cases}
use mathlib.Core.Logic.{inl, inr}

abbrev pub Map {ℓ} : Type ℓ → Type ℓ
Map V = List (Bytes × V)

module _ {ℓ} {V : Type ℓ} where
  -- `v, ok := m[k]`
  unfoldable pub lookup : Bytes → Map V → Option V
  lookup k [] = none
  lookup k ((j, v) ∷ m) = if eqb j k then some v else lookup k m

  -- `m[k] = v`
  unfoldable pub insert : Bytes → V → Map V → Map V
  insert k v [] = (k, v) ∷ []
  insert k v ((j, w) ∷ m) = if eqb j k then (k, v) ∷ m else (j, w) ∷ insert k v m

  -- `delete(m, k)`
  unfoldable pub delete : Bytes → Map V → Map V
  delete k [] = []
  delete k ((j, v) ∷ m) = let rest = delete k m in if eqb j k then rest else (j, v) ∷ rest

  abbrev pub keys : Map V → List Bytes
  keys [] = []
  keys ((k, _) ∷ m) = k ∷ keys m

  pub lookup-insert :
      (k j : Bytes) (v : V) (m : Map V)
      → lookup j (insert k v m) ≡ (if eqb k j then some v else lookup j m)
  unfolding lookup insert
  lookup-insert k j v [] = refl
  lookup-insert k j v ((i, w) ∷ m) =
      ground (arith, eqb_iff k j, eqb_iff i k, eqb_iff i j, lookup-insert k j v m)

  pub lookup-delete :
      (k j : Bytes) (m : Map V) → lookup j (delete k m) ≡ (if eqb k j then none else lookup j m)
  unfolding lookup delete
  lookup-delete k j [] = ground arith
  lookup-delete k j ((i, w) ∷ m) =
      ground (arith, eqb_iff k j, eqb_iff i k, eqb_iff i j, lookup-delete k j m)

  pub elem-keys-insert :
      (k j : Bytes) (v : V) (m : Map V)
      → elem j (keys (insert k v m)) ≡ (eqb k j || elem j (keys m))
  unfolding insert elem
  elem-keys-insert k j v [] = refl
  elem-keys-insert k j v ((i, w) ∷ m) =
      ground (arith, eqb_iff k j, eqb_iff i k, eqb_iff i j, elem-keys-insert k j v m)

  pub insert-IsNodup :
      (k : Bytes) (v : V) (m : Map V) → IsNodup (keys m) → IsNodup (keys (insert k v m))
  unfolding insert elem
  insert-IsNodup k v [] d = (refl, tt)
  insert-IsNodup k v ((i, w) ∷ m) d = elim (Bool-cases (eqb i k)) [
    | inl e ↦ rw e (rw (← (eqb_iff i k).0 e) d.0, d.1)
    | inr e ↦ rw e (
      ground (arith, elem-keys-insert k i v m, eqb_iff k i, eqb_iff i k),
      insert-IsNodup k v m d.1,
    )
  ]

  -- A key is in a map exactly when it has a value there.
  pub lookup_of_elem :
      (k : Bytes) (m : Map V) → elem k (keys m) ≡ true → (v : V) × (lookup k m ≡ some v)
  unfolding lookup elem
  lookup_of_elem k [] h = cc
  lookup_of_elem k ((j, v) ∷ m) h = elim (Bool-cases (eqb j k)) [
    | inl e ↦ (v, rw e)
    | inr e ↦ let (w, p) = lookup_of_elem k m (rw e at h) in (w, rw e p)
  ]

  pub elem_of_lookup :
      (k : Bytes) (m : Map V) (v : V) → lookup k m ≡ some v → elem k (keys m) ≡ true
  unfolding lookup elem
  elem_of_lookup k [] v h = cc
  elem_of_lookup k ((j, w) ∷ m) v h = ground (arith, elem_of_lookup k m v)

pub ruleset map_laws = (lookup-insert, lookup-delete)
