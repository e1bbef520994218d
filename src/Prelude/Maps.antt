-- ===== src/Prelude/Maps.antt =====
-- A Go `map[string]V` as an association list. The order of a Go map is not observable in what
-- is modelled, except where the source sorts the keys.
use mathlib.Core.Path.{◌≡◌, refl}
use mathlib.Core.Logic.{inl, inr}
use mathlib.Core.List.{List, [], ◌∷◌, map}
use mathlib.Core.Option.{Option, none, some}
use native.Mathlib.Omega.{arith}
use girc.Prelude.Tests.{Bool-cases, if◌then◌else◌}
use girc.Prelude.Strings.{Bytes, beq, beq_iff, beq_refl}

abbrev pub Map {ℓ} : Type ℓ → Type ℓ
Map V = List (Bytes × V)

module _ {ℓ} {V : Type ℓ} where
  -- v, ok := m[k]
  unfoldable pub lookup : Bytes → Map V → Option V
  lookup k [] = none
  lookup k ((j, v) ∷ m) = if beq j k then some v else lookup k m

  -- delete(m, k)
  unfoldable pub delete : Bytes → Map V → Map V
  delete k [] = []
  delete k ((j, v) ∷ m) = let rest = delete k m in if beq j k then rest else (j, v) ∷ rest

  -- m[k] = v
  unfoldable pub insert : Bytes → V → Map V → Map V
  insert key value [] = (key, value) ∷ []
  insert key value ((old_key, old) ∷ rest) =
      if beq old_key key then (key, value) ∷ rest else (old_key, old) ∷ insert key value rest

  pub lookup-delete :
      (k j : Bytes) (m : Map V) → lookup j (delete k m) ≡ (if beq k j then none else lookup j m)
  unfolding lookup delete
  lookup-delete k j [] = ground arith
  lookup-delete k j ((i, v) ∷ m) =
      ground (arith, beq_iff k j, beq_iff i k, beq_iff i j, lookup-delete k j m)

  pub lookup-insert :
      (key other : Bytes) (value : V) (entries : Map V)
      → lookup other (insert key value entries)
        ≡ (if beq key other then some value else lookup other entries)
  unfolding lookup insert
  lookup-insert key other value [] = refl
  lookup-insert key other value ((i, old) ∷ rest) =
      ground (
        arith,
        beq_iff i key,
        beq_iff i other,
        beq_iff key other,
        lookup-insert key other value rest,
      )

module _ {ℓ} {V : Type ℓ} where
  pub lookup-insert_self : (k : Bytes) (v : V) (m : Map V) → lookup k (insert k v m) ≡ some v
  lookup-insert_self k v m = rw (lookup-insert, beq_refl)

module _ {ℓ} {V : Type ℓ} where
  -- Of two writes at one key the second counts.
  pub insert-insert : (k : Bytes) (u v : V) (m : Map V) → insert k v (insert k u m) ≡ insert k v m
  unfolding insert
  insert-insert k u v [] = rw beq_refl
  insert-insert k u v ((j, w) ∷ m) = elim (Bool-cases (beq j k)) [
    | inl e ↦ rw e (rw beq_refl)
    | inr e ↦ rw e (rw e (rw (insert-insert k u v m)))
  ]

-- The keys, in the order in which the entries stand.
unfoldable pub keys {ℓ} : {V : Type ℓ} → Map V → List Bytes
keys m = map (λ e. e.0) m

pub ruleset map_laws = (lookup-delete, lookup-insert)
