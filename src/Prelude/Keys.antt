-- ===== src/Prelude/Keys.antt =====
-- The keys of a map, and how many entries it has.
use Prim.Native.Nat.{◌+◌, ◌≤◌}
use mathlib.Core.Path.{◌≡◌, refl}
use mathlib.Core.Bool.{◌&&◌}
use mathlib.Core.List.{[], ◌∷◌}
use mathlib.Core.Option.{some}
use native.Mathlib.Omega.{arith}
use girc.Prelude.Tests.{◌==◌, if◌then◌else◌, is_some}
use girc.Prelude.Lists.{length}
use girc.Prelude.Strings.{Bytes, beq, beq_iff}
use girc.Prelude.Maps.{Map, lookup, insert, delete, keys}
use girc.Prelude.Sort.{count}

module _ {ℓ} {V : Type ℓ} where
  pub count-keys-insert :
      (k j : Bytes) (v : V) (m : Map V)
      → count j (keys (insert k v m))
        ≡ (if beq k j && count j (keys m) == 0 then 1 else count j (keys m))
  unfolding count keys insert
  count-keys-insert k j v [] = ground (arith, beq_iff k j)
  count-keys-insert k j v ((i, w) ∷ m) =
      ground (arith, beq_iff i k, beq_iff i j, beq_iff k j, count-keys-insert k j v m)

  pub count-keys-delete :
      (k j : Bytes) (m : Map V)
      → count j (keys (delete k m)) ≡ (if beq k j then 0 else count j (keys m))
  unfolding count keys delete
  count-keys-delete k j [] = ground arith
  count-keys-delete k j ((i, w) ∷ m) =
      ground (arith, beq_iff i k, beq_iff i j, beq_iff k j, count-keys-delete k j m)

  pub length-insert :
      (k : Bytes) (v : V) (m : Map V)
      → length (insert k v m) ≡ length m + (if is_some (lookup k m) then 0 else 1)
  unfolding insert lookup
  length-insert k v [] = refl
  length-insert k v ((i, w) ∷ m) = ground (arith, length-insert k v m)

  pub length-delete : (k : Bytes) (m : Map V) → length (delete k m) + count k (keys m) ≡ length m
  unfolding delete count keys
  length-delete k [] = omega arith
  length-delete k ((i, w) ∷ m) = ground (arith, length-delete k m)

  pub count-lookup :
      (k : Bytes) (m : Map V) (v : V) → lookup k m ≡ some v → 0 + 1 ≤ count k (keys m)
  unfolding count keys lookup
  count-lookup k [] v h = cc
  count-lookup k ((i, w) ∷ m) v h = ground (arith, count-lookup k m v)
