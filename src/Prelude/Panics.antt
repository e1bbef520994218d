-- ===== src/Prelude/Panics.antt =====
-- What a Go expression may do: give a value, or panic (a nil dereference, an index out of range).
use Prim.Native.Nat.{ℕ, zero, suc, ◌-◌}
use mathlib.Core.Bool.{◌&&◌}
use mathlib.Core.List.{List, [], ◌∷◌}
use mathlib.Core.Option.{Option, none, some}
use girc.Prelude.Tests.{leb, if◌then◌else◌}
use girc.Prelude.Lists.{length, take, drop, get_elem?}

pub data Outcome {ℓ} (A : Type ℓ) : Type ℓ where
  ok : A → Outcome A
  panic : Outcome A

infixl 5 ◌>>=◌
abbrev pub ◌>>=◌ {ℓ κ} : {A : Type ℓ} {B : Type κ} → Outcome A → (A → Outcome B) → Outcome B
ok a >>= f = f a
panic >>= f = panic

module _ {ℓ} {A : Type ℓ} where
  -- `s[lo:hi]`
  unfoldable pub slice : List A → ℕ → ℕ → Outcome (List A)
  slice s lo hi = if leb lo hi && leb hi (length s) then ok (take (hi - lo) (drop lo s)) else panic

  -- `s[lo:]`
  unfoldable pub slice_from : List A → ℕ → Outcome (List A)
  slice_from s lo = if leb lo (length s) then ok (drop lo s) else panic

  unfoldable pub or_panic : Option A → Outcome A
  or_panic none = panic
  or_panic (some a) = ok a

  -- `s[i]`
  unfoldable pub element : List A → ℕ → Outcome A
  unfolding or_panic
  element s i = or_panic (get_elem? s i)

  -- `s[i-1]`
  unfoldable pub element_before : List A → ℕ → Outcome A
  unfolding element
  element_before s zero = panic
  element_before s (suc i) = element s i

  -- `s[0:len(s)-1]`, where the upper end is -1 on an empty s.
  unfoldable pub slice_before_last : List A → Outcome (List A)
  slice_before_last [] = panic
  slice_before_last (x ∷ s) = slice (x ∷ s) 0 (length s)
