-- ===== src/Prelude/Slices.antt =====
-- Slices and elements in range.
use Prim.Native.Nat.{ℕ, zero, suc, ◌+◌, ◌-◌, ◌≤◌, ◌<◌}
use mathlib.Core.Path.{◌≡◌, refl, ap, ◌∙◌}
use mathlib.Core.List.{List, [], ◌∷◌, ◌++◌}
use native.Mathlib.Omega.{arith}
use mathlib.Core.Bool.{true}
use girc.Prelude.Tests.{leb}
use girc.Prelude.Lists.{length, take, drop, length-append, take-length-append, drop-length-append}
use girc.Prelude.Panics.{
  ok, slice, slice_from, or_panic, element, element_before, slice_before_last,
}

module _ {ℓ} {A : Type ℓ} where
  pub length-drop : (n : ℕ) (xs : List A) → length (drop n xs) ≡ length xs - n
  length-drop zero xs = omega arith
  length-drop (suc n) [] = omega arith
  length-drop (suc n) (x ∷ xs) = omega (arith, length-drop n xs)

  pub slice-eq-ok :
      (s : List A) (lo hi : ℕ)
      → lo ≤ hi
      → hi ≤ length s
      → slice s lo hi ≡ ok (take (hi - lo) (drop lo s))
  unfolding slice
  slice-eq-ok s lo hi p q =
      let low : leb lo hi ≡ true = ground arith in
      let high : leb hi (length s) ≡ true = ground arith in rw low (rw high refl)

  pub slice_from-eq-ok : (s : List A) (lo : ℕ) → lo ≤ length s → slice_from s lo ≡ ok (drop lo s)
  unfolding slice_from
  slice_from-eq-ok s lo p = let low : leb lo (length s) ≡ true = ground arith in rw low refl

  pub element-eq-ok : (s : List A) (i : ℕ) → i < length s → (a : A) × (element s i ≡ ok a)
  unfolding element or_panic
  element-eq-ok [] i h = absurd (omega arith)
  element-eq-ok (x ∷ xs) zero h = (x, refl)
  element-eq-ok (x ∷ xs) (suc i) h = element-eq-ok xs i (omega arith)

  pub element_before-eq-ok :
      (s : List A) (i : ℕ) → 0 < i → i ≤ length s → (a : A) × (element_before s i ≡ ok a)
  unfolding element_before
  element_before-eq-ok s zero p q = absurd (omega arith)
  element_before-eq-ok s (suc i) p q = element-eq-ok s i (omega arith)

  pub slice_before_last-eq-ok :
      (s : List A) → 0 < length s → (front : List A) × (slice_before_last s ≡ ok front)
  unfolding slice_before_last
  slice_before_last-eq-ok [] h = absurd (omega arith)
  slice_before_last-eq-ok (x ∷ s) h =
      (_, slice-eq-ok (x ∷ s) 0 (length s) (omega arith) (omega arith))

  -- What stands behind `u`.
  pub slice_from-append : (u v : List A) (lo : ℕ) → lo ≡ length u → slice_from (u ++ v) lo ≡ ok v
  slice_from-append u v lo at = rw at (
      slice_from-eq-ok (u ++ v) (length u) (omega (arith, length-append u v))
      ∙ ap ok (drop-length-append u v))

  -- What stands between `u` and `v`.
  pub slice-append :
      (u w v : List A) (lo hi : ℕ)
      → lo ≡ length u
      → hi ≡ length u + length w
      → slice (u ++ (w ++ v)) lo hi ≡ ok w
  slice-append u w v lo hi at end =
      slice-eq-ok (u ++ (w ++ v)) lo hi (omega arith)
        (omega (arith, length-append u (w ++ v), length-append w v))
      ∙ ap (λ n. ok (take n (drop lo (u ++ (w ++ v))))) (omega arith)
      ∙ ap (λ n. ok (take (length w) (drop n (u ++ (w ++ v))))) at
      ∙ ap (λ r. ok (take (length w) r)) (drop-length-append u (w ++ v))
      ∙ ap ok (take-length-append w v)
