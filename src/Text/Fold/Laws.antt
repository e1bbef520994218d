-- ===== src/Text/Fold/Laws.antt =====
-- What a second `ToRFC1459` does, and which names compare equal.
use girc.Prelude.{
  ℕ, ◌+◌, ◌*◌, ◌≡◌, ◌↔◌, refl, ap, arith, [], ◌∷◌, ◌++◌, ltb, if◌then◌else◌, Bytes, IsAscii, length,
  length-append,
}
use girc.Text.Fold.{to_rfc1459, fold_byte, IsSettled}

-- The bytes outside ASCII.
abbrev pub high : Bytes → ℕ
high [] = 0
high (c ∷ s) = (if ltb c 128 then 0 else 1) + high s

high-append : (a b : Bytes) → high (a ++ b) ≡ high a + high b
high-append [] b = omega arith
high-append (x ∷ a) b = omega (arith, high-append a b)

length-fold_byte : (c : ℕ) → length (fold_byte c) ≡ 1 + high (c ∷ [])
unfolding fold_byte
length-fold_byte c = ground arith

high-fold_byte : (c : ℕ) → high (fold_byte c) ≡ 2 * high (c ∷ [])
unfolding fold_byte
high-fold_byte c = ground arith

-- Each byte outside ASCII makes the result one byte longer.
pub length-to_rfc1459 : (s : Bytes) → length (to_rfc1459 s) ≡ length s + high s
unfolding to_rfc1459
length-to_rfc1459 [] = refl
length-to_rfc1459 (c ∷ s) =
    omega
      (arith, length-append (fold_byte c) (to_rfc1459 s), length-fold_byte c, length-to_rfc1459 s)

pub high-to_rfc1459 : (s : Bytes) → high (to_rfc1459 s) ≡ 2 * high s
unfolding to_rfc1459
high-to_rfc1459 [] = refl
high-to_rfc1459 (c ∷ s) =
    omega (arith, high-append (fold_byte c) (to_rfc1459 s), high-fold_byte c, high-to_rfc1459 s)

IsAscii-iff : (s : Bytes) → (high s ≡ 0) ↔ IsAscii s
IsAscii-iff [] = (λ h. tt, λ h. refl)
IsAscii-iff (c ∷ s) = ground (arith, IsAscii-iff s)

pub IsAscii-IsSettled : (s : Bytes) → IsAscii s → IsSettled s
unfolding to_rfc1459
IsAscii-IsSettled [] h = refl
IsAscii-IsSettled (c ∷ s) h = ground (arith, IsAscii-IsSettled s h.1)

-- A second `ToRFC1459` changes nothing exactly when the name is ASCII.
IsSettled-iff : (s : Bytes) → IsSettled s ↔ IsAscii s
IsSettled-iff s = (
  λ h. (IsAscii-iff s).0 (
      omega (
        arith,
        ap (λ t. length t) h,
        length-to_rfc1459 s,
        high-to_rfc1459 s,
        length-to_rfc1459 (to_rfc1459 s),
      )),
  IsAscii-IsSettled s,
)
