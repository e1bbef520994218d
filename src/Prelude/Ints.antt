-- ===== src/Prelude/Ints.antt =====
-- Go's `int` as a sign and a native number, and strconv.Atoi.
use Prim.Native.Nat.{ℕ, ◌+◌, ◌-◌, ◌*◌, ◌%◌}
use mathlib.Core.Bool.{Bool, true, false, not}
use mathlib.Core.List.{[], ◌∷◌}
use mathlib.Core.Option.{Option, none, some}
use girc.Prelude.Tests.{ltb, leb, ◌==◌, if◌then◌else◌}
use girc.Prelude.Strings.{Bytes, within}

-- `negsuc n` is -(n + 1).
pub data ℤ : Type 0 where
  pos : ℕ → ℤ
  negsuc : ℕ → ℤ

-- `a - b` of two numbers that are not negative
abbrev pub difference : ℕ → ℕ → ℤ
difference a b = if ltb a b then negsuc (b - a - 1) else pos (a - b)

infixl 65 ◌+ℤ◌
abbrev pub ◌+ℤ◌ : ℤ → ℤ → ℤ
pos a +ℤ pos b = pos (a + b)
pos a +ℤ negsuc b = difference a (b + 1)
negsuc a +ℤ pos b = difference b (a + 1)
negsuc a +ℤ negsuc b = negsuc (a + b + 1)

-- `-a`
abbrev pub opposite : ℤ → ℤ
opposite (pos a) = difference 0 a
opposite (negsuc a) = pos (a + 1)

-- `a < b`
abbrev pub less : ℤ → ℤ → Bool
less (pos a) (pos b) = ltb a b
less (pos a) (negsuc b) = false
less (negsuc a) (pos b) = true
less (negsuc a) (negsuc b) = ltb b a

-- The 64-bit number with the bits of `n`.
from_bits : ℕ → ℤ
from_bits n = if ltb n 9223372036854775808 then pos n else difference n 18446744073709551616

-- The result of an operation on `int`, which wraps around at 64 bits.
unfoldable pub wrap : ℤ → ℤ
unfolding from_bits
wrap (pos n) = from_bits (n % 18446744073709551616)
wrap (negsuc n) = from_bits (18446744073709551615 - n % 18446744073709551616)

-- The number that the digits write, or one that is too large as soon as it is; `none` at a byte
-- that is no digit.
digits : ℕ → Bytes → Option ℕ
digits n [] = some n
digits n (c ∷ s) =
    let next = n * 10 + (c - b'0') in
    let rest = digits next s in
    if not (within b'0' b'9' c)
    then none
    else if ltb next 18446744073709551616
    then rest
    else some next

unsigned : Bytes → Option ℕ
unfolding digits
unsigned [] = none
unsigned (c ∷ s) = digits 0 (c ∷ s)

signed : Bool → Option ℕ → ℤ × Bool
signed negative none = (pos 0, false)
signed true (some n) =
    if leb n 9223372036854775808
    then (difference 0 n, true)
    else (difference 0 9223372036854775808, false)
signed false (some n) =
    if ltb n 9223372036854775808 then (pos n, true) else (pos 9223372036854775807, false)

-- `strconv.Atoi(s)`: the number, and whether there was no error.
unfoldable pub atoi : Bytes → ℤ × Bool
unfolding unsigned signed
atoi [] = (pos 0, false)
atoi (c ∷ s) =
    if c == b'-'
    then signed true (unsigned s)
    else if c == b'+'
    then signed false (unsigned s)
    else signed false (unsigned (c ∷ s))
