-- ===== src/Prelude/Sort.antt =====
-- `sort.Strings`, by insertion, and the number of times that a string stands in a list.
use Prim.Native.Nat.{ℕ, suc, ◌+◌}
use mathlib.Core.Path.{◌≡◌, refl}
use mathlib.Core.Bool.{Bool, true, false, ◌&&◌, ◌||◌}
use mathlib.Core.List.{List, [], ◌∷◌, ◌++◌}
use native.Mathlib.Omega.{arith}
use girc.Prelude.Tests.{ltb, ◌==◌, if◌then◌else◌}
use girc.Prelude.Lists.{length}
use girc.Prelude.Strings.{Bytes, beq}

-- `a < b` on strings: bytewise, a prefix first.
unfoldable pub string_lt : Bytes → Bytes → Bool
string_lt xs [] = false
string_lt [] (y ∷ ys) = true
string_lt (x ∷ xs) (y ∷ ys) = ltb x y || x == y && string_lt xs ys

unfoldable pub insert_sorted : Bytes → List Bytes → List Bytes
insert_sorted s [] = s ∷ []
insert_sorted s (t ∷ ts) = if string_lt t s then t ∷ insert_sorted s ts else s ∷ t ∷ ts

unfoldable pub sort_strings : List Bytes → List Bytes
sort_strings [] = []
sort_strings (s ∷ ss) = insert_sorted s (sort_strings ss)

-- How often the string stands in the list.
unfoldable pub count : Bytes → List Bytes → ℕ
count s [] = 0
count s (t ∷ ts) = (if beq t s then 1 else 0) + count s ts

pub count-append : (s : Bytes) (xs ys : List Bytes) → count s (xs ++ ys) ≡ count s xs + count s ys
unfolding count
count-append s [] ys = omega arith
count-append s (x ∷ xs) ys = omega (arith, count-append s xs ys)

count-insert_sorted :
    (s t : Bytes) (ts : List Bytes)
    → count s (insert_sorted t ts) ≡ (if beq t s then 1 else 0) + count s ts
unfolding count insert_sorted
count-insert_sorted s t [] = refl
count-insert_sorted s t (u ∷ ts) = ground (arith, count-insert_sorted s t ts)

-- Sorting keeps every string as often as it stands.
pub count-sort_strings : (s : Bytes) (ts : List Bytes) → count s (sort_strings ts) ≡ count s ts
unfolding count sort_strings
count-sort_strings s [] = refl
count-sort_strings s (t ∷ ts) =
    omega (arith, count-insert_sorted s t (sort_strings ts), count-sort_strings s ts)

length-insert_sorted : (t : Bytes) (ts : List Bytes) → length (insert_sorted t ts) ≡ suc (length ts)
unfolding insert_sorted
length-insert_sorted t [] = refl
length-insert_sorted t (u ∷ ts) = ground (arith, length-insert_sorted t ts)

pub length-sort_strings : (ts : List Bytes) → length (sort_strings ts) ≡ length ts
unfolding sort_strings
length-sort_strings [] = refl
length-sort_strings (t ∷ ts) =
    omega (arith, length-insert_sorted t (sort_strings ts), length-sort_strings ts)
