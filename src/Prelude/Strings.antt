-- ===== src/Prelude/Strings.antt =====
-- Go strings as lists of bytes, with the parts of the package `strings` that the source uses.
use Prim.Native.Char.{code}
use Prim.Native.Nat.{ℕ, zero, suc, ◌<◌}
use Prim.Native.String.{String}
use mathlib.Core.Path.{◌≡◌, refl}
use mathlib.Core.Logic.{◌≢◌, ◌↔◌}
use mathlib.Core.Bool.{Bool, true, false, ◌&&◌, ◌||◌}
use mathlib.Core.List.{List, [], ◌∷◌, ◌++◌}
use mathlib.Core.Option.{Option, none, some}
use native.Mathlib.Omega.{arith}
use girc.Prelude.Tests.{leb, ◌==◌, if◌then◌else◌}
use girc.Prelude.Lists.{length, All}

abbrev pub Bytes : Type 0
Bytes = List ℕ

-- The bytes of a literal; every literal of the source is ASCII.
abbrev pub codes : String → Bytes
codes String.[] = []
codes (String.◌∷◌ c s) = code c ∷ codes s

-- `a == b` on strings.
unfoldable pub beq : Bytes → Bytes → Bool
beq [] [] = true
beq (x ∷ xs) (y ∷ ys) = x == y && beq xs ys
beq _ _ = false

pub beq_iff : (a b : Bytes) → (beq a b ≡ true) ↔ (a ≡ b)
unfolding beq
beq_iff (x ∷ a) (y ∷ b) = ground (arith, beq_iff a b)
beq_iff _ _ = ground arith

pub beq_refl : (a : Bytes) → beq a a ≡ true
beq_refl a = (beq_iff a a).1 refl

-- `s == ""`
abbrev pub is_empty {ℓ} : {A : Type ℓ} → List A → Bool
is_empty [] = true
is_empty (x ∷ xs) = false

-- `lo <= c && c <= hi`
abbrev pub within : ℕ → ℕ → ℕ → Bool
within lo hi c = leb lo c && leb c hi

-- `strings.IndexByte(s, c)`; `none` is -1.
unfoldable pub index_byte : Bytes → ℕ → Option ℕ
index_byte [] c = none
index_byte (x ∷ xs) c =
    let later = index_byte xs c in
    if x == c then some 0 else elim later [ none ↦ none | some i ↦ some (suc i) ]

-- `strings.IndexByte(s, c) > -1`
unfoldable pub has_byte : Bytes → ℕ → Bool
has_byte [] c = false
has_byte (x ∷ xs) c = x == c || has_byte xs c

-- `strings.HasPrefix(s, prefix)`
unfoldable pub has_prefix : Bytes → Bytes → Bool
has_prefix s [] = true
has_prefix [] (p ∷ ps) = false
has_prefix (x ∷ xs) (p ∷ ps) = x == p && has_prefix xs ps

-- `strings.Split(s, sep)` for a separator of one byte; `piece` is the piece so far.
unfoldable pub split : ℕ → Bytes → Bytes → List Bytes
split sep piece [] = piece ∷ []
split sep piece (x ∷ xs) = elim (x == sep) [
  | true ↦ piece ∷ split sep [] xs
  | false ↦ split sep (piece ++ (x ∷ [])) xs
]

-- `strings.Join(parts, sep)` for a separator of one byte
unfoldable pub join_with : ℕ → List Bytes → Bytes
join_with sep [] = []
join_with sep (part ∷ []) = part
join_with sep (part ∷ next ∷ parts) = part ++ (sep ∷ join_with sep (next ∷ parts))

-- ASCII only: the bytes that Go's conversions between bytes and runes leave alone.
abbrev pub IsAscii : Bytes → Type 0
IsAscii = All (λ c. c < 128)

-- No byte `c` in the text.
abbrev pub Lacks : ℕ → Bytes → Type 0
Lacks c = All (λ x. x ≢ c)

pub has_byte-Lacks : (c : ℕ) (s : Bytes) → Lacks c s → has_byte s c ≡ false
unfolding has_byte
has_byte-Lacks c [] h = refl
has_byte-Lacks c (x ∷ xs) h = ground (arith, has_byte-Lacks c xs h.1, h.0)

pub index_byte-Lacks : (c : ℕ) (s : Bytes) → Lacks c s → index_byte s c ≡ none
unfolding index_byte
index_byte-Lacks c [] h = refl
index_byte-Lacks c (x ∷ xs) h = ground (arith, index_byte-Lacks c xs h.1, h.0)

-- The first `c` stands behind a text without `c`.
pub index_byte-append :
    (c : ℕ) (s rest : Bytes) → Lacks c s → index_byte (s ++ (c ∷ rest)) c ≡ some (length s)
unfolding index_byte
index_byte-append c [] rest h = ground arith
index_byte-append c (x ∷ xs) rest h = ground (arith, index_byte-append c xs rest h.1, h.0)

pub index_byte-lt-length : (c : ℕ) (s : Bytes) (i : ℕ) → index_byte s c ≡ some i → i < length s
unfolding index_byte
index_byte-lt-length c [] i h = ground arith
index_byte-lt-length c (x ∷ xs) zero h = ground arith
index_byte-lt-length c (x ∷ xs) (suc i) h = ground (arith, index_byte-lt-length c xs i)
