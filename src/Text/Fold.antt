-- ===== src/Text/Fold.antt =====
-- `ToRFC1459` of format.go: the form in which nicknames and channel names are compared.
pub mod Laws
use girc.Prelude.{◌≡◌, ℕ, ◌+◌, ◌/◌, ◌%◌, List, [], ◌∷◌, ◌++◌, ltb, within, if◌then◌else◌, Bytes}

-- `string(b)` for a byte: the UTF-8 encoding of the rune with that number.
unfoldable pub rune_bytes : ℕ → Bytes
rune_bytes c = if ltb c 128 then c ∷ [] else (192 + c / 64) ∷ (128 + c % 64) ∷ []

-- One round of the loop.
pub fold_byte : ℕ → Bytes
unfolding rune_bytes
fold_byte c = if within 65 94 c then (c + 32) ∷ [] else rune_bytes c

unfoldable pub to_rfc1459 : Bytes → Bytes
unfolding fold_byte
to_rfc1459 [] = []
to_rfc1459 (c ∷ input) = fold_byte c ++ to_rfc1459 input

-- The name is kept by a second conversion, as the lookups of the tracker make it.
abbrev pub IsSettled : Bytes → Type 0
IsSettled name = to_rfc1459 (to_rfc1459 name) ≡ to_rfc1459 name
