-- ===== src/Split/Colors.antt =====
-- format.go: the color and format codes in a text, as reColor and reCode find them.
use girc.Prelude.{
  ℕ, ◌+◌, ltb, Bool, ◌&&◌, ◌||◌, [], ◌∷◌, if◌then◌else◌, Bytes, take, drop, within, ◌==◌,
}

-- reColor: how many bytes of the text are a color, behind its first byte; 0 for none.
abbrev is_digit : ℕ → Bool
is_digit c = within b'0' b'9' c

digits_len : Bytes → ℕ
digits_len [] = 0
digits_len (a ∷ []) = if is_digit a then 1 else 0
digits_len (a ∷ b ∷ s) =
    if (a == b'0' || a == b'1' || a == b'9') && is_digit b then 2 else if is_digit a then 1 else 0

background_len : Bytes → ℕ
unfolding digits_len
background_len [] = 0
background_len (c ∷ s) = if c == b',' && ltb 0 (digits_len s) then digits_len s + 1 else 0

unfoldable pub color_len : Bytes → ℕ
unfolding digits_len background_len
color_len s = if digits_len s == 0 then 0 else digits_len s + background_len (drop (digits_len s) s)

-- The last color of a word, or the one before it.
unfoldable pub last_color_in : Bytes → Bytes → Bytes
unfolding color_len
last_color_in [] color = color
last_color_in (c ∷ s) color =
    last_color_in s (if c == 3 && ltb 0 (color_len s) then c ∷ take (color_len s) s else color)

-- reCode
unfoldable pub is_code : ℕ → Bool
is_code c = c == 0x2 || c == 0x1d || c == 0xf || c == 0x3 || c == 0x16 || c == 0x1f || c == 0x1

-- The codes without the first that is `m`.
unfoldable pub close_code : ℕ → Bytes → Bytes
close_code m [] = []
close_code m (c ∷ cs) = let rest = close_code m cs in if c == m then cs else c ∷ rest
