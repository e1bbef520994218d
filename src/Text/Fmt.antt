-- ===== src/Text/Fmt.antt =====
-- format.go: `Fmt`, `TrimFmt` and `StripRaw`. Go's `range` over a map has no fixed order: the
-- order in which TrimFmt and StripRaw take the codes is an argument.
pub mod Segments
pub mod Strip
use girc.Prelude.{
  ℕ, zero, suc, ltb, has_prefix, keys, ◌+◌, ◌-◌, ◌/◌, ◌%◌, Bool, true, false, not, ◌&&◌, ◌||◌,
  Option, none, some, List, [], ◌∷◌, ◌++◌, ◌==◌, if◌then◌else◌, within, Bytes, codes, is_empty,
  length, take, drop, index_byte, Map, lookup,
}
use girc.Split.Colors.{color_len}

unfoldable pub fmt_colors : Map ℕ
fmt_colors =
    (codes "white", 0)
    ∷ (codes "black", 1)
    ∷ (codes "blue", 2)
    ∷ (codes "navy", 2)
    ∷ (codes "green", 3)
    ∷ (codes "red", 4)
    ∷ (codes "brown", 5)
    ∷ (codes "maroon", 5)
    ∷ (codes "purple", 6)
    ∷ (codes "gold", 7)
    ∷ (codes "olive", 7)
    ∷ (codes "orange", 7)
    ∷ (codes "yellow", 8)
    ∷ (codes "lightgreen", 9)
    ∷ (codes "lime", 9)
    ∷ (codes "teal", 10)
    ∷ (codes "cyan", 11)
    ∷ (codes "lightblue", 12)
    ∷ (codes "royal", 12)
    ∷ (codes "fuchsia", 13)
    ∷ (codes "lightpurple", 13)
    ∷ (codes "pink", 13)
    ∷ (codes "gray", 14)
    ∷ (codes "grey", 14)
    ∷ (codes "lightgrey", 15)
    ∷ (codes "silver", 15)
    ∷ []

unfoldable pub fmt_codes : Map Bytes
fmt_codes =
    (codes "bold", 0x2 ∷ [])
    ∷ (codes "b", 0x2 ∷ [])
    ∷ (codes "italic", 0x1d ∷ [])
    ∷ (codes "i", 0x1d ∷ [])
    ∷ (codes "reset", 0xf ∷ [])
    ∷ (codes "r", 0xf ∷ [])
    ∷ (codes "clear", 0x3 ∷ [])
    ∷ (codes "c", 0x3 ∷ [])
    ∷ (codes "reverse", 0x16 ∷ [])
    ∷ (codes "underline", 0x1f ∷ [])
    ∷ (codes "ul", 0x1f ∷ [])
    ∷ (codes "ctcp", 0x1 ∷ [])
    ∷ []

-- A letter or ",".
unfoldable pub is_code_byte : ℕ → Bool
is_code_byte c = c == b',' || within b'A' b'Z' c || within b'a' b'z' c

-- strings.ToLower on letters and ","
unfoldable pub lower : Bytes → Bytes
lower [] = []
lower (c ∷ cs) = (if within b'A' b'Z' c then c + 32 else c) ∷ lower cs

-- fmt.Sprintf("%02d", n) below 100
two_digits : ℕ → Bytes
two_digits n = (b'0' + n / 10) ∷ (b'0' + n % 10) ∷ []

background : Option ℕ → Bytes
unfolding two_digits
background none = []
background (some color) = b',' ∷ two_digits color

plain_code : Option Bytes → Bytes
plain_code none = []
plain_code (some code) = code

-- The replacement for a color, or, without one, for a code.
colored : Bytes → Bytes → Option ℕ → Bytes
unfolding two_digits background plain_code fmt_codes fmt_colors
colored code secondary (some color) =
    (0x3 ∷ two_digits color)
    ++ (if not (is_empty secondary) then background (lookup secondary fmt_colors) else [])
colored code secondary none = plain_code (lookup code fmt_codes)

-- The code and what stands behind its first ",".
split_comma : Bytes → Option ℕ → Bytes × Bytes
split_comma code none = (code, [])
split_comma code (some comma) = (take comma code, drop (comma + 1) code)

-- What a text between braces becomes.
unfoldable pub replacement : Bytes → Bytes
unfolding colored split_comma lower fmt_colors
replacement text =
    let parts = split_comma (lower text) (index_byte (lower text) b',') in
    colored parts.0 parts.1 (lookup parts.0 fmt_colors)

-- The loop of Fmt: `done` is text[:i], the last argument text[i:]. A replacement leaves the text
-- behind the brace as it is, and the loop goes on there.
unfoldable pub fmt_from : Bytes → Option ℕ → Bytes → Bytes
unfolding is_code_byte replacement
fmt_from done last [] = done
fmt_from done none (c ∷ cs) =
    fmt_from (done ++ (c ∷ [])) (if c == b'{' then some (length done) else none) cs
fmt_from done (some last) (c ∷ cs) =
    let opened = fmt_from (done ++ (c ∷ [])) (some (length done)) cs in
    let closed = fmt_from (take last done ++ replacement (drop (last + 1) done)) none cs in
    let goes_on = fmt_from (done ++ (c ∷ [])) (if is_code_byte c then some last else none) cs in
    if c == b'{' then opened else if c == b'}' then closed else goes_on

-- Fmt
unfoldable pub format : Bytes → Bytes
unfolding fmt_from
format text = fmt_from [] none text

-- strings.ReplaceAll(s, pattern, "") for a pattern that is not empty; the first argument is how
-- many bytes of the pattern are still to be passed over.
unfoldable pub remove_all : ℕ → Bytes → Bytes → Bytes
remove_all skip pattern [] = []
remove_all zero pattern (c ∷ cs) =
    let found = remove_all (length pattern - 1) pattern cs in
    let rest = remove_all 0 pattern cs in if has_prefix (c ∷ cs) pattern then found else c ∷ rest
remove_all (suc skip) pattern (c ∷ cs) = remove_all skip pattern cs

-- The loops of TrimFmt and StripRaw.
unfoldable pub remove_names : List Bytes → Bytes → Bytes
unfolding remove_all
remove_names [] text = text
remove_names (name ∷ names) text =
    remove_names names (remove_all 0 ((b'{' ∷ name) ++ (b'}' ∷ [])) text)

unfoldable pub remove_codes : List Bytes → Bytes → Bytes
unfolding remove_all
remove_codes [] text = text
remove_codes (code ∷ codes) text = remove_codes codes (remove_all 0 code text)

-- TrimFmt
unfoldable pub trim_fmt : (List Bytes → List Bytes) → Bytes → Bytes
unfolding remove_names fmt_colors fmt_codes
trim_fmt order text =
    remove_names (order (keys fmt_codes)) (remove_names (order (keys fmt_colors)) text)

-- reColor.ReplaceAllString(text, "")
unfoldable pub remove_colors : ℕ → Bytes → Bytes
unfolding color_len
remove_colors skip [] = []
remove_colors zero (c ∷ cs) =
    let found = remove_colors (color_len cs) cs in
    let rest = remove_colors 0 cs in if c == 0x3 && ltb 0 (color_len cs) then found else c ∷ rest
remove_colors (suc skip) (c ∷ cs) = remove_colors skip cs

-- StripRaw; `order` is the order in which the values of fmtCodes come.
unfoldable pub strip_raw : List Bytes → Bytes → Bytes
unfolding remove_colors remove_codes
strip_raw order text = remove_codes order (remove_colors 0 text)
