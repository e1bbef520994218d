-- ===== src/Split.antt =====
-- format.go and event.go: `splitMessage`, which breaks a long text into lines, and `Event.split`.
pub mod Colors
pub mod Words
pub mod Lines
pub mod Events
use girc.Prelude.{
  ℕ, zero, suc, ◌+◌, ◌-◌, ◌*◌, ltb, leb, Bool, true, false, not, ◌&&◌, ◌||◌, Option, none, some,
  List, [], ◌∷◌, ◌++◌, map, if◌then◌else◌, Bytes, codes, beq, is_empty, length, take, drop,
  drop_last, within, has_byte, get_or, Outcome, ok, panic, ◌>>=◌, slice, slice_from, ◌==◌,
}
use girc.Wire.{is_ascii, is_space}
use girc.Split.Colors.{last_color_in, is_code, close_code}

-- What the code takes from the standard library: utf8.RuneCountInString, the fields of a text
-- without the space around it, and strings.ToValidUTF8, which are asked about texts with a byte
-- outside ASCII only; and whether url.Parse gives no error.
pub record TextLib : Type 0 where
  pub unicode_rune_count : Bytes → ℕ
  pub unicode_words : Bytes → List Bytes
  pub unicode_valid : Bytes → Bytes
  pub parses : Bytes → Bool

unfoldable pub rune_count : TextLib → Bytes → ℕ
unfolding is_ascii
rune_count t s = if is_ascii s then length s else t.unicode_rune_count s

unfoldable pub valid : TextLib → Bytes → Bytes
unfolding is_ascii
valid t s = if is_ascii s then s else t.unicode_valid s

-- strings.TrimSpace on ASCII, from the left and from the right
unfoldable pub trim_left : Bytes → Bytes
unfolding is_space
trim_left [] = []
trim_left (c ∷ cs) = let rest = trim_left cs in if is_space c then rest else c ∷ cs

unfoldable pub trim_right : Bytes → Bytes
unfolding is_space
trim_right [] = []
trim_right (c ∷ cs) =
    let rest = trim_right cs in if is_space c && is_empty rest then [] else c ∷ rest

-- The fields between "\t", "\v", "\f" and " ".
unfoldable pub words_from : Bytes → Bytes → List Bytes
words_from word [] = if is_empty word then [] else word ∷ []
words_from word (c ∷ cs) =
    let closed = words_from [] cs in
    let longer = words_from (word ++ (c ∷ [])) cs in
    if not (c == 9 || c == 11 || c == 12 || c == b' ')
    then longer
    else if is_empty word
    then closed
    else word ∷ closed

unfoldable pub words_of : TextLib → Bytes → List Bytes
unfolding is_ascii words_from trim_left trim_right
words_of t input =
    if is_ascii input then words_from [] (trim_right (trim_left input)) else t.unicode_words input

-- The loop that cuts a word at its newlines: an empty word stands for them. `after` says whether
-- the last byte was a newline.
unfoldable pub cut_newlines : Bool → Bytes → Bytes → List Bytes
cut_newlines after word [] = word ∷ []
cut_newlines after word (c ∷ cs) =
    let skipped = cut_newlines true [] cs in
    let longer = cut_newlines false (word ++ (c ∷ [])) cs in
    if not (c == 10 || c == 13) then longer else if after then skipped else word ∷ [] ∷ skipped

unfoldable pub cut_words : List Bytes → List Bytes
unfolding cut_newlines
cut_words [] = []
cut_words (word ∷ words) = cut_newlines false [] word ++ cut_words words

-- The finished lines, the last line, and the formatting that a new line takes up: the codes that
-- are open, each a byte, and the last color.
pub record Layout : Type 0 where
  pub lines : List Bytes
  pub line : Bytes
  pub codes : Bytes
  pub last_color : Bytes

-- A round of the loop over the codes of a word.
track_code : ℕ → Layout → Layout
unfolding close_code
track_code m s =
    if m == 0xf
    then record s { codes = []; last_color = [] }
    else if has_byte s.codes m
    then record s {
      codes = close_code m s.codes;
      last_color = if m == 0x3 then [] else s.last_color;
    }
    else if is_empty s.last_color || not (m == 0x3)
    then record s { codes = s.codes ++ (m ∷ []) }
    else s

unfoldable pub track_codes : Bytes → Layout → Layout
unfolding is_code track_code
track_codes [] s = s
track_codes (c ∷ word) s = track_codes word (if is_code c then track_code c s else s)

unfoldable pub track : Bytes → Layout → Layout
unfolding last_color_in track_codes
track word s = track_codes word (record s { last_color = last_color_in word s.last_color })

-- The text behind what stands in the last line.
unfoldable pub add : Bytes → Layout → Layout
add text s = record s { line = if is_empty s.line then text else s.line ++ (b' ' ∷ text) }

-- A new line with the text.
unfoldable pub break_line : Bytes → Layout → Layout
break_line text s = record s {
  lines = s.lines ++ (s.line ∷ []);
  line = s.codes ++ (s.last_color ++ text);
}

-- The first byte of "-+_=|/~:;,.".
unfoldable pub index_symbol : Bytes → Option ℕ
index_symbol [] = none
index_symbol (c ∷ s) =
    let later = index_symbol s in
    if has_byte (codes "-+_=|/~:;,.") c
    then some 0
    else elim later [ none ↦ none | some i ↦ some (suc i) ]

symbol_fits : TextLib → ℕ → Bytes → Bytes → Option ℕ → Bool
unfolding rune_count
symbol_fits t max line word none = false
symbol_fits t max line word (some j) =
    ltb 3 j && ltb (1 + rune_count t (take j word) + rune_count t line) max

symbol_of : Option ℕ → ℕ
symbol_of none = 0
symbol_of (some j) = j

-- What follows the label checkappend; `again` is the jump to it with the rest of the word.
unfoldable pub place :
    TextLib → ℕ → Bytes → Layout → (Bytes → Layout → Outcome Layout) → Outcome Layout
unfolding rune_count add break_line index_symbol symbol_fits symbol_of
place t max word s again =
    if ltb (1 + rune_count t word + rune_count t s.line) max
    then ok (add word s)
    else if ltb (rune_count t (word ++ (s.codes ++ s.last_color))) max && t.parses word
    then ok (break_line word s)
    else if symbol_fits t max s.line word (index_symbol word)
    then again (drop (symbol_of (index_symbol word) + 1) word)
        (add (take (symbol_of (index_symbol word)) word) s)
    else if ltb 30 (1 + rune_count t word) && ltb 5 (max - rune_count t s.line)
    then (do
      text ← slice word 0 (max - rune_count t s.line - 1)
      rest ← slice_from word (max - rune_count t s.line - 1)
      again rest (add text s))
    else if ltb max (rune_count t s.line)
    then panic
    else do
      text ← slice word 0 (max - rune_count t s.line)
      rest ← slice_from word (max - rune_count t s.line)
      again rest (break_line [] (record s { line = s.line ++ text }))

-- The jumps, on fuel. A run out of fuel is a panic.
unfoldable pub check_append : ℕ → TextLib → ℕ → Bytes → Layout → Outcome Layout
unfolding place
check_append zero t max word s = panic
check_append (suc fuel) t max word s =
    place t max word s (λ rest s'. check_append fuel t max rest s')

-- A round of the loop over the words.
unfoldable pub add_word : TextLib → ℕ → Bytes → Layout → Outcome Layout
unfolding check_append track break_line
add_word t max word s =
    if is_empty word
    then ok (if is_empty s.line || beq s.line (s.last_color ++ word) then s else break_line word s)
    else check_append (2 * length word + 2) t max word (track word s)

unfoldable pub add_words : TextLib → ℕ → List Bytes → Layout → Outcome Layout
unfolding add_word
add_words t max [] s = ok s
add_words t max (word ∷ words) s = do s' ← add_word t max word s; add_words t max words s'

abbrev pub blank : Layout
blank = record { lines = []; line = []; codes = []; last_color = [] }

-- splitMessage
unfoldable pub split_message : TextLib → Bytes → ℕ → Outcome (List Bytes)
unfolding valid words_of cut_words add_words
split_message t input max = do
  s ← add_words t max (cut_words (words_of t (valid t input))) blank
  ok (map (λ line. valid t line) (s.lines ++ (s.line ∷ [])))
