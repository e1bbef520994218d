-- ===== src/Cap/Options.antt =====
-- cap.go: the lists of capabilities that a server sends.
use girc.Prelude.{
  ℕ, ◌+◌, ltb, ◌||◌, Option, none, some, List, [], ◌∷◌, if◌then◌else◌, Bytes, length, take, drop,
  split, index_byte, Map, insert,
}

-- Capabilities with their attributes; a nil map of attributes reads as an empty one.
abbrev pub Caps : Type 0
Caps = Map (Map Bytes)

-- The loop over the options of a capability.
option_at : Bytes → Option ℕ → Map Bytes → Map Bytes
option_at option none out = insert option [] out
option_at option (some j) out = insert (take j option) (drop (j + 1) option) out

unfoldable pub parse_options : List Bytes → Map Bytes → Map Bytes
unfolding option_at
parse_options [] out = out
parse_options (option ∷ options) out =
    parse_options options (option_at option (index_byte option b'=') out)

-- A round of the loop of parseCap, on the position of "=".
unfoldable pub cap_at : Bytes → Option ℕ → Caps → Caps
unfolding parse_options
cap_at part none out = insert part [] out
cap_at part (some val) out =
    if ltb val 1 || ltb (length part) (val + 1)
    then insert part [] out
    else insert (take val part) (parse_options (split b',' [] (drop (val + 1) part)) []) out

unfoldable pub parse_caps : List Bytes → Caps → Caps
unfolding cap_at
parse_caps [] out = out
parse_caps (part ∷ parts) out = parse_caps parts (cap_at part (index_byte part b'=') out)

-- parseCap
unfoldable pub parse_cap : Bytes → Caps
unfolding parse_caps
parse_cap raw = parse_caps (split b' ' [] raw) []
