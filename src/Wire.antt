-- ===== src/Wire.antt =====
-- event.go: the lines of the protocol, `ParseEvent`.
-- An index or a slice that the source takes is an operation that panics out of range.
pub mod Print
pub mod Total
pub mod Scan
pub mod Params
pub mod Plain
pub mod RoundTrip
pub mod Sender
pub mod Words
use girc.Prelude.{
  ℕ, zero, suc, ◌+◌, ◌-◌, ◌*◌, Bool, true, false, not, ◌&&◌, ◌||◌, Option, none, some, List, [],
  ◌∷◌, ◌++◌, ltb, leb, ◌==◌, if◌then◌else◌, Bytes, codes, beq, index_byte, has_byte, has_prefix,
  length, all, within, is_empty, Map, Outcome, ok, panic, ◌>>=◌, slice, slice_from, element,
  element_before,
}
use girc.Source.{Source, parse_source, write_to, len}
use girc.Event.{Event}
use girc.Tags.{parse_tags, get, tags_write, tags_len}

-- What the parser takes from the platform: the clock, `time.Parse` with capServerTimeFormat, and
-- the Unicode tables behind three functions of the standard library, which are asked about texts
-- with a byte outside ASCII only.
pub record Platform : Type 0 where
  pub now : ℕ
  pub parse_time : Bytes → Option ℕ
  pub unicode_upper : Bytes → Bytes
  pub unicode_fields : Bytes → List Bytes
  pub unicode_valid : Bytes → Bytes

unfoldable pub is_ascii : Bytes → Bool
is_ascii = all (λ c. ltb c 128)

unfoldable pub upper : Bytes → Bytes
upper [] = []
upper (c ∷ cs) = (if within b'a' b'z' c then c - 32 else c) ∷ upper cs

-- strings.ToUpper
unfoldable pub to_upper : Platform → Bytes → Bytes
unfolding is_ascii upper
to_upper p s = if is_ascii s then upper s else p.unicode_upper s

-- The white space of ASCII: "\t", "\n", "\v", "\f", "\r" and " ".
unfoldable pub is_space : ℕ → Bool
is_space c = within 9 13 c || c == b' '

unfoldable pub fields_from : Bytes → Bytes → List Bytes
unfolding is_space
fields_from word [] = if is_empty word then [] else word ∷ []
fields_from word (c ∷ cs) =
    let closed = fields_from [] cs in
    let longer = fields_from (word ++ (c ∷ [])) cs in
    if not (is_space c) then longer else if is_empty word then closed else word ∷ closed

-- strings.Fields
unfoldable pub fields : Platform → Bytes → List Bytes
unfolding is_ascii fields_from
fields p s = if is_ascii s then fields_from [] s else p.unicode_fields s

-- cutCRFunc
unfoldable pub is_cr : ℕ → Bool
is_cr c = c == 13 || c == 10

unfoldable pub trim_left : Bytes → Bytes
unfolding is_cr
trim_left [] = []
trim_left (c ∷ cs) = let rest = trim_left cs in if is_cr c then rest else c ∷ cs

unfoldable pub trim_right : Bytes → Bytes
unfolding is_cr
trim_right [] = []
trim_right (c ∷ cs) = let rest = trim_right cs in if is_cr c && is_empty rest then [] else c ∷ rest

-- The timestamp: that of the tag "time", if it can be parsed.
time_of : Platform → Option Bytes → ℕ
time_of p none = p.now
time_of p (some raw) = elim (p.parse_time raw) [ none ↦ p.now | some time ↦ time ]

dated : Platform → Map Bytes → Bytes → Option (Map Bytes) × ℕ × Bytes
unfolding time_of
dated p tags rest = (some tags, time_of p (get (some tags) (codes "time")), rest)

-- The tags, the timestamp and what is left of the line; the inner `none` is `return nil`.
tags_at : Platform → Bytes → Option ℕ → Outcome (Option (Option (Map Bytes) × ℕ × Bytes))
unfolding dated
tags_at p raw none = ok none
tags_at p raw (some i) = if ltb i 2 then ok none else do
  text ← slice raw 1 i
  rest ← slice_from raw (i + 1)
  ok (some (dated p (parse_tags text) rest))

pub parse_tags_part : Platform → Bytes → Outcome (Option (Option (Map Bytes) × ℕ × Bytes))
unfolding tags_at
parse_tags_part p raw = do
  first ← element raw 0
  if first == b'@' then tags_at p raw (index_byte raw b' ') else ok (some (none, p.now, raw))

-- The source and the index `i` of the command.
source_at : Bytes → Option ℕ → Outcome (Option (Option Source × ℕ))
source_at raw none = ok none
source_at raw (some i) =
    if ltb i 2
    then ok none
    else do text ← slice raw 1 i; ok (some (some (parse_source text), i + 1))

pub parse_source_part : Bytes → Outcome (Option (Option Source × ℕ))
unfolding source_at
parse_source_part [] = ok (some (none, 0))
parse_source_part (c ∷ cs) =
    if c == b':' then source_at (c ∷ cs) (index_byte (c ∷ cs) b' ') else ok (some (none, 0))

-- The rest of a round of the loop that looks for " :": `before` says whether there is a space
-- before the colon at `at`, and `again` is the next round.
round_at : ℕ → (ℕ → Outcome (Option ℕ)) → Bool → Outcome (Option ℕ)
round_at at again true = ok (some at)
round_at at again false = again (at + 1)

colon_at : Bytes → ℕ → ℕ → (ℕ → Outcome (Option ℕ)) → Option ℕ → Outcome (Option ℕ)
unfolding round_at
colon_at raw j last_index again none = ok none
colon_at raw j last_index again (some t) = do
  before ← element_before raw (j + last_index + t)
  round_at (last_index + t) again (before == b' ')

-- The loop, on fuel; `none` is -1. A run out of fuel is a panic.
pub find_trailer : ℕ → Bytes → ℕ → ℕ → Outcome (Option ℕ)
unfolding colon_at
find_trailer zero raw j last_index = panic
find_trailer (suc fuel) raw j last_index = do
  rest ← slice_from raw (j + last_index)
  colon_at raw j last_index (λ next. find_trailer fuel raw j next) (index_byte rest b':')

params_at : Platform → Bytes → ℕ → Option ℕ → Outcome (List Bytes)
params_at p raw j none = do rest ← slice_from raw j; ok (fields p rest)
params_at p raw j (some t) = do
  front ← if ltb j (j + t) then slice raw j (j + t - 1) else ok []
  last ← slice_from raw (j + t + 1)
  ok (fields p front ++ (last ∷ []))

-- The command and the parameters, from the index of the command and of the space after it.
pub command_at : Platform → Bytes → ℕ → Option ℕ → Outcome (Bytes × List Bytes)
unfolding find_trailer params_at
command_at p raw i none = do command ← slice_from raw i; ok (to_upper p command, [])
command_at p raw i (some k) = do
  command ← slice raw i (i + k)
  trailer ← find_trailer (length raw + 1) raw (i + k + 1) 0
  params ← params_at p raw (i + k + 1) trailer
  ok (to_upper p command, params)

pub event_of : Option (Map Bytes) → ℕ → Option Source → Bytes × List Bytes → Event
event_of tags time source words = record {
  source = source;
  tags = tags;
  timestamp = time;
  command = words.0;
  params = words.1;
  sensitive = false;
  echo = false;
}

pub after_source :
    Platform → Option (Map Bytes) → ℕ → Bytes → Option (Option Source × ℕ) → Outcome (Option Event)
unfolding command_at event_of
after_source p tags time raw none = ok none
after_source p tags time raw (some (source, i)) = do
  rest ← slice_from raw i
  words ← command_at p raw i (index_byte rest b' ')
  ok (some (event_of tags time source words))

pub after_tags : Platform → Option (Option (Map Bytes) × ℕ × Bytes) → Outcome (Option Event)
unfolding parse_source_part after_source
after_tags p none = ok none
after_tags p (some (tags, time, raw)) = do
  source ← parse_source_part raw
  after_source p tags time raw source

-- ParseEvent; `none` is nil.
unfoldable pub parse_event : Platform → Bytes → Outcome (Option Event)
unfolding trim_left trim_right parse_tags_part after_tags
parse_event p line =
    let raw = trim_left (trim_right line) in
    if ltb (length raw) 2 then ok none else do parsed ← parse_tags_part p raw; after_tags p parsed
