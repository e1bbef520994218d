-- ===== src/Tags.antt =====
-- cap_tags.go: IRCv3 message tags. `Tags` is a map, or nil, which is `none`.
pub mod Escape
pub mod Store
pub mod Bound
use girc.Prelude.{
  ℕ, suc, ◌+◌, ◌-◌, Bool, true, false, not, ◌&&◌, ◌||◌, Option, none, some, List, [], ◌∷◌, ◌++◌,
  ◌==◌, if◌then◌else◌, ltb, leb, is_empty, all, Bytes, codes, beq, length, take, drop, index_byte,
  Map, lookup, insert, delete, keys, sort_strings, get_or,
}

abbrev pub Tags : Type 0
Tags = Option (Map Bytes)

abbrev pub max_tag_length : ℕ
max_tag_length = 4094

-- What the pair `x y` of `tagDecode` stands for.
unfoldable pub decode_pair : ℕ → ℕ → Option ℕ
decode_pair x y =
    if not (x == b'\\')
    then none
    else if y == b':'
    then some b';'
    else if y == b's'
    then some b' '
    else if y == b'\\'
    then some b'\\'
    else if y == b'r'
    then some b'\r'
    else if y == b'n'
    then some b'\n'
    else none

-- tagDecoder.Replace
unfoldable pub decode : Bytes → Bytes
unfolding decode_pair
decode [] = []
decode (x ∷ []) = x ∷ []
decode (x ∷ y ∷ s) = elim (decode_pair x y) [ some c ↦ c ∷ decode s | none ↦ x ∷ decode (y ∷ s) ]

-- The entry of `tagEncode` for a byte.
unfoldable pub encode_byte : ℕ → Bytes
encode_byte c =
    if c == b';'
    then b'\\' ∷ b':' ∷ []
    else if c == b' '
    then b'\\' ∷ b's' ∷ []
    else if c == b'\\'
    then b'\\' ∷ b'\\' ∷ []
    else if c == b'\r'
    then b'\\' ∷ b'r' ∷ []
    else if c == b'\n'
    then b'\\' ∷ b'n' ∷ []
    else c ∷ []

-- tagEncoder.Replace
unfoldable pub encode : Bytes → Bytes
unfolding encode_byte
encode [] = []
encode (c ∷ s) = encode_byte c ++ encode s

is_tag_byte : ℕ → Bool
is_tag_byte c = not (
    (ltb c b'A' || ltb b'Z' c)
    && (ltb c b'a' || ltb b'z' c)
    && (ltb c b'-' || ltb b'9' c)
    && not (c == b'_'))

without_user_prefix : Bytes → Bytes
without_user_prefix [] = []
without_user_prefix (c ∷ name) = if leb 2 (length name + 1) && c == b'+' then name else c ∷ name

-- validTag
unfoldable pub valid_tag : Bytes → Bool
unfolding is_tag_byte without_user_prefix
valid_tag name = if ltb (length name) 1 then false else all is_tag_byte (without_user_prefix name)

-- validTagValue
unfoldable pub valid_tag_value : Bytes → Bool
valid_tag_value value = all (λ c. not (ltb c b'!' || ltb b'~' c || c == b';')) value

-- `strings.Split(raw, ";")`; `piece` is what stands before `raw`.
unfoldable pub split_tags : Bytes → Bytes → List Bytes
split_tags piece [] = piece ∷ []
split_tags piece (x ∷ xs) = elim (x == b';') [
  | true ↦ piece ∷ split_tags [] xs
  | false ↦ split_tags (piece ++ (x ∷ [])) xs
]

-- A round of the loop of `ParseTags`, on the position of "=".
parse_part : Map Bytes → Bytes → Option ℕ → Map Bytes
parse_part t part none = if not (valid_tag part) then t else insert part [] t
parse_part t part (some has_value) =
    if ltb has_value 1 || ltb (length part) (has_value + 1)
    then if not (valid_tag part) then t else insert part [] t
    else insert (take has_value part) (decode (drop (has_value + 1) part)) t

parse_parts : Map Bytes → List Bytes → Map Bytes
unfolding parse_part
parse_parts t [] = t
parse_parts t (part ∷ parts) = parse_parts (parse_part t part (index_byte part b'=')) parts

without_at : Bytes → Bytes
without_at [] = []
without_at (c ∷ raw) = if c == b'@' then raw else c ∷ raw

-- ParseTags
unfoldable pub parse_tags : Bytes → Map Bytes
unfolding parse_parts without_at
parse_tags raw = parse_parts [] (split_tags [] (without_at raw))

-- Tags.Count
unfoldable pub tag_count : Tags → ℕ
tag_count none = 0
tag_count (some t) = length t

value_of : Option Bytes → Bytes
value_of none = []
value_of (some v) = v

-- What a round of the loop of `Tags.Bytes` writes: the name, the value, and the separator between
-- tags. `current` counts the rounds.
written : Bytes → Bytes → ℕ → ℕ → Bytes
written name value current max =
    (name ++ (if ltb 0 (length value) then b'=' ∷ value else []))
    ++ (if ltb (current + 1) max then b';' ∷ [] else [])

-- The loop of `Tags.Bytes`. It stops at the first tag that would pass the limit.
write_tags : Map Bytes → ℕ → Bytes → ℕ → List Bytes → Bytes
unfolding written value_of
write_tags t max buffer current [] = buffer
write_tags t max buffer current (name ∷ names) =
    let value = value_of (lookup name t) in
    let rest = write_tags t max (buffer ++ written name value current max) (current + 1) names in
    if ltb max_tag_length (length buffer + length name + length value + 2) then buffer else rest

-- Tags.Bytes
unfoldable pub tag_bytes : Tags → Bytes
unfolding write_tags
tag_bytes none = []
tag_bytes (some t) =
    if length t == 0 then [] else write_tags t (length t) (b'@' ∷ []) 0 (sort_strings (keys t))

-- Tags.Len
unfoldable pub tags_len : Tags → ℕ
tags_len none = 0
tags_len (some t) = length (tag_bytes (some t))

-- Tags.writeTo: what is written to the buffer.
unfoldable pub tags_write : Tags → Bytes
tags_write t = let b = tag_bytes t in if length b == 0 then [] else b ++ (b' ' ∷ [])

get_value : Option Bytes → Option Bytes
get_value none = none
get_value (some v) = some (decode v)

-- Tags.Get; `none` is ("", false)
unfoldable pub get : Tags → Bytes → Option Bytes
unfolding get_value
get none key = none
get (some t) key = get_value (lookup key t)

pub data SetError : Type 0 where
  invalid_key invalid_value too_long : SetError

pub data SetResult : Type 0 where
  stored : Map Bytes → SetResult
  refused : SetError → SetResult

-- Tags.Set on a map that is not nil. On a nil map the source writes to a new map of its own.
unfoldable pub set : Map Bytes → Bytes → Bytes → SetResult
set t key value =
    let escaped = encode value in
    if not (valid_tag key)
    then refused invalid_key
    else if ltb 0 (length escaped) && not (valid_tag_value escaped)
    then refused invalid_value
    else if ltb max_tag_length (tags_len (some t) + length key + length escaped + 2)
    then refused too_long
    else stored (insert key escaped t)

removed : Map Bytes → Bytes → Option Bytes → Map Bytes × Bool
removed t key none = (t, false)
removed t key (some v) = (delete key t, true)

-- Tags.Remove on a map that is not nil
unfoldable pub remove : Map Bytes → Bytes → Map Bytes × Bool
unfolding removed
remove t key = removed t key (lookup key t)

account_of : Option Bytes → Bytes
account_of none = []
account_of (some a) = a

-- Tags.Equals
unfoldable pub tags_equal : Tags → Tags → Bool
unfolding account_of
tags_equal t tt' =
    beq (account_of (get t (codes "account"))) (account_of (get tt' (codes "account")))
