-- ===== src/Text/Valid.antt =====
-- `IsValidChannel`, `IsValidNick` and `IsValidUser` of format.go.
use girc.Prelude.{
  ℕ, ◌+◌, Bool, false, not, ◌&&◌, ◌||◌, [], ◌∷◌, ltb, leb, ◌==◌, if◌then◌else◌, Bytes, length, take,
  all, has_byte,
}

-- `'!', '#', '&', '*', '~', '+'`
unfoldable pub is_channel_prefix : ℕ → Bool
is_channel_prefix c = has_byte (b'!' ∷ b'#' ∷ b'&' ∷ b'*' ∷ b'~' ∷ b'+' ∷ []) c

-- `0x00, 0x07, 0x0D, 0x0A, 0x20, 0x2C, 0x3A`
pub is_bad_octet : ℕ → Bool
is_bad_octet c = has_byte (0x00 ∷ 0x07 ∷ 0x0D ∷ 0x0A ∷ 0x20 ∷ 0x2C ∷ 0x3A ∷ []) c

pub is_id_byte : ℕ → Bool
is_id_byte c = not ((ltb c b'0' || ltb b'9' c) && (ltb c b'A' || ltb b'Z' c))

-- The tests behind the length check, on the first byte and the others.
unfoldable pub valid_channel_from : ℕ → Bytes → Bool
valid_channel_from first others =
    if not (is_channel_prefix first)
    then false
    else if first == b'!' && ltb (length others + 1) 7
    then false
    else if first == b'!' && not (all is_id_byte (take 5 others))
    then false
    else all (λ c. not (is_bad_octet c)) others

unfoldable pub is_valid_channel : Bytes → Bool
unfolding valid_channel_from is_channel_prefix is_bad_octet is_id_byte has_byte
is_valid_channel [] = false
is_valid_channel (c ∷ others) =
    if leb (length others + 1) 1 || ltb 50 (length others + 1)
    then false
    else valid_channel_from c others

-- The test of the loop: a byte behind the first.
pub is_nick_byte : ℕ → Bool
is_nick_byte c = not ((ltb c b'A' || ltb b'}' c) && (ltb c b'0' || ltb b'9' c) && not (c == b'-'))

unfoldable pub is_valid_nick : Bytes → Bool
unfolding is_nick_byte
is_valid_nick [] = false
is_valid_nick (c ∷ others) =
    if (ltb c b'A' || ltb b'}' c) && not (c == b'?') then false else all is_nick_byte others

pub is_user_byte : ℕ → Bool
is_user_byte c =
    not (
      (ltb c b'A' || ltb b'}' c)
      && (ltb c b'0' || ltb b'9' c)
      && not (c == b'-')
      && not (c == b'.'))

-- The name without a leading "~".
valid_user_from : Bytes → Bool
valid_user_from [] = false
valid_user_from (c ∷ others) =
    if (ltb c b'A' || ltb b'Z' c) && (ltb c b'a' || ltb b'z' c) && (ltb c b'0' || ltb b'9' c)
    then false
    else all is_user_byte others

unfoldable pub is_valid_user : Bytes → Bool
unfolding valid_user_from is_user_byte
is_valid_user [] = false
is_valid_user (c ∷ others) = valid_user_from (if c == b'~' then others else c ∷ others)
