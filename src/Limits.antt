-- ===== src/Limits.antt =====
-- builtin.go and client.go: the options of the server (RPL_ISUPPORT), and the length of an event
-- that follows from them.
pub mod Positive
use girc.Prelude.{
  ℕ, ◌+◌, ◌-◌, ltb, Bool, true, false, not, ◌&&◌, ◌||◌, Option, none, some, List, [], ◌∷◌,
  if◌then◌else◌, Bytes, codes, beq, length, take, drop, drop_last, index_byte, ◌==◌, Map, lookup,
  insert, ℤ, pos, less, ◌+ℤ◌, opposite, wrap, atoi, is_empty,
}
use girc.Text.Glob.{has_suffix}
use girc.Event.{Event, last}

-- The fields of `state` that handleISUPPORT uses.
pub record Limits : Type 0 where
  pub server_options : Map Bytes
  pub max_line_length : ℤ
  pub max_prefix_length : ℤ

-- state.reset, of these fields
unfoldable pub reset : Limits
reset = record {
  server_options = [];
  max_line_length = pos 510;
  max_prefix_length = pos (4 + 30 + 18 + 63);
}

-- Client.GetServerOption; `none` is (_, false).
unfoldable pub get_server_option : Limits → Bytes → Option Bytes
get_server_option s key = lookup key s.server_options

int_from : Option Bytes → ℤ × Bool
int_from none = (pos 0, false)
int_from (some text) = atoi text

-- Client.GetServerOptionInt
unfoldable pub get_server_option_int : Limits → Bytes → ℤ × Bool
unfolding get_server_option int_from
get_server_option_int s key = int_from (get_server_option s key)

-- Client.MaxEventLength; the argument says whether tracking is disabled.
unfoldable pub max_event_length : Bool → Limits → ℤ
max_event_length disabled s =
    if not disabled
    then wrap (s.max_line_length +ℤ opposite s.max_prefix_length)
    else pos 510 +ℤ opposite (pos (4 + 30 + 18 + 63))

-- A round of the loop over the parameters, on the position of "=".
set_option : Bytes → Option ℕ → Map Bytes → Map Bytes
set_option param none options = insert param [] options
set_option param (some j) options =
    if ltb j 1 || j + 1 == length param
    then insert param [] options
    else insert (take j param) (drop (j + 1) param) options

unfoldable pub set_options : List Bytes → Map Bytes → Map Bytes
unfolding set_option
set_options [] options = options
set_options (param ∷ params) options =
    set_options params (set_option param (index_byte param b'=') options)

-- The option if it is set to a number larger than `value`.
unfoldable pub larger_option : Limits → Bytes → ℤ → ℤ
unfolding get_server_option_int
larger_option s key value =
    let tmp = get_server_option_int s key in if tmp.1 && less value tmp.0 then tmp.0 else value

-- The option if it is set to a number.
unfoldable pub option_or : Limits → Bytes → ℤ → ℤ
unfolding get_server_option_int
option_or s key value = let tmp = get_server_option_int s key in if tmp.1 then tmp.0 else value

unfoldable pub prefix_length : Limits → ℤ
unfolding larger_option option_or
prefix_length s = wrap (
    pos 4
    +ℤ larger_option s (codes "MAXNICKLEN") (option_or s (codes "NICKLEN") (pos 30))
    +ℤ larger_option s (codes "USERLEN") (pos 18)
    +ℤ larger_option s (codes "HOSTLEN") (pos 63))

-- The lengths, once the options are set: LINELEN, and then the prefix, which is compared with the
-- value of LINELEN.
set_prefix : ℤ → Limits → Limits
unfolding prefix_length
set_prefix line_length s =
    if not (less (prefix_length s) line_length)
    then s
    else record s { max_prefix_length = prefix_length s }

unfoldable pub set_lengths : Limits → Limits
unfolding option_or get_server_option_int set_prefix
set_lengths s = set_prefix (option_or s (codes "LINELEN") s.max_line_length) (
    if (get_server_option_int s (codes "LINELEN")).1
    then record s { max_line_length = pos (4094 - 2) }
    else s)

-- handleISUPPORT; the first parameter is the nickname, the last the text. Its notification is not
-- modelled.
unfoldable pub handle_isupport : Limits → Event → Limits
unfolding set_options set_lengths
handle_isupport s e =
    if not (has_suffix (last e) (codes "this server"))
    then s
    else if ltb (length e.params) 2
    then s
    else set_lengths
        (record s { server_options = set_options (drop 1 (drop_last e.params)) s.server_options })
