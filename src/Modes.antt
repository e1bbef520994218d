-- ===== src/Modes.antt =====
-- modes.go: channel modes, and the permissions of a user in a channel.
pub mod Changes
pub mod Arguments
use girc.Prelude.{
  ℕ, suc, ◌+◌, ◌-◌, Bool, true, false, not, ◌&&◌, ◌||◌, Option, none, some, List, [], ◌∷◌, ◌++◌,
  ltb, leb, ◌==◌, if◌then◌else◌, Bytes, codes, beq, is_empty, has_byte, index_byte, length, take,
  drop, get_or, within, Map, lookup, all,
}
use girc.Text.Fold.{rune_bytes}

-- A single step of a mode change.
pub record CMode : Type 0 where
  pub add : Bool
  pub name : ℕ
  pub setting : Bool
  pub args : Bytes

-- CMode.Short
unfoldable pub short : CMode → Bytes
short c = (if c.add then codes "+" else codes "-") ++ rune_bytes c.name

-- CMode.String
unfoldable pub mode_string : CMode → Bytes
unfolding short
mode_string c = if is_empty c.args then short c else short c ++ codes " " ++ c.args

pub record CModes : Type 0 where
  pub raw : Bytes
  pub modes_list_args : Bytes
  pub modes_args : Bytes
  pub modes_set_args : Bytes
  pub modes_no_args : Bytes
  pub prefixes : Bytes
  pub modes : List CMode

-- The loop of `CModes.String`, on the two strings that it builds.
modes_string : Bytes → Bytes → List CMode → Bytes
modes_string out args [] = out ++ args
modes_string out args (m ∷ ms) =
    modes_string (out ++ rune_bytes m.name)
      (if ltb 0 (length m.args) then args ++ codes " " ++ m.args else args) ms

-- CModes.String
unfoldable pub string : CModes → Bytes
unfolding modes_string
string c = modes_string (if ltb 0 (length c.modes) then codes "+" else []) [] c.modes

has_mode_in : List CMode → Bytes → Bool
has_mode_in [] mode = false
has_mode_in (m ∷ ms) mode = beq (rune_bytes m.name) mode || has_mode_in ms mode

-- CModes.HasMode
unfoldable pub has_mode : CModes → Bytes → Bool
unfolding has_mode_in
has_mode c mode = has_mode_in c.modes mode

get_in : List CMode → Bytes → Option Bytes
get_in [] mode = none
get_in (m ∷ ms) mode =
    if beq (rune_bytes m.name) mode
    then if is_empty m.args then none else some m.args
    else get_in ms mode

-- CModes.Get; `none` is ("", false)
unfoldable pub get : CModes → Bytes → Option Bytes
unfolding get_in
get c mode = get_in c.modes mode

-- CModes.hasArg: (hasArgs, isSetting)
unfoldable pub has_arg : CModes → Bool → ℕ → Bool × Bool
has_arg c set mode =
    if ltb (length c.raw) 1
    then (false, true)
    else if has_byte c.modes_list_args mode
    then (true, false)
    else if has_byte c.modes_args mode
    then (true, true)
    else if has_byte c.modes_set_args mode
    then if set then (true, true) else (false, true)
    else if has_byte c.prefixes mode
    then (true, false)
    else (false, true)

-- The inner loop over the change, for one mode of the state: its replacement, if there is one.
replacement : CMode → List CMode → Option CMode
replacement m [] = none
replacement m (n ∷ ns) =
    if not n.setting
    then replacement m ns
    else if m.name == n.name && n.add
    then some n
    else replacement m ns

replaced : CMode → Option CMode → CMode
replaced m none = m
replaced m (some n) = n

-- The first loop of `CModes.Apply`.
replace_modes : List CMode → List CMode → List CMode
unfolding replacement replaced
replace_modes [] modes = []
replace_modes (m ∷ ms) modes = replaced m (replacement m modes) ∷ replace_modes ms modes

is_in : CMode → List CMode → Bool
is_in m [] = false
is_in m (n ∷ ns) = m.name == n.name || is_in m ns

-- The second loop.
add_modes : List CMode → List CMode → List CMode
unfolding is_in
add_modes new_modes [] = new_modes
add_modes new_modes (m ∷ ms) =
    add_modes
      (if not m.setting || not m.add
        then new_modes
        else if is_in m new_modes
        then new_modes
        else new_modes ++ (m ∷ []))
      ms

-- CModes.Apply
unfoldable pub apply : CModes → List CMode → CModes
unfolding replace_modes add_modes
apply c modes = record c { modes = add_modes (replace_modes c.modes modes) modes }

-- CModes.Parse: the loop over the flags, with the mode state `add` and the number `arg_count` of
-- arguments used.
parse_from : CModes → List Bytes → Bool → ℕ → Bytes → List CMode
parse_from c args add arg_count [] = []
parse_from c args add arg_count (flag ∷ flags) =
    let is_sign = flag == b'+' || flag == b'-' in
    let takes = not is_sign && (has_arg c add flag).0 && ltb arg_count (length args) in
    let rest =
      parse_from c args (if is_sign then flag == b'+' else add)
        (if takes then arg_count + 1 else arg_count) flags in
    if is_sign
    then rest
    else record {
      add = add;
      name = flag;
      setting = (has_arg c add flag).1;
      args = if takes then get_or args arg_count [] else [];
    }
      ∷ rest

unfoldable pub parse : CModes → Bytes → List Bytes → List CMode
unfolding parse_from
parse c flags args = parse_from c args true 0 flags

-- `strings.SplitN(s, ",", n)` for n > 0: the pieces, at most n of them.
unfoldable pub split_n : ℕ → Bytes → Bytes → List Bytes
split_n n piece [] = piece ∷ []
split_n n piece (x ∷ xs) =
    if x == b',' && ltb 1 n then piece ∷ split_n (n - 1) [] xs else split_n n (piece ++ x ∷ []) xs

-- NewCModes; a missing piece is "".
unfoldable pub new_cmodes : Bytes → Bytes → CModes
unfolding split_n
new_cmodes channel_modes user_prefixes =
    let split = split_n 4 [] channel_modes in
    record {
      raw = channel_modes;
      modes_list_args = get_or split 0 [];
      modes_args = get_or split 1 [];
      modes_set_args = get_or split 2 [];
      modes_no_args = get_or split 3 [];
      prefixes = user_prefixes;
      modes = [];
    }

-- IsValidChannelMode
unfoldable pub is_valid_channel_mode : Bytes → Bool
is_valid_channel_mode [] = false
is_valid_channel_mode (c ∷ raw) =
    all (λ b. not (not (b == b',') && (ltb b b'A' || ltb b'Z' b) && (ltb b b'a' || ltb b'z' b)))
      (c ∷ raw)

-- The loop of `isValidUserPrefix`, on `passedKeys`, `keys` and `rep`.
count_prefixes : Bool → ℕ → ℕ → Bytes → Bool
count_prefixes passed_keys keys rep [] = keys == rep
count_prefixes passed_keys keys rep (b ∷ raw) =
    count_prefixes (b == b')' || passed_keys)
      (if b == b')' then keys else if passed_keys then keys else keys + 1)
      (if b == b')' then rep else if passed_keys then rep + 1 else rep) raw

-- isValidUserPrefix
unfoldable pub is_valid_user_prefix : Bytes → Bool
unfolding count_prefixes
is_valid_user_prefix [] = false
is_valid_user_prefix (b ∷ raw) = if not (b == b'(') then false else count_prefixes false 0 0 raw

prefixes_at : Bytes → Option ℕ → Bytes × Bytes
prefixes_at raw none = ([], [])
prefixes_at raw (some i) = if ltb i 1 then ([], []) else (drop 1 (take i raw), drop (i + 1) raw)

-- parsePrefixes: (modes, prefixes)
unfoldable pub parse_prefixes : Bytes → Bytes × Bytes
unfolding prefixes_at
parse_prefixes raw =
    if not (is_valid_user_prefix raw) then ([], []) else prefixes_at raw (index_byte raw b')')
