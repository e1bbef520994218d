-- ===== src/Perms.antt =====
-- The permissions of a user in a channel, of modes.go. The mutex of `UserPerms` is not modelled:
-- the tracker's operations run under the lock of the state.
pub mod Ascii
use girc.Prelude.{
  ℕ, ◌+◌, Bool, true, false, ◌&&◌, ◌||◌, Option, none, some, List, [], ◌∷◌, ◌++◌, ◌==◌,
  if◌then◌else◌, Bytes, Map, lookup, insert, delete,
}
use girc.Text.Fold.{to_rfc1459}
use girc.Modes.{CMode}

pub record Perms : Type 0 where
  pub owner : Bool
  pub admin : Bool
  pub op : Bool
  pub half_op : Bool
  pub voice : Bool

-- Perms{}
abbrev pub no_perms : Perms
no_perms = record { owner = false; admin = false; op = false; half_op = false; voice = false }

-- Perms.IsAdmin
unfoldable pub is_admin : Perms → Bool
is_admin m = if m.owner || m.admin || m.op then true else false

-- Perms.IsTrusted
unfoldable pub is_trusted : Perms → Bool
unfolding is_admin
is_trusted m = if is_admin m || m.half_op || m.voice then true else false

-- Perms.reset
unfoldable pub reset : Perms → Perms
reset m = record m { owner = false; admin = false; op = false; half_op = false; voice = false }

-- The switch in the loop of `Perms.set`.
set_prefix : Perms → ℕ → Perms
set_prefix m prefix =
    if prefix == b'~'
    then record m { owner = true }
    else if prefix == b'&'
    then record m { admin = true }
    else if prefix == b'@'
    then record m { op = true }
    else if prefix == b'%'
    then record m { half_op = true }
    else if prefix == b'+'
    then record m { voice = true }
    else m

set_prefixes : Perms → Bytes → Perms
unfolding set_prefix
set_prefixes m [] = m
set_prefixes m (p ∷ prefix) = set_prefixes (set_prefix m p) prefix

-- Perms.set
unfoldable pub set : Perms → Bytes → Bool → Perms
unfolding set_prefixes reset
set m prefix add = set_prefixes (if add then m else reset m) prefix

-- Perms.setFromMode
unfoldable pub set_from_mode : Perms → CMode → Perms
set_from_mode m mode =
    if mode.name == b'q'
    then record m { owner = mode.add }
    else if mode.name == b'a'
    then record m { admin = mode.add }
    else if mode.name == b'o'
    then record m { op = mode.add }
    else if mode.name == b'h'
    then record m { half_op = mode.add }
    else if mode.name == b'v'
    then record m { voice = mode.add }
    else m

is_user_prefix : ℕ → Bool
is_user_prefix c = c == b'~' || c == b'&' || c == b'%' || c == b'@' || c == b'+'

-- parseUserPrefix: (modes, nick), or `none` without success. `modes` are those met so far.
prefix_from : Bytes → Bytes → Option (Bytes × Bytes)
unfolding is_user_prefix
prefix_from modes [] = none
prefix_from modes (c ∷ raw) =
    let rest = prefix_from (modes ++ c ∷ []) raw in
    if is_user_prefix c then rest else some (modes, c ∷ raw)

unfoldable pub parse_user_prefix : Bytes → Option (Bytes × Bytes)
unfolding prefix_from
parse_user_prefix raw = prefix_from [] raw

-- UserPerms.channels
abbrev pub UserPerms : Type 0
UserPerms = Map Perms

-- UserPerms.Lookup
unfoldable pub lookup_perms : UserPerms → Bytes → Option Perms
lookup_perms p channel = lookup (to_rfc1459 channel) p

-- UserPerms.set
unfoldable pub set_perms : UserPerms → Bytes → Perms → UserPerms
set_perms p channel perms = insert (to_rfc1459 channel) perms p

-- UserPerms.remove
unfoldable pub remove_perms : UserPerms → Bytes → UserPerms
remove_perms p channel = delete (to_rfc1459 channel) p

-- `perms, _ := user.Perms.Lookup(name)`: the zero value if there is none.
abbrev pub or_no_perms : Option Perms → Perms
or_no_perms none = no_perms
or_no_perms (some perms) = perms
