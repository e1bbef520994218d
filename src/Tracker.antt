-- ===== src/Tracker.antt =====
-- The state tracker of state.go: the channels and users that the client knows of. Pointers to
-- channels and users are entries of the maps, and every write through one is an `insert` at its
-- key. A nil pointer that is dereferenced is a `panic`. `now` is the result of `time.Now()`.
pub mod Lists
pub mod Create
pub mod Consistent
pub mod Members
pub mod Roles
use girc.Prelude.{
  ℕ, ◌+◌, Bool, true, false, not, Option, none, some, List, [], ◌∷◌, ◌++◌, ◌==◌, if◌then◌else◌, ltb,
  is_empty, Bytes, codes, beq, length, Map, lookup, insert, delete, sort_strings, Outcome, ok,
  panic, ◌>>=◌,
}
use girc.Text.Fold.{to_rfc1459}
use girc.Source.{Source}
use girc.Source
use girc.Modes
use girc.Modes.{CModes, new_cmodes, is_valid_channel_mode, is_valid_user_prefix, parse_prefixes}
use girc.Perms.{UserPerms, no_perms, set_perms, remove_perms}
use Lists.{mem_string, remove_first, replace_first}

pub record User : Type 0 where
  pub nick : Bytes
  pub ident : Bytes
  pub host : Bytes
  pub channel_list : List Bytes
  pub first_seen : ℕ
  pub last_active : ℕ
  pub perms : UserPerms
  pub extras_name : Bytes
  pub extras_account : Bytes
  pub extras_away : Bytes

pub record Channel : Type 0 where
  pub name : Bytes
  pub topic : Bytes
  pub user_list : List Bytes
  pub joined : ℕ
  pub modes : CModes

pub record State : Type 0 where
  pub nick : Bytes
  pub ident : Bytes
  pub host : Bytes
  pub channels : Map Channel
  pub users : Map User
  pub enabled_cap : Map (Map Bytes)
  pub tmp_cap : Map (Map Bytes)
  pub server_options : Map Bytes
  pub max_line_length : ℕ
  pub max_prefix_length : ℕ
  pub motd : Bytes

-- state.reset, of the fields above
unfoldable pub reset : State → State
reset s = record s {
  nick = [];
  ident = [];
  host = [];
  channels = [];
  users = [];
  enabled_cap = [];
  tmp_cap = [];
  server_options = [];
  max_line_length = 510;
  max_prefix_length = 4 + 30 + 18 + 63;
  motd = [];
}

-- User.InChannel
unfoldable pub in_channel : User → Bytes → Bool
in_channel u name = mem_string (to_rfc1459 name) u.channel_list

-- User.addChannel
unfoldable pub add_channel : User → Bytes → User
unfolding in_channel
add_channel u name = if in_channel u name then u else record u {
  channel_list = sort_strings (u.channel_list ++ (to_rfc1459 name ∷ []));
  perms = set_perms u.perms name no_perms;
}

-- User.deleteChannel
unfoldable pub leave_channel : User → Bytes → User
leave_channel u name = record u {
  channel_list = remove_first (to_rfc1459 name) u.channel_list;
  perms = remove_perms u.perms (to_rfc1459 name);
}

-- Channel.UserIn
unfoldable pub user_in : Channel → Bytes → Bool
user_in ch name = mem_string (to_rfc1459 name) ch.user_list

-- Channel.addUser
unfoldable pub add_user : Channel → Bytes → Channel
unfolding user_in
add_user ch nick =
    if user_in ch nick
    then ch
    else record ch { user_list = sort_strings (ch.user_list ++ (to_rfc1459 nick ∷ [])) }

-- Channel.deleteUser
unfoldable pub drop_user : Channel → Bytes → Channel
drop_user ch nick = record ch { user_list = remove_first (to_rfc1459 nick) ch.user_list }

-- state.lookupChannel
unfoldable pub lookup_channel : State → Bytes → Option Channel
lookup_channel s name = lookup (to_rfc1459 name) s.channels

-- state.lookupUser
unfoldable pub lookup_user : State → Bytes → Option User
lookup_user s name = lookup (to_rfc1459 name) s.users

or_default : (Bytes → Bool) → Bytes → Option Bytes → Bytes
or_default valid default none = default
or_default valid default (some modes) = if valid modes then modes else default

-- state.chanModes
unfoldable pub chan_modes : State → Bytes
unfolding or_default
chan_modes s =
    or_default is_valid_channel_mode (codes "beI,k,l,imnpst")
      (lookup (codes "CHANMODES") s.server_options)

-- state.userPrefixes
unfoldable pub user_prefixes : State → Bytes
unfolding or_default
user_prefixes s =
    or_default is_valid_user_prefix (codes "(ov)@+") (lookup (codes "PREFIX") s.server_options)

create_channel_at : ℕ → Bytes → State → Option Channel → State × Bool
create_channel_at now name s (some _) = (s, false)
create_channel_at now name s none = (
  record s {
    channels =
        insert (to_rfc1459 name)
          (record {
            name = name;
            topic = [];
            user_list = [];
            joined = now;
            modes = new_cmodes (chan_modes s) (parse_prefixes (user_prefixes s)).0;
          })
          s.channels;
  },
  true,
)

-- state.createChannel
unfoldable pub create_channel : ℕ → Bytes → State → State × Bool
unfolding create_channel_at
create_channel now name s = create_channel_at now name s (lookup (to_rfc1459 name) s.channels)

create_user_at : ℕ → Source → State → Option User → State × Bool
create_user_at now src s (some _) = (s, false)
create_user_at now src s none = (
  record s {
    users =
        insert (Source.id src)
          (record {
            nick = src.name;
            ident = src.ident;
            host = src.host;
            channel_list = [];
            first_seen = now;
            last_active = now;
            perms = [];
            extras_name = [];
            extras_account = [];
            extras_away = [];
          })
          s.users;
  },
  true,
)

-- state.createUser
unfoldable pub create_user : ℕ → Source → State → State × Bool
unfolding create_user_at
create_user now src s = create_user_at now src s (lookup (Source.id src) s.users)

-- `s.users[user] = u`, or `delete(s.users, user)` once the user is in no channel.
pub keep_or_delete : Bytes → User → State → State
keep_or_delete key u s =
    if length u.channel_list == 0
    then record s { users = delete key s.users }
    else record s { users = insert key u s.users }

-- A round of the loop of `state.deleteChannel`, on `s.users[user]`.
drop_member : Bytes → Bytes → State → Option User → Outcome State
unfolding keep_or_delete
drop_member name user s none = panic
drop_member name user s (some u) = ok (keep_or_delete user (leave_channel u name) s)

pub drop_members : Bytes → List Bytes → State → Outcome State
unfolding drop_member
drop_members name [] s = ok s
drop_members name (user ∷ users) s = do
  s' ← drop_member name user s (lookup user s.users)
  drop_members name users s'

delete_channel_at : Bytes → State → Option Channel → Outcome State
unfolding drop_members
delete_channel_at name s none = ok s
delete_channel_at name s (some channel) = do
  s' ← drop_members name channel.user_list s
  ok (record s' { channels = delete name s'.channels })

-- state.deleteChannel
unfoldable pub delete_channel : Bytes → State → Outcome State
unfolding delete_channel_at
delete_channel name s = delete_channel_at (to_rfc1459 name) s (lookup (to_rfc1459 name) s.channels)

-- A round of the loop over `user.ChannelList`, on `s.channels[key]`.
part_channel : Bytes → Bytes → State → Option Channel → Outcome State
part_channel nick key s none = panic
part_channel nick key s (some ch) =
    ok (record s { channels = insert key (drop_user ch nick) s.channels })

pub part_channels : Bytes → List Bytes → State → Outcome State
unfolding part_channel
part_channels nick [] s = ok s
part_channels nick (key ∷ keys) s = do
  s' ← part_channel nick key s (lookup key s.channels)
  part_channels nick keys s'

-- state.deleteUser behind the two lookups, for a channel.
pub delete_user_in : Bytes → Bytes → State → User → Option Channel → State
unfolding keep_or_delete
delete_user_in channel_name nick s user none = s
delete_user_in channel_name nick s user (some channel) =
    let parted = record s {
      channels = insert (to_rfc1459 channel_name) (drop_user channel nick) s.channels;
    } in
    keep_or_delete (to_rfc1459 nick) (leave_channel user channel_name) parted

delete_user_at : Bytes → Bytes → State → Option User → Outcome State
unfolding delete_user_in part_channels
delete_user_at channel_name nick s none = ok s
delete_user_at [] nick s (some user) = do
  s' ← part_channels nick user.channel_list s
  ok (record s' { users = delete (to_rfc1459 nick) s'.users })
delete_user_at (c ∷ cs) nick s (some user) =
    ok (delete_user_in (c ∷ cs) nick s user (lookup_channel s (c ∷ cs)))

-- state.deleteUser
unfoldable pub delete_user : Bytes → Bytes → State → Outcome State
unfolding delete_user_at
delete_user channel_name nick s = delete_user_at channel_name nick s (lookup_user s nick)

-- A round of the loop of `state.renameUser`, on `s.channels[key]`: the first entry that is `from`
-- becomes `to`, and the list is sorted again.
rename_in : Bytes → Bytes → Bytes → State → Option Channel → Outcome State
rename_in from to key s none = panic
rename_in from to key s (some ch) = ok (
    if mem_string from ch.user_list
    then record s {
      channels =
          insert key
            (record ch {
              user_list = sort_strings (replace_first from (to_rfc1459 to) ch.user_list);
            })
            s.channels;
    }
    else s)

pub rename_in_all : Bytes → Bytes → List Bytes → State → Outcome State
unfolding rename_in
rename_in_all from to [] s = ok s
rename_in_all from to (key ∷ keys) s = do
  s' ← rename_in from to key s (lookup key s.channels)
  rename_in_all from to keys s'

rename_user_at : ℕ → Bytes → Bytes → State → Option User → Outcome State
unfolding rename_in_all
rename_user_at now from to s none = ok s
rename_user_at now from to s (some user) = rename_in_all from to user.channel_list (record s {
  users =
      insert (to_rfc1459 to) (record user { nick = to; last_active = now }) (delete from s.users);
})

-- `Update our nickname.`
rename_self : Bytes → Bytes → State → State
rename_self from to s = if beq from (to_rfc1459 s.nick) then record s { nick = to } else s

-- state.renameUser
unfoldable pub rename_user : ℕ → Bytes → Bytes → State → Outcome State
unfolding rename_user_at rename_self
rename_user now from to s =
    let key = to_rfc1459 from in
    let s' = rename_self key to s in rename_user_at now key to s' (lookup_user s' key)
