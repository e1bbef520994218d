-- ===== src/Handlers/Membership.antt =====
-- builtin.go: the handlers that add, remove and rename users: handleJOIN, handlePART, handleKICK,
-- handleQUIT, handleNICK and handleNAMES.
pub mod Join
pub mod Leave
pub mod Names
use girc.Prelude.{
  ℕ, suc, ◌+◌, Bool, true, false, not, ◌&&◌, Option, none, some, List, [], ◌∷◌, ◌++◌, ◌==◌,
  if◌then◌else◌, ltb, is_empty, Bytes, codes, beq, length, has_byte, lookup, insert, Outcome, ok,
  panic, ◌>>=◌, get_elem?,
}
use girc.Client.{Client, get_nick, get_id, send, notify, update_state}
use girc.Event.{Event, plain_event, last}
use girc.Source.{Source, parse_source}
use girc.Source
use girc.Perms.{Perms, or_no_perms, lookup_perms, set_perms, parse_user_prefix}
use girc.Perms
use girc.Text.Fold.{to_rfc1459}
use girc.Text.Valid.{is_valid_nick}
use girc.Tracker.{
  User, Channel, State, lookup_channel, lookup_user, create_channel, create_user, add_user,
  add_channel, delete_channel, delete_user, rename_user,
}

-- The state with a channel for the name, or `none` where the handler returns because
-- `createChannel` refused.
channel_ready : ℕ → Bytes → State → Option Channel → Option State
channel_ready now name s (some ch) = some s
channel_ready now name s none =
    let (s', made) = create_channel now name s in if not made then none else some s'

user_ready : ℕ → Source → State → Option User → Option State
user_ready now src s (some u) = some s
user_ready now src s none =
    let (s', made) = create_user now src s in if not made then none else some s'

-- `Assume extended-join (ircv3).` The parameters behind the channel name.
unfoldable pub extend : List Bytes → User → User
extend [] u = u
extend (account ∷ names) u =
    let v = if not (beq account (codes "*")) then record u { extras_account = account } else u in
    elim names [ [] ↦ v | name ∷ _ ↦ record v { extras_name = name } ]

-- `channel.addUser(user.Nick)`, `user.addChannel(channel.Name)`, and the fields of extended-join.
abbrev entered : Bytes → Source → List Bytes → State → Channel → User → State
entered name src params s ch u = record s {
  channels = insert (to_rfc1459 name) (add_user ch u.nick) s.channels;
  users = insert (to_rfc1459 src.name) (extend params (add_channel u ch.name)) s.users;
}

unfoldable pub enter :
    Bytes → Source → List Bytes → State → Option Channel → Option User → Outcome State
unfolding extend
enter name src params s (some ch) (some u) = ok (entered name src params s ch u)
enter name src params s _ _ = panic

-- What handleJOIN does when it is us who joined.
ask_about_us : Bytes → Source → Client → Client
ask_about_us name src c =
    let asked = send (plain_event (codes "WHO") (name ∷ codes "%tacuhnr,1" ∷ [])) c in
    let moded = send (plain_event (codes "MODE") (name ∷ [])) asked in
    record moded { state = record moded.state { ident = src.ident; host = src.host } }

-- handleJOIN behind the lock: what is sent, and our ident and host.
unfoldable pub after_join : Bytes → Source → Client → Client
unfolding ask_about_us
after_join name src c =
    if beq (Source.id src) (get_id c)
    then ask_about_us name src c
    else send (plain_event (codes "WHO") (src.name ∷ codes "%tacuhnr,1" ∷ [])) c

-- handleJOIN with the user created, from the state `s` before.
join_user : Client → Source → Bytes → List Bytes → State → Option State → Outcome Client
unfolding enter after_join
join_user c src name params s none = ok (record c { state = s })
join_user c src name params s (some s') = do
  s'' ← enter name src params s' (lookup_channel s' name) (lookup_user s' src.name)
  ok (notify update_state (after_join name src (record c { state = s'' })))

-- handleJOIN with the channel created.
join_channel : ℕ → Client → Source → Bytes → List Bytes → Option State → Outcome Client
unfolding user_ready join_user
join_channel now c src name params none = ok c
join_channel now c src name params (some s) =
    join_user c src name params s (user_ready now src s (lookup_user s src.name))

-- handleJOIN on its source and parameters.
join_as : ℕ → Client → Source → Bytes → List Bytes → Outcome Client
unfolding channel_ready join_channel
join_as now c src name params =
    join_channel now c src name params
      (channel_ready now name c.state (lookup_channel c.state name))

join_from : ℕ → Client → Option Source → List Bytes → Outcome Client
unfolding join_as
join_from now c none params = ok c
join_from now c (some src) [] = ok c
join_from now c (some src) (name ∷ params) = join_as now c src name params

-- handleJOIN
unfoldable pub handle_join : ℕ → Client → Event → Outcome Client
unfolding join_from
handle_join now c e = join_from now c e.source e.params

part_from : Client → Option Source → List Bytes → Outcome Client
part_from c none params = ok c
part_from c (some src) [] = ok c
part_from c (some src) (channel ∷ params) = if is_empty channel then ok c else do
  s ←
      if beq (Source.id src) (get_id c)
      then delete_channel channel c.state
      else delete_user channel (Source.id src) c.state
  ok (notify update_state (record c { state = s }))

-- handlePART
unfoldable pub handle_part : Client → Event → Outcome Client
unfolding part_from
handle_part c e = part_from c e.source e.params

kick_from : Client → List Bytes → Outcome Client
kick_from c (channel ∷ user ∷ params) = do
  s ←
      if beq user (get_nick c)
      then delete_channel channel c.state
      else delete_user channel user c.state
  ok (notify update_state (record c { state = s }))
kick_from c _ = ok c

-- handleKICK
unfoldable pub handle_kick : Client → Event → Outcome Client
unfolding kick_from
handle_kick c e = kick_from c e.params

nick_from : ℕ → Client → Event → Option Source → Outcome Client
nick_from now c e none = ok c
nick_from now c e (some src) = do
  s ←
      if ltb 0 (length e.params)
      then rename_user now (Source.id src) (last e) c.state
      else ok c.state
  ok (notify update_state (record c { state = s }))

-- handleNICK
unfoldable pub handle_nick : ℕ → Client → Event → Outcome Client
unfolding nick_from
handle_nick now c e = nick_from now c e e.source

quit_from : Client → Option Source → Outcome Client
quit_from c none = ok c
quit_from c (some src) = if beq (Source.id src) (get_id c) then ok c else do
  s ← delete_user [] (Source.id src) c.state
  ok (notify update_state (record c { state = s }))

-- handleQUIT
unfoldable pub handle_quit : Client → Event → Outcome Client
unfolding quit_from
handle_quit c e = quit_from c e.source

-- `strings.Split(s, " ")`; `piece` is what stands before `s`.
unfoldable pub split_spaces : Bytes → Bytes → List Bytes
split_spaces piece [] = piece ∷ []
split_spaces piece (x ∷ xs) = elim (x == b' ') [
  | true ↦ piece ∷ split_spaces [] xs
  | false ↦ split_spaces (piece ++ (x ∷ [])) xs
]

-- The source that an entry of the list of names gives, or `none` where the loop continues.
unfoldable pub named_source : Bytes → Option Source
named_source nick =
    if has_byte nick b'@'
    then some (parse_source nick)
    else if not (is_valid_nick nick)
    then none
    else some (record { name = nick; ident = []; host = [] })

-- The user in the channel, with its permissions there overwritten by `modes`.
abbrev named_user : Channel → Bytes → User → User
named_user ch modes u =
    let v = add_channel u ch.name in
    let perms = Perms.set (or_no_perms (lookup_perms v.perms ch.name)) modes false in
    record v { perms = set_perms v.perms ch.name perms }

-- `user.addChannel`, `channel.addUser`, and the permissions.
abbrev named : Bytes → Source → Bytes → State → Channel → User → State
named key src modes s ch u = record s {
  channels = insert key (add_user ch (Source.id src)) s.channels;
  users = insert (to_rfc1459 src.name) (named_user ch modes u) s.users;
}

enter_named : Bytes → Source → Bytes → State → Option Channel → Option User → Outcome State
enter_named key src modes s (some ch) (some u) = ok (named key src modes s ch u)
enter_named key src modes s (some ch) none = ok s
enter_named key src modes s none u = panic

-- A round of the loop behind `parseUserPrefix`. `channel` points to the entry at `key`.
name_as : ℕ → Bytes → State → Bytes → Option Source → Outcome State
unfolding enter_named
name_as now key s modes none = ok s
name_as now key s modes (some src) =
    let s' = (create_user now src s).0 in
    enter_named key src modes s' (lookup key s'.channels) (lookup_user s' src.name)

name_part : ℕ → Bytes → State → Option (Bytes × Bytes) → Outcome State
unfolding name_as
name_part now key s none = ok s
name_part now key s (some (modes, nick)) = name_as now key s modes (named_source nick)

unfoldable pub name_parts : ℕ → Bytes → List Bytes → State → Outcome State
unfolding name_part
name_parts now key [] s = ok s
name_parts now key (part ∷ parts) s = do
  s' ← name_part now key s (parse_user_prefix part)
  name_parts now key parts s'

-- handleNAMES behind `e.Params[2]`.
names_in : ℕ → Client → Event → Bytes → Option Channel → Outcome Client
unfolding name_parts
names_in now c e name none = ok c
names_in now c e name (some ch) = do
  s ← name_parts now (to_rfc1459 name) (split_spaces [] (last e)) c.state
  ok (notify update_state (record c { state = s }))

names_at : ℕ → Client → Event → Option Bytes → Outcome Client
unfolding names_in
names_at now c e none = panic
names_at now c e (some name) = names_in now c e name (lookup_channel c.state name)

-- handleNAMES
unfoldable pub handle_names : ℕ → Client → Event → Outcome Client
unfolding names_at
handle_names now c e =
    if ltb (length e.params) 1 then ok c else names_at now c e (get_elem? e.params 2)
