-- ===== src/Handlers/Details.antt =====
-- The handlers of builtin.go, modes.go, cap.go and cap_tags.go that change what is known of
-- users, channels and the server, and leave the lists of users and channels alone.
pub mod Safe
use girc.Prelude.{
  ℕ, suc, ◌+◌, Bool, true, false, not, ◌&&◌, ◌||◌, Option, none, some, List, [], ◌∷◌, ◌++◌, ◌==◌,
  if◌then◌else◌, ltb, leb, is_empty, Bytes, codes, beq, length, drop, lookup, insert, Outcome, ok,
  panic, ◌>>=◌, last_or,
}
use girc.Client.{Client, notify, update_state, update_general, send}
use girc.Event.{Event, plain_event, last}
use girc.Modes.{CMode, CModes}
use girc.Modes
use girc.Perms.{Perms, or_no_perms, lookup_perms, set_perms, set_from_mode}
use girc.Source.{Source}
use girc.Source
use girc.Tags
use girc.Text.Fold.{to_rfc1459}
use girc.Text.Valid.{is_valid_channel}
use girc.Tracker.{User, Channel, State, lookup_channel, lookup_user}

write_user_at : Bytes → (User → User) → State → Option User → State
write_user_at name f s none = s
write_user_at name f s (some u) = record s { users = insert (to_rfc1459 name) (f u) s.users }

-- `user := lookupUser(name)`, and a write through the pointer if it is not nil.
unfoldable pub write_user : Bytes → (User → User) → State → State
unfolding write_user_at
write_user name f s = write_user_at name f s (lookup_user s name)

write_channel_at : Bytes → (Channel → Channel) → State → Option Channel → State
write_channel_at name f s none = s
write_channel_at name f s (some ch) = record s {
  channels = insert (to_rfc1459 name) (f ch) s.channels;
}

-- The same for `channel := lookupChannel(name)`.
unfoldable pub write_channel : Bytes → (Channel → Channel) → State → State
unfolding write_channel_at
write_channel name f s = write_channel_at name f s (lookup_channel s name)

-- `if user == nil { return }` and `notify` otherwise.
notify_found : {A : Type 0} → Option A → Bytes → Client → Client
notify_found none ntype c = c
notify_found (some a) ntype c = notify ntype c

-- The switch of handleTOPIC on the parameters.
topic_of : Client → Event → Bytes → Client
topic_of c e name =
    notify_found (lookup_channel c.state name) update_state
      (record c { state = write_channel name (λ ch. record ch { topic = last e }) c.state })

topic_from : Client → Event → List Bytes → Client
unfolding topic_of notify_found
topic_from c e [] = c
topic_from c e (name ∷ []) = topic_of c e name
topic_from c e (first ∷ name ∷ params) = topic_of c e name

-- handleTOPIC
unfoldable pub handle_topic : Client → Event → Client
unfolding topic_from
handle_topic c e = topic_from c e e.params

-- handleAWAY
away_from : Client → Event → Option Source → Outcome Client
away_from c e none = panic
away_from c e (some src) = ok (
    notify update_state
      (record c { state = write_user src.name (λ u. record u { extras_away = last e }) c.state }))

unfoldable pub handle_away : Client → Event → Outcome Client
unfolding away_from
handle_away c e = away_from c e e.source

-- handleCHGHOST; the dereference of the source stands behind the test of the parameters.
chghost_from : Client → Option Source → List Bytes → Outcome Client
chghost_from c none (user ∷ host ∷ []) = panic
chghost_from c (some src) (user ∷ host ∷ []) = ok (
    notify update_state (record c {
      state = write_user src.name (λ u. record u { ident = user; host = host }) c.state;
    }))
chghost_from c source params = ok c

unfoldable pub handle_chghost : Client → Event → Outcome Client
unfolding chghost_from
handle_chghost c e = chghost_from c e.source e.params

account_from : Client → Option Source → List Bytes → Outcome Client
account_from c none (account ∷ []) = panic
account_from c (some src) (account ∷ []) =
    let named = if beq account (codes "*") then [] else account in
    ok (
      notify update_state (record c {
        state = write_user src.name (λ u. record u { extras_account = named }) c.state;
      }))
account_from c source params = ok c

-- handleACCOUNT
unfoldable pub handle_account : Client → Event → Outcome Client
unfolding account_from
handle_account c e = account_from c e.source e.params

tags_from : Client → Option Source → Option Bytes → Outcome Client
tags_from c source none = ok c
tags_from c none (some account) = panic
tags_from c (some src) (some account) = ok (
    notify update_state (record c {
      state = write_user (Source.id src) (λ u. record u { extras_account = account }) c.state;
    }))

-- handleTags
unfoldable pub handle_tags : Client → Event → Outcome Client
unfolding tags_from
handle_tags c e =
    if Tags.tag_count e.tags == 0
    then ok c
    else tags_from c e.source (Tags.get e.tags (codes "account"))

active_from : ℕ → Client → Option Source → Client
active_from now c none = c
active_from now c (some src) = record c {
  state = write_user src.name (λ u. record u { last_active = now }) c.state;
}

-- updateLastActive
unfoldable pub update_last_active : ℕ → Client → Event → Client
unfolding active_from
update_last_active now c e = active_from now c e.source

-- `strings.TrimLeft(s, " ")`
trim_left : Bytes → Bytes
trim_left [] = []
trim_left (x ∷ s) = let rest = trim_left s in if x == b' ' then rest else x ∷ s

-- The loop of handleWHO over the real name, from the index `i`. The second test of the source is
-- on the index, not on the byte.
strip_hops : ℕ → Bytes → Bytes
unfolding trim_left
strip_hops i [] = []
strip_hops i (c ∷ realname) =
    let rest = strip_hops (i + 1) realname in
    if ltb c 0x30 || ltb 0x39 i then trim_left realname else rest

-- handleWHO behind the switch on the command.
who_user : Client → Bytes → Bytes → Bytes → Bytes → Bytes → Client
who_user c ident host nick account realname =
    notify_found (lookup_user c.state nick) update_state (record c {
      state =
          write_user nick
            (λ u. record u {
              host = host;
              ident = ident;
              extras_name = realname;
              extras_account = if not (beq account (codes "0")) then account else u.extras_account;
            })
            c.state;
    })

-- RPL_WHOSPCRPL
whox_from : Client → Event → List Bytes → Client
unfolding who_user notify_found
whox_from c e (p₀ ∷ id ∷ p₂ ∷ ident ∷ host ∷ nick ∷ account ∷ p₇ ∷ []) =
    if not (beq id (codes "1")) then c else who_user c ident host nick account (last e)
whox_from c e params = c

-- RPL_WHOREPLY: the parameters are read with no test of their number.
who_from : Client → Event → List Bytes → Outcome Client
unfolding who_user notify_found strip_hops
who_from c e (p₀ ∷ p₁ ∷ ident ∷ host ∷ p₄ ∷ nick ∷ params) =
    ok (who_user c ident host nick [] (strip_hops 0 (last e)))
who_from c e params = panic

-- handleWHO
unfoldable pub handle_who : Client → Event → Outcome Client
unfolding whox_from who_from
handle_who c e =
    if beq e.command (codes "354") then ok (whox_from c e e.params) else who_from c e e.params

-- handleMOTD
unfoldable pub handle_motd : Client → Event → Client
handle_motd c e =
    let motd =
      if beq e.command (codes "375")
      then []
      else (if is_empty c.state.motd then [] else c.state.motd ++ (b'\n' ∷ [])) ++ last e in
    notify update_general (record c { state = record c.state { motd = motd } })

myinfo_from : Client → List Bytes → Client
myinfo_from c (p₀ ∷ server ∷ version ∷ params) =
    let options =
      insert (codes "VERSION") version (insert (codes "SERVER") server c.state.server_options) in
    notify update_general (record c { state = record c.state { server_options = options } })
myinfo_from c params = c

-- handleMYINFO
unfoldable pub handle_myinfo : Client → Event → Client
unfolding myinfo_from
handle_myinfo c e = myinfo_from c e.params

-- handlePING: `c.Cmd.Pong(e.Last())`
unfoldable pub handle_ping : Client → Event → Client
handle_ping c e = send (plain_event (codes "PONG") (last e ∷ [])) c

-- A round of the loop of handleMODE over the parsed modes.
mode_user : Bytes → CMode → State → State
mode_user channel m s =
    if m.setting || is_empty m.args
    then s
    else write_user m.args
        (λ u. record u {
          perms =
              set_perms u.perms channel
                (set_from_mode (or_no_perms (lookup_perms u.perms channel)) m);
        })
        s

mode_users : Bytes → List CMode → State → State
unfolding mode_user
mode_users channel [] s = s
mode_users channel (m ∷ modes) s = mode_users channel modes (mode_user channel m s)

mode_channel : Client → Bytes → Bytes → List Bytes → Option Channel → Client
unfolding mode_users
mode_channel c name flags args none = c
mode_channel c name flags args (some ch) =
    let modes = Modes.parse ch.modes flags args in
    let applied =
      write_channel name (λ x. record x { modes = Modes.apply x.modes modes }) c.state in
    notify update_state (record c { state = mode_users ch.name modes applied })

mode_from : Client → List Bytes → Client
unfolding mode_channel
mode_from c (name ∷ flags ∷ args) =
    if not (is_valid_channel name)
    then c
    else mode_channel c name flags args (lookup_channel c.state name)
mode_from c params = c

-- `RPL_CHANNELMODEIS sends the user as the first param, skip it.`
unfoldable pub handle_mode : Client → Event → Client
unfolding mode_from
handle_mode c e =
    mode_from c
      (if beq e.command (codes "324") && ltb 2 (length e.params) then drop 1 e.params else e.params)
