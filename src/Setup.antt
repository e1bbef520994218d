-- ===== src/Setup.antt =====
-- client.go and builtin.go: the test of a configuration, the address of the server, and what the
-- client does once it is connected or its nickname is taken.
use girc.Prelude.{
  not, ◌&&◌, ◌||◌, Option, none, some, List, [], ◌∷◌, ◌++◌, if◌then◌else◌, Bytes, codes, is_empty,
  ltb, length, get_or, ℤ, pos, less,
}
use girc.Event.{Event, plain_event}
use girc.Actions.{Action, run_handlers}
use girc.Client.{Client, get_nick, notify, update_general}
use girc.Text.Valid.{is_valid_nick, is_valid_user}
use girc.Policy.{Sts, enabled}
use girc.Commands.{nick}

-- The part of `Config` that isValid and server read.
pub record Settings : Type 0 where
  pub server : Bytes
  pub port : ℤ
  pub nick : Bytes
  pub user : Bytes

-- Why isValid refuses a configuration.
pub data Refusal : Type 0 where
  empty_server bad_port bad_nick bad_user : Refusal

-- Config.isValid: the configuration, whose port it may set, and the error, if there is one.
with_port : Settings → Settings
with_port s =
    if not (less s.port (pos 0)) && not (less (pos 0) s.port)
    then record s { port = pos 6667 }
    else s

refusal_of : Settings → Option Refusal
refusal_of s =
    if less s.port (pos 1) || less (pos 65535) s.port
    then some bad_port
    else if not (is_valid_nick s.nick)
    then some bad_nick
    else if not (is_valid_user s.user)
    then some bad_user
    else none

unfoldable pub is_valid : Settings → Settings × Option Refusal
unfolding with_port refusal_of
is_valid s =
    if is_empty s.server then (s, some empty_server) else (with_port s, refusal_of (with_port s))

-- Client.server, with net.JoinHostPort on the decimal form of the port
unfoldable pub server_address : (Bytes → ℤ → Bytes) → Settings → Sts → Bytes
server_address join_host_port s sts =
    if enabled sts then join_host_port s.server sts.upgrade_port else join_host_port s.server s.port

-- handleConnect: the client, and the event CONNECTED, after a delay, with the address.
unfoldable pub handle_connect : Bytes → Client → Event → Client × List Action
handle_connect address c e = (
  if ltb 0 (length e.params)
      then notify update_general
          (record c { state = record c.state { nick = get_or e.params 0 [] } })
      else c,
  run_handlers (plain_event (codes "CONNECTED") (address ∷ [])) ∷ [],
)

-- nickCollisionHandler; `none` is a HandleNickCollide that is nil.
unfoldable pub nick_collision : Option (Bytes → Bytes) → Client → List Action
nick_collision none c = nick (get_nick c ++ codes "_")
nick_collision (some handle) c =
    let new_nick = handle (get_nick c) in if not (is_empty new_nick) then nick new_nick else []
