-- ===== src/Client/Queries.antt =====
-- client.go: what a user may ask the client for. `disabled` is Config.disableTracking, under which
-- most of the methods panic; the connection is `none` where Client.conn is nil.
pub mod Listings
use girc.Prelude.{
  ℕ, ◌-◌, ltb, Bool, true, false, not, ◌&&◌, ◌||◌, Option, none, some, List, [], ◌∷◌, map,
  if◌then◌else◌, Bytes, codes, beq, is_empty, is_some, Map, lookup, keys, sort_strings, string_lt,
  Outcome, ok, panic, ◌>>=◌,
}
use girc.Actions.{Action}
use girc.Commands.{send_event}
use girc.Text.Fold.{to_rfc1459}
use girc.Tracker.{State, User, Channel, lookup_channel, lookup_user}
use girc.CmdHandler.{to_lower}

-- The fields of ircConn that are read here.
pub record IrcConn : Type 0 where
  pub conn_time : ℕ
  pub connected : Bool
  pub last_ping : ℕ
  pub last_pong : ℕ

-- Client.IsConnected
unfoldable pub is_connected : Option IrcConn → Bool
is_connected none = false
is_connected (some conn) = conn.connected

-- Client.Uptime; `none` is ErrNotConnected.
unfoldable pub uptime : Option IrcConn → Option ℕ
uptime none = none
uptime (some conn) = if conn.connected then some conn.conn_time else none

-- Client.ConnSince
unfoldable pub conn_since : ℕ → Option IrcConn → Option ℕ
unfolding uptime
conn_since now conn = elim (uptime conn) [ none ↦ none | some start ↦ some (now - start) ]

-- Client.Latency, which reads the connection without asking whether there is one
unfoldable pub latency : Option IrcConn → Outcome ℕ
latency none = panic
latency (some conn) = ok (conn.last_pong - conn.last_ping)

-- Client.panicIfNotTracking, in front of a method
unfoldable pub tracking {ℓ} : {A : Type ℓ} → Bool → A → Outcome A
tracking true a = panic
tracking false a = ok a

-- Client.GetHost
unfoldable pub get_host : Bool → State → Outcome Bytes
unfolding tracking
get_host disabled s = tracking disabled s.host

-- Client.ChannelList
unfoldable pub channel_list : Bool → State → Outcome (List Bytes)
unfolding tracking
channel_list disabled s = tracking disabled (sort_strings (map (λ e. e.1.name) s.channels))

-- Client.UserList
unfoldable pub user_list : Bool → State → Outcome (List Bytes)
unfolding tracking
user_list disabled s = tracking disabled (sort_strings (map (λ e. e.1.nick) s.users))

-- sort.Slice by the names, which differ
insert_by {ℓ} : {A : Type ℓ} → (A → Bytes) → A → List A → List A
insert_by key a [] = a ∷ []
insert_by key a (b ∷ rest) =
    let later = insert_by key a rest in
    if string_lt (key b) (key a) then b ∷ later else a ∷ b ∷ rest

unfoldable pub sort_by {ℓ} : {A : Type ℓ} → (A → Bytes) → List A → List A
unfolding insert_by
sort_by key [] = []
sort_by key (a ∷ rest) = insert_by key a (sort_by key rest)

-- Client.Channels
unfoldable pub channels : Bool → State → Outcome (List Channel)
unfolding tracking sort_by
channels disabled s = tracking disabled (sort_by (λ ch. ch.name) (map (λ e. e.1) s.channels))

-- Client.Users
unfoldable pub users : Bool → State → Outcome (List User)
unfolding tracking sort_by
users disabled s = tracking disabled (sort_by (λ u. u.nick) (map (λ e. e.1) s.users))

-- Client.LookupChannel
unfoldable pub find_channel : Bool → State → Bytes → Outcome (Option Channel)
unfolding tracking
find_channel disabled s name =
    tracking disabled (if is_empty name then none else lookup_channel s name)

-- Client.LookupUser
unfoldable pub find_user : Bool → State → Bytes → Outcome (Option User)
unfolding tracking
find_user disabled s nick = tracking disabled (if is_empty nick then none else lookup_user s nick)

-- Client.IsInChannel
unfoldable pub is_in_channel : Bool → State → Bytes → Outcome Bool
unfolding tracking
is_in_channel disabled s name = tracking disabled (is_some (lookup (to_rfc1459 name) s.channels))

option_text : Option Bytes → Bytes
option_text none = []
option_text (some text) = text

-- Client.NetworkName
unfoldable pub network_name : Bool → State → Outcome Bytes
unfolding tracking option_text
network_name disabled s =
    tracking disabled (option_text (lookup (codes "NETWORK") s.server_options))

-- Client.ServerVersion
unfoldable pub server_version : Bool → State → Outcome Bytes
unfolding tracking option_text
server_version disabled s =
    tracking disabled (option_text (lookup (codes "VERSION") s.server_options))

-- Client.ServerMOTD
unfoldable pub server_motd : Bool → State → Outcome Bytes
unfolding tracking
server_motd disabled s = tracking disabled s.motd

-- The loop of Client.HasCapability.
has_key : (Bytes → Bytes) → Bytes → List Bytes → Bool
unfolding to_lower
has_key unicode_lower name [] = false
has_key unicode_lower name (key ∷ keys) =
    beq (to_lower unicode_lower key) name || has_key unicode_lower name keys

-- Client.HasCapability; the argument is what strings.ToLower does outside ASCII.
unfoldable pub has_capability :
    (Bytes → Bytes) → Bool → Option IrcConn → State → Bytes → Outcome Bool
unfolding tracking has_key is_connected to_lower
has_capability unicode_lower disabled conn s name =
    tracking disabled (
      is_connected conn && has_key unicode_lower (to_lower unicode_lower name) (keys s.enabled_cap))

-- Client.Quit
unfoldable pub quit : Bytes → List Action
unfolding send_event
quit reason = send_event (codes "QUIT") (reason ∷ []) ∷ []

-- What Client.TLSConnectionState finds.
pub data TlsState : Type 0 where
  not_connected not_tls tls : TlsState

-- Client.TLSConnectionState; the first argument says whether the socket is a tls.Conn.
unfoldable pub tls_connection_state : Bool → Option IrcConn → TlsState
tls_connection_state secure none = not_connected
tls_connection_state secure (some conn) =
    if not conn.connected then not_connected else if secure then tls else not_tls
