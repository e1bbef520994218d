-- ===== src/Commands.antt =====
-- commands.go: what each command sends. `max` is Client.MaxEventLength(); the variants with a
-- format string (Messagef and the like) call the ones below on the formatted text.
pub mod Lists
pub mod Raw
pub mod Ctcps
use girc.Prelude.{
  ℕ, ◌+◌, ◌-◌, ltb, Bool, true, false, not, ◌&&◌, Option, none, some, List, [], ◌∷◌, ◌++◌, map,
  if◌then◌else◌, Bytes, codes, is_empty, length, get_or, Outcome, ok, panic, ◌>>=◌,
}
use girc.Source.{Source}
use girc.Event.{Event, plain_event}
use girc.Actions.{Action, send, write}
use girc.Wire.{Platform, parse_event}
use girc.Ctcp.{encode_ctcp_raw}
use girc.Text.Fold.{rune_bytes}
use girc.Text.Valid.{is_valid_channel}

unfoldable pub send_event : Bytes → List Bytes → Action
send_event command params = send (plain_event command params)

-- Commands.Nick
unfoldable pub nick : Bytes → List Action
unfolding send_event
nick name = send_event (codes "NICK") (name ∷ []) ∷ []

-- The loop of Commands.Join and Commands.List, on the text `buffer` and the channels that are left.
unfoldable pub join_from : ℕ → Bytes → Bytes → List Bytes → List Action
unfolding send_event
join_from max command buffer [] = []
join_from max command buffer (channel ∷ []) =
    let longer = if is_empty buffer then channel else buffer ++ (b',' ∷ channel) in
    if ltb max (length (buffer ++ (b',' ∷ channel)))
    then send_event command (buffer ∷ []) ∷ []
    else send_event command (longer ∷ []) ∷ []
join_from max command buffer (channel ∷ next ∷ channels) =
    let full = ltb max (length (buffer ++ (b',' ∷ channel))) in
    let longer = if is_empty buffer then channel else buffer ++ (b',' ∷ channel) in
    let rest = join_from max command (if full then [] else longer) (next ∷ channels) in
    if full then send_event command (buffer ∷ []) ∷ rest else rest

-- Commands.Join. The length is at least 1, so a limit below 0 is as good as 0.
unfoldable pub join : ℕ → List Bytes → List Action
unfolding join_from
join max channels = join_from (max - 4 - 1) (codes "JOIN") [] channels

-- Commands.JoinKey
unfoldable pub join_key : Bytes → Bytes → List Action
unfolding send_event
join_key channel password = send_event (codes "JOIN") (channel ∷ password ∷ []) ∷ []

-- Commands.Part
unfoldable pub part : List Bytes → List Action
unfolding send_event
part channels = map (λ channel. send_event (codes "PART") (channel ∷ [])) channels

-- Commands.PartMessage
unfoldable pub part_message : Bytes → Bytes → List Action
unfolding send_event
part_message channel message = send_event (codes "PART") (channel ∷ message ∷ []) ∷ []

-- Commands.Message
unfoldable pub message_to : Bytes → Bytes → List Action
unfolding send_event
message_to target message = send_event (codes "PRIVMSG") (target ∷ message ∷ []) ∷ []

-- Commands.Notice
unfoldable pub notice : Bytes → Bytes → List Action
unfolding send_event
notice target message = send_event (codes "NOTICE") (target ∷ message ∷ []) ∷ []

-- Commands.SendCTCP
unfoldable pub send_ctcp : Bytes → Bytes → Bytes → Outcome (List Action)
unfolding message_to
send_ctcp target ctcp_type message =
    let out = encode_ctcp_raw ctcp_type message in
    if is_empty out then panic else ok (message_to target out)

-- Commands.SendCTCPReply
unfoldable pub send_ctcp_reply : Bytes → Bytes → Bytes → Outcome (List Action)
unfolding notice
send_ctcp_reply target ctcp_type message =
    let out = encode_ctcp_raw ctcp_type message in
    if is_empty out then panic else ok (notice target out)

-- Where Commands.Reply and Commands.ReplyTo send their text; `to_channel` and `to_user` are the
-- text for a channel and the one for a user.
reply_from : Event → Bytes → Bytes → Option Source → Outcome (List Action)
unfolding message_to
reply_from e to_channel to_user none = panic
reply_from e to_channel to_user (some source) =
    if ltb 0 (length e.params) && is_valid_channel (get_or e.params 0 [])
    then ok (message_to (get_or e.params 0 []) to_channel)
    else ok (message_to source.name to_user)

-- Commands.Reply
unfoldable pub reply : Event → Bytes → Outcome (List Action)
unfolding reply_from
reply e message = reply_from e message message e.source

name_of : Option Source → Bytes
name_of none = []
name_of (some source) = source.name

-- Commands.ReplyTo
unfoldable pub reply_to : Event → Bytes → Outcome (List Action)
unfolding reply_from name_of
reply_to e message = reply_from e (name_of e.source ++ (codes ", " ++ message)) message e.source

-- Commands.Action
unfoldable pub action : Bytes → Bytes → List Action
unfolding message_to
action target message = message_to target ((0x1 ∷ codes "ACTION ") ++ (message ++ (0x1 ∷ [])))

-- Commands.SendRaw, where `send` is Client.Send: what it does to the state of the client and what
-- it gives to the connection, if it does not panic. The result says also the line of the error that
-- is returned, if there is one.
module _ {ℓ κ} {S : Type ℓ} {A : Type κ} (client_send : S → Event → Outcome (S × List A)) where
  send_raw_line :
      S
      → Option Event
      → Bytes
      → (S → Outcome (S × List A × Option Bytes))
      → Outcome (S × List A × Option Bytes)
  send_raw_line s none line rest = ok (s, [], some line)
  send_raw_line s (some e) line rest =
      client_send s e >>= λ sent. rest sent.0 >>= λ more. ok (more.0, sent.1 ++ more.1, more.2)

  unfoldable pub send_raw : Platform → S → List Bytes → Outcome (S × List A × Option Bytes)
  unfolding send_raw_line
  send_raw p s [] = ok (s, [], none)
  send_raw p s (line ∷ lines) =
      parse_event p line >>= λ e. send_raw_line s e line (λ s'. send_raw p s' lines)

-- Commands.Topic
unfoldable pub topic : Bytes → Bytes → List Action
unfolding send_event
topic channel message = send_event (codes "TOPIC") (channel ∷ message ∷ []) ∷ []

-- Commands.Who
unfoldable pub who : List Bytes → List Action
unfolding send_event
who users = map (λ user. send_event (codes "WHO") (user ∷ codes "%tcuhnr,2" ∷ [])) users

-- Commands.Whois
unfoldable pub whois : List Bytes → List Action
unfolding send_event
whois users = map (λ user. send_event (codes "WHOIS") (user ∷ [])) users

-- Commands.Ping
unfoldable pub ping : Bytes → List Action
ping id = write (plain_event (codes "PING") (id ∷ [])) ∷ []

-- Commands.Pong
unfoldable pub pong : Bytes → List Action
pong id = write (plain_event (codes "PONG") (id ∷ [])) ∷ []

-- Commands.Oper
unfoldable pub oper : Bytes → Bytes → List Action
oper user pass =
    send (record (plain_event (codes "OPER") (user ∷ pass ∷ [])) { sensitive = true }) ∷ []

-- Commands.Kick
unfoldable pub kick : Bytes → Bytes → Bytes → List Action
unfolding send_event
kick channel user reason =
    (if not (is_empty reason)
      then send_event (codes "KICK") (channel ∷ user ∷ reason ∷ []) ∷ []
      else [])
    ++ (send_event (codes "KICK") (channel ∷ user ∷ []) ∷ [])

-- Commands.Mode
unfoldable pub mode : Bytes → Bytes → List Bytes → List Action
unfolding send_event
mode target modes params = send_event (codes "MODE") (target ∷ modes ∷ params) ∷ []

-- Commands.Ban
unfoldable pub ban : Bytes → Bytes → List Action
unfolding mode
ban channel mask = mode channel (codes "+b") (mask ∷ [])

-- Commands.Unban
unfoldable pub unban : Bytes → Bytes → List Action
unfolding mode
unban channel mask = mode channel (codes "-b") (mask ∷ [])

-- Commands.Invite
unfoldable pub invite : Bytes → List Bytes → List Action
unfolding send_event
invite channel users = map (λ user. send_event (codes "INVITE") (user ∷ channel ∷ [])) users

-- Commands.Back
unfoldable pub back : List Action
unfolding send_event
back = send_event (codes "AWAY") [] ∷ []

-- Commands.Away
unfoldable pub away : Bytes → List Action
unfolding send_event back
away reason = if is_empty reason then back else send_event (codes "AWAY") (reason ∷ []) ∷ []

-- Commands.List
unfoldable pub list : ℕ → List Bytes → List Action
unfolding send_event join_from
list max [] = send_event (codes "LIST") [] ∷ []
list max (channel ∷ channels) = join_from (max - 4 - 1) (codes "LIST") [] (channel ∷ channels)

-- Commands.Whowas, with strconv.Itoa of the amount
unfoldable pub whowas : (ℕ → Bytes) → Bytes → ℕ → List Action
unfolding send_event
whowas itoa user amount = send_event (codes "WHOWAS") (user ∷ itoa amount ∷ []) ∷ []

-- Commands.Monitor, for a modifier of the ASCII or Latin-1 range
unfoldable pub monitor : ℕ → List Bytes → List Action
unfolding send_event
monitor modifier args = send_event (codes "MONITOR") (rune_bytes modifier ∷ args) ∷ []
