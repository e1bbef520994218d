-- ===== src/Messages/Pretty.antt =====
-- event.go: `Event.Pretty`, `Event.Equals` and `Event.Copy`. An index and a slice of the parameters
-- are operations that may panic.
pub mod Total
use girc.Prelude.{
  Bool, true, false, not, ◌&&◌, ◌||◌, Option, none, some, List, [], ◌∷◌, ◌++◌, ltb, leb, ◌==◌,
  if◌then◌else◌, Bytes, codes, beq, is_some, length, drop, join_with, Outcome, ok, ◌>>=◌,
  slice_before_last, slice_from, element, Map,
}
use girc.Source
use girc.Source.{Source}
use girc.Event.{Event, last}
use girc.Tags.{tags_equal}
use girc.Wire.{Platform}
use girc.Wire.Print.{event_bytes}
use girc.Ctcp.{CtcpEvent, decode_ctcp}
use girc.Messages.{is_ctcp}

is_command : Event → Bytes → Bool
is_command e command = beq e.command command

-- The parameters but for the last, with "," between them.
targets : Event → Outcome Bytes
targets e = slice_before_last e.params >>= λ front. ok (join_with b',' front)

shown : Bytes → Outcome (Option Bytes)
shown text = ok (some text)

-- A CTCP message.
pretty_ctcp : Event → Source → CtcpEvent → Outcome (Option Bytes)
unfolding targets shown
pretty_ctcp e source ctcp =
    if ctcp.reply
    then ok none
    else if beq ctcp.command (codes "ACTION")
    then (targets e >>= λ to.
        shown (codes "[" ++ (to ++ (codes "] **" ++ (source.name ++ (codes "** " ++ ctcp.text))))))
    else shown (
        codes "[*] CTCP query from "
        ++ (source.name ++ (codes ": " ++ (ctcp.command ++ (codes " " ++ ctcp.text)))))

-- PRIVMSG and NOTICE
pretty_message : Event → Source → Option CtcpEvent → Outcome (Option Bytes)
unfolding pretty_ctcp targets shown is_command
pretty_message e source (some ctcp) = pretty_ctcp e source ctcp
pretty_message e source none =
    let from =
      if is_command e (codes "PRIVMSG")
      then codes "(" ++ (source.name ++ codes ")")
      else codes "--" ++ (source.name ++ codes "--") in
    targets e >>= λ to. shown (codes "[" ++ (to ++ (codes "] " ++ (from ++ (codes " " ++ last e)))))

is_banner : Event → Bool
unfolding is_command
is_banner e =
    is_command e (codes "372")
    || is_command e (codes "375")
    || is_command e (codes "001")
    || is_command e (codes "002")
    || is_command e (codes "003")
    || is_command e (codes "251")

-- The capabilities of IRCv3, the last cases.
pretty_ircv3 : Event → Source → Outcome (Option Bytes)
unfolding is_command shown
pretty_ircv3 e source =
    if is_command e (codes "AWAY")
    then (if ltb 0 (length e.params)
        then shown (codes "[*] " ++ (source.name ++ (codes " is now away: " ++ last e)))
        else shown (codes "[*] " ++ (source.name ++ codes " is no longer away")))
    else if is_command e (codes "CHGHOST") && length e.params == 2
    then (element e.params 1 >>= λ host. shown (
        codes "[*] "
        ++ (source.name
            ++ (codes " has changed their host to "
                ++ (host ++ (codes " (was " ++ (source.host ++ codes ")")))))))
    else if is_command e (codes "ACCOUNT") && length e.params == 1
    then (element e.params 0 >>= λ account.
        if beq account (codes "*")
        then shown (codes "[*] " ++ (source.name ++ codes " has become un-authenticated"))
        else shown (
            codes "[*] " ++ (source.name ++ (codes " has authenticated for account: " ++ account))))
    else if is_command e (codes "CAP") && leb 2 (length e.params)
    then (element e.params 1 >>= λ subcommand.
        if beq subcommand (codes "ACK")
        then shown (codes "[*] enabling capabilities: " ++ last e)
        else ok none)
    else ok none

-- KICK, NICK, TOPIC, RPL_TOPIC and MODE
pretty_channel : Event → Source → Outcome (Option Bytes)
unfolding is_command shown pretty_ircv3
pretty_channel e source =
    if is_command e (codes "KICK") && leb 2 (length e.params)
    then (element e.params 0 >>= λ channel. element e.params 1 >>= λ nick. shown (
        codes "["
        ++ (channel
            ++ (codes "] *** "
                ++ (source.name ++ (codes " has kicked " ++ (nick ++ (codes ": " ++ last e))))))))
    else if is_command e (codes "NICK")
    then shown (codes "[*] " ++ (source.name ++ (codes " is now known as " ++ last e)))
    else if is_command e (codes "TOPIC") && leb 2 (length e.params)
    then (element e.params 0 >>= λ channel. shown (
        codes "["
        ++ (channel
            ++ (codes "] *** " ++ (source.name ++ (codes " has set the topic to: " ++ last e))))))
    else if is_command e (codes "332") && ltb 0 (length e.params)
    then (element e.params (if leb 2 (length e.params) then 1 else 0) >>= λ channel.
        shown (codes "[*] topic for " ++ (channel ++ (codes " is: " ++ last e))))
    else if is_command e (codes "MODE") && ltb 2 (length e.params)
    then (element e.params 0 >>= λ target. slice_from e.params 1 >>= λ modes. shown (
        codes "["
        ++ (target
            ++ (codes "] *** "
                ++ (source.name ++ (codes " set modes: " ++ join_with b' ' modes))))))
    else pretty_ircv3 e source

-- JOIN, PART, QUIT and INVITE
pretty_member : Event → Source → Outcome (Option Bytes)
unfolding is_command shown pretty_channel is_banner
pretty_member e source =
    if is_banner e
    then shown (codes "[*] " ++ last e)
    else if is_command e (codes "JOIN") && ltb 0 (length e.params)
    then (element e.params 0 >>= λ channel. shown (
        codes "[*] "
        ++ (source.name ++ (codes " (" ++ (source.host ++ (codes ") has joined " ++ channel))))))
    else if is_command e (codes "PART") && ltb 0 (length e.params)
    then (element e.params 0 >>= λ channel. shown (
        codes "[*] "
        ++ (source.name
            ++ (codes " ("
                ++ (source.host
                    ++ (codes ") has left "
                        ++ (channel ++ (codes " (" ++ (last e ++ codes ")")))))))))
    else if is_command e (codes "QUIT")
    then shown (codes "[*] " ++ (source.name ++ (codes " has quit (" ++ (last e ++ codes ")"))))
    else if is_command e (codes "INVITE") && length e.params == 1
    then (element e.params 0 >>= λ nick. shown (
        codes "[*] "
        ++ (nick ++ (codes " invited to " ++ (last e ++ (codes " by " ++ source.name))))))
    else pretty_channel e source

pretty_from : Platform → Event → Option Source → Outcome (Option Bytes)
unfolding is_command shown pretty_message pretty_member
pretty_from p e none =
    if not (is_command e (codes "PRIVMSG")) && not (is_command e (codes "NOTICE"))
    then ok none
    else if ltb 0 (length e.params)
    then shown (codes "[>] writing " ++ event_bytes p e)
    else ok none
pretty_from p e (some source) =
    if is_command e (codes "INITIALIZED")
    then shown (codes "[*] connection to " ++ (last e ++ codes " initialized"))
    else if is_command e (codes "CONNECTED")
    then shown (codes "[*] successfully connected to " ++ last e)
    else if (is_command e (codes "PRIVMSG") || is_command e (codes "NOTICE"))
        && ltb 0 (length e.params)
    then pretty_message e source (decode_ctcp e)
    else pretty_member e source

-- Event.Pretty; `none` is ("", false).
unfoldable pub pretty : Platform → Event → Outcome (Option Bytes)
unfolding is_command shown pretty_from
pretty p e =
    if e.sensitive || e.echo
    then ok none
    else if is_command e (codes "ERROR")
    then shown (codes "[*] an error occurred: " ++ last e)
    else pretty_from p e e.source

-- The loop of Event.Equals.
same_params : List Bytes → List Bytes → Bool
same_params [] _ = true
same_params (x ∷ xs) [] = true
same_params (x ∷ xs) (y ∷ ys) = if not (beq x y) then false else same_params xs ys

-- Event.Equals
unfoldable pub event_equals : Event → Event → Bool
unfolding same_params
event_equals e ev =
    if not (beq e.command ev.command) || not (length e.params == length ev.params)
    then false
    else if not (same_params e.params ev.params)
    then false
    else if not (Source.equals e.source ev.source) || not (tags_equal e.tags ev.tags)
    then false
    else true

-- The loop of Event.Copy over the tags.
copied_tags : Option (Map Bytes) → Option (Map Bytes)
copied_tags none = none
copied_tags (some tags) = some tags

-- Event.Copy, whose result shares nothing with the event
unfoldable pub copy : Option Event → Option Event
unfolding copied_tags
copy none = none
copy (some e) = some record {
  source = e.source;
  tags = copied_tags e.tags;
  timestamp = e.timestamp;
  command = e.command;
  params = e.params;
  sensitive = e.sensitive;
  echo = e.echo;
}
