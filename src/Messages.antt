-- ===== src/Messages.antt =====
-- event.go: what kind of message an event is, and the text of an action.
pub mod Actions
pub mod Origin
pub mod Pretty
use girc.Prelude.{
  ◌-◌, Bool, true, false, not, ◌&&◌, ◌||◌, Option, none, some, ◌∷◌, [], List, ltb, if◌then◌else◌,
  Bytes, codes, beq, length, get_or, Outcome, ok, slice,
}
use girc.Source.{Source}
use girc.Event.{Event, last}
use girc.Text.Valid.{is_valid_channel, is_valid_nick}
use girc.Ctcp.{CtcpEvent, decode_ctcp}

-- Event.IsCTCP; `none` is (false, nil).
unfoldable pub is_ctcp : Event → Option CtcpEvent
is_ctcp e = decode_ctcp e

action_from : Option CtcpEvent → Bool
action_from none = false
action_from (some ctcp) = beq ctcp.command (codes "ACTION")

-- Event.IsAction
unfoldable pub is_action : Event → Bool
unfolding is_ctcp action_from
is_action e = if not (beq e.command (codes "PRIVMSG")) then false else action_from (is_ctcp e)

-- Event.StripAction. The end of the slice is not below 0, since an action has 3 bytes at least.
unfoldable pub strip_action : Event → Outcome Bytes
unfolding is_action
strip_action e = if not (is_action e) then ok (last e) else slice (last e) 8 (length (last e) - 1)

has_source : Option Source → Bool
has_source none = false
has_source (some source) = true

is_message : Event → Bool
unfolding has_source
is_message e = not (
    not (has_source e.source)
    || (not (beq e.command (codes "PRIVMSG")) && not (beq e.command (codes "NOTICE")))
    || ltb (length e.params) 1)

-- Event.IsFromChannel
unfoldable pub is_from_channel : Event → Bool
unfolding is_message
is_from_channel e = if not (is_message e) then false else is_valid_channel (get_or e.params 0 [])

-- Event.IsFromUser
unfoldable pub is_from_user : Event → Bool
unfolding is_message
is_from_user e = if not (is_message e) then false else is_valid_nick (get_or e.params 0 [])
