-- ===== src/Client.antt =====
-- The part of `Client` (client.go) that the built-in handlers work on. Handlers run one at a time
-- under the lock of the state; what they hand to `Client.Send` and `state.notify` is recorded in
-- order.
pub mod Queries
use girc.Prelude.{◌++◌, List, [], ◌∷◌, Bytes, codes, is_empty, if◌then◌else◌}
use girc.Event.{Event}
use girc.Text.Fold.{to_rfc1459}
use girc.Tracker.{State}

pub record Client : Type 0 where
  pub state : State
  -- Config.Nick and Config.User
  pub config_nick : Bytes
  pub config_user : Bytes
  -- The events given to `Send` or `write`, and the commands given to `notify`, oldest first.
  pub sent : List Event
  pub updates : List Bytes

-- Client.GetNick, with tracking enabled
unfoldable pub get_nick : Client → Bytes
get_nick c = if is_empty c.state.nick then c.config_nick else c.state.nick

-- Client.GetID
unfoldable pub get_id : Client → Bytes
unfolding get_nick
get_id c = to_rfc1459 (get_nick c)

-- Client.GetIdent
unfoldable pub get_ident : Client → Bytes
get_ident c = if is_empty c.state.ident then c.config_user else c.state.ident

-- Client.Send, up to the queue
abbrev pub send : Event → Client → Client
send e c = record c { sent = c.sent ++ (e ∷ []) }

-- state.notify
abbrev pub notify : Bytes → Client → Client
notify ntype c = record c { updates = c.updates ++ (ntype ∷ []) }

abbrev pub update_state : Bytes
update_state = codes "CLIENT_STATE_UPDATED"

abbrev pub update_general : Bytes
update_general = codes "CLIENT_GENERAL_UPDATED"
