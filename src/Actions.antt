-- ===== src/Actions.antt =====
-- What the code hands to the connection, in the order in which it does: `Client.Send`,
-- `Client.write`, `Client.receive`, `Client.RunHandlers` and `Client.Close`.
use girc.Event.{Event}

pub data Action : Type 0 where
  send write receive run_handlers : Event → Action
  close : Action
