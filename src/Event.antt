-- ===== src/Event.antt =====
-- `Event` of event.go.
use girc.Prelude.{ℕ, Bool, false, Option, none, List, [], Bytes, Map, last_or}
use girc.Source.{Source}

pub record Event : Type 0 where
  pub source : Option Source
  -- `none` is the nil map.
  pub tags : Option (Map Bytes)
  pub timestamp : ℕ
  pub command : Bytes
  pub params : List Bytes
  pub sensitive : Bool
  pub echo : Bool

-- `&Event{Command: command, Params: params}`
abbrev pub plain_event : Bytes → List Bytes → Event
plain_event command params = record {
  source = none;
  tags = none;
  timestamp = 0;
  command = command;
  params = params;
  sensitive = false;
  echo = false;
}

-- Event.Last
unfoldable pub last : Event → Bytes
last e = last_or e.params []
