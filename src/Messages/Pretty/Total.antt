-- ===== src/Messages/Pretty/Total.antt =====
-- `Event.Pretty` on any event.
use girc.Prelude.{Option, Bytes, Outcome, ok}
use girc.Source.{Source}
use girc.Event.{Event}

-- The operation gives a text or false.
data Returns : Outcome (Option Bytes) → Type 0 where
  returns : (o : Option Bytes) → Returns (ok o)
