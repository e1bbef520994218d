-- ===== src/Conn/Session/Upgrade.antt =====
-- A policy that a server gives without TLS: the client reconnects over TLS.
use girc.Prelude.{◌≡◌, true, false, not, ◌&&◌, none, Bytes, is_empty}
use girc.Event.{Event}
use girc.Setup.{is_valid}
use girc.Conn.Session.{Options, Dialing, Connection}

-- A valid configuration, an address to bind to that resolves, and a server that answers.
pub record IsReachable (options : Options) (d : Dialing) : Type 0 where
  pub valid : (is_valid options.settings).1 ≡ none
  pub bound : (not d.own_dialer && not (is_empty options.bind) && not d.resolves) ≡ false
  pub answers : d.answers ≡ true

abbrev pub secure_connection : Bytes → Connection
secure_connection address = record { address = address; secure = true }
