-- ===== src/Conn.antt =====
-- conn.go: the keep-alive loop, the rate limit, and what the read and the write loop do to an
-- event. Points of time and durations are in nanoseconds; the clock is an argument. Sockets,
-- goroutines and channels are not modelled.
pub mod Timeout
pub mod Burst
pub mod Session
pub mod Send
pub mod Stream
use girc.Prelude.{
  ℕ, ◌+◌, ◌-◌, ◌*◌, ◌/◌, ltb, leb, Bool, true, false, not, ◌&&◌, ◌||◌, Option, none, some, List, [],
  ◌∷◌, if◌then◌else◌, Bytes, codes, beq, is_some, lookup, ℤ, pos, less, ◌+ℤ◌, wrap,
}
use girc.Source.{Source, id}
use girc.Event.{Event}
use girc.Client.{Client, get_id}
use girc.Actions.{Action}
use girc.Commands.{ping}
use girc.Cap.Options.{Caps}

-- The durations of `Config`, and New's bounds on them.
pub record PingConfig : Type 0 where
  pub ping_delay : ℤ
  pub ping_timeout : ℤ

-- New
unfoldable pub new_ping_config : PingConfig → PingConfig
new_ping_config config = record {
  ping_delay =
      if not (less config.ping_delay (pos 0)) && less config.ping_delay (pos 20000000000)
      then pos 20000000000
      else if less (pos 600000000000) config.ping_delay
      then pos 600000000000
      else config.ping_delay;
  ping_timeout =
      if not (less config.ping_timeout (pos 0)) && not (less (pos 0) config.ping_timeout)
      then pos 60000000000
      else config.ping_timeout;
}

-- The variables of pingLoop, and the fields of ircConn that it shares with handlePONG.
pub record Pinging : Type 0 where
  pub started : ℕ
  pub past : Bool
  pub ping_sent : Bool
  pub last_ping : ℕ
  pub last_pong : ℕ

-- ErrTimedOut
pub record TimedOut : Type 0 where
  pub time_since_success : ℕ
  pub last_pong : ℕ
  pub last_ping : ℕ
  pub delay : ℤ

-- What a tick does: the loop goes on, having sent something, or returns an error.
pub data Tick : Type 0 where
  goes_on : Pinging → List Action → Tick
  times_out : TimedOut → Tick

-- pingLoop, before its loop; `none` where it returns at once.
unfoldable pub start_pinging : PingConfig → ℕ → Option Pinging
start_pinging config now =
    if not (less (pos 0) config.ping_delay)
    then none
    else some
        record { started = now; past = false; ping_sent = false; last_ping = now; last_pong = now }

-- The time since the last PONG is longer than the delay and the timeout, whose sum is an int64.
unfoldable pub is_late : PingConfig → ℕ → ℕ → Bool
is_late config last_pong now =
    less (wrap (config.ping_delay +ℤ config.ping_timeout)) (pos (now - last_pong))

-- A tick, after the delay during connect. `itoa` is fmt.Sprintf("%d", ...).
send_ping : (ℕ → Bytes) → PingConfig → ℕ → Pinging → Tick
unfolding is_late
send_ping itoa config now s =
    if s.ping_sent && is_late config s.last_pong now
    then times_out record {
      time_since_success = now - s.last_pong;
      last_pong = s.last_pong;
      last_ping = s.last_ping;
      delay = config.ping_delay;
    }
    else goes_on (record s { past = true; ping_sent = true; last_ping = now }) (ping (itoa now))

-- The case of a tick in the loop of pingLoop.
unfoldable pub tick : (ℕ → Bytes) → PingConfig → ℕ → Pinging → Tick
unfolding send_ping
tick itoa config now s =
    if not s.past && ltb (now - s.started) 30000000000
    then goes_on s []
    else send_ping itoa config now s

-- handlePONG
unfoldable pub handle_pong : ℕ → Pinging → Pinging
handle_pong now s = record s { last_pong = now }

-- The fields of ircConn that rate and sendLoop use.
pub record Writing : Type 0 where
  pub last_write : ℕ
  pub last_active : ℕ
  pub write_delay : ℕ

-- ircConn.rate: the time that a line of `chars` costs, and the delay that is asked for.
unfoldable pub cost : ℕ → ℕ
cost chars = 1000000000 + chars * 1000000000 / 100

unfoldable pub rate : ℕ → ℕ → Writing → Writing × ℕ
unfolding cost
rate chars now w =
    let write_delay = w.write_delay + cost chars - (now - w.last_write) in
    (record w { write_delay = write_delay }, if ltb 8000000000 write_delay then cost chars else 0)

-- sendLoop: the event without its tags, if the server has not taken them up.
unfoldable pub allow_tags : Caps → Event → Event
allow_tags enabled e =
    if is_some e.tags && not (is_some (lookup (codes "message-tags") enabled))
    then record e { tags = some [] }
    else e

-- sendLoop: the times of the connection once the event is written.
unfoldable pub wrote : ℕ → Event → Writing → Writing
wrote now e w = record w {
  last_write = now;
  last_active =
      if not (beq e.command (codes "PING"))
        && not (beq e.command (codes "PONG"))
        && not (beq e.command (codes "WHO"))
      then now
      else w.last_active;
}

is_us : Client → Option Source → Bool
is_us c none = false
is_us c (some source) = beq (id source) (get_id c)

-- readLoop: the event with its echo flag.
unfoldable pub mark_echo : Client → Event → Event
unfolding is_us
mark_echo c e = record e {
  echo = (beq e.command (codes "PRIVMSG") || beq e.command (codes "NOTICE")) && is_us c e.source;
}
