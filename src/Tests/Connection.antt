-- ===== src/Tests/Connection.antt =====
-- The keep-alive loop, the rate limit and the options of the server at concrete inputs.
use girc.Prelude.{
  ◌+ℤ◌, ◌-◌, less, lookup, index_byte, insert, beq, atoi, wrap, ℕ, ◌+◌, ◌≤◌, ◌≡◌, refl, arith, true,
  false, List, [], ◌∷◌, ◌++◌, Bytes, codes, pos,
}
use girc.Conn.{PingConfig, Pinging, Writing, is_late, rate, cost}
use girc.Conn.Timeout.{Adds, IsTimeout, ticks, ticks-IsTimeout}
use girc.Conn.Burst.{Line, all_pass, spent, idle, spent-le}
use girc.Event.{Event, plain_event}
use girc.Limits.{
  reset, handle_isupport, max_event_length, set_options, option_or, prefix_length, larger_option,
  get_server_option_int, get_server_option,
}
use girc.Limits.Positive.{IsSound, IsUsable, with_options, handle_isupport-IsSound}

abbrev itoa : ℕ → Bytes
itoa n = codes "0"

abbrev config : PingConfig
config = record { ping_delay = pos 20000000000; ping_timeout = pos 60000000000 }

abbrev started : Pinging
started = record { started = 0; past = false; ping_sent = false; last_ping = 0; last_pong = 0 }

config-Adds : Adds itoa config
unfolding wrap
config-Adds = refl

late_enough :
    less (config.ping_delay +ℤ config.ping_timeout) (pos (100000000000 - started.last_pong)) ≡ true
late_enough = refl

-- With the largest timeout the sum overflows: the first tick behind the PING ends the loop, a
-- millisecond after a PONG.
overflown-is_late :
    is_late
      record { ping_delay = pos 20000000000; ping_timeout = pos 9223372036854775807 }
      0
      1000000
    ≡ true
unfolding is_late wrap
overflown-is_late = refl

ticks-IsTimeout_example :
    IsTimeout itoa config 0
      (ticks itoa config (40000000000 ∷ ((60000000000 ∷ []) ++ (100000000000 ∷ []))) started)
ticks-IsTimeout_example =
    ticks-IsTimeout itoa config started 40000000000 (60000000000 ∷ []) 100000000000 config-Adds
      (omega arith) late_enough

abbrev idle_connection : Writing
idle_connection = record { last_write = 5; last_active = 5; write_delay = 0 }

abbrev two_lines : List Line
two_lines =
    record { chars = 100; asked = 10; written = 20 }
    ∷ record { chars = 200; asked = 20; written = 30 }
    ∷ []

two_lines-all_pass : all_pass two_lines idle_connection ≡ true
unfolding all_pass rate cost
two_lines-all_pass = refl

spent-le_example : 0 + spent two_lines ≤ 8000000000 + idle two_lines idle_connection
spent-le_example = spent-le two_lines idle_connection (omega arith) two_lines-all_pass

abbrev options : Event
options = plain_event (codes "005") (
    codes "Bot"
    ∷ codes "NICKLEN=31"
    ∷ codes "LINELEN=2048"
    ∷ codes "are supported by this server"
    ∷ [])

reset-IsSound : IsSound reset
unfolding reset
reset-IsSound = (refl, refl, refl)

options-IsUsable : IsUsable (with_options reset options)
unfolding reset set_options option_or prefix_length larger_option get_server_option_int
    get_server_option lookup index_byte insert beq atoi wrap
options-IsUsable = (refl, refl)

handle_isupport-IsSound_example :
    IsSound reset
    × IsSound (handle_isupport reset options)
    × (less (pos 0) (max_event_length false (handle_isupport reset options)) ≡ true)
handle_isupport-IsSound_example =
    handle_isupport-IsSound reset options reset-IsSound options-IsUsable
