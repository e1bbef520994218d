-- ===== src/Conn/Send.antt =====
-- conn.go: `Client.Send` and `Client.write`. Other goroutines work on the connection between the
-- steps of Send: a `Turn` says what becomes of it. Where Client.conn is nil it is `none`.
pub mod Order
use girc.Prelude.{
  ℕ, ◌+◌, ◌-◌, ◌<◌, ◌≡◌, refl, sym, ap, ◌∙◌, arith, Bool, true, false, not, ◌&&◌, ◌||◌, Option,
  none, some, List, [], ◌∷◌, ◌++◌, All, map, if◌then◌else◌, Bytes, codes, beq, is_empty, ltb,
  length, Outcome, ok, ◌>>=◌,
}
use mathlib.Core.Path.{subst}
use girc.Event.{Event, last}
use girc.Text.Fmt.{format}
use girc.Split.{TextLib, words_of}
use girc.Messages.{is_ctcp}
use girc.Split.Words.{IsLine}
use girc.Split.Lines.{IsFitting, IsPrintable}
use girc.Split.Events.{with_last, split}
use girc.Split.Events.Bound.{sent_length, IsWithin, split_lem}
use girc.Wire.Print.{len_opts}
use girc.Conn.{Writing, rate}

-- Send, on Config.GlobalFormat: the last parameter is put through Fmt.
unfoldable pub formatted : Bool → Event → Event
formatted global_format e =
    if global_format
      && ltb 0 (length e.params)
      && not (is_empty (last e))
      && (beq e.command (codes "PRIVMSG")
          || beq e.command (codes "TOPIC")
          || beq e.command (codes "NOTICE"))
    then with_last e (format (last e))
    else e

-- A round of the loop of Send: what has become of the connection when the round begins, the time
-- then, what becomes of it while Send waits, and whether the event is taken within 30 seconds.
pub record Turn : Type 0 where
  pub beginning : Option Writing → Option Writing
  pub now : ℕ
  pub waiting : Option Writing → Option Writing
  pub taken : Bool

-- What is put on the channel to sendLoop, and the time that Send has waited before.
pub record Sent : Type 0 where
  pub delay : ℕ
  pub event : Event

-- The delay of the round, on Config.AllowFlood; `none` where Send returns.
limited : Bool → ℕ → Event → ℕ → Option Writing → Option (Option Writing × ℕ)
limited true now e delay conn = some (conn, delay)
limited false now e delay none = none
limited false now e delay (some w) =
    let (w, delay) = rate (len_opts e true) now w in some (some w, delay)

-- Client.write
write_event : Option Writing → Bool → ℕ → Event → List Sent
write_event none taken delay e = []
write_event (some w) taken delay e = if taken then record { delay = delay; event = e } ∷ [] else []

send_round :
    (ℕ → Option Writing → List Sent) → Turn → Event → Option (Option Writing × ℕ) → List Sent
unfolding write_event
send_round again turn e none = []
send_round again turn e (some (conn, delay)) =
    write_event (turn.waiting conn) turn.taken delay e ++ again delay (turn.waiting conn)

send_events : Bool → (ℕ → Turn) → ℕ → ℕ → Option Writing → List Event → List Sent
unfolding limited send_round
send_events allow_flood turn i delay conn [] = []
send_events allow_flood turn i delay conn (e ∷ events) =
    send_round (λ delay conn. send_events allow_flood turn (i + 1) delay conn events) (turn i) e
      (limited allow_flood (turn i).now e delay ((turn i).beginning conn))

-- Client.Send, where `max` is what Client.MaxEventLength gives.
unfoldable pub send :
    TextLib → Bool → Bool → ℕ → (ℕ → Turn) → Option Writing → Event → Outcome (List Sent)
unfolding send_events
send t global_format allow_flood max turn conn e = do
  events ← split t max (formatted global_format e)
  ok (send_events allow_flood turn 0 0 conn events)
