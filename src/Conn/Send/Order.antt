-- ===== src/Conn/Send/Order.antt =====
-- What `Client.Send` puts on the channel to sendLoop: events of the split, in their order.
use girc.Prelude.{
  ℕ, ◌+◌, ◌-◌, ◌<◌, ◌≡◌, refl, sym, ap, Bool, true, false, ◌||◌, Option, none, some, List, [], ◌∷◌,
  ◌++◌, All, map, codes, beq, length, ok, ◌>>=◌,
}
use mathlib.Core.Path.{subst}
use girc.Event.{Event, last}
use girc.Split.{TextLib, words_of}
use girc.Messages.{is_ctcp}
use girc.Split.Lines.{IsFitting, IsPrintable}
use girc.Split.Events.{with_last, split}
use girc.Split.Events.Bound.{sent_length, IsWithin, split_lem}
use girc.Wire.Print.{len_opts}
use girc.Conn.{Writing, rate}
use girc.Conn.Send.{formatted, Turn, Sent, limited, write_event, send_round, send_events, send}

-- Those of the events that have a true flag, in their order.
unfoldable pub kept : List Bool → List Event → List Event
kept (true ∷ flags) (e ∷ events) = e ∷ kept flags events
kept (false ∷ flags) (e ∷ events) = kept flags events
kept _ _ = []

-- The events that were put on the channel.
abbrev pub events_of : List Sent → List Event
events_of sent = map (λ s. s.event) sent

write_event-kept :
    (conn : Option Writing) (taken : Bool) (delay : ℕ) (e : Event) (rest : List Sent)
    (flags : List Bool) (events : List Event)
    → events_of rest ≡ kept flags events
    → (flag : Bool) × (events_of (write_event conn taken delay e ++ rest)
        ≡ kept (flag ∷ flags) (e ∷ events))
unfolding write_event kept
write_event-kept none taken delay e rest flags events h = (false, h)
write_event-kept (some w) true delay e rest flags events h = (true, ap (λ es. e ∷ es) h)
write_event-kept (some w) false delay e rest flags events h = (false, h)

send_round-kept :
    (again : ℕ → Option Writing → List Sent) (turn : Turn) (e : Event)
    (o : Option (Option Writing × ℕ)) (events : List Event)
    → ((delay : ℕ) (conn : Option Writing)
        → (flags : List Bool) × (events_of (again delay conn) ≡ kept flags events))
    → (flags : List Bool) × (events_of (send_round again turn e o) ≡ kept flags (e ∷ events))
unfolding send_round kept
send_round-kept again turn e none events later = ([], refl)
send_round-kept again turn e (some (conn, delay)) events later =
    let (flags, same) = later delay (turn.waiting conn) in
    let (flag, all) =
      write_event-kept (turn.waiting conn) turn.taken delay e (again delay (turn.waiting conn))
        flags events same in
    (flag ∷ flags, all)

send_events-kept :
    (allow_flood : Bool) (turn : ℕ → Turn) (i delay : ℕ) (conn : Option Writing)
    (events : List Event)
    → (flags : List Bool) × (events_of (send_events allow_flood turn i delay conn events)
        ≡ kept flags events)
unfolding send_events kept
send_events-kept allow_flood turn i delay conn [] = ([], refl)
send_events-kept allow_flood turn i delay conn (e ∷ events) =
    send_round-kept _ (turn i) e _ events
      (λ delay conn. send_events-kept allow_flood turn (i + 1) delay conn events)

All-kept :
    (P : Event → Type 0) (flags : List Bool) (events : List Event)
    → All P events
    → All P (kept flags events)
unfolding kept
All-kept P [] events h = tt
All-kept P (true ∷ flags) [] h = tt
All-kept P (false ∷ flags) [] h = tt
All-kept P (true ∷ flags) (e ∷ events) h = (h.0, All-kept P flags events h.1)
All-kept P (false ∷ flags) (e ∷ events) h = All-kept P flags events h.1

-- A PRIVMSG or NOTICE that is formatted, if that is configured, and is then no CTCP message, with
-- a printable ASCII text each word of which is a URL reference and fits into the room beside the
-- command, is sent without a panic, whatever becomes of the connection meanwhile: what is sent is
-- some of the events that it is split into, in their order, and each is shorter than the limit
-- without its source.
pub send-split :
    (t : TextLib) (global_format allow_flood : Bool) (max : ℕ) (turn : ℕ → Turn)
    (conn : Option Writing) (e : Event)
    → 0 < length (formatted global_format e).params
    → (beq (formatted global_format e).command (codes "PRIVMSG")
        || beq (formatted global_format e).command (codes "NOTICE"))
      ≡ true
    → is_ctcp (formatted global_format e) ≡ none
    → sent_length (with_last (formatted global_format e) []) < max
    → IsPrintable (last (formatted global_format e))
    → All
        (IsFitting t (max - sent_length (with_last (formatted global_format e) [])))
        (words_of t (last (formatted global_format e)))
    → (sent : List Sent) × (events : List Event) × (flags : List Bool) × (send t global_format
          allow_flood max turn conn e
        ≡ ok sent)
      × (split t max (formatted global_format e) ≡ ok events)
      × (events_of sent ≡ kept flags events)
      × All (IsWithin max) (events_of sent)
unfolding send
send-split t global_format allow_flood max turn conn e params message plain h printable fitting =
    let (events, done, within, words) =
      split_lem t max (formatted global_format e) params message plain h printable fitting in
    let (flags, same) = send_events-kept allow_flood turn 0 0 conn events in
    (
      send_events allow_flood turn 0 0 conn events,
      events,
      flags,
      ap (λ o. o >>= λ es. ok (send_events allow_flood turn 0 0 conn es)) done,
      done,
      same,
      subst (All (IsWithin max)) (sym same) (All-kept _ flags events within),
    )

-- A connection that stays and takes every event within 30 seconds.
pub record IsSteady (turn : ℕ → Turn) : Type 0 where
  pub begins : (i : ℕ) (w : Writing) → (w' : Writing) × ((turn i).beginning (some w) ≡ some w')
  pub waits : (i : ℕ) (w : Writing) → (w' : Writing) × ((turn i).waiting (some w) ≡ some w')
  pub takes : (i : ℕ) → (turn i).taken ≡ true

limited-some :
    (allow_flood : Bool) (now delay : ℕ) (e : Event) (w : Writing)
    → (w' : Writing) × (delay' : ℕ) × (limited allow_flood now e delay (some w)
        ≡ some (some w', delay'))
unfolding limited
limited-some true now delay e w = (w, delay, refl)
limited-some false now delay e w =
    ((rate (len_opts e true) now w).0, (rate (len_opts e true) now w).1, refl)

send_events-steady :
    (allow_flood : Bool) (turn : ℕ → Turn) (i delay : ℕ) (w : Writing) (events : List Event)
    → IsSteady turn
    → events_of (send_events allow_flood turn i delay (some w) events) ≡ events
unfolding send_events send_round write_event
send_events-steady allow_flood turn i delay w [] steady = refl
send_events-steady allow_flood turn i delay w (e ∷ events) steady =
    let (w1, first) = steady.begins i w in
    let (w2, delay', found) = limited-some allow_flood (turn i).now delay e w1 in
    let (w3, then_some) = steady.waits i w2 in
    rw (first, found, then_some, steady.takes i)
      (ap (λ es. e ∷ es) (send_events-steady allow_flood turn (i + 1) delay' w3 events steady))

-- If the connection stays and takes every event within 30 seconds, what is sent is all the events
-- that the event is split into once it is formatted, in their order.
pub send-steady :
    (t : TextLib) (global_format allow_flood : Bool) (max : ℕ) (turn : ℕ → Turn) (w : Writing)
    (e : Event) (events : List Event)
    → split t max (formatted global_format e) ≡ ok events
    → IsSteady turn
    → (sent : List Sent) × (send t global_format allow_flood max turn (some w) e ≡ ok sent)
      × (events_of sent ≡ events)
unfolding send
send-steady t global_format allow_flood max turn w e events done steady = (
  send_events allow_flood turn 0 0 (some w) events,
  ap (λ o. o >>= λ es. ok (send_events allow_flood turn 0 0 (some w) es)) done,
  send_events-steady allow_flood turn 0 0 w events steady,
)
