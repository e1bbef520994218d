-- ===== src/Conn/Stream.antt =====
-- conn.go: `encode` (and the write of sendLoop), `decode`, and the lines that readLoop reads from a
-- connection. The stream is the bytes that have arrived; at its end a read gives an error.
pub mod RoundTrip
pub mod Ends
use girc.Prelude.{
  ℕ, zero, suc, Bool, not, panic, Option, none, some, List, [], ◌∷◌, ◌++◌, ◌==◌, if◌then◌else◌,
  Bytes, Outcome, ok, ◌>>=◌,
}
use girc.Event.{Event}
use girc.Client.{Client}
use girc.Conn.{mark_echo}
use girc.Wire.{Platform, parse_event}
use girc.Wire.Print.{event_bytes}

-- endline
abbrev pub endline : Bytes
endline = 13 ∷ 10 ∷ []

-- ircConn.encode: the bytes that are written.
unfoldable pub encode : Platform → Event → Bytes
encode p e = event_bytes p e ++ endline

-- bufio.Reader.ReadString('\n'): the line with its end, and the rest; `none` is an error.
unfoldable pub read_string : Bytes → Option (Bytes × Bytes)
read_string [] = none
read_string (c ∷ cs) =
    let later = read_string cs in
    if c == 10
    then some (c ∷ [], cs)
    else elim later [ none ↦ none | some (line, rest) ↦ some (c ∷ line, rest) ]

-- decodedEvent, where the error is that of the read or an ErrParseEvent with the line.
pub data Decoded : Type 0 where
  received : Event → Decoded
  parse_error : Bytes → Decoded
  read_error : Decoded

decoded : Bytes → Option Event → Decoded
decoded line none = parse_error line
decoded line (some e) = received e

decode_line : Platform → Option (Bytes × Bytes) → Outcome (Decoded × Bytes)
unfolding decoded
decode_line p none = ok (read_error, [])
decode_line p (some (line, rest)) = parse_event p line >>= λ o. ok (decoded line o, rest)

-- ircConn.decode: what was read, and the rest of the stream.
unfoldable pub decode : Platform → Bytes → Outcome (Decoded × Bytes)
unfolding decode_line
decode p stream = decode_line p (read_string stream)

-- readLoop on what was read: an event is passed on and the loop goes on; an error ends it.
read_next :
    (Event → Event)
    → (Bytes → Outcome (List Event × Decoded))
    → Decoded × Bytes
    → Outcome (List Event × Decoded)
read_next mark again (received e, rest) = again rest >>= λ r. ok (mark e ∷ r.0, r.1)
read_next mark again (error, rest) = ok ([], error)

-- readLoop, on fuel: the events that it hands to `receive`, and the error. A run out of fuel is a
-- panic. `disabled` is Config.disableTracking.
read_from : Platform → (Event → Event) → ℕ → Bytes → Outcome (List Event × Decoded)
unfolding read_next
read_from p mark zero stream = panic
read_from p mark (suc fuel) stream =
    decode p stream >>= λ r. read_next mark (λ rest. read_from p mark fuel rest) r

unfoldable pub read_loop : Platform → Client → Bool → ℕ → Bytes → Outcome (List Event × Decoded)
unfolding read_from
read_loop p c disabled fuel stream =
    read_from p (λ e. if not disabled then mark_echo c e else e) fuel stream
