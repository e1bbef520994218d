-- ===== src/Conn/Stream/RoundTrip.antt =====
-- Events that are written to a stream are read from it.
use girc.Prelude.{
  ℕ, zero, suc, ◌≡◌, ◌<◌, refl, ap, ◌∙◌, arith, Bool, true, false, not, some, List, [], ◌∷◌, ◌++◌,
  append_assoc, map, ◌==◌, if◌then◌else◌, Bytes, length, all, All, ok, ◌>>=◌,
}
use girc.Event.{Event}
use girc.Client.{Client}
use girc.Conn.{mark_echo}
use girc.Wire.{Platform, is_cr}
use girc.Wire.Print.{event_bytes}
use girc.Wire.Print.Length.{is_plain_byte}
use girc.Wire.RoundTrip.{
  IsPrintable, parse_event-event_bytes, event_bytes-IsPrintable, parse_event-endline,
}
use girc.Conn.Stream.{
  endline, encode, read_string, received, read_error, decoded, decode_line, decode, read_next,
  read_from, read_loop,
}

-- What is written for the events, one after the other.
unfoldable pub written : Platform → List Event → Bytes
written p [] = []
written p (e ∷ events) = encode p e ++ written p events

read_string-line :
    (line rest : Bytes)
    → all is_plain_byte line ≡ true
    → read_string (line ++ (13 ∷ 10 ∷ rest)) ≡ some (line ++ endline, rest)
unfolding read_string is_plain_byte is_cr
read_string-line [] rest h = refl
read_string-line (c ∷ line) rest h =
    let other : (c == 10) ≡ false = ground arith in
    let others : all is_plain_byte line ≡ true = ground arith in
    rw (other, read_string-line line rest others) refl

decode-encode :
    (p : Platform) (e : Event) (rest : Bytes)
    → IsPrintable p e
    → decode p (encode p e ++ rest) ≡ ok (received e, rest)
unfolding decode decode_line encode decoded
decode-encode p e rest h =
    let line : Bytes = event_bytes p e in
    let plain = event_bytes-IsPrintable p e h in
    ap (λ s. decode_line p (read_string s)) (append_assoc line endline rest)
    ∙ ap (decode_line p) (read_string-line line rest plain)
    ∙ ap (λ o. o >>= λ o. ok (decoded (line ++ endline) o, rest))
        (parse_event-endline p line plain ∙ parse_event-event_bytes p e h)

decode-nil : (p : Platform) → decode p [] ≡ ok (read_error, [])
unfolding decode decode_line read_string
decode-nil p = refl

read_from-written :
    (p : Platform) (mark : Event → Event) (fuel : ℕ) (events : List Event)
    → All (IsPrintable p) events
    → length events < fuel
    → read_from p mark fuel (written p events) ≡ ok (map mark events, read_error)
unfolding read_from read_next written
read_from-written p mark zero events h enough = absurd (omega arith)
read_from-written p mark (suc fuel) [] h enough = rw (decode-nil p) refl
read_from-written p mark (suc fuel) (e ∷ events) h enough =
    ap (λ o. o >>= λ r. read_next mark (λ rest. read_from p mark fuel rest) r)
      (decode-encode p e (written p events) h.0)
    ∙ ap (λ o. o >>= λ r. ok (mark e ∷ r.0, r.1))
        (read_from-written p mark fuel events h.1 (omega arith))

-- Printable events that are written to a stream, one after the other, are read from it: the loop
-- hands on these events, each with its echo mark, in their order, and ends with the error of the
-- read at the end of the stream, if it has fuel for one round more than there are events.
pub read_loop-written :
    (p : Platform) (c : Client) (disabled : Bool) (fuel : ℕ) (events : List Event)
    → All (IsPrintable p) events
    → length events < fuel
    → read_loop p c disabled fuel (written p events)
      ≡ ok (map (λ e. if not disabled then mark_echo c e else e) events, read_error)
unfolding read_loop
read_loop-written p c disabled fuel events h enough =
    read_from-written p (λ e. if not disabled then mark_echo c e else e) fuel events h enough
