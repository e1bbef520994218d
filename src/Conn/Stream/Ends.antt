-- ===== src/Conn/Stream/Ends.antt =====
-- The read loop ends on every stream.
use girc.Prelude.{
  ℕ, zero, suc, ◌≡◌, ◌<◌, refl, ap, ◌∙◌, Bool, arith, Option, none, some, List, [], ◌∷◌, ◌==◌,
  Bytes, length, Outcome, ok, ◌>>=◌, Bool-cases, inl, inr,
}
use girc.Event.{Event}
use girc.Client.{Client}
use girc.Wire.{Platform}
use girc.Wire.Total.{parse_event-total}
use girc.Conn.Stream.{
  read_string, Decoded, received, parse_error, read_error, decoded, decode_line, decode, read_next,
  read_from, read_loop,
}

-- The line that was read has a byte.
IsCut : Bytes → Option (Bytes × Bytes) → Type 0
IsCut s none = Unit
IsCut s (some (line, rest)) = length rest < length s

IsCut-cons :
    (c : ℕ) (cs : Bytes) (later : Option (Bytes × Bytes))
    → IsCut cs later
    → IsCut (c ∷ cs) (elim later [ none ↦ none | some (line, rest) ↦ some (c ∷ line, rest) ])
unfolding IsCut
IsCut-cons c cs none h = tt
IsCut-cons c cs (some (line, rest)) h = omega arith

read_string-IsCut : (s : Bytes) → IsCut s (read_string s)
unfolding read_string IsCut
read_string-IsCut [] = tt
read_string-IsCut (c ∷ cs) = elim (Bool-cases (c == 10)) [
  | inl e ↦ rw e (omega arith)
  | inr e ↦ rw e (IsCut-cons c cs (read_string cs) (read_string-IsCut cs))
]

-- What was read, with less of the stream left, if it was an event.
IsShorter : Bytes → Decoded × Bytes → Type 0
IsShorter stream (received e, rest) = length rest < length stream
IsShorter stream _ = Unit

decoded-IsShorter :
    (stream line rest : Bytes) (o : Option Event)
    → length rest < length stream
    → IsShorter stream (decoded line o, rest)
unfolding IsShorter decoded
decoded-IsShorter stream line rest none h = tt
decoded-IsShorter stream line rest (some e) h = h

decode_line-IsShorter :
    (p : Platform) (stream : Bytes) (o : Option (Bytes × Bytes))
    → IsCut stream o
    → (r : Decoded × Bytes) × (decode_line p o ≡ ok r) × IsShorter stream r
unfolding decode_line IsCut IsShorter
decode_line-IsShorter p stream none h = ((read_error, []), refl, tt)
decode_line-IsShorter p stream (some (line, rest)) h =
    let (o, parsed) = parse_event-total p line in
    ((decoded line o, rest), rw parsed refl, decoded-IsShorter stream line rest o h)

decode-IsShorter :
    (p : Platform) (stream : Bytes)
    → (r : Decoded × Bytes) × (decode p stream ≡ ok r) × IsShorter stream r
unfolding decode
decode-IsShorter p stream =
    decode_line-IsShorter p stream (read_string stream) (read_string-IsCut stream)

read_next-total :
    (mark : Event → Event) (again : Bytes → Outcome (List Event × Decoded)) (stream : Bytes)
    (r : Decoded × Bytes)
    → IsShorter stream r
    → ((rest : Bytes)
        → length rest < length stream
        → (o : List Event × Decoded) × (again rest ≡ ok o))
    → (o : List Event × Decoded) × (read_next mark again r ≡ ok o)
unfolding read_next IsShorter
read_next-total mark again stream (received e, rest) h ends =
    let (o, later) = ends rest h in ((mark e ∷ o.0, o.1), rw later refl)
read_next-total mark again stream (parse_error line, rest) h ends = (([], parse_error line), refl)
read_next-total mark again stream (read_error, rest) h ends = (([], read_error), refl)

read_from-total :
    (p : Platform) (mark : Event → Event) (fuel : ℕ) (stream : Bytes)
    → length stream < fuel
    → (r : List Event × Decoded) × (read_from p mark fuel stream ≡ ok r)
unfolding read_from
read_from-total p mark zero stream enough = absurd (omega arith)
read_from-total p mark (suc fuel) stream enough =
    let (r, found, shorter) = decode-IsShorter p stream in
    let (o, later) =
      read_next-total mark (λ rest. read_from p mark fuel rest) stream r shorter
        (λ rest h. read_from-total p mark fuel rest (omega arith)) in
    (o, ap (λ d. d >>= λ r. read_next mark (λ rest. read_from p mark fuel rest) r) found ∙ later)

-- On every stream readLoop ends without a panic, with fuel for one round more than the stream has
-- bytes.
pub read_loop-total :
    (p : Platform) (c : Client) (disabled : Bool) (fuel : ℕ) (stream : Bytes)
    → length stream < fuel
    → (r : List Event × Decoded) × (read_loop p c disabled fuel stream ≡ ok r)
unfolding read_loop
read_loop-total p c disabled fuel stream enough = read_from-total p _ fuel stream enough
