-- ===== src/Commands/Raw.antt =====
-- Commands.SendRaw: which events of a list of lines are sent, and when there is an error.
use girc.Prelude.{
  ◌≡◌, refl, Option, none, some, List, [], ◌∷◌, ◌++◌, Bytes, Outcome, ok, panic, ◌>>=◌, ap, ◌∙◌,
}
use girc.Event.{Event}
use girc.Wire.{Platform, parse_event}
use girc.Wire.Total.{parse_event-total}
use girc.Commands.{send_raw_line, send_raw}

-- The events of the lines in front of the first one that gives no event, and that line; or the
-- events of all lines.
pub data Reads (p : Platform) : List Bytes → List Event → Option Bytes → Type 0 where
  all_read : Reads p [] [] none
  refused :
      (line : Bytes) (lines : List Bytes)
      → parse_event p line ≡ ok none
      → Reads p (line ∷ lines) [] (some line)
  read :
      (line : Bytes) (lines : List Bytes) (e : Event) (events : List Event) (error : Option Bytes)
      → parse_event p line ≡ ok (some e)
      → Reads p lines events error
      → Reads p (line ∷ lines) (e ∷ events) error

module _ {ℓ κ} {S : Type ℓ} {A : Type κ} (client_send : S → Event → Outcome (S × List A)) where
  -- A call of Client.Send for each of the events, in their order.
  unfoldable pub send_all : S → List Event → Outcome (S × List A)
  send_all s [] = ok (s, [])
  send_all s (e ∷ events) =
      client_send s e >>= λ sent. send_all sent.0 events >>= λ more. ok (more.0, sent.1 ++ more.1)

  -- The result of the calls, with the error of SendRaw.
  abbrev pub returns : Option Bytes → Outcome (S × List A) → Outcome (S × List A × Option Bytes)
  returns error result = result >>= λ r. ok (r.0, r.1, error)

  abbrev pub IsSent : Platform → S → List Bytes → List Event → Option Bytes → Type (ℓ ⊔ κ)
  IsSent p s lines events error = send_raw client_send p s lines ≡ returns error (send_all s events)

  with_sent :
      (error : Option Bytes) (sent : List A) (result : Outcome (S × List A))
      → (returns error result >>= λ more. ok (more.0, sent ++ more.1, more.2))
        ≡ returns error (result >>= λ more. ok (more.0, sent ++ more.1))
  with_sent error sent panic = refl
  with_sent error sent (ok r) = refl

  after_send :
      (p : Platform) (lines : List Bytes) (events : List Event) (error : Option Bytes)
      (result : Outcome (S × List A))
      → ((s : S) → IsSent p s lines events error)
      → (result >>= λ sent.
          send_raw client_send p sent.0 lines >>= λ more. ok (more.0, sent.1 ++ more.1, more.2))
        ≡ returns error
            (result >>= λ sent. send_all sent.0 events >>= λ more. ok (more.0, sent.1 ++ more.1))
  after_send p lines events error panic later = refl
  after_send p lines events error (ok (s, sent)) later =
      ap (λ r. r >>= λ more. ok (more.0, sent ++ more.1, more.2)) (later s)
      ∙ with_sent error sent (send_all s events)

  send_raw-nil : (p : Platform) (s : S) → IsSent p s [] [] none
  unfolding send_raw send_all
  send_raw-nil p s = refl

  send_raw-line :
      (p : Platform) (line : Bytes) (lines : List Bytes) (o : Option Event)
      → parse_event p line ≡ ok o
      → ((events : List Event) × (error : Option Bytes) × Reads p lines events error
          × ((s : S) → IsSent p s lines events error))
      → (events : List Event) × (error : Option Bytes) × Reads p (line ∷ lines) events error
        × ((s : S) → IsSent p s (line ∷ lines) events error)
  unfolding send_raw send_raw_line send_all
  send_raw-line p line lines none parsed later =
      ([], some line, refused line lines parsed, λ s. rw parsed refl)
  send_raw-line p line lines (some e) parsed (events, error, reads, sent) = (
    e ∷ events,
    error,
    read line lines e events error parsed reads,
    λ s. rw parsed (after_send p lines events error (client_send s e) sent),
  )

  -- SendRaw does what the calls of Client.Send do for the events of the lines up to the first one
  -- that cannot be parsed, in their order, and returns an error that names this line, if there is
  -- one; it panics only where one of these calls does.
  pub send_raw-Reads :
      (p : Platform) (lines : List Bytes)
      → (events : List Event) × (error : Option Bytes) × Reads p lines events error
        × ((s : S) → IsSent p s lines events error)
  send_raw-Reads p [] = ([], none, all_read, λ s. send_raw-nil p s)
  send_raw-Reads p (line ∷ lines) =
      let (o, parsed) = parse_event-total p line in
      send_raw-line p line lines o parsed (send_raw-Reads p lines)
