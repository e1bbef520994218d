-- ===== src/Split/Events/Bound.antt =====
-- The length of the events that Event.split gives.
use girc.Prelude.{
  ℕ, ◌+◌, ◌-◌, ◌<◌, ◌≤◌, ◌≡◌, refl, ap, ◌∙◌, arith, ltb, true, false, not, ◌&&◌, ◌||◌, none, List,
  [], ◌∷◌, ◌++◌, map, Bytes, codes, beq, length, All, branches, join_with, last_or, ◌⊎◌, inl, inr,
  Outcome, ok, ◌>>=◌, drop_last, length-append,
}
use girc.Event.{Event, last}
use girc.Messages.{is_ctcp}
use girc.Wire.Print.{needs_colon, params_len, len_opts}
use girc.Split.{TextLib, words_of}
use girc.Split.Words.{IsLine}
use girc.Split.Lines.{IsPrintable, IsFitting, split_message_lem}
use girc.Split.Events.{with_last, wrap, split_text, split_ctcp, split}

-- The length of the event as it is sent, without its source.
abbrev pub sent_length : Event → ℕ
sent_length e = len_opts (record e { source = none }) false

params_len-last :
    (params : List Bytes) (text : Bytes)
    → params_len (params ++ (text ∷ [])) ≤ params_len (params ++ ([] ∷ [])) + length text
unfolding params_len needs_colon
params_len-last [] text = ground arith
params_len-last (p ∷ []) text = ground arith
params_len-last (p ∷ q ∷ params) text = omega (arith, params_len-last (q ∷ params) text)

with_last-length :
    (e : Event) (text : Bytes)
    → sent_length (with_last e text) ≤ sent_length (with_last e []) + length text
unfolding len_opts with_last
with_last-length e text = ground (
  arith,
  params_len-last (drop_last e.params) text,
  length-append (drop_last e.params) (text ∷ []),
  length-append (drop_last e.params) ([] ∷ []),
)

last-append : (xs : List Bytes) (y d : Bytes) → last_or (xs ++ (y ∷ [])) d ≡ y
last-append [] y d = refl
last-append (x ∷ xs) y d = last-append xs y x

last-with_last : (e : Event) (text : Bytes) → last (with_last e text) ≡ text
unfolding last with_last
last-with_last e text = last-append (drop_last e.params) text []

-- The events of the pieces of a text.
abbrev pieces_of : Event → List Bytes → List Event
pieces_of e pieces = map (λ piece. with_last e (wrap none piece)) pieces

pieces-last : (e : Event) (pieces : List Bytes) → map (λ x. last x) (pieces_of e pieces) ≡ pieces
unfolding wrap
pieces-last e [] = refl
pieces-last e (p ∷ pieces) = rw (last-with_last e p) (ap (◌∷◌ p) (pieces-last e pieces))

-- The event is shorter than the limit.
abbrev pub IsWithin : ℕ → Event → Type 0
IsWithin max e = sent_length e < max

pieces-IsWithin :
    (e : Event) (max : ℕ) (pieces : List Bytes)
    → All (IsLine (max - sent_length (with_last e []))) pieces
    → All (IsWithin max) (pieces_of e pieces)
unfolding wrap
pieces-IsWithin e max [] h = tt
pieces-IsWithin e max (p ∷ pieces) h =
    (omega (arith, with_last-length e p, h.0.1), pieces-IsWithin e max pieces h.1)

-- What is to become of the event: it stays as it is, or its words are those of the events.
abbrev pub Splits : TextLib → ℕ → Event → Outcome (List Event) → Type 0
Splits t max e result =
    (events : List Event) × (result ≡ ok events)
    × All (IsWithin max) events
    × ((events ≡ e ∷ [])
        ⊎ (join_with b' ' (map (λ x. last x) events) ≡ join_with b' ' (words_of t (last e))))

split_text-Splits :
    (t : TextLib) (max : ℕ) (e : Event)
    → sent_length (with_last e []) < max
    → IsPrintable (last e)
    → All (IsFitting t (max - sent_length (with_last e []))) (words_of t (last e))
    → Splits t max e (split_text t e none (last e) max)
unfolding split_text
split_text-Splits t max e h printable fitting =
    let (pieces, done, lines, reads) =
      split_message_lem t (last e) (max - sent_length (with_last e [])) (omega (arith, h)) printable
        fitting in
    let room : ltb max (sent_length (with_last e [])) ≡ false = ground arith in
    (
      pieces_of e pieces,
      rw room (ap (λ o. o >>= λ ps. ok (pieces_of e ps)) done),
      pieces-IsWithin e max pieces lines,
      inr (ap (join_with b' ') (pieces-last e pieces) ∙ reads),
    )

-- A PRIVMSG or NOTICE that is no CTCP message, with a printable ASCII text each word of which is a
-- URL reference and fits into the room beside the command, is split without a panic into events
-- each of which is shorter than the limit without its source, and whose texts have its words in
-- their order, if it is not left as it is.
pub split_lem :
    (t : TextLib) (max : ℕ) (e : Event)
    → 0 < length e.params
    → (beq e.command (codes "PRIVMSG") || beq e.command (codes "NOTICE")) ≡ true
    → is_ctcp e ≡ none
    → sent_length (with_last e []) < max
    → IsPrintable (last e)
    → All (IsFitting t (max - sent_length (with_last e []))) (words_of t (last e))
    → Splits t max e (split t max e)
unfolding split split_ctcp
split_lem t max e params message plain h printable fitting =
    let kept : (ltb (length e.params) 1
          || (not (beq e.command (codes "PRIVMSG")) && not (beq e.command (codes "NOTICE"))))
        ≡ false =
      ground arith in
    rw kept (
      branches (Splits t max e) (ltb (sent_length e) max) _ _
        (λ short. (e ∷ [], refl, (ground arith, tt), inl refl))
        (λ long. rw plain (split_text-Splits t max e h printable fitting)))
