-- ===== src/Split/Events.antt =====
-- event.go: `Event.split`. A `max` below 0 is as good as 0, since a command has a byte at least.
pub mod Bound
use girc.Prelude.{
  ℕ, ◌+◌, ◌-◌, ltb, Bool, false, not, ◌&&◌, ◌||◌, Option, none, some, List, [], ◌∷◌, ◌++◌, map,
  if◌then◌else◌, Bytes, codes, beq, is_empty, length, drop_last, Outcome, ok, ◌>>=◌,
}
use girc.Wire.Print.{len_opts}
use girc.Event.{Event, last}
use girc.Ctcp.{CtcpEvent, ctcp_delim}
use girc.Messages.{is_ctcp}
use girc.Split.{TextLib, split_message}

-- The event with another last parameter.
unfoldable pub with_last : Event → Bytes → Event
with_last e text = record e { params = drop_last e.params ++ (text ∷ []) }

-- A piece of the text, put back into the CTCP message that it is from.
wrap : Option CtcpEvent → Bytes → Bytes
wrap none piece = piece
wrap (some ctcp) piece = (ctcp_delim ∷ ctcp.command) ++ ((b' ' ∷ piece) ++ (ctcp_delim ∷ []))

-- Event.split, behind its first tests, on the text and the length that is left for it.
split_text : TextLib → Event → Option CtcpEvent → Bytes → ℕ → Outcome (List Event)
unfolding wrap with_last
split_text t e ctcp text max =
    let command_length = len_opts (with_last (record e { source = none }) []) false in
    if ltb max command_length then ok (e ∷ []) else do
      pieces ← split_message t text (max - command_length)
      ok (map (λ piece. with_last e (wrap ctcp piece)) pieces)

split_ctcp : TextLib → Event → ℕ → Option CtcpEvent → Outcome (List Event)
unfolding split_text
split_ctcp t e max none = split_text t e none (last e) max
split_ctcp t e max (some ctcp) =
    if is_empty (last e)
    then ok (e ∷ [])
    else split_text t e (some ctcp) ctcp.text (max - (length ctcp.command + 4))

-- Event.split
unfoldable pub split : TextLib → ℕ → Event → Outcome (List Event)
unfolding split_ctcp
split t max e =
    if ltb (length e.params) 1
      || (not (beq e.command (codes "PRIVMSG")) && not (beq e.command (codes "NOTICE")))
    then ok (e ∷ [])
    else if ltb (len_opts (record e { source = none }) false) max
    then ok (e ∷ [])
    else split_ctcp t e max (is_ctcp e)
