-- ===== src/CmdHandler/Invoke.antt =====
-- A message that names a command runs it.
use girc.Prelude.{
  ◌≡◌, refl, ap, ◌∙◌, arith, true, false, ◌&&◌, none, some, [], ◌∷◌, ◌++◌, if◌then◌else◌, Bytes,
  codes, beq, is_empty, has_byte, has_prefix, length, drop-length-append, leb, all, lookup, Map,
  less, pos, ok, is_some,
}
use girc.Event.{Event, last}
use girc.Wire.{is_ascii}
use girc.Text.Fmt.{lower}
use girc.CmdHandler.{
  Command, runs, to_lower, is_name_byte, valid_name, span_name, find_submatch, arguments, submatch,
  arguments_of, run_command, matched, execute, add,
}
use girc.CmdHandler.Lookup.{has_name, stored, lookup-add}

-- The text of a message that invokes a command.
unfoldable pub invocation : Bytes → Bytes → Bytes → Bytes
invocation prefix name raw = prefix ++ (name ++ (if is_empty raw then [] else b' ' ∷ raw))

has_prefix-append : (prefix s : Bytes) → has_prefix (prefix ++ s) prefix ≡ true
unfolding has_prefix
has_prefix-append [] s = refl
has_prefix-append (c ∷ prefix) s = ground (arith, has_prefix-append prefix s)

span_name-append :
    (name : Bytes) (raw : Bytes)
    → all is_name_byte name ≡ true
    → span_name (name ++ (if is_empty raw then [] else b' ' ∷ raw))
      ≡ (name, if is_empty raw then [] else b' ' ∷ raw)
unfolding span_name is_name_byte
span_name-append [] [] h = refl
span_name-append [] (c ∷ raw) h = refl
span_name-append (x ∷ name) raw h =
    let here : is_name_byte x ≡ true = ground arith in
    let others : all is_name_byte name ≡ true = ground arith in
    rw here (ap (λ r. (x ∷ r.0, r.1)) (span_name-append name raw others))

arguments-raw :
    (raw : Bytes)
    → has_byte raw b'\n' ≡ false
    → arguments (if is_empty raw then [] else b' ' ∷ raw) ≡ some raw
unfolding arguments
arguments-raw [] h = refl
arguments-raw (c ∷ raw) h = rw h refl

find_submatch-invocation :
    (prefix name raw : Bytes)
    → valid_name name ≡ true
    → has_byte raw b'\n' ≡ false
    → find_submatch prefix (invocation prefix name raw) ≡ some (name, raw)
unfolding find_submatch invocation submatch valid_name
find_submatch-invocation prefix name raw h k =
    let tail : Bytes = if is_empty raw then [] else b' ' ∷ raw in
    let long : (leb 1 (length name) && leb (length name) 20) ≡ true = ground arith in
    let letters : all is_name_byte name ≡ true = ground arith in
    let parts =
      ap span_name (drop-length-append prefix (name ++ tail)) ∙ span_name-append name raw letters in
    rw (has_prefix-append prefix (name ++ tail)) (
      ap (λ r. submatch r.0 (arguments r.1)) parts
      ∙ ap (submatch name) (arguments-raw raw k)
      ∙ rw long refl)

lower-name :
    (name : Bytes) → all is_name_byte name ≡ true → (lower name ≡ name) × (is_ascii name ≡ true)
unfolding lower is_name_byte is_ascii
lower-name [] h = (refl, refl)
lower-name (c ∷ name) h =
    let others : all is_name_byte name ≡ true = ground arith in
    let same = lower-name name others in (ground (arith, same.0), ground (arith, same.1))

to_lower-name :
    (unicode_lower : Bytes → Bytes) (name : Bytes)
    → valid_name name ≡ true
    → to_lower unicode_lower name ≡ name
unfolding to_lower valid_name
to_lower-name unicode_lower name h =
    let letters : all is_name_byte name ≡ true = ground arith in
    rw ((lower-name name letters).1) ((lower-name name letters).0)

-- An event that may invoke a command: a PRIVMSG with a source.
pub record IsMessage (e : Event) (text : Bytes) : Type 0 where
  pub sourced : is_some e.source ≡ true
  pub privmsg : beq e.command (codes "PRIVMSG") ≡ true
  pub says : last e ≡ text

module _ (unicode_lower quote : Bytes → Bytes) (prefix : Bytes) where
  execute-found :
      (cmds : Map Command) (cmd : Command) (name raw : Bytes) (e : Event)
      → valid_name name ≡ true
      → beq name (codes "help") ≡ false
      → has_byte raw b'\n' ≡ false
      → IsMessage e (invocation prefix name raw)
      → lookup name cmds ≡ some cmd
      → less (pos (length (arguments_of raw))) cmd.min_args ≡ false
      → execute unicode_lower quote prefix cmds e
        ≡ ok (runs cmd.fn record { origin = e; args = arguments_of raw; raw_args = raw })
  unfolding execute matched run_command
  execute-found cmds cmd name raw e valid other line m found enough =
      rw (m.sourced, m.privmsg)
        (ap (matched unicode_lower quote prefix cmds e)
            (ap (find_submatch prefix) m.says ∙ find_submatch-invocation prefix name raw valid line)
          ∙ rw (to_lower-name unicode_lower name valid, other, found, enough) refl)

  -- Once Add has returned no error, a PRIVMSG that consists of the prefix, the name of the command
  -- or one of its aliases, and arguments without a newline runs the command on these arguments,
  -- if they are enough and the name is not "help".
  pub execute-add :
      (cmd : Command) (cmds : Map Command) (name raw : Bytes) (e : Event)
      → (add unicode_lower (some cmd) cmds).1 ≡ none
      → has_name (stored unicode_lower cmd) name ≡ true
      → valid_name name ≡ true
      → beq name (codes "help") ≡ false
      → has_byte raw b'\n' ≡ false
      → IsMessage e (invocation prefix name raw)
      → less (pos (length (arguments_of raw))) (stored unicode_lower cmd).min_args ≡ false
      → execute unicode_lower quote prefix (add unicode_lower (some cmd) cmds).0 e
        ≡ ok (runs cmd.fn record { origin = e; args = arguments_of raw; raw_args = raw })
  unfolding stored
  execute-add cmd cmds name raw e added named valid other line m enough =
      let found =
        lookup-add unicode_lower cmd cmds added name
        ∙ ap (λ b. if b then some (stored unicode_lower cmd) else lookup name cmds) named in
      execute-found (add unicode_lower (some cmd) cmds).0 (stored unicode_lower cmd) name raw e
        valid other line m found enough
