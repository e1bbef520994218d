-- ===== src/CmdHandler.antt =====
-- cmdhandler/cmd.go: commands in private messages. A command is a pointer into the map; since
-- it does not change once it is stored, it is its value, and its `Fn` is a number. The formatting
-- by `%q` and the Unicode tables behind strings.ToLower are arguments.
pub mod Lookup
pub mod Invoke
use girc.Prelude.{
  ℕ, ◌+◌, ◌-◌, ltb, leb, Bool, true, false, not, ◌&&◌, ◌||◌, Option, none, some, List, [], ◌∷◌,
  ◌++◌, ◌==◌, if◌then◌else◌, within, Bytes, codes, beq, is_empty, is_some, has_byte, has_prefix,
  length, drop, all, split, get_or, Map, lookup, insert, ℤ, pos, less, Outcome, ok, ◌>>=◌,
}
use girc.Source.{Source}
use girc.Event.{Event, last}
use girc.Actions.{Action}
use girc.Commands.{reply_to}
use girc.Wire.{is_ascii}
use girc.Text.Fmt.{lower, format}

-- Command
pub record Command : Type 0 where
  pub name : Bytes
  pub aliases : List Bytes
  pub help : Bytes
  pub min_args : ℤ
  pub fn : ℕ

-- Input, with the event as its origin
pub record Input : Type 0 where
  pub origin : Event
  pub args : List Bytes
  pub raw_args : Bytes

-- Why Add refuses a command.
pub data AddError : Type 0 where
  nil_command : AddError
  invalid_name already_registered alias_registered : Bytes → AddError

-- strings.ToLower
unfoldable pub to_lower : (Bytes → Bytes) → Bytes → Bytes
unfolding is_ascii lower
to_lower unicode_lower s = if is_ascii s then lower s else unicode_lower s

-- strings.Join(names, "{b}, {b}" + prefix)
join_names : Bytes → List Bytes → Bytes
join_names prefix [] = []
join_names prefix (name ∷ []) = name
join_names prefix (name ∷ next ∷ names) =
    name ++ (codes "{b}, {b}" ++ (prefix ++ join_names prefix (next ∷ names)))

-- Command.genHelp
unfoldable pub gen_help : Bytes → Command → Bytes
unfolding join_names
gen_help prefix c =
    ((codes "{b}" ++ (prefix ++ (c.name ++ codes "{b}")))
      ++ (if ltb 0 (length c.aliases)
          then codes " ({b}" ++ (prefix ++ (join_names prefix c.aliases ++ codes "{b})"))
          else []))
    ++ (codes " :: " ++ c.help)

-- `[a-z0-9-_]`
unfoldable pub is_name_byte : ℕ → Bool
is_name_byte c = within b'a' b'z' c || within b'0' b'9' c || c == b'-' || c == b'_'

-- validName.MatchString
unfoldable pub valid_name : Bytes → Bool
unfolding is_name_byte
valid_name name = leb 1 (length name) && leb (length name) 20 && all is_name_byte name

-- New: no commands, if the expression compiles, which the argument says of the quoted prefix.
unfoldable pub new : (Bytes → Bool) → Bytes → Option (Map Command)
new compiles prefix = if compiles prefix then some [] else none

-- The names of a message that begin with the prefix: the longest name, and what follows it.
unfoldable pub span_name : Bytes → Bytes × Bytes
unfolding is_name_byte
span_name [] = ([], [])
span_name (c ∷ cs) =
    let rest = span_name cs in if is_name_byte c then (c ∷ rest.0, rest.1) else ([], c ∷ cs)

-- `(?: (.*))?$`: no "\n" in the arguments.
arguments : Bytes → Option Bytes
arguments [] = some []
arguments (c ∷ cs) = if c == b' ' && not (has_byte cs b'\n') then some cs else none

submatch : Bytes → Option Bytes → Option (Bytes × Bytes)
submatch name none = none
submatch name (some args) =
    if leb 1 (length name) && leb (length name) 20 then some (name, args) else none

-- ch.re.FindStringSubmatch: the name and the arguments. A name ends at a byte that no name has,
-- so the longest one is the only one that can match.
unfoldable pub find_submatch : Bytes → Bytes → Option (Bytes × Bytes)
unfolding span_name arguments submatch
find_submatch prefix text =
    let parts = span_name (drop (length prefix) text) in
    if has_prefix text prefix then submatch parts.0 (arguments parts.1) else none

-- CmdHandler.Add: the loop that checks the aliases. The result is the aliases in lower case, or
-- the one that is refused.
unfoldable pub lower_aliases : (Bytes → Bytes) → List Bytes → Option Bytes × List Bytes
unfolding to_lower valid_name
lower_aliases unicode_lower [] = (none, [])
lower_aliases unicode_lower (alias ∷ aliases) =
    let name = to_lower unicode_lower alias in
    let rest = lower_aliases unicode_lower aliases in
    if not (valid_name name) then (some name, []) else (rest.0, name ∷ rest.1)

-- The loop that registers the aliases; it stops at one that is taken.
unfoldable pub add_aliases : Command → List Bytes → Map Command → Map Command × Option AddError
add_aliases cmd [] cmds = (cmds, none)
add_aliases cmd (alias ∷ aliases) cmds =
    let rest = add_aliases cmd aliases (insert alias cmd cmds) in
    if is_some (lookup alias cmds) then (cmds, some (alias_registered alias)) else rest

add_checked : Command → Map Command → Map Command × Option AddError
unfolding add_aliases
add_checked cmd cmds =
    if is_some (lookup cmd.name cmds)
    then (cmds, some (already_registered cmd.name))
    else add_aliases cmd cmd.aliases (insert cmd.name cmd cmds)

add_lowered : Command → Map Command → Option Bytes × List Bytes → Map Command × Option AddError
unfolding add_checked
add_lowered cmd cmds (some alias, aliases) = (cmds, some (invalid_name alias))
add_lowered cmd cmds (none, aliases) =
    add_checked
      (record cmd {
        aliases = aliases;
        min_args = if less cmd.min_args (pos 0) then pos 0 else cmd.min_args;
      })
      cmds

-- CmdHandler.Add
unfoldable pub add : (Bytes → Bytes) → Option Command → Map Command → Map Command × Option AddError
unfolding add_lowered lower_aliases to_lower valid_name
add unicode_lower none cmds = (cmds, some nil_command)
add unicode_lower (some cmd) cmds =
    let name = to_lower unicode_lower cmd.name in
    if not (valid_name name)
    then (cmds, some (invalid_name name))
    else add_lowered (record cmd { name = name }) cmds (lower_aliases unicode_lower cmd.aliases)

-- What Execute does: it sends something, or runs the `Fn` of a command.
pub data Effect : Type 0 where
  sends : List Action → Effect
  runs : ℕ → Input → Effect

-- strings.Split(parsed[2], " ") where there are arguments
unfoldable pub arguments_of : Bytes → List Bytes
arguments_of raw = if is_empty raw then [] else split b' ' [] raw

answer : Event → Bytes → Outcome Effect
answer e text = reply_to e text >>= λ actions. ok (sends actions)

-- The answer to "help" about a command; `quote` is `%q`.
help_for : (Bytes → Bytes) → Bytes → Bytes → Event → Option Command → Outcome Effect
unfolding answer gen_help
help_for quote prefix name e none =
    answer e (format (codes "unknown command {b}") ++ (quote name ++ format (codes "{b}.")))
help_for quote prefix name e (some cmd) =
    if is_empty cmd.help
    then answer e (
        format (codes "there is no help documentation for {b}")
        ++ (quote name ++ format (codes "{b}")))
    else answer e (format (gen_help prefix cmd))

help : (Bytes → Bytes) → (Bytes → Bytes) → Bytes → Map Command → Event → List Bytes → Outcome Effect
unfolding answer help_for to_lower
help unicode_lower quote prefix cmds e [] = answer e (
    format (
      codes
        "type '{b}!help {blue}<command>{c}{b}' to optionally get more info about a specific command."))
help unicode_lower quote prefix cmds e (name ∷ args) =
    let wanted = to_lower unicode_lower name in help_for quote prefix wanted e (lookup wanted cmds)

run_command : (Bytes → Bytes) → Bytes → Bytes → Event → Bytes → Option Command → Outcome Effect
unfolding answer arguments_of
run_command quote prefix name e raw none = ok (sends [])
run_command quote prefix name e raw (some cmd) =
    if less (pos (length (arguments_of raw))) cmd.min_args
    then answer e (
        format (codes "not enough arguments supplied for {b}")
        ++ (quote name
            ++ (format (codes "{b}. try '{b}")
                ++ (prefix ++ (codes "help " ++ (name ++ format (codes "{b}'?")))))))
    else ok (runs cmd.fn record { origin = e; args = arguments_of raw; raw_args = raw })

matched :
    (Bytes → Bytes)
    → (Bytes → Bytes)
    → Bytes
    → Map Command
    → Event
    → Option (Bytes × Bytes)
    → Outcome Effect
unfolding run_command help to_lower arguments_of
matched unicode_lower quote prefix cmds e none = ok (sends [])
matched unicode_lower quote prefix cmds e (some (name, raw)) =
    let invoked = to_lower unicode_lower name in
    if beq invoked (codes "help")
    then help unicode_lower quote prefix cmds e (arguments_of raw)
    else run_command quote prefix invoked e raw (lookup invoked cmds)

-- CmdHandler.Execute
unfoldable pub execute :
    (Bytes → Bytes) → (Bytes → Bytes) → Bytes → Map Command → Event → Outcome Effect
unfolding matched find_submatch
execute unicode_lower quote prefix cmds e =
    if not (is_some e.source) || not (beq e.command (codes "PRIVMSG"))
    then ok (sends [])
    else matched unicode_lower quote prefix cmds e (find_submatch prefix (last e))
