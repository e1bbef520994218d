-- ===== src/Tests/Bots.antt =====
-- Formatted texts and commands in messages at concrete inputs.
use girc.Prelude.{
  ◌≡◌, refl, true, false, none, some, List, [], ◌∷◌, length, has_prefix, keys, ◌++◌, Bytes, codes,
  all, has_byte, index_byte, lookup, insert, beq, split, ok, pos, less,
}
use girc.Event.{Event, last}
use girc.Tracker.Lists.{mem_string}
use girc.Text.Fmt.{format, replacement, trim_fmt, remove_all, fmt_colors, fmt_codes, is_code_byte}
use girc.Text.Fmt.Segments.{Segment, text, code, is_segment, written, rendered, format-written}
use girc.CmdHandler.{
  lower_aliases, Command, runs, add, execute, to_lower, alias_registered, arguments_of, valid_name,
}
use girc.CmdHandler.Lookup.{stored, has_name}
use girc.CmdHandler.Invoke.{IsMessage, invocation, execute-add}

abbrev hello : List Segment
hello =
    code (codes "red,blue") ∷ text (codes "Hello} ") ∷ code (codes "b") ∷ text (codes "you") ∷ []

hello-is_segment : all is_segment hello ≡ true
unfolding is_segment is_code_byte
hello-is_segment = refl

format-written_example : format (written hello) ≡ rendered hello
format-written_example = format-written hello hello-is_segment

hello-format :
    format (codes "{red,blue}Hello} {b}you") ≡ 0x3 ∷ codes "04,02Hello} " ++ (0x2 ∷ codes "you")
unfolding format replacement is_code_byte fmt_colors fmt_codes lookup index_byte beq
hello-format = refl

-- A background color stays.
trim_fmt-background : trim_fmt (λ names. names) (codes "{red}a{red,blue}b") ≡ codes "a{red,blue}b"
unfolding trim_fmt remove_all fmt_colors fmt_codes has_prefix keys
trim_fmt-background = refl

abbrev unicode_lower : Bytes → Bytes
unicode_lower s = s

abbrev quote : Bytes → Bytes
quote s = s

abbrev ping : Command
ping = record {
  name = codes "Ping";
  aliases = codes "p" ∷ [];
  help = codes "answers";
  min_args = pos 0;
  fn = 7;
}

abbrev pong : Command
pong = record ping { name = codes "pong"; fn = 8 }

abbrev request : Event
request = record {
  source = some record { name = codes "bob"; ident = []; host = [] };
  tags = none;
  timestamp = 0;
  command = codes "PRIVMSG";
  params = codes "#go" ∷ codes "!p a b" ∷ [];
  sensitive = false;
  echo = false;
}

ping-added : (add unicode_lower (some ping) []).1 ≡ none
unfolding add to_lower valid_name lookup insert beq
ping-added = refl

ping-has_name : has_name (stored unicode_lower ping) (codes "p") ≡ true
unfolding has_name stored to_lower beq mem_string lower_aliases valid_name
ping-has_name = refl

p-valid_name : valid_name (codes "p") ≡ true
unfolding valid_name
p-valid_name = refl

p-other : beq (codes "p") (codes "help") ≡ false
unfolding beq
p-other = refl

one_line : has_byte (codes "a b") b'\n' ≡ false
unfolding has_byte
one_line = refl

request-says : last request ≡ invocation (codes "!") (codes "p") (codes "a b")
unfolding last invocation
request-says = refl

request-command : beq request.command (codes "PRIVMSG") ≡ true
unfolding beq
request-command = refl

request-IsMessage : IsMessage request (invocation (codes "!") (codes "p") (codes "a b"))
request-IsMessage = record { sourced = refl; privmsg = request-command; says = request-says }

enough :
    less (pos (length (arguments_of (codes "a b")))) (stored unicode_lower ping).min_args ≡ false
unfolding arguments_of stored split
enough = refl

execute-add_example :
    execute unicode_lower quote (codes "!") (add unicode_lower (some ping) []).0 request
    ≡ ok (
        runs 7
          record { origin = request; args = arguments_of (codes "a b"); raw_args = codes "a b" })
execute-add_example =
    execute-add unicode_lower quote (codes "!") ping [] (codes "p") (codes "a b") request ping-added
      ping-has_name p-valid_name p-other one_line request-IsMessage enough

pong-refused :
    (add unicode_lower (some pong) (add unicode_lower (some ping) []).0).1
    ≡ some (alias_registered (codes "p"))
unfolding add to_lower valid_name lookup insert beq
pong-refused = refl
