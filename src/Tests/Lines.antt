-- ===== src/Tests/Lines.antt =====
-- Lines of the protocol at concrete inputs.
use girc.Prelude.{
  ◌≡◌, arith, all, length, true, has_byte, has_prefix, refl, false, Option, none, some, [], ◌∷◌,
  codes, ok, slice, slice_from, element, element_before, index_byte,
}
use girc.Source.{parse_source}
use girc.Event.{Event}
use girc.Wire.{Platform, parse_event, to_upper, fields}
use girc.Wire.Print.{event_bytes, line_of, len_opts, needs_colon}
use girc.Wire.Print.Length.{HasTagText, is_plain_byte, length-event_bytes}
use girc.Source.{write_to, string}
use girc.Tags.{tags_write, tag_bytes}
use girc.Wire.Sender.{IsSender}
use girc.Wire.RoundTrip.{IsPrintable, parse_event-event_bytes}
use girc.Wire.Plain.{is_command_byte}
use girc.Wire.Words.{is_word_byte, are_params}
use girc.Source.RoundTrip.{IsPlain}
use girc.Wire.Total.{parse_event-total}

-- A platform that leaves the texts outside ASCII as they are.
abbrev pub platform : Platform
platform = record {
  now = 7;
  parse_time = λ raw. none;
  unicode_upper = λ s. s;
  unicode_fields = λ s. s ∷ [];
  unicode_valid = λ s. s;
}

abbrev pub message : Event
message = record {
  source = some record { name = codes "bob"; ident = codes "~b"; host = codes "example.org" };
  tags = none;
  timestamp = 7;
  command = codes "PRIVMSG";
  params = codes "#go" ∷ codes "hi: there" ∷ [];
  sensitive = false;
  echo = false;
}

parse_event-total_example :
    (o : Option Event) × (parse_event platform (codes ":bob!~b@example.org privmsg #go :hi: there")
      ≡ ok o)
parse_event-total_example =
    parse_event-total platform (codes ":bob!~b@example.org privmsg #go :hi: there")

message-parsed :
    parse_event platform (codes ":bob!~b@example.org privmsg #go :hi: there") ≡ ok (some message)
unfolding parse_event element index_byte slice slice_from element_before parse_source to_upper
    fields
message-parsed = refl

message-is_plain : all is_plain_byte (line_of message) ≡ true
unfolding is_plain_byte line_of write_to needs_colon tags_write has_byte has_prefix tag_bytes
message-is_plain = refl

message-HasTagText : HasTagText none
unfolding HasTagText
message-HasTagText = omega arith

length-event_bytes_example : length (event_bytes platform message) ≡ len_opts message true
length-event_bytes_example =
    length-event_bytes platform message true message-HasTagText message-is_plain

sender-IsPlain :
    IsPlain (record { name = codes "bob"; ident = codes "~b"; host = codes "example.org" })
sender-IsPlain = record {
  name_ne_nil = λ h. cc;
  name_lacks_ident = omega arith;
  name_lacks_host = omega arith;
  ident_lacks_host = omega arith;
  host_lacks_ident = λ h. cc;
}

message-IsSender : IsSender message.source
unfolding IsSender string is_word_byte
message-IsSender = (sender-IsPlain, refl)

message-are_params : are_params message.params ≡ true
unfolding are_params
message-are_params = refl

message-is_command : all is_command_byte message.command ≡ true
unfolding is_command_byte
message-is_command = refl

pub message-IsPrintable : IsPrintable platform message
message-IsPrintable = record {
  without_tags = refl;
  timestamp_now = refl;
  not_sensitive = refl;
  not_echo = refl;
  sender = message-IsSender;
  command_long = omega arith;
  command_upper = message-is_command;
  params_clear = message-are_params;
}

parse_event-event_bytes_example :
    parse_event platform (event_bytes platform message) ≡ ok (some message)
parse_event-event_bytes_example = parse_event-event_bytes platform message message-IsPrintable
