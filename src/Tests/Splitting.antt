-- ===== src/Tests/Splitting.antt =====
-- The splitting of long messages at concrete inputs.
use girc.Prelude.{
  ◌+◌, Outcome, Option, ◌>>=◌, ℕ, ◌*◌, ltb, if◌then◌else◌, Bool, false, some, ◌≡◌, refl, arith,
  true, not, ◌||◌, none, List, [], ◌∷◌, Bytes, codes, beq, length, All, ok, panic, join_with, slice,
  has_byte,
}
use girc.Event.{Event, plain_event, last}
use girc.Wire.{is_ascii, is_space}
use girc.Wire.Print.{needs_colon, params_len, len_opts}
use girc.Ctcp.{decode_ctcp}
use girc.Messages.{is_ctcp}
use girc.Split.{
  TextLib, words_of, words_from, trim_left, trim_right, split_message, valid, cut_words, add_words,
  add_word, check_append, place, rune_count, track, add,
}
use girc.Split.Words.{IsLine}
use girc.Split.Lines.{IsFitting, IsPrintable, split_message_lem}
use girc.Split.Events.{with_last, split}
use girc.Split.Events.Bound.{sent_length, IsWithin, Splits, split_lem}
use girc.Conn.{Writing}
use girc.Conn.Send.{formatted, Turn, Sent, send}
use girc.Conn.Send.Order.{kept, events_of, IsSteady, send-split, send-steady}
use girc.Commands.Raw.{Reads, IsSent, send_raw-Reads}
use girc.Tests.Lines.{platform}

-- url.Parse refuses the smiley only.
abbrev lib : TextLib
lib = record {
  unicode_rune_count = λ s. length s;
  unicode_words = λ s. s ∷ [];
  unicode_valid = λ s. s;
  parses = λ w. not (beq w (codes ":)"));
}

abbrev greeting : Bytes
greeting = codes "hello big world"

greeting-IsPrintable : IsPrintable greeting
greeting-IsPrintable = ground arith

greeting-fits : All (IsFitting lib 8) (words_of lib greeting)
unfolding words_of is_ascii words_from trim_left trim_right is_space beq
greeting-fits = ((omega arith, refl), ((omega arith, refl), ((omega arith, refl), tt)))

split_message_lem_example :
    (output : List Bytes) × (split_message lib greeting 8 ≡ ok output)
    × All (IsLine 8) output
    × (join_with b' ' output ≡ join_with b' ' (words_of lib greeting))
split_message_lem_example =
    split_message_lem lib greeting 8 (omega arith) greeting-IsPrintable greeting-fits

abbrev message : Event
message = plain_event (codes "PRIVMSG") (codes "#c" ∷ greeting ∷ [])

message-command :
    (beq message.command (codes "PRIVMSG") || beq message.command (codes "NOTICE")) ≡ true
unfolding beq
message-command = refl

message-plain : is_ctcp message ≡ none
unfolding is_ctcp decode_ctcp beq
message-plain = refl

message-length : sent_length (with_last message []) ≡ 12
unfolding len_opts params_len needs_colon with_last has_byte
message-length = refl

message-text : last message ≡ greeting
unfolding last
message-text = refl

split_lem_example : Splits lib 20 message (split lib 20 message)
split_lem_example =
    split_lem lib 20 message (omega arith) message-command message-plain
      (rw message-length (omega arith)) (rw message-text greeting-IsPrintable)
      (rw message-length (rw message-text greeting-fits))

-- The connection is closed before the third round.
abbrev closing : ℕ → Turn
closing i = record {
  beginning = λ conn. if ltb i 2 then conn else none;
  now = 1000000000 * i;
  waiting = λ conn. conn;
  taken = true;
}

abbrev open_connection : Writing
open_connection = record { last_write = 0; last_active = 0; write_delay = 0 }

send-split_example :
    (sent : List Sent) × (events : List Event) × (flags : List Bool) × (send lib false true 20
        closing
        (some open_connection)
        message
      ≡ ok sent)
    × (split lib 20 (formatted false message) ≡ ok events)
    × (events_of sent ≡ kept flags events)
    × All (IsWithin 20) (events_of sent)
unfolding formatted
send-split_example =
    send-split lib false true 20 closing (some open_connection) message (omega arith)
      message-command message-plain (rw message-length (omega arith))
      (rw message-text greeting-IsPrintable) (rw message-length (rw message-text greeting-fits))

abbrev lasting : ℕ → Turn
lasting i = record {
  beginning = λ conn. conn;
  now = 1000000000 * i;
  waiting = λ conn. conn;
  taken = true;
}

lasting-IsSteady : IsSteady lasting
lasting-IsSteady = record { begins = λ i w. (w, refl); waits = λ i w. (w, refl); takes = λ i. refl }

abbrev joining : Event
joining = plain_event (codes "JOIN") (codes "#c" ∷ [])

joining-split : split lib 20 (formatted true joining) ≡ ok (joining ∷ [])
unfolding formatted split beq last
joining-split = refl

send-steady_example :
    (sent : List Sent) × (send lib true false 20 lasting (some open_connection) joining ≡ ok sent)
    × (events_of sent ≡ joining ∷ [])
send-steady_example =
    send-steady lib true false 20 lasting open_connection joining (joining ∷ []) joining-split
      lasting-IsSteady

-- Client.Send on a connection that stays, the state being the number of the call.
abbrev client_send : ℕ → Event → Outcome (ℕ × List Sent)
client_send i e =
    send lib false true 395 lasting (some open_connection) e >>= λ sent. ok (i + 1, sent)

abbrev raw_lines : List Bytes
raw_lines = codes "ping x" ∷ codes "!" ∷ []

send_raw-Reads_example :
    (events : List Event) × (error : Option Bytes) × Reads platform raw_lines events error
    × ((i : ℕ) → IsSent client_send platform i raw_lines events error)
send_raw-Reads_example = send_raw-Reads client_send platform raw_lines

-- A smiley that just fits behind the text makes splitMessage panic.
smiley : split_message lib (codes "aaaa :)") 7 ≡ panic
unfolding split_message add_words add_word check_append place rune_count track add words_of valid
    cut_words beq has_byte slice
smiley = refl
