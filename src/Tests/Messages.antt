-- ===== src/Tests/Messages.antt =====
-- Channel modes and CTCP messages at concrete inputs.
use girc.Prelude.{◌++◌, List, ◌≡◌, panic, none, refl, true, false, ◌||◌, some, [], ◌∷◌, codes, beq}
use girc.Text.Fold.{rune_bytes}
use girc.Messages.{strip_action, is_from_channel}
use girc.Messages.Actions.{strip_action-encode_ctcp_raw}
use girc.Text.Valid.{is_valid_channel}
use girc.Event.{Event, plain_event}
use girc.Wire.{Platform}
use girc.Modes.{CMode, CModes, new_cmodes, apply, has_mode, parse}
use girc.Modes.Changes.{sets, has_mode-apply}
use girc.Modes.Arguments.{is_sign, mode_flags, names, change, sign_after, takers, parse_lem}
use girc.Ctcp.{is_tag, decode_ctcp, encode_ctcp_raw}
use girc.Ctcp.RoundTrip.{carries, decoded, decode_ctcp-encode_ctcp_raw}

-- A platform that leaves the texts outside ASCII as they are.
abbrev platform : Platform
platform = record {
  now = 7;
  parse_time = λ raw. none;
  unicode_upper = λ s. s;
  unicode_fields = λ s. s ∷ [];
  unicode_valid = λ s. s;
}

abbrev moderated : CMode
moderated = record { add = true; name = b'm'; setting = true; args = [] }

abbrev not_moderated : CMode
not_moderated = record { add = false; name = b'm'; setting = true; args = [] }

abbrev key : CMode
key = record { add = true; name = b'k'; setting = true; args = codes "secret" }

abbrev modes : CModes
modes = new_cmodes (codes "beI,k,l,imnpst") (codes "ov")

abbrev channel : CModes
channel = record modes { modes = moderated ∷ [] }

has_mode-apply_example :
    has_mode (apply channel (not_moderated ∷ [])) (codes "m")
    ≡ (has_mode channel (codes "m") || sets (not_moderated ∷ []) (codes "m"))
has_mode-apply_example = has_mode-apply channel (not_moderated ∷ []) (codes "m")

-- After "-m" the channel still has the mode "m".
still_moderated : has_mode (apply channel (not_moderated ∷ [])) (codes "m") ≡ true
unfolding has_mode apply beq rune_bytes
still_moderated = refl

k-is_mode : is_sign b'k' ≡ false
unfolding is_sign
k-is_mode = refl

parse_lem_example :
    (names (parse modes (codes "+k-m") (codes "secret" ∷ [])) ≡ mode_flags (codes "+k-m"))
    × ((later : List CMode) × (parse modes
            (codes "-m+" ++ (b'k' ∷ codes "-m"))
            (codes "secret" ∷ [])
          ≡ parse modes (codes "-m+") (codes "secret" ∷ [])
            ++ (change modes
                  (codes "secret" ∷ [])
                  (sign_after true (codes "-m+"))
                  b'k'
                  (takers modes (parse modes (codes "-m+") (codes "secret" ∷ [])))
                ∷ later)))
parse_lem_example =
    parse_lem modes (codes "secret" ∷ []) (codes "+k-m") (codes "-m+") b'k' (codes "-m") k-is_mode

abbrev ping : Event
ping =
    plain_event (codes "PRIVMSG") (codes "bob" ∷ encode_ctcp_raw (codes "PING") (codes "1 2") ∷ [])

ping-is_tag : is_tag (codes "PING") ≡ true
unfolding is_tag
ping-is_tag = refl

ping-carries : carries (codes "PRIVMSG") ≡ true
unfolding carries beq
ping-carries = refl

decode_ctcp-encode_ctcp_raw_example :
    decode_ctcp ping ≡ some (decoded ping (codes "PING") (codes "1 2"))
decode_ctcp-encode_ctcp_raw_example =
    decode_ctcp-encode_ctcp_raw ping (codes "bob") (codes "PING") (codes "1 2") refl ping-is_tag
      ping-carries refl

abbrev waves : Event
waves =
    plain_event (codes "PRIVMSG")
      (codes "#go" ∷ encode_ctcp_raw (codes "ACTION") (codes "waves") ∷ [])

abbrev empty_action : Event
empty_action =
    plain_event (codes "PRIVMSG") (codes "#go" ∷ encode_ctcp_raw (codes "ACTION") [] ∷ [])

empty_action-panics : strip_action empty_action ≡ panic
empty_action-panics = strip_action-encode_ctcp_raw empty_action (codes "#go") [] refl refl

abbrev greeting : Event
greeting = record waves { source = some record { name = codes "bob"; ident = []; host = [] } }

greeting-is_from_channel : is_from_channel greeting ≡ true
unfolding is_from_channel is_valid_channel beq
greeting-is_from_channel = refl
