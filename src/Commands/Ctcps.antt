-- ===== src/Commands/Ctcps.antt =====
-- What the receiver reads of Commands.SendCTCP and Commands.SendCTCPReply.
use girc.Prelude.{◌≡◌, refl, true, false, some, [], ◌∷◌, Bytes, codes, beq, is_empty, ok}
use girc.Event.{Event, plain_event}
use girc.Actions.{send}
use girc.Ctcp.{is_tag, decode_ctcp, encode_ctcp_raw}
use girc.Ctcp.RoundTrip.{carries, decoded, decode_ctcp-encode_ctcp_raw}
use girc.Commands.{notice, send_ctcp, send_ctcp_reply}

encode_ctcp_raw-ne-nil :
    (cmd text : Bytes) → is_empty cmd ≡ false → is_empty (encode_ctcp_raw cmd text) ≡ false
unfolding encode_ctcp_raw
encode_ctcp_raw-ne-nil [] text h = cc
encode_ctcp_raw-ne-nil (c ∷ cs) text h = refl

privmsg-carries : carries (codes "PRIVMSG") ≡ true
unfolding carries beq
privmsg-carries = refl

notice-carries : carries (codes "NOTICE") ≡ true
unfolding carries beq
notice-carries = refl

abbrev pub ctcp_event : Bytes → Bytes → Bytes → Bytes → Event
ctcp_event command target cmd text = plain_event command (target ∷ encode_ctcp_raw cmd text ∷ [])

-- SendCTCP and SendCTCPReply do not panic on a type of A-Z and 0-9 that is not empty, and each
-- sends one event, from which DecodeCTCP reads the type and the text.
decode_ctcp-send_ctcp :
    (target cmd text : Bytes)
    → is_empty cmd ≡ false
    → is_tag cmd ≡ true
    → (send_ctcp target cmd text ≡ ok (send (ctcp_event (codes "PRIVMSG") target cmd text) ∷ []))
      × (decode_ctcp (ctcp_event (codes "PRIVMSG") target cmd text)
          ≡ some (decoded (ctcp_event (codes "PRIVMSG") target cmd text) cmd text))
      × (send_ctcp_reply target cmd text
          ≡ ok (send (ctcp_event (codes "NOTICE") target cmd text) ∷ []))
      × (decode_ctcp (ctcp_event (codes "NOTICE") target cmd text)
          ≡ some (decoded (ctcp_event (codes "NOTICE") target cmd text) cmd text))
unfolding send_ctcp send_ctcp_reply notice
decode_ctcp-send_ctcp target cmd text m h = (
  rw (encode_ctcp_raw-ne-nil cmd text m) refl,
  decode_ctcp-encode_ctcp_raw (ctcp_event (codes "PRIVMSG") target cmd text) target cmd text m h
      privmsg-carries refl,
  rw (encode_ctcp_raw-ne-nil cmd text m) refl,
  decode_ctcp-encode_ctcp_raw (ctcp_event (codes "NOTICE") target cmd text) target cmd text m h
      notice-carries refl,
)
