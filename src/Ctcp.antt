-- ===== src/Ctcp.antt =====
-- ctcp.go: the encoding of CTCP messages in the text of PRIVMSG and NOTICE.
pub mod RoundTrip
pub mod Fields
use girc.Prelude.{
  ℕ, ◌+◌, ◌-◌, Bool, not, ◌&&◌, ◌||◌, Option, none, some, List, [], ◌∷◌, ◌++◌, ltb, ◌==◌,
  if◌then◌else◌, Bytes, codes, beq, index_byte, length, take, drop, get_or, within, all, is_empty,
}
use girc.Source.{Source}
use girc.Event.{Event}

abbrev pub ctcp_delim : ℕ
ctcp_delim = 1

pub record CtcpEvent : Type 0 where
  pub origin : Event
  pub source : Option Source
  pub command : Bytes
  pub text : Bytes
  pub reply : Bool

-- Check for A-Z, 0-9.
unfoldable pub is_tag : Bytes → Bool
is_tag = all (λ c. not ((ltb c b'A' || ltb b'Z' c) && (ltb c b'0' || ltb b'9' c)))

-- The text between the delimiters, split at its first space, if there is one.
decode_text : Event → Bytes → Option ℕ → Option CtcpEvent
unfolding is_tag
decode_text e text none =
    if not (is_tag text)
    then none
    else some record {
      origin = e;
      source = e.source;
      command = text;
      text = [];
      reply = beq e.command (codes "NOTICE");
    }
decode_text e text (some s) =
    if not (is_tag (take s text))
    then none
    else some record {
      origin = e;
      source = e.source;
      command = take s text;
      text = drop (s + 1) text;
      reply = beq e.command (codes "NOTICE");
    }

-- DecodeCTCP on an event that is not nil
unfoldable pub decode_ctcp : Event → Option CtcpEvent
unfolding decode_text
decode_ctcp e =
    let last = get_or e.params 1 [] in
    let text = take (length last - 2) (drop 1 last) in
    if not (length e.params == 2) || ltb (length last) 3
    then none
    else if not (beq e.command (codes "PRIVMSG")) && not (beq e.command (codes "NOTICE"))
    then none
    else if not (get_or last 0 0 == ctcp_delim)
        || not (get_or last (length last - 1) 0 == ctcp_delim)
    then none
    else decode_text e text (index_byte text b' ')

-- EncodeCTCPRaw
unfoldable pub encode_ctcp_raw : Bytes → Bytes → Bytes
encode_ctcp_raw cmd text =
    if is_empty cmd
    then []
    else (ctcp_delim ∷ cmd)
      ++ (if ltb 0 (length text) then b' ' ∷ text else [])
      ++ (ctcp_delim ∷ [])

-- EncodeCTCP; `none` is nil.
unfoldable pub encode_ctcp : Option CtcpEvent → Bytes
unfolding encode_ctcp_raw
encode_ctcp none = []
encode_ctcp (some ctcp) = encode_ctcp_raw ctcp.command ctcp.text
