-- ===== src/Ctcp/Fields.antt =====
-- What DecodeCTCP takes over from the event.
use girc.Prelude.{
  true, false, length, get_or, ltb, ◌==◌, ◌-◌, drop, index_byte, [], ℕ, ◌≡◌, refl, Bool, not, ◌&&◌,
  ◌||◌, Option, none, some, Bytes, codes, beq, take, if◌then◌else◌,
}
use girc.Event.{Event}
use girc.Ctcp.{ctcp_delim, CtcpEvent, is_tag, decode_text, decode_ctcp}

-- What a message that is decoded keeps of its event.
pub data IsDecoded (e : Event) : Option CtcpEvent → Type 0 where
  refused : IsDecoded e none
  taken :
      (ctcp : CtcpEvent)
      → ctcp.source ≡ e.source
      → ctcp.reply ≡ beq e.command (codes "NOTICE")
      → IsDecoded e (some ctcp)

unless :
    (e : Event) (b : Bool) (d : Option CtcpEvent)
    → IsDecoded e d
    → IsDecoded e (if b then none else d)
unless e true d h = refused
unless e false d h = h

decode_text-IsDecoded :
    (e : Event) (text : Bytes) (space : Option ℕ) → IsDecoded e (decode_text e text space)
unfolding decode_text
decode_text-IsDecoded e text none = unless e (not (is_tag text)) _ (taken _ refl refl)
decode_text-IsDecoded e text (some s) = unless e (not (is_tag (take s text))) _ (taken _ refl refl)

pub decode_ctcp-IsDecoded : (e : Event) → IsDecoded e (decode_ctcp e)
unfolding decode_ctcp
decode_ctcp-IsDecoded e =
    let last = get_or e.params 1 [] in
    let text = take (length last - 2) (drop 1 last) in
    unless e (not (length e.params == 2) || ltb (length last) 3) _ (
      unless e (not (beq e.command (codes "PRIVMSG")) && not (beq e.command (codes "NOTICE"))) _ (
        unless e
          (not (get_or last 0 0 == ctcp_delim)
            || not (get_or last (length last - 1) 0 == ctcp_delim))
          _ (decode_text-IsDecoded e text (index_byte text b' '))))
