-- ===== src/Messages/Actions.antt =====
-- The text of an action, `/me`.
use girc.Prelude.{
  ◌+◌, ◌-◌, ◌≡◌, refl, arith, true, some, [], ◌∷◌, ◌++◌, if◌then◌else◌, Bytes, codes, beq, length,
  take, Outcome, ok, panic, slice, is_empty, ap, ◌∙◌, ltb-zero-suc, beq_iff, beq_refl,
  length-append, take-length-append, slice-eq-ok,
}
use girc.Event.{Event, last}
use girc.Ctcp.{ctcp_delim, is_tag, decode_ctcp, encode_ctcp_raw}
use girc.Ctcp.RoundTrip.{carries, decoded, decode_ctcp-encode_ctcp_raw}
use girc.Messages.{is_ctcp, action_from, is_action, strip_action}

action-is_tag : is_tag (codes "ACTION") ≡ true
unfolding is_tag
action-is_tag = refl

privmsg-carries : (command : Bytes) → command ≡ codes "PRIVMSG" → carries command ≡ true
unfolding carries beq
privmsg-carries command h = rw h refl

-- The slice of the text of an action.
strip : Bytes → Outcome Bytes
strip message = slice message 8 (length message - 1)

strip-encode_ctcp_raw :
    (text : Bytes)
    → strip (encode_ctcp_raw (codes "ACTION") text) ≡ (if is_empty text then panic else ok text)
unfolding strip encode_ctcp_raw slice
strip-encode_ctcp_raw [] = refl
strip-encode_ctcp_raw (t ∷ ts) =
    let behind : Bytes = ts ++ (ctcp_delim ∷ []) in
    let line : Bytes = (ctcp_delim ∷ codes "ACTION ") ++ (t ∷ behind) in
    let size : length behind ≡ length ts + 1 = length-append ts (ctcp_delim ∷ []) in
    rw (ltb-zero-suc (length ts)) (
      slice-eq-ok line 8 (length line - 1) (omega (arith, size)) (omega arith)
      ∙ ap ok (
          ap (λ n. take n (t ∷ behind)) {x = length line - 1 - 8} {y = length (t ∷ ts)}
            (omega (arith, size))
          ∙ take-length-append (t ∷ ts) (ctcp_delim ∷ [])))

module _ (e : Event) (target text : Bytes) (message : e.command ≡ codes "PRIVMSG")
    (params : e.params ≡ target ∷ encode_ctcp_raw (codes "ACTION") text ∷ []) where
  is_action-encode_ctcp_raw : is_action e ≡ true
  unfolding is_action is_ctcp action_from
  is_action-encode_ctcp_raw =
      let parsed : decode_ctcp e ≡ some (decoded e (codes "ACTION") text) =
        decode_ctcp-encode_ctcp_raw e target (codes "ACTION") text refl action-is_tag
          (privmsg-carries e.command message) params in
      rw ((beq_iff e.command (codes "PRIVMSG")).1 message) (rw parsed (beq_refl (codes "ACTION")))

  last-encode_ctcp_raw : last e ≡ encode_ctcp_raw (codes "ACTION") text
  unfolding last
  last-encode_ctcp_raw = rw params refl

  -- StripAction gives the text of an action that EncodeCTCPRaw wrote in a PRIVMSG with a target and
  -- that parameter, and panics if the text is empty.
  pub strip_action-encode_ctcp_raw : strip_action e ≡ (if is_empty text then panic else ok text)
  unfolding strip_action strip
  strip_action-encode_ctcp_raw =
      rw is_action-encode_ctcp_raw (rw last-encode_ctcp_raw (strip-encode_ctcp_raw text))
