-- ===== src/Ctcp/RoundTrip.antt =====
-- Encoded CTCP messages are decoded again.
use girc.Prelude.{
  ℕ, ◌+◌, ◌-◌, ◌≡◌, ◌≢◌, refl, arith, Bool, true, false, ◌||◌, some, [], ◌∷◌, ◌++◌, Bytes, codes,
  beq, index_byte, length, take, drop, get_or, Lacks, is_empty, ap, ◌∙◌, length-append,
  take-length-append, drop-length-add_one-append, index_byte-Lacks, index_byte-append, suc,
  append_assoc, append-nil,
}
use girc.Event.{Event}
use girc.Ctcp.{CtcpEvent, ctcp_delim, is_tag, decode_text, decode_ctcp, encode_ctcp_raw}

-- The commands that carry CTCP messages.
unfoldable pub carries : Bytes → Bool
carries command = beq command (codes "PRIVMSG") || beq command (codes "NOTICE")

-- What DecodeCTCP makes of a tag and a text in the event `e`.
abbrev pub decoded : Event → Bytes → Bytes → CtcpEvent
decoded e cmd text = record {
  origin = e;
  source = e.source;
  command = cmd;
  text = text;
  reply = beq e.command (codes "NOTICE");
}

framed : Bytes → Bytes
framed body = ctcp_delim ∷ (body ++ (ctcp_delim ∷ []))

length-framed : (body : Bytes) → length (framed body) ≡ length body + 2
unfolding framed
length-framed body = omega (arith, length-append body (ctcp_delim ∷ []))

take-framed : (body : Bytes) → take (length (framed body) - 2) (drop 1 (framed body)) ≡ body
unfolding framed
take-framed body =
    ap (λ n. take n (body ++ (ctcp_delim ∷ []))) {x = length (framed body) - 2} {y = length body}
      (omega (arith, length-framed body))
    ∙ take-length-append body (ctcp_delim ∷ [])

get_or-length : (xs : Bytes) (x : ℕ) → get_or (xs ++ (x ∷ [])) (length xs) 0 ≡ x
get_or-length [] x = refl
get_or-length (y ∷ ys) x = get_or-length ys x

last-framed : (body : Bytes) → get_or (framed body) (length (framed body) - 1) 0 ≡ ctcp_delim
unfolding framed
last-framed body =
    ap (λ n. get_or (framed body) n 0) {x = length (framed body) - 1} {y = suc (length body)}
      (omega (arith, length-framed body))
    ∙ get_or-length body ctcp_delim

first-framed : (body : Bytes) → get_or (framed body) 0 0 ≡ ctcp_delim
unfolding framed
first-framed body = refl

decode_ctcp-framed :
    (e : Event) (target : Bytes) (c : ℕ) (body : Bytes)
    → e.params ≡ target ∷ framed (c ∷ body) ∷ []
    → carries e.command ≡ true
    → decode_ctcp e ≡ decode_text e (c ∷ body) (index_byte (c ∷ body) b' ')
unfolding decode_ctcp carries
decode_ctcp-framed e target c body h k = rw h (
    rw (take-framed (c ∷ body)) (
      rw (last-framed (c ∷ body))
        (rw (first-framed (c ∷ body)) (ground (arith, k, length-framed (c ∷ body))))))

is_tag-rest : (c : ℕ) (cs : Bytes) → is_tag (c ∷ cs) ≡ true → is_tag cs ≡ true
unfolding is_tag
is_tag-rest c cs h = ground arith

is_tag-first : (c : ℕ) (cs : Bytes) → is_tag (c ∷ cs) ≡ true → c ≢ b' '
unfolding is_tag
is_tag-first c cs h = λ e. ground arith

is_tag-Lacks : (cmd : Bytes) → is_tag cmd ≡ true → Lacks b' ' cmd
is_tag-Lacks [] h = tt
is_tag-Lacks (c ∷ cs) h = (is_tag-first c cs h, is_tag-Lacks cs (is_tag-rest c cs h))

decode_text-tag :
    (e : Event) (cmd : Bytes)
    → is_tag cmd ≡ true
    → decode_text e cmd (index_byte cmd b' ') ≡ some (decoded e cmd [])
unfolding decode_text
decode_text-tag e cmd h = rw (index_byte-Lacks b' ' cmd (is_tag-Lacks cmd h)) (rw h refl)

decode_text-tag_text :
    (e : Event) (cmd text : Bytes)
    → is_tag cmd ≡ true
    → decode_text e (cmd ++ (b' ' ∷ text)) (index_byte (cmd ++ (b' ' ∷ text)) b' ')
      ≡ some (decoded e cmd text)
unfolding decode_text
decode_text-tag_text e cmd text h = rw (index_byte-append b' ' cmd text (is_tag-Lacks cmd h)) (
    rw (take-length-append cmd (b' ' ∷ text))
      (rw h (rw (drop-length-add_one-append cmd b' ' text) refl)))

encode_ctcp_raw-tag : (c : ℕ) (cs : Bytes) → encode_ctcp_raw (c ∷ cs) [] ≡ framed (c ∷ cs)
unfolding encode_ctcp_raw framed
encode_ctcp_raw-tag c cs =
    ap (λ r. ctcp_delim ∷ c ∷ r)
      (ground (arith, append_assoc cs [] (ctcp_delim ∷ []), append-nil cs))

encode_ctcp_raw-text :
    (c : ℕ) (cs : Bytes) (t : ℕ) (ts : Bytes)
    → encode_ctcp_raw (c ∷ cs) (t ∷ ts) ≡ framed ((c ∷ cs) ++ (b' ' ∷ t ∷ ts))
unfolding encode_ctcp_raw framed
encode_ctcp_raw-text c cs t ts =
    ap (λ r. ctcp_delim ∷ c ∷ r) (ground (arith, append_assoc cs (b' ' ∷ t ∷ ts) (ctcp_delim ∷ [])))

-- DecodeCTCP reads back the tag and the text that EncodeCTCPRaw wrote, for every text and every
-- tag of A-Z and 0-9 that is not empty, in a PRIVMSG or NOTICE with a target and that parameter.
pub decode_ctcp-encode_ctcp_raw :
    (e : Event) (target cmd text : Bytes)
    → is_empty cmd ≡ false
    → is_tag cmd ≡ true
    → carries e.command ≡ true
    → e.params ≡ target ∷ encode_ctcp_raw cmd text ∷ []
    → decode_ctcp e ≡ some (decoded e cmd text)
decode_ctcp-encode_ctcp_raw e target [] text m h k p = cc
decode_ctcp-encode_ctcp_raw e target (c ∷ cs) [] m h k p =
    decode_ctcp-framed e target c cs (p ∙ ap (λ r. target ∷ r ∷ []) (encode_ctcp_raw-tag c cs)) k
    ∙ decode_text-tag e (c ∷ cs) h
decode_ctcp-encode_ctcp_raw e target (c ∷ cs) (t ∷ ts) m h k p =
    decode_ctcp-framed e target c (cs ++ (b' ' ∷ t ∷ ts))
      (p ∙ ap (λ r. target ∷ r ∷ []) (encode_ctcp_raw-text c cs t ts)) k
    ∙ decode_text-tag_text e (c ∷ cs) (t ∷ ts) h
