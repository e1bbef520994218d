-- ===== src/Wire/Print/Length.antt =====
-- The length of a printed event: `Event.LenOpts`.
use girc.Prelude.{
  ℕ, ◌+◌, ◌≡◌, ◌<◌, refl, arith, Bool, true, not, ◌&&◌, Option, none, some, List, [], ◌∷◌, ◌++◌,
  ltb, if◌then◌else◌, Bytes, length, length-append, ltb-zero-suc, ap, all,
}
use girc.Source.{Source, write_to, bytes, string, len}
use girc.Source.RoundTrip.{len-string}
use girc.Event.{Event}
use girc.Tags.{Tags, tags_write, tags_len, tag_bytes}
use girc.Wire.{Platform, is_ascii, is_cr}
use girc.Wire.Print.{
  params_bytes, to_valid, strip_newlines, prefix_bytes, line_of, event_bytes, params_len, len_opts,
}

-- No tags at all, or tags that are not an empty map.
unfoldable pub HasTagText : Tags → Type 0
HasTagText none = 0 < 1
HasTagText (some tags) = 0 < tags_len (some tags)

-- A line of ASCII without CR and LF: `Bytes` strips nothing of it.
unfoldable pub is_plain_byte : ℕ → Bool
unfolding is_cr
is_plain_byte c = ltb c 128 && not (is_cr c)

length-params_bytes :
    (params : List Bytes) → length (params_bytes params) ≡ length params + params_len params
unfolding params_bytes params_len
length-params_bytes [] = omega arith
length-params_bytes (param ∷ []) = ground arith
length-params_bytes (param ∷ next ∷ params) =
    omega (
      arith,
      length-append param (params_bytes (next ∷ params)),
      length-params_bytes (next ∷ params),
    )

is_ascii-plain : (s : Bytes) → all is_plain_byte s ≡ true → is_ascii s ≡ true
unfolding is_ascii is_plain_byte
is_ascii-plain [] h = refl
is_ascii-plain (c ∷ cs) h = ground (arith, is_ascii-plain cs)

strip_newlines-plain : (s : Bytes) → all is_plain_byte s ≡ true → strip_newlines s ≡ s
unfolding strip_newlines is_plain_byte
strip_newlines-plain [] h = refl
strip_newlines-plain (c ∷ cs) h = ground (arith, strip_newlines-plain cs)

pub event_bytes-plain :
    (p : Platform) (e : Event) → all is_plain_byte (line_of e) ≡ true → event_bytes p e ≡ line_of e
unfolding event_bytes to_valid
event_bytes-plain p e h = rw (is_ascii-plain (line_of e) h) (strip_newlines-plain (line_of e) h)

length-tags_write :
    (tags : Tags)
    → HasTagText tags
    → length (tags_write tags) ≡ elim tags [ none ↦ 0 | some t ↦ tags_len (some t) + 1 ]
unfolding tags_write HasTagText tags_len tag_bytes
length-tags_write none h = refl
length-tags_write (some t) h = ground (arith, length-append (tag_bytes (some t)) (b' ' ∷ []))

prefix_none : length (prefix_bytes none) ≡ 0
unfolding prefix_bytes
prefix_none = refl

write_to-colon : (s : Source) → write_to s (b':' ∷ []) ≡ b':' ∷ write_to s []
unfolding write_to
write_to-colon s = ground arith

-- The prefix of a line.
pub prefix_bytes-some : (s : Source) → prefix_bytes (some s) ≡ b':' ∷ (string s ++ (b' ' ∷ []))
unfolding prefix_bytes bytes
prefix_bytes-some s = rw (write_to-colon s) (ap (λ n. b':' ∷ (n ++ (b' ' ∷ []))) ((len-string s).1))

length-prefix_bytes :
    (source : Option Source)
    → length (prefix_bytes source) ≡ elim source [ none ↦ 0 | some s ↦ len s + 2 ]
length-prefix_bytes none = prefix_none
length-prefix_bytes (some s) =
    rw (prefix_bytes-some s) (omega (arith, length-append (string s) (b' ' ∷ []), (len-string s).0))

params_count :
    (params : List Bytes)
    → (if ltb 0 (length params) then length params + params_len params else 0)
      ≡ length params + params_len params
unfolding params_len
params_count [] = refl
params_count (param ∷ params) = rw (ltb-zero-suc (length params)) refl

length-line_of :
    (e : Event) (include_tags : Bool)
    → HasTagText e.tags
    → length (line_of e) ≡ len_opts e include_tags
unfolding line_of len_opts
length-line_of e include_tags h =
    let words : Bytes = e.command ++ params_bytes e.params in
    omega (
      arith,
      length-append (tags_write e.tags) (prefix_bytes e.source ++ words),
      length-append (prefix_bytes e.source) words,
      length-append e.command (params_bytes e.params),
      length-params_bytes e.params,
      length-tags_write e.tags h,
      length-prefix_bytes e.source,
      params_count e.params,
    )

-- LenOpts is the length of what Bytes prints, whether the tags are to be counted or not, if the
-- line is ASCII without CR and LF and the tags are not an empty map.
pub length-event_bytes :
    (p : Platform) (e : Event) (include_tags : Bool)
    → HasTagText e.tags
    → all is_plain_byte (line_of e) ≡ true
    → length (event_bytes p e) ≡ len_opts e include_tags
length-event_bytes p e include_tags h plain =
    rw (event_bytes-plain p e plain) (length-line_of e include_tags h)
