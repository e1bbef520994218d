-- ===== src/Wire/Sender.antt =====
-- Reading back the parts of a printed line that stand before its command: the prefix that
-- `Event.Bytes` writes and `ParseEvent` splits off.
use girc.Prelude.{
  ℕ, ◌+◌, ◌≡◌, ◌<◌, ◌≢◌, refl, ap, ◌∙◌, arith, true, false, Option, none, some, List, [], ◌∷◌, ◌++◌,
  append_assoc, ltb, ◌==◌, Bytes, length, length-append, all, Lacks, index_byte, index_byte-append,
  ok, slice, element, or_panic, slice-append,
}
use girc.Source.{Source, parse_source, string, len}
use girc.Source.RoundTrip.{IsPlain, parse_source-string, len-string}
use girc.Wire.{Platform, parse_source_part, source_at, parse_tags_part}
use girc.Wire.Print.{prefix_bytes, params_bytes}
use girc.Wire.Print.Length.{is_plain_byte, prefix_bytes-some}
use girc.Wire.Plain.{
  ascii-word, ascii-text, is_command_byte, all-append, word-Lacks, plain-middles, colon_plain,
}
use girc.Wire.Words.{is_word_byte, are_params, middles, plain, trailing, params-Shape}

-- The prefix of the line is read back: no white space, and a source that its text determines.
unfoldable pub IsSender : Option Source → Type 0
unfolding is_word_byte
IsSender none = 0 < 1
IsSender (some s) = IsPlain s × (all is_word_byte (string s) ≡ true)

space_plain : all is_plain_byte (b' ' ∷ []) ≡ true
unfolding is_plain_byte
space_plain = refl

pub plain-params_bytes :
    (params : List Bytes)
    → are_params params ≡ true
    → all is_plain_byte (params_bytes params) ≡ true
plain-params_bytes params h = elim (params-Shape params h) [
  | plain words print ↦ ap (all is_plain_byte) print ∙ plain-middles params words
  | trailing ms t words text same print ↦
      ap (all is_plain_byte) print
      ∙ all-append is_plain_byte (middles ms) (b' ' ∷ b':' ∷ t) (plain-middles ms words) (
          all-append is_plain_byte (b' ' ∷ []) (b':' ∷ t) space_plain
            (colon_plain t (ascii-text t text)))
]

-- A line without a source.
parse_source_part-none :
    (c : ℕ) (cs : Bytes)
    → (c == b':') ≡ false
    → parse_source_part (prefix_bytes none ++ (c ∷ cs))
      ≡ ok (some (none, length (prefix_bytes none)))
unfolding parse_source_part prefix_bytes
parse_source_part-none c cs k = rw k refl

first_none : (c : ℕ) (cs rest : Bytes) → prefix_bytes none ++ ((c ∷ cs) ++ rest) ≡ (c ∷ cs) ++ rest
unfolding prefix_bytes
first_none c cs rest = refl

plain-prefix_none : all is_plain_byte (prefix_bytes none) ≡ true
unfolding prefix_bytes
plain-prefix_none = refl

prefix_length : (s : Source) → length (string s) + 2 ≡ length (prefix_bytes (some s))
prefix_length s = rw (prefix_bytes-some s) (omega (arith, length-append (string s) (b' ' ∷ [])))

-- A line that begins with ":text ".
parse_source_part-colon :
    (text rest : Bytes)
    → 0 < length text
    → Lacks b' ' text
    → parse_source_part ((b':' ∷ text) ++ (b' ' ∷ rest))
      ≡ ok (some (some (parse_source text), length text + 2))
unfolding parse_source_part source_at
parse_source_part-colon text rest long free =
    let raw : Bytes = (b':' ∷ text) ++ (b' ' ∷ rest) in
    let at : index_byte raw b' ' ≡ some (length (b':' ∷ text)) =
      index_byte-append b' ' (b':' ∷ text) rest (omega arith, free) in
    let wide : ltb (length (b':' ∷ text)) 2 ≡ false = ground arith in
    let cut : slice raw 1 (length (b':' ∷ text)) ≡ ok text =
      slice-append (b':' ∷ []) text (b' ' ∷ rest) _ _ refl (omega arith) in
    ap (source_at raw) at
    ∙ rw (wide, cut) (ap (λ n. ok (some (some (parse_source text), n))) (omega arith))

pos-ne-nil : (s : Bytes) → s ≢ [] → 0 < length s
pos-ne-nil [] h = absurd (h refl)
pos-ne-nil (x ∷ s) h = omega arith

string-IsPlain : (s : Source) → IsPlain s → 0 < length (string s)
unfolding len
string-IsPlain s h = ground (arith, (len-string s).0, pos-ne-nil s.name h.name_ne_nil)

-- The prefix of the line is read back.
pub parse_source_part-prefix_bytes :
    (source : Option Source) (c : ℕ) (cs : Bytes)
    → IsSender source
    → (c == b':') ≡ false
    → parse_source_part (prefix_bytes source ++ (c ∷ cs))
      ≡ ok (some (source, length (prefix_bytes source)))
unfolding IsSender
parse_source_part-prefix_bytes none c cs h k = parse_source_part-none c cs k
parse_source_part-prefix_bytes (some s) c cs (determined, words) k =
    let text : Bytes = string s in
    ap (λ q. parse_source_part (q ++ (c ∷ cs))) (prefix_bytes-some s)
    ∙ ap (λ r. parse_source_part (b':' ∷ r)) (append_assoc text (b' ' ∷ []) (c ∷ cs))
    ∙ parse_source_part-colon text (c ∷ cs) (string-IsPlain s determined) (word-Lacks text words)
    ∙ ap (λ t. ok (some (some t, length text + 2))) (parse_source-string s determined)
    ∙ ap (λ n. ok (some (some s, n))) (prefix_length s)

pub plain-prefix_bytes :
    (source : Option Source) → IsSender source → all is_plain_byte (prefix_bytes source) ≡ true
unfolding IsSender
plain-prefix_bytes none h = plain-prefix_none
plain-prefix_bytes (some s) (determined, words) =
    ap (all is_plain_byte) (prefix_bytes-some s)
    ∙ all-append is_plain_byte (b':' ∷ string s) (b' ' ∷ [])
        (colon_plain (string s) (ascii-word (string s) words)) space_plain

pub parse_tags_part-other :
    (p : Platform) (y : ℕ) (ys : Bytes)
    → (y == b'@') ≡ false
    → parse_tags_part p (y ∷ ys) ≡ ok (some (none, p.now, y ∷ ys))
unfolding parse_tags_part element or_panic
parse_tags_part-other p y ys k = rw k refl

-- A command begins neither with "@" nor with ":".
pub command_first :
    (c : ℕ) (cs : Bytes)
    → all is_command_byte (c ∷ cs) ≡ true
    → ((c == b'@') ≡ false) × ((c == b':') ≡ false)
unfolding is_command_byte
command_first c cs h = (ground arith, ground arith)

-- The line does not begin with tags.
pub first_byte :
    (source : Option Source) (c : ℕ) (cs rest : Bytes)
    → all is_command_byte (c ∷ cs) ≡ true
    → (y : ℕ) × (ys : Bytes) × (prefix_bytes source ++ ((c ∷ cs) ++ rest) ≡ y ∷ ys)
      × ((y == b'@') ≡ false)
first_byte none c cs rest h = (c, cs ++ rest, first_none c cs rest, (command_first c cs h).0)
first_byte (some s) c cs rest h =
    (b':', _, ap (λ q. q ++ ((c ∷ cs) ++ rest)) (prefix_bytes-some s), refl)
