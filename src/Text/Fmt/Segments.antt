-- ===== src/Text/Fmt/Segments.antt =====
-- `Fmt` on a text that is made of plain texts and codes in braces.
use girc.Prelude.{
  ℕ, ◌+◌, ◌≡◌, ap, ◌∙◌, arith, Bool, true, false, not, none, some, List, [], ◌∷◌, ◌++◌,
  append_assoc, append-nil, ◌==◌, if◌then◌else◌, Bytes, length, take, drop, all, take-length-append,
  drop-length-add_one-append,
}
use mathlib.Core.Path.{sym}
use girc.Text.Fmt.{is_code_byte, replacement, fmt_from, format}

-- A text without "{", or a code between braces.
pub data Segment : Type 0 where
  text : Bytes → Segment
  code : Bytes → Segment

unfoldable pub is_segment : Segment → Bool
unfolding is_code_byte
is_segment (text s) = all (λ c. not (c == b'{')) s
is_segment (code s) = all is_code_byte s

unfoldable pub written : List Segment → Bytes
written [] = []
written (text s ∷ segments) = s ++ written segments
written (code s ∷ segments) = (b'{' ∷ s) ++ (b'}' ∷ written segments)

-- The text with each code replaced.
unfoldable pub rendered : List Segment → Bytes
rendered [] = []
rendered (text s ∷ segments) = s ++ rendered segments
rendered (code s ∷ segments) = replacement s ++ rendered segments

fmt_from-text :
    (s done rest : Bytes)
    → all (λ c. not (c == b'{')) s ≡ true
    → fmt_from done none (s ++ rest) ≡ fmt_from (done ++ s) none rest
unfolding fmt_from
fmt_from-text [] done rest h = ap (λ d. fmt_from d none rest) (sym (append-nil done))
fmt_from-text (c ∷ s) done rest h =
    let plain : (c == b'{') ≡ false = ground arith in
    let others : all (λ c. not (c == b'{')) s ≡ true = ground arith in
    ap (λ b. fmt_from (done ++ (c ∷ [])) (if b then some (length done) else none) (s ++ rest)) plain
    ∙ (fmt_from-text s (done ++ (c ∷ [])) rest others
        ∙ ap (λ d. fmt_from d none rest) (append_assoc done (c ∷ []) s))

-- Letters behind the brace are passed over.
fmt_from-letters :
    (s done rest : Bytes) (last : ℕ)
    → all is_code_byte s ≡ true
    → fmt_from done (some last) (s ++ rest) ≡ fmt_from (done ++ s) (some last) rest
unfolding fmt_from is_code_byte
fmt_from-letters [] done rest last h = ap (λ d. fmt_from d (some last) rest) (sym (append-nil done))
fmt_from-letters (c ∷ s) done rest last h =
    let letter : is_code_byte c ≡ true = ground arith in
    let opens : (c == b'{') ≡ false = ground arith in
    let closes : (c == b'}') ≡ false = ground arith in
    let others : all is_code_byte s ≡ true = ground arith in
    rw (opens, closes, letter)
      (fmt_from-letters s (done ++ (c ∷ [])) rest last others
        ∙ ap (λ d. fmt_from d (some last) rest) (append_assoc done (c ∷ []) s))

fmt_from-code :
    (s done rest : Bytes)
    → all is_code_byte s ≡ true
    → fmt_from done none ((b'{' ∷ s) ++ (b'}' ∷ rest)) ≡ fmt_from (done ++ replacement s) none rest
unfolding fmt_from
fmt_from-code s done rest h =
    fmt_from-letters s (done ++ (b'{' ∷ [])) (b'}' ∷ rest) (length done) h
    ∙ ap (λ t. fmt_from (take (length done) t ++ replacement (drop (length done + 1) t)) none rest)
        (append_assoc done (b'{' ∷ []) s)
    ∙ ap (λ t. fmt_from (t ++ replacement (drop (length done + 1) (done ++ (b'{' ∷ s)))) none rest)
        (take-length-append done (b'{' ∷ s))
    ∙ ap (λ t. fmt_from (done ++ replacement t) none rest) (drop-length-add_one-append done b'{' s)

nothing_left : (done : Bytes) → fmt_from done none [] ≡ done ++ []
unfolding fmt_from
nothing_left done = sym (append-nil done)

text-plain : (s : Bytes) → is_segment (text s) ≡ true → all (λ c. not (c == b'{')) s ≡ true
unfolding is_segment
text-plain s h = h

code-letters : (s : Bytes) → is_segment (code s) ≡ true → all is_code_byte s ≡ true
unfolding is_segment
code-letters s h = h

fmt_from-written :
    (segments : List Segment) (done : Bytes)
    → all is_segment segments ≡ true
    → fmt_from done none (written segments) ≡ done ++ rendered segments
unfolding written rendered
fmt_from-written [] done h = nothing_left done
fmt_from-written (text s ∷ segments) done h =
    let plain : is_segment (text s) ≡ true = ground arith in
    let others : all is_segment segments ≡ true = ground arith in
    fmt_from-text s done (written segments) (text-plain s plain)
    ∙ fmt_from-written segments (done ++ s) others
    ∙ append_assoc done s (rendered segments)
fmt_from-written (code s ∷ segments) done h =
    let letters : is_segment (code s) ≡ true = ground arith in
    let others : all is_segment segments ≡ true = ground arith in
    fmt_from-code s done (written segments) (code-letters s letters)
    ∙ fmt_from-written segments (done ++ replacement s) others
    ∙ append_assoc done (replacement s) (rendered segments)

-- Fmt replaces each code in braces on its own and leaves the texts between them as they are: on
-- texts without "{" and codes of letters and "," it gives the texts and the replacements in turn.
pub format-written :
    (segments : List Segment)
    → all is_segment segments ≡ true
    → format (written segments) ≡ rendered segments
unfolding format
format-written segments h = fmt_from-written segments [] h
