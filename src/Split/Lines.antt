-- ===== src/Split/Lines.antt =====
-- What splitMessage does to a printable text of short words.
use girc.Prelude.{
  ℕ, ◌+◌, ◌<◌, ◌≤◌, ◌≡◌, refl, ap, sym, ◌∙◌, arith, ltb, Bool, true, false, not, ◌&&◌, ◌||◌, List,
  [], ◌∷◌, ◌++◌, map, append_assoc, append-nil, Bytes, is_empty, length, All, All-append, Outcome,
  ok, ◌>>=◌, ◌==◌, join_with, branches,
}
use girc.Wire.{is_ascii, is_space}
use girc.Split.{
  TextLib, Layout, trim_left, trim_right, words_from, add, add_word, add_words, blank,
  split_message, valid, words_of, cut_words, cut_newlines,
}
use girc.Split.Words.{
  plain-ascii, IsPlain, IsShort, IsLine, Reads, layout, placed, placed-Reads, add_word-short, flat,
  flat-join,
}

-- The words behind the first.
spaced : List Bytes → Bytes
spaced [] = []
spaced (w ∷ ws) = (b' ' ∷ w) ++ spaced ws

join-spaced : (w : Bytes) (ws : List Bytes) → join_with b' ' (w ∷ ws) ≡ w ++ spaced ws
unfolding join_with spaced
join-spaced w [] = sym (append-nil w)
join-spaced w (v ∷ ws) = ap (λ x. w ++ (b' ' ∷ x)) (join-spaced v ws)

valid-ascii : (t : TextLib) (s : Bytes) → is_ascii s ≡ true → valid t s ≡ s
unfolding valid
valid-ascii t s h = rw h refl

module _ (t : TextLib) (max : ℕ) where
  add_words-Reads :
      (ws : List Bytes) (s : Layout) (text : Bytes)
      → All (IsShort t max) ws
      → Reads max text s
      → (s' : Layout) × (add_words t max ws s ≡ ok s') × Reads max (text ++ spaced ws) s'
  unfolding add_words spaced
  add_words-Reads [] s text h r = (s, refl, rw (append-nil text) r)
  add_words-Reads (w ∷ ws) s text h (shape, started, fits, rest, reads) =
      let step : add_word t max w s ≡ ok (placed max w s.lines s.line) =
        ap (add_word t max w) shape ∙ add_word-short t max w s.lines s.line fits.0 h.0 in
      let (s', done, after) =
        add_words-Reads ws (placed max w s.lines s.line) (text ++ (b' ' ∷ w)) h.1
          (placed-Reads t max w s.lines s.line text h.0 (refl, started, fits, rest, reads)) in
      (
        s',
        ap (λ o. o >>= λ s1. add_words t max ws s1) step ∙ done,
        rw⁻¹ (append_assoc text (b' ' ∷ w) (spaced ws)) after,
      )

  map-valid :
      (lines : List Bytes) → All (IsLine max) lines → map (λ line. valid t line) lines ≡ lines
  map-valid [] h = refl
  map-valid (line ∷ lines) h = rw (valid-ascii t line h.0.0) (ap (◌∷◌ line) (map-valid lines h.1))

  -- The result for a list of words: lines within the limit, which read the words.
  abbrev Breaks : List Bytes → Layout → Type 0
  Breaks ws s =
      All (IsLine max) (s.lines ++ (s.line ∷ []))
      × (join_with b' ' (s.lines ++ (s.line ∷ [])) ≡ join_with b' ' ws)

  Reads-Breaks :
      (text : Bytes) (ws : List Bytes) (s : Layout)
      → text ≡ join_with b' ' ws
      → Reads max text s
      → Breaks ws s
  Reads-Breaks text ws s h (shape, started, fits, rest, reads) =
      (All-append _ s.lines (s.line ∷ []) rest (fits, tt), flat-join s.lines s.line ∙ reads ∙ h)

  -- The first word begins the first line.
  first-placed : (w : Bytes) → 1 + length w < max → placed max w [] [] ≡ layout [] w
  unfolding add
  first-placed w h = let fits : ltb (1 + length w + 0) max ≡ true = ground arith in rw fits refl

  first-Reads : (w : Bytes) → IsShort t max w → Reads max w (layout [] w)
  unfolding flat
  first-Reads w (plain, some_text, short, p) =
      (refl, some_text, (plain-ascii w plain, omega (arith, short)), tt, refl)

  add_words-Breaks :
      (ws : List Bytes)
      → 0 < max
      → All (IsShort t max) ws
      → (s : Layout) × (add_words t max ws blank ≡ ok s) × Breaks ws s
  unfolding add_words is_ascii join_with flat add
  add_words-Breaks [] h short = (blank, refl, (((refl, h), tt), refl))
  add_words-Breaks (w ∷ ws) h short =
      let step : add_word t max w blank ≡ ok (layout [] w) =
        add_word-short t max w [] [] refl short.0 ∙ ap ok (first-placed w short.0.2) in
      let (s, done, reads) = add_words-Reads ws (layout [] w) w short.1 (first-Reads w short.0) in
      (
        s,
        ap (λ o. o >>= λ s1. add_words t max ws s1) step ∙ done,
        Reads-Breaks (w ++ spaced ws) (w ∷ ws) s (sym (join-spaced w ws)) reads,
      )

-- Printable ASCII.
abbrev pub IsPrintable : Bytes → Type 0
IsPrintable = All (λ c. (32 ≤ c) × (c < 127))

trim_left-IsPrintable : (s : Bytes) → IsPrintable s → IsPrintable (trim_left s)
unfolding trim_left
trim_left-IsPrintable [] h = tt
trim_left-IsPrintable (c ∷ s) h =
    branches IsPrintable (is_space c) _ _ (λ _. trim_left-IsPrintable s h.1) (λ _. h)

trim_right-IsPrintable : (s : Bytes) → IsPrintable s → IsPrintable (trim_right s)
unfolding trim_right
trim_right-IsPrintable [] h = tt
trim_right-IsPrintable (c ∷ s) h =
    branches IsPrintable (is_space c && is_empty (trim_right s)) _ _ (λ _. tt)
      (λ _. (h.0, trim_right-IsPrintable s h.1))

printable-ascii : (s : Bytes) → IsPrintable s → is_ascii s ≡ true
unfolding is_ascii
printable-ascii [] h = refl
printable-ascii (c ∷ s) h = ground (arith, printable-ascii s h.1, h.0.1)

abbrev IsWord : Bytes → Type 0
IsWord w = IsPlain w × (is_empty w ≡ false)

words_from-IsWord : (word s : Bytes) → IsPlain word → IsPrintable s → All IsWord (words_from word s)
unfolding words_from
words_from-IsWord word [] p h =
    branches (All IsWord) (is_empty word) _ _ (λ _. tt) (λ e. ((p, e), tt))
words_from-IsWord word (c ∷ s) p h =
    branches (All IsWord) (not (c == 9 || c == 11 || c == 12 || c == b' ')) _ _
      (λ e.
        words_from-IsWord (word ++ (c ∷ [])) s
          (All-append _ word (c ∷ []) p ((ground (arith, h.0.0), h.0.1), tt)) h.1)
      (λ _.
        branches (All IsWord) (is_empty word) _ _ (λ _. words_from-IsWord [] s tt h.1)
          (λ e. ((p, e), words_from-IsWord [] s tt h.1)))

cut_newlines-plain :
    (after : Bool) (word w : Bytes) → IsPlain w → cut_newlines after word w ≡ (word ++ w) ∷ []
unfolding cut_newlines
cut_newlines-plain after word [] h = ap (λ x. x ∷ []) (sym (append-nil word))
cut_newlines-plain after word (c ∷ w) h =
    let kept : not (c == 10 || c == 13) ≡ true = ground (arith, h.0.0) in
    rw kept (
      cut_newlines-plain false (word ++ (c ∷ [])) w h.1
      ∙ ap (λ x. x ∷ []) (append_assoc word (c ∷ []) w))

cut_words-plain : (ws : List Bytes) → All IsWord ws → cut_words ws ≡ ws
unfolding cut_words
cut_words-plain [] h = refl
cut_words-plain (w ∷ ws) h =
    rw (cut_newlines-plain false [] w h.0.0) (ap (◌∷◌ w) (cut_words-plain ws h.1))

-- A word of which a line can be made.
abbrev pub IsFitting : TextLib → ℕ → Bytes → Type 0
IsFitting t max w = (1 + length w < max) × (t.parses w ≡ true)

fitting-IsShort :
    (t : TextLib) (max : ℕ) (ws : List Bytes)
    → All IsWord ws
    → All (IsFitting t max) ws
    → All (IsShort t max) ws
fitting-IsShort t max [] h k = tt
fitting-IsShort t max (w ∷ ws) h k =
    ((h.0.0, h.0.1, k.0.0, k.0.1), fitting-IsShort t max ws h.1 k.1)

words_of-IsWord : (t : TextLib) (input : Bytes) → IsPrintable input → All IsWord (words_of t input)
unfolding words_of
words_of-IsWord t input h = rw (printable-ascii input h) (
    words_from-IsWord [] (trim_right (trim_left input)) tt
      (trim_right-IsPrintable (trim_left input) (trim_left-IsPrintable input h)))

-- splitMessage, once the words are read.
abbrev lay_out : TextLib → ℕ → List Bytes → Outcome (List Bytes)
lay_out t max ws =
    add_words t max ws blank >>= λ s. ok (map (λ line. valid t line) (s.lines ++ (s.line ∷ [])))

split_message-lay_out :
    (t : TextLib) (input : Bytes) (max : ℕ)
    → IsPrintable input
    → split_message t input max ≡ lay_out t max (words_of t input)
unfolding split_message
split_message-lay_out t input max h =
    ap (λ i. lay_out t max (cut_words (words_of t i)))
      (valid-ascii t input (printable-ascii input h))
    ∙ ap (λ ws. lay_out t max ws) (cut_words-plain (words_of t input) (words_of-IsWord t input h))

lay_out-lines :
    (t : TextLib) (max : ℕ) (ws : List Bytes) (s : Layout)
    → add_words t max ws blank ≡ ok s
    → All (IsLine max) (s.lines ++ (s.line ∷ []))
    → lay_out t max ws ≡ ok (s.lines ++ (s.line ∷ []))
lay_out-lines t max ws s done lines =
    ap (λ o. o >>= λ s. ok (map (λ line. valid t line) (s.lines ++ (s.line ∷ [])))) done
    ∙ ap ok (map-valid t max (s.lines ++ (s.line ∷ [])) lines)

-- splitMessage does not panic on a printable ASCII text each word of which is a URL reference and
-- at least two bytes shorter than the limit; every line that it gives is shorter than the limit,
-- and the lines joined by spaces are the words of the text joined by spaces, so no word is lost,
-- cut or moved.
pub split_message_lem :
    (t : TextLib) (input : Bytes) (max : ℕ)
    → 0 < max
    → IsPrintable input
    → All (IsFitting t max) (words_of t input)
    → (output : List Bytes) × (split_message t input max ≡ ok output)
      × All (IsLine max) output
      × (join_with b' ' output ≡ join_with b' ' (words_of t input))
split_message_lem t input max h printable fitting =
    let (s, done, (lines, reads)) =
      add_words-Breaks t max (words_of t input) h
        (fitting-IsShort t max (words_of t input) (words_of-IsWord t input printable) fitting) in
    (
      s.lines ++ (s.line ∷ []),
      split_message-lay_out t input max printable
          ∙ lay_out-lines t max (words_of t input) s done lines,
      lines,
      reads,
    )
