-- ===== src/Split/Words.antt =====
-- What splitMessage does to a text of plain words.
use girc.Prelude.{
  ℕ, zero, suc, ◌+◌, ◌*◌, ◌<◌, ◌≡◌, refl, ap, sym, ◌∙◌, arith, ltb, true, false, List, [], ◌∷◌,
  ◌++◌, append_assoc, append-nil, if◌then◌else◌, Bytes, is_empty, length, length-append, All,
  All-append, Outcome, ok, ◌==◌, join_with, Bool-cases, inl, inr, branches,
}
use girc.Wire.{is_ascii}
use girc.Split.Colors.{last_color_in, is_code}
use girc.Split.{
  TextLib, Layout, rune_count, add, break_line, place, check_append, track, track_codes, add_word,
}

-- Printable ASCII but the space.
abbrev pub IsPlain : Bytes → Type 0
IsPlain = All (λ c. (32 < c) × (c < 127))

pub plain-ascii : (s : Bytes) → IsPlain s → is_ascii s ≡ true
unfolding is_ascii
plain-ascii [] h = refl
plain-ascii (c ∷ s) h = ground (arith, plain-ascii s h.1, h.0.1)

plain-color : (s color : Bytes) → IsPlain s → last_color_in s color ≡ color
unfolding last_color_in
plain-color [] color h = refl
plain-color (c ∷ s) color h =
    let other : (c == 3) ≡ false = ground (arith, h.0.0) in rw other (plain-color s color h.1)

plain-codes : (w : Bytes) (s : Layout) → IsPlain w → track_codes w s ≡ s
unfolding track_codes is_code
plain-codes [] s h = refl
plain-codes (c ∷ w) s h =
    let other : is_code c ≡ false = ground (arith, h.0.0) in rw other (plain-codes w s h.1)

plain-track : (w : Bytes) (s : Layout) → IsPlain w → track w s ≡ s
unfolding track
plain-track w s h = rw (plain-color w s.last_color h) (plain-codes w s h)

-- A layout with no open codes and no color.
abbrev pub layout : List Bytes → Bytes → Layout
layout lines line = record { lines = lines; line = line; codes = []; last_color = [] }

rune_count-ascii : (t : TextLib) (s : Bytes) → is_ascii s ≡ true → rune_count t s ≡ length s
unfolding rune_count
rune_count-ascii t s h = rw h refl

-- The layout with a word that fits into a line of its own.
abbrev pub placed : ℕ → Bytes → List Bytes → Bytes → Layout
placed max w lines line =
    if ltb (1 + length w + length line) max
    then add w (layout lines line)
    else break_line w (layout lines line)

place-short :
    (t : TextLib) (max : ℕ) (w : Bytes) (lines : List Bytes) (line : Bytes)
    (again : Bytes → Layout → Outcome Layout)
    → is_ascii w ≡ true
    → is_ascii line ≡ true
    → 1 + length w < max
    → t.parses w ≡ true
    → place t max w (layout lines line) again ≡ ok (placed max w lines line)
unfolding place
place-short t max w lines line again a b short p = rw (rune_count-ascii t w a) (
    rw (rune_count-ascii t line b) (elim (Bool-cases (ltb (1 + length w + length line) max)) [
      | inl e ↦ rw e refl
      | inr e ↦ rw e (
          let fits : ltb (length w) max ≡ true = ground arith in
          rw (append-nil w) (rw (rune_count-ascii t w a) (rw fits (rw p refl))))
    ]))

check_append-short :
    (fuel : ℕ) (t : TextLib) (max : ℕ) (w : Bytes) (lines : List Bytes) (line : Bytes)
    → 0 < fuel
    → is_ascii w ≡ true
    → is_ascii line ≡ true
    → 1 + length w < max
    → t.parses w ≡ true
    → check_append fuel t max w (layout lines line) ≡ ok (placed max w lines line)
unfolding check_append
check_append-short zero t max w lines line h a b short p = absurd (omega arith)
check_append-short (suc fuel) t max w lines line h a b short p =
    place-short t max w lines line (λ rest s'. check_append fuel t max rest s') a b short p

-- What the lemmas below ask of a word.
abbrev pub IsShort : TextLib → ℕ → Bytes → Type 0
IsShort t max w = IsPlain w × (is_empty w ≡ false) × (1 + length w < max) × (t.parses w ≡ true)

pub add_word-short :
    (t : TextLib) (max : ℕ) (w : Bytes) (lines : List Bytes) (line : Bytes)
    → is_ascii line ≡ true
    → IsShort t max w
    → add_word t max w (layout lines line) ≡ ok (placed max w lines line)
unfolding add_word
add_word-short t max w lines line b (plain, some_text, short, p) = rw some_text (
    rw (plain-track w (layout lines line) plain) (
      check_append-short (2 * length w + 2) t max w lines line (omega arith) (plain-ascii w plain) b
        short p))

-- The text of a layout, its lines joined by spaces.
unfoldable pub flat : List Bytes → Bytes → Bytes
flat [] line = line
flat (l ∷ lines) line = l ++ (b' ' ∷ flat lines line)

flat-append :
    (lines : List Bytes) (line text : Bytes)
    → flat (lines ++ (line ∷ [])) text ≡ flat lines (line ++ (b' ' ∷ text))
unfolding flat
flat-append [] line text = refl
flat-append (l ∷ lines) line text = ap (λ x. l ++ (b' ' ∷ x)) (flat-append lines line text)

pub flat-join :
    (lines : List Bytes) (line : Bytes) → join_with b' ' (lines ++ (line ∷ [])) ≡ flat lines line
unfolding flat join_with
flat-join [] line = refl
flat-join (l ∷ []) line = refl
flat-join (l ∷ m ∷ lines) line = ap (λ x. l ++ (b' ' ∷ x)) (flat-join (m ∷ lines) line)

-- An invariant of the layout, once there is a word: every line is ASCII and within the limit.
abbrev pub IsLine : ℕ → Bytes → Type 0
IsLine max line = (is_ascii line ≡ true) × (length line < max)

-- The layout has some text, keeps to the limit, and reads `text`.
abbrev pub Reads : ℕ → Bytes → Layout → Type 0
Reads max text s =
    (s ≡ layout s.lines s.line)
    × (is_empty s.line ≡ false)
    × IsLine max s.line
    × All (IsLine max) s.lines
    × (flat s.lines s.line ≡ text)

is_ascii-append : (a b : Bytes) → is_ascii a ≡ true → is_ascii b ≡ true → is_ascii (a ++ b) ≡ true
unfolding is_ascii
is_ascii-append [] b h k = k
is_ascii-append (x ∷ a) b h k = ground (arith, is_ascii-append a b)

flat-behind :
    (lines : List Bytes) (line more : Bytes) → flat lines (line ++ more) ≡ flat lines line ++ more
unfolding flat
flat-behind [] line more = refl
flat-behind (l ∷ lines) line more =
    ap (λ x. l ++ (b' ' ∷ x)) (flat-behind lines line more)
    ∙ sym (append_assoc l (b' ' ∷ flat lines line) more)

is_empty-append : (a b : Bytes) → is_empty a ≡ false → is_empty (a ++ b) ≡ false
is_empty-append [] b h = cc
is_empty-append (x ∷ a) b h = refl

pub placed-Reads :
    (t : TextLib) (max : ℕ) (w : Bytes) (lines : List Bytes) (line text : Bytes)
    → IsShort t max w
    → Reads max text (layout lines line)
    → Reads max (text ++ (b' ' ∷ w)) (placed max w lines line)
unfolding add break_line is_ascii
placed-Reads t max w lines line text (plain, some_text, short, p)
      (e, started, within_max, rest, reads) =
    branches (Reads max (text ++ (b' ' ∷ w))) (ltb (1 + length w + length line) max) _ _
      (λ fits. rw started (
        refl,
        is_empty-append line (b' ' ∷ w) started,
        (
          is_ascii-append line (b' ' ∷ w) within_max.0 (plain-ascii w plain),
          ground (arith, length-append line (b' ' ∷ w)),
        ),
        rest,
        flat-behind lines line (b' ' ∷ w) ∙ ap (λ x. x ++ (b' ' ∷ w)) reads,
      ))
      (λ full. (
        refl,
        some_text,
        (plain-ascii w plain, omega (arith, short)),
        All-append _ lines (line ∷ []) rest (within_max, tt),
        flat-append lines line w
            ∙ flat-behind lines line (b' ' ∷ w)
            ∙ ap (λ x. x ++ (b' ' ∷ w)) reads,
      ))
