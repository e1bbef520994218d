-- ===== src/Wire/Words.antt =====
-- The parameters in a printed line: the words between spaces, and the last one behind " :".
use girc.Prelude.{
  ℕ, ◌+◌, ◌≡◌, refl, ap, ◌∙◌, arith, Bool, true, false, not, ◌&&◌, ◌||◌, none, some, List, [], ◌∷◌,
  ◌++◌, append_assoc, append-nil, ltb, ◌==◌, Bytes, length, length-append, all, sym, Bool-cases,
  inl, inr, has_byte, has_prefix,
}
use girc.Wire.{is_space, fields_from}
use girc.Wire.Print.{needs_colon, params_bytes}
use girc.Wire.Scan.{scan}

-- ASCII without white space.
unfoldable pub is_word_byte : ℕ → Bool
unfolding is_space
is_word_byte c = ltb c 128 && not (is_space c)

-- ASCII whose white space is " ".
unfoldable pub is_text_byte : ℕ → Bool
unfolding is_word_byte
is_text_byte c = is_word_byte c || c == b' '

-- A parameter that is printed as it is: not empty, without white space, and not behind ":".
unfoldable pub is_middle : Bytes → Bool
unfolding is_word_byte
is_middle [] = false
is_middle (c ∷ cs) = not (c == b':') && all is_word_byte (c ∷ cs)

-- Parameters that a line can carry: only the last may be empty, begin with ":" or have spaces.
unfoldable pub are_params : List Bytes → Bool
unfolding is_middle is_text_byte
are_params [] = true
are_params (param ∷ []) = all is_text_byte param
are_params (param ∷ next ∷ params) = is_middle param && are_params (next ∷ params)

-- The middle parameters, each behind a space.
unfoldable pub middles : List Bytes → Bytes
middles [] = []
middles (m ∷ ms) = (b' ' ∷ m) ++ middles ms

-- How parameters are printed: all in the middle, or the last behind " :".
pub data Shape (params : List Bytes) : Type 0 where
  plain : all is_middle params ≡ true → params_bytes params ≡ middles params → Shape params
  trailing :
      (ms : List Bytes) (t : Bytes)
      → all is_middle ms ≡ true
      → all is_text_byte t ≡ true
      → params ≡ ms ++ (t ∷ [])
      → params_bytes params ≡ middles ms ++ (b' ' ∷ b':' ∷ t)
      → Shape params

text-words :
    (t : Bytes) → all is_text_byte t ≡ true → has_byte t b' ' ≡ false → all is_word_byte t ≡ true
unfolding is_text_byte has_byte
text-words [] h k = refl
text-words (c ∷ t) h k = ground (arith, text-words t)

first_colon : (c : ℕ) (t : Bytes) → needs_colon (c ∷ t) ≡ false → (c == b':') ≡ false
unfolding needs_colon has_prefix
first_colon c t h = ground arith

last-is_middle :
    (t : Bytes) → all is_text_byte t ≡ true → needs_colon t ≡ false → is_middle t ≡ true
unfolding is_text_byte needs_colon is_middle
last-is_middle [] h k = absurd (ground arith)
last-is_middle (c ∷ t) h k =
    let spaceless : has_byte (c ∷ t) b' ' ≡ false = ground arith in
    let words : all is_word_byte (c ∷ t) ≡ true = text-words (c ∷ t) h spaceless in
    let name : (c == b':') ≡ false = first_colon c t k in rw (name, words) refl

and-left : (a b : Bool) → (a && b) ≡ true → a ≡ true
and-left a b h = ground arith

and-right : (a b : Bool) → (a && b) ≡ true → b ≡ true
and-right a b h = ground arith

all-cons :
    (m : Bytes) (ms : List Bytes)
    → is_middle m ≡ true
    → all is_middle ms ≡ true
    → all is_middle (m ∷ ms) ≡ true
all-cons m ms h k = ground arith

cons-Shape :
    (m next : Bytes) (params : List Bytes)
    → is_middle m ≡ true
    → Shape (next ∷ params)
    → Shape (m ∷ next ∷ params)
unfolding params_bytes middles
cons-Shape m next params h (plain words print) =
    plain (all-cons m (next ∷ params) h words) (ap (λ r. (b' ' ∷ m) ++ r) print)
cons-Shape m next params h (trailing ms t words text same print) =
    trailing (m ∷ ms) t (all-cons m ms h words) text (ap (◌∷◌ m) same)
      (ap (λ r. (b' ' ∷ m) ++ r) print ∙ sym (append_assoc (b' ' ∷ m) (middles ms) _))

pub params-Shape : (params : List Bytes) → are_params params ≡ true → Shape params
unfolding are_params params_bytes middles
params-Shape [] h = plain refl refl
params-Shape (t ∷ []) h = elim (Bool-cases (needs_colon t)) [
  | inl e ↦ trailing [] t refl h refl (rw e refl)
  | inr e ↦ plain (all-cons t [] (last-is_middle t h e) refl) (rw (e, append-nil) refl)
]
params-Shape (m ∷ next ∷ params) h =
    cons-Shape m next params (and-left _ _ h) (params-Shape (next ∷ params) (and-right _ _ h))

pub fields_from-word :
    (m word rest : Bytes)
    → all is_word_byte m ≡ true
    → fields_from word (m ++ rest) ≡ fields_from (word ++ m) rest
unfolding fields_from is_word_byte
fields_from-word [] word rest h = ap (λ w. fields_from w rest) (sym (append-nil word))
fields_from-word (c ∷ m) word rest h =
    let letter : is_space c ≡ false = ground arith in
    let others : all is_word_byte m ≡ true = ground arith in
    rw letter (
      fields_from-word m (word ++ (c ∷ [])) rest others
      ∙ ap (λ w. fields_from w rest) (append_assoc word (c ∷ []) m))

pub fields_from-middles :
    (c : ℕ) (word : Bytes) (ms : List Bytes)
    → all is_middle ms ≡ true
    → fields_from (c ∷ word) (middles ms) ≡ (c ∷ word) ∷ ms
unfolding fields_from middles is_middle
fields_from-middles c word [] h = refl
fields_from-middles c word ([] ∷ ms) h = absurd (ground arith)
fields_from-middles c word ((x ∷ m) ∷ ms) h =
    let words : all is_word_byte (x ∷ m) ≡ true = ground arith in
    let others : all is_middle ms ≡ true = ground arith in
    ap (◌∷◌ (c ∷ word))
      (fields_from-word (x ∷ m) [] (middles ms) words ∙ fields_from-middles x m ms others)

and-false : (a : Bool) → (a && false) ≡ false
and-false a = ground arith

scan-word :
    (m rest : Bytes) (previous at : ℕ)
    → (previous == b' ') ≡ false
    → all is_word_byte m ≡ true
    → (last : ℕ) × ((last == b' ') ≡ false)
      × (scan previous (m ++ rest) at ≡ scan last rest (at + length m))
unfolding scan is_word_byte
scan-word [] rest previous at k h = (previous, k, ap (scan previous rest) (omega arith))
scan-word (c ∷ m) rest previous at k h =
    let letter : (c == b' ') ≡ false = ground arith in
    let others : all is_word_byte m ≡ true = ground arith in
    let (last, l, e) = scan-word m rest c (at + 1) letter others in
    (last, l, rw (k, and-false _) (e ∙ ap (scan last rest) (omega arith)))

pub scan-middle :
    (m rest : Bytes) (previous at : ℕ)
    → is_middle m ≡ true
    → (last : ℕ) × ((last == b' ') ≡ false)
      × (scan previous (m ++ rest) at ≡ scan last rest (at + length m))
unfolding scan is_middle is_word_byte
scan-middle [] rest previous at h = absurd (ground arith)
scan-middle (c ∷ m) rest previous at h =
    let name : (c == b':') ≡ false = ground arith in
    let letter : (c == b' ') ≡ false = ground arith in
    let others : all is_word_byte m ≡ true = ground arith in
    let (last, l, e) = scan-word m rest c (at + 1) letter others in
    (last, l, rw name (e ∙ ap (scan last rest) (omega arith)))

scan-middles :
    (ms : List Bytes) (rest : Bytes) (previous at : ℕ)
    → all is_middle ms ≡ true
    → (last : ℕ) × (scan previous (middles ms ++ rest) at
        ≡ scan last rest (at + length (middles ms)))
unfolding scan middles
scan-middles [] rest previous at h = (previous, ap (scan previous rest) (omega arith))
scan-middles (m ∷ ms) rest previous at h =
    let word : is_middle m ≡ true = ground arith in
    let others : all is_middle ms ≡ true = ground arith in
    let (last, l, e) = scan-middle m (middles ms ++ rest) b' ' (at + 1) word in
    let (end, f) = scan-middles ms rest last (at + 1 + length m) others in
    (
      end,
      ap (λ r. scan b' ' r (at + 1)) (append_assoc m (middles ms) rest)
          ∙ e
          ∙ f
          ∙ ap (scan end rest) (omega (arith, length-append m (middles ms))),
    )

-- From the first parameter on, the pass over the middle parameters finds nothing.
scan-line :
    (m : Bytes) (ms : List Bytes) (rest : Bytes)
    → all is_middle (m ∷ ms) ≡ true
    → (last : ℕ) × (scan b' ' ((m ++ middles ms) ++ rest) 0
        ≡ scan last rest (length (m ++ middles ms)))
scan-line m ms rest h =
    let word : is_middle m ≡ true = ground arith in
    let others : all is_middle ms ≡ true = ground arith in
    let (last, l, e) = scan-middle m (middles ms ++ rest) b' ' 0 word in
    let (end, f) = scan-middles ms rest last (0 + length m) others in
    (
      end,
      ap (λ r. scan b' ' r 0) (append_assoc m (middles ms) rest)
          ∙ e
          ∙ f
          ∙ ap (scan end rest) (omega (arith, length-append m (middles ms))),
    )

pub scan-line-none :
    (m : Bytes) (ms : List Bytes)
    → all is_middle (m ∷ ms) ≡ true
    → scan b' ' (m ++ middles ms) 0 ≡ none
unfolding scan
scan-line-none m ms h =
    ap (λ r. scan b' ' r 0) (sym (append-nil (m ++ middles ms))) ∙ (scan-line m ms [] h).1

pub scan-line-some :
    (m : Bytes) (ms : List Bytes) (t : Bytes)
    → all is_middle (m ∷ ms) ≡ true
    → scan b' ' ((m ++ middles ms) ++ (b' ' ∷ b':' ∷ t)) 0 ≡ some (length (m ++ middles ms) + 1)
unfolding scan
scan-line-some m ms t h = (scan-line m ms (b' ' ∷ b':' ∷ t) h).1
