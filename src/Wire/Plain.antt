-- ===== src/Wire/Plain.antt =====
-- Texts of ASCII that printing and trimming leave alone, and that have no white space.
use girc.Prelude.{
  ℕ, ◌≡◌, refl, arith, Bool, true, ◌||◌, List, [], ◌∷◌, ◌++◌, within, Bytes, all, Lacks,
}
use girc.Wire.{is_ascii, upper, trim_left, trim_right}
use girc.Wire.Print.Length.{is_plain_byte}
use girc.Wire.Words.{is_word_byte, is_text_byte, is_middle, middles}

-- An upper-case letter or a digit.
unfoldable pub is_command_byte : ℕ → Bool
is_command_byte c = within b'A' b'Z' c || within b'0' b'9' c

pub ascii-word : (s : Bytes) → all is_word_byte s ≡ true → all is_plain_byte s ≡ true
unfolding is_word_byte is_plain_byte
ascii-word [] h = refl
ascii-word (c ∷ s) h = ground (arith, ascii-word s)

pub ascii-text : (s : Bytes) → all is_text_byte s ≡ true → all is_plain_byte s ≡ true
unfolding is_text_byte is_plain_byte
ascii-text [] h = refl
ascii-text (c ∷ s) h = ground (arith, ascii-text s)

pub ascii-command : (s : Bytes) → all is_command_byte s ≡ true → all is_word_byte s ≡ true
unfolding is_word_byte is_command_byte
ascii-command [] h = refl
ascii-command (c ∷ s) h = ground (arith, ascii-command s)

pub all-append :
    (p : ℕ → Bool) (a b : Bytes) → all p a ≡ true → all p b ≡ true → all p (a ++ b) ≡ true
all-append p [] b h k = k
all-append p (x ∷ a) b h k = ground (arith, all-append p a b)

pub word-Lacks : (s : Bytes) → all is_word_byte s ≡ true → Lacks b' ' s
unfolding is_word_byte
word-Lacks [] h = tt
word-Lacks (c ∷ s) h = (ground arith, word-Lacks s (ground arith))

pub upper-command : (s : Bytes) → all is_command_byte s ≡ true → upper s ≡ s
unfolding is_command_byte upper
upper-command [] h = refl
upper-command (c ∷ s) h = ground (arith, upper-command s)

pub plain-is_ascii : (s : Bytes) → all is_plain_byte s ≡ true → is_ascii s ≡ true
unfolding is_plain_byte is_ascii
plain-is_ascii [] h = refl
plain-is_ascii (c ∷ s) h = ground (arith, plain-is_ascii s)

pub colon_plain : (s : Bytes) → all is_plain_byte s ≡ true → all is_plain_byte (b':' ∷ s) ≡ true
unfolding is_plain_byte
colon_plain [] h = refl
colon_plain (c ∷ s) h = ground (arith, colon_plain s)

pub space-text : (s : Bytes) → all is_word_byte s ≡ true → all is_text_byte (b' ' ∷ s) ≡ true
unfolding is_text_byte
space-text [] h = refl
space-text (c ∷ s) h = ground (arith, space-text s)

pub plain-middles :
    (ms : List Bytes) → all is_middle ms ≡ true → all is_plain_byte (middles ms) ≡ true
unfolding middles is_middle
plain-middles [] h = refl
plain-middles ([] ∷ ms) h = absurd (ground arith)
plain-middles ((c ∷ m) ∷ ms) h =
    let word : all is_word_byte (c ∷ m) ≡ true = ground arith in
    let others : all is_middle ms ≡ true = ground arith in
    all-append is_plain_byte (b' ' ∷ c ∷ m) (middles ms)
      (ascii-text (b' ' ∷ c ∷ m) (space-text (c ∷ m) word)) (plain-middles ms others)

pub trim_right-plain : (s : Bytes) → all is_plain_byte s ≡ true → trim_right s ≡ s
unfolding is_plain_byte trim_right
trim_right-plain [] h = refl
trim_right-plain (c ∷ s) h = ground (arith, trim_right-plain s)

pub trim_left-plain : (s : Bytes) → all is_plain_byte s ≡ true → trim_left s ≡ s
unfolding is_plain_byte trim_left
trim_left-plain [] h = refl
trim_left-plain (c ∷ s) h = ground arith

-- A line without CR and LF behind which CR and LF stand.
pub trim_right-endline :
    (s : Bytes) → all is_plain_byte s ≡ true → trim_right (s ++ (13 ∷ 10 ∷ [])) ≡ s
unfolding is_plain_byte trim_right
trim_right-endline [] h = refl
trim_right-endline (c ∷ s) h = ground (arith, trim_right-endline s)
