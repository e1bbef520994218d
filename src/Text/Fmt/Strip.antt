-- ===== src/Text/Fmt/Strip.antt =====
-- `StripRaw` leaves no format code.
use girc.Prelude.{
  ℕ, zero, suc, ◌-◌, ◌≡◌, refl, ap, ◌∙◌, length, arith, true, false, not, List, [], ◌∷◌, Bytes, beq,
  beq_iff, has_byte, has_prefix, all, Bool-cases, inl, inr,
}
use girc.Split.Colors.{is_code}
use girc.Tracker.Lists.{mem_string}
use girc.Text.Fmt.{remove_all, remove_codes, remove_colors, strip_raw}

-- Nothing is added.
has_byte-remove_all :
    (c skip : ℕ) (pattern s : Bytes)
    → has_byte s c ≡ false
    → has_byte (remove_all skip pattern s) c ≡ false
unfolding remove_all has_byte
has_byte-remove_all c skip pattern [] h = refl
has_byte-remove_all c zero pattern (x ∷ xs) h = ground (
  arith,
  has_byte-remove_all c (length pattern - 1) pattern xs,
  has_byte-remove_all c 0 pattern xs,
)
has_byte-remove_all c (suc skip) pattern (x ∷ xs) h =
    has_byte-remove_all c skip pattern xs (ground arith)

has_byte-removed : (c : ℕ) (s : Bytes) → has_byte (remove_all 0 (c ∷ []) s) c ≡ false
unfolding remove_all has_byte has_prefix
has_byte-removed c [] = refl
has_byte-removed c (x ∷ xs) = ground (arith, has_byte-removed c xs)

has_byte-remove_codes :
    (c : ℕ) (codes : List Bytes) (s : Bytes)
    → has_byte s c ≡ false
    → has_byte (remove_codes codes s) c ≡ false
unfolding remove_codes
has_byte-remove_codes c [] s h = h
has_byte-remove_codes c (code ∷ codes) s h =
    has_byte-remove_codes c codes (remove_all 0 code s) (has_byte-remove_all c 0 code s h)

remove_codes-mem :
    (c : ℕ) (codes : List Bytes) (s : Bytes)
    → mem_string (c ∷ []) codes ≡ true
    → has_byte (remove_codes codes s) c ≡ false
unfolding remove_codes mem_string
remove_codes-mem c [] s h = absurd (ground arith)
remove_codes-mem c (code ∷ codes) s h = elim (Bool-cases (beq code (c ∷ []))) [
  | inl e ↦
      let same : code ≡ c ∷ [] = (beq_iff code (c ∷ [])).0 e in
      has_byte-remove_codes c codes (remove_all 0 code s)
        (ap (λ k. has_byte (remove_all 0 k s) c) same ∙ has_byte-removed c s)
  | inr e ↦ remove_codes-mem c codes (remove_all 0 code s) (ground arith)
]

no_codes :
    (s : Bytes)
    → ((c : ℕ) → is_code c ≡ true → has_byte s c ≡ false)
    → all (λ c. not (is_code c)) s ≡ true
unfolding has_byte
no_codes [] h = refl
no_codes (x ∷ xs) h = elim (Bool-cases (is_code x)) [
  | inl e ↦ absurd (ground (arith, h x e))
  | inr e ↦
      let rest : all (λ c. not (is_code c)) xs ≡ true =
        no_codes xs (λ c code. ground (arith, h c code)) in
      ground (arith, rest)
]

-- Whatever order the codes are taken in, as long as each is among them, StripRaw leaves none of
-- the format codes in the text.
pub strip_raw-clean :
    (order : List Bytes) (text : Bytes)
    → ((c : ℕ) → is_code c ≡ true → mem_string (c ∷ []) order ≡ true)
    → all (λ c. not (is_code c)) (strip_raw order text) ≡ true
unfolding strip_raw
strip_raw-clean order text h =
    no_codes (strip_raw order text)
      (λ c code. remove_codes-mem c order (remove_colors 0 text) (h c code))
