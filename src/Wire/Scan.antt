-- ===== src/Wire/Scan.antt =====
-- The loop of `ParseEvent` that looks for " :" is one pass over the bytes.
use girc.Prelude.{
  ℕ, zero, suc, ◌+◌, ◌≡◌, ◌<◌, refl, ap, ◌∙◌, arith, false, ◌&&◌, Option, none, some, [], ◌∷◌, ◌++◌,
  append_assoc, ◌==◌, if◌then◌else◌, Bytes, Lacks, index_byte, length, length-append,
  drop-length-append, last_or, Outcome, ok, slice_from, slice_from-eq-ok, element, element_before,
  or_panic, sym, index_byte-append, Bool-cases, Option-cases, inl, inr,
}
use girc.Wire.{round_at, colon_at, find_trailer}

-- The first ":" behind a space; `previous` is the byte before the text, which is at `at`.
unfoldable pub scan : ℕ → Bytes → ℕ → Option ℕ
scan previous [] at = none
scan previous (c ∷ cs) at =
    let later = scan c cs (at + 1) in if c == b':' && previous == b' ' then some at else later

-- A text with a `c` in it is cut at the first one.
cut_at :
    (c : ℕ) (s : Bytes) (t : ℕ)
    → index_byte s c ≡ some t
    → (a b : Bytes) × (s ≡ a ++ (c ∷ b)) × (length a ≡ t) × Lacks c a
unfolding index_byte
cut_at c [] t h = ground arith
cut_at c (x ∷ xs) t h = elim (Bool-cases (x == c)) [
  | inl e ↦ let same : x ≡ c = ground arith in ([], xs, ap (λ y. y ∷ xs) same, ground arith, tt)
  | inr e ↦ elim (Option-cases (index_byte xs c)) [
    | inl k ↦ absurd (ground arith)
    | inr (i, k) ↦
        let (a, b, same, size, free) = cut_at c xs i k in
        (x ∷ a, b, ap (◌∷◌ x) same, ground arith, (ground arith, free))
  ]
]

scan-Lacks : (s : Bytes) (previous at : ℕ) → index_byte s b':' ≡ none → scan previous s at ≡ none
unfolding scan index_byte
scan-Lacks [] previous at h = refl
scan-Lacks (x ∷ xs) previous at h = ground (arith, scan-Lacks xs x (at + 1))

scan-append :
    (a b : Bytes) (previous at : ℕ)
    → Lacks b':' a
    → scan previous (a ++ (b':' ∷ b)) at ≡ (
        if last_or a previous == b' '
        then some (at + length a)
        else scan b':' b (at + length a + 1))
unfolding scan
scan-append [] b previous at h = ground arith
scan-append (x ∷ a) b previous at h =
    let same : at + 1 + length a ≡ at + length (x ∷ a) = omega arith in
    let other : (x == b':') ≡ false = ground (arith, h.0) in
    rw other (scan-append a b x (at + 1) h.1 ∙ rw same)

pub last_or-append : (a b : Bytes) (d : ℕ) → last_or (a ++ b) d ≡ last_or b (last_or a d)
last_or-append [] b d = refl
last_or-append (x ∷ a) b d = last_or-append a b x

element_before-append :
    (x : ℕ) (front rest : Bytes)
    → element_before ((x ∷ front) ++ rest) (length (x ∷ front)) ≡ ok (last_or front x)
unfolding element_before element or_panic
element_before-append x [] rest = refl
element_before-append x (y ∷ front) rest = element_before-append y front rest

join_assoc :
    (x : ℕ) (front a b : Bytes)
    → (x ∷ front) ++ (a ++ (b':' ∷ b)) ≡ (x ∷ (front ++ (a ++ (b':' ∷ [])))) ++ b
join_assoc x front a b = simp append_assoc

last_or_colon : (x : ℕ) (front a : Bytes) → last_or (front ++ (a ++ (b':' ∷ []))) x ≡ b':'
last_or_colon x front a = rw (last_or-append, last_or-append) refl

tail_place :
    (x : ℕ) (front a : Bytes) (j last_index : ℕ)
    → j + last_index ≡ length (x ∷ front)
    → j + (last_index + length a + 1) ≡ length (x ∷ (front ++ (a ++ (b':' ∷ []))))
tail_place x front a j last_index place =
    omega (arith, length-append front (a ++ (b':' ∷ [])), length-append a (b':' ∷ []))

shorter :
    (rest a b : Bytes) {fuel : ℕ}
    → rest ≡ a ++ (b':' ∷ b)
    → length rest < suc fuel
    → length b < fuel
shorter rest a b same enough = omega (arith, ap length same, length-append a (b':' ∷ b))

-- One round of the loop: the colon behind `a`, given the next round.
scan_round :
    (fuel x : ℕ) (front a b : Bytes) (j last_index : ℕ)
    → j + last_index ≡ length (x ∷ front)
    → Lacks b':' a
    → find_trailer fuel ((x ∷ front) ++ (a ++ (b':' ∷ b))) j (last_index + length a + 1)
      ≡ ok (scan b':' b (last_index + length a + 1))
    → find_trailer (suc fuel) ((x ∷ front) ++ (a ++ (b':' ∷ b))) j last_index
      ≡ ok (scan (last_or front x) (a ++ (b':' ∷ b)) last_index)
unfolding find_trailer colon_at round_at
scan_round fuel x front a b j last_index place free next =
    let rest : Bytes = a ++ (b':' ∷ b) in
    let raw : Bytes = (x ∷ front) ++ rest in
    let again : ℕ → Outcome (Option ℕ) = λ next. find_trailer fuel raw j next in
    let start : slice_from raw (j + last_index) ≡ ok rest = rw place (
      slice_from-eq-ok raw (length (x ∷ front)) (omega (arith, length-append (x ∷ front) rest))
      ∙ ap ok (drop-length-append (x ∷ front) rest)) in
    let behind : j + last_index + length a ≡ length (x ∷ (front ++ a)) =
      omega (arith, length-append front a) in
    let before : element_before raw (j + last_index + length a) ≡ ok (last_or a (last_or front x)) =
      rw behind (
        ap (λ r. element_before (x ∷ r) (length (x ∷ (front ++ a)))) (sym (append_assoc front a _))
        ∙ element_before-append x (front ++ a) (b':' ∷ b)
        ∙ ap ok (last_or-append front a x)) in
    rw
      (
        start,
        index_byte-append b':' a b free,
        before,
        scan-append a b (last_or front x) last_index free,
      )
      (elim (Bool-cases (last_or a (last_or front x) == b' ')) [
        | inl k ↦ rw k refl
        | inr k ↦ rw k next
      ])

-- A text with a byte before `rest`: the loop from the start of `rest` on is the pass over it.
pub find_trailer-scan :
    (fuel x : ℕ) (front rest : Bytes) (j last_index : ℕ)
    → j + last_index ≡ length (x ∷ front)
    → length rest < fuel
    → find_trailer fuel ((x ∷ front) ++ rest) j last_index
      ≡ ok (scan (last_or front x) rest last_index)
unfolding find_trailer colon_at round_at
find_trailer-scan zero x front rest j last_index place enough = absurd (omega arith)
find_trailer-scan (suc fuel) x front rest j last_index place enough =
    let raw : Bytes = (x ∷ front) ++ rest in
    let again : ℕ → Outcome (Option ℕ) = λ next. find_trailer fuel raw j next in
    let start : slice_from raw (j + last_index) ≡ ok rest = rw place (
      slice_from-eq-ok raw (length (x ∷ front)) (omega (arith, length-append (x ∷ front) rest))
      ∙ ap ok (drop-length-append (x ∷ front) rest)) in
    elim (Option-cases (index_byte rest b':')) [
      | inl e ↦ rw start (
          ap (colon_at raw j last_index again) e
          ∙ ap ok (sym (scan-Lacks rest (last_or front x) last_index e)))
      | inr (t, e) ↦
          let (a, b, same, size, free) = cut_at b':' rest t e in
          let tail : Bytes = front ++ (a ++ (b':' ∷ [])) in
          let at : ℕ = last_index + length a + 1 in
          let next =
            ap (λ r. find_trailer fuel r j at) (join_assoc x front a b)
            ∙ find_trailer-scan fuel x tail b j at (tail_place x front a j last_index place)
                (shorter rest a b same enough)
            ∙ ap (λ c. ok (scan c b at)) (last_or_colon x front a) in
          ap (λ r. find_trailer (suc fuel) ((x ∷ front) ++ r) j last_index) same
          ∙ scan_round fuel x front a b j last_index place free next
          ∙ ap (λ r. ok (scan (last_or front x) r last_index)) (sym same)
    ]
