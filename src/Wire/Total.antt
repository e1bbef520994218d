-- ===== src/Wire/Total.antt =====
-- `ParseEvent` on any line: no index is out of range, and its loop ends.
use girc.Prelude.{
  ℕ, zero, suc, ◌+◌, ◌-◌, ◌≡◌, ◌<◌, ◌≤◌, refl, ap, ◌∙◌, arith, Option, none, some, [], ◌∷◌, ltb,
  ◌==◌, if◌then◌else◌, Bytes, index_byte, index_byte-lt-length, length, take, drop, Map, Outcome,
  ok, ◌>>=◌, slice, slice_from, length-drop, slice-eq-ok, slice_from-eq-ok, element-eq-ok,
  element_before-eq-ok, Bool-cases, Option-cases, inl, inr,
}
use girc.Source.{Source, parse_source}
use girc.Event.{Event}
use girc.Wire.{
  Platform, tags_at, parse_tags_part, source_at, parse_source_part, round_at, colon_at,
  find_trailer, params_at, command_at, after_source, after_tags, parse_event, trim_left, trim_right,
}

-- The colon that the loop found is in the line.
IsInLine : Bytes → ℕ → Option ℕ → Type 0
IsInLine raw j none = j ≤ length raw
IsInLine raw j (some t) = j + t < length raw

module _ (raw : Bytes) (j : ℕ) (positive : 0 < j) where
  find_trailer-total :
      (fuel last_index : ℕ)
      → j + last_index ≤ length raw
      → length raw < j + last_index + fuel
      → (o : Option ℕ) × (find_trailer fuel raw j last_index ≡ ok o) × IsInLine raw j o
  unfolding find_trailer colon_at round_at IsInLine
  find_trailer-total zero last_index p q = absurd (omega arith)
  find_trailer-total (suc fuel) last_index p q =
      let again : ℕ → Outcome (Option ℕ) = λ next. find_trailer fuel raw j next in
      let start = slice_from-eq-ok raw (j + last_index) p in
      elim (Option-cases (index_byte (drop (j + last_index) raw) b':')) [
        | inl e ↦ (none, rw start (ap (colon_at raw j last_index again) e), omega arith)
        | inr (t, e) ↦
            let bound : j + last_index + t < length raw = omega (
              arith,
              index_byte-lt-length b':' (drop (j + last_index) raw) t e,
              length-drop (j + last_index) raw,
            ) in
            let (c, at) =
              element_before-eq-ok raw (j + last_index + t) (omega arith) (omega arith) in
            let round : (r : Outcome (Option ℕ))
                → round_at (last_index + t) again (c == b' ') ≡ r
                → find_trailer (suc fuel) raw j last_index ≡ r =
              λ r h. rw start (ap (colon_at raw j last_index again) e ∙ rw at h) in
            elim (Bool-cases (c == b' ')) [
              | inl k ↦ (
                some (last_index + t),
                round _ (ap (round_at (last_index + t) again) k),
                omega arith,
              )
              | inr k ↦
                  let (o, found, inside) =
                    find_trailer-total fuel (last_index + t + 1) (omega arith) (omega arith) in
                  (o, round _ (ap (round_at (last_index + t) again) k ∙ found), inside)
            ]
      ]

-- The operation gives a value.
abbrev Returns {ℓ} : {A : Type ℓ} → Outcome A → Type ℓ
Returns {A = A} m = (a : A) × (m ≡ ok a)

bind {ℓ κ} :
    {A : Type ℓ} {B : Type κ} (m : Outcome A) (f : A → Outcome B)
    → Returns m
    → ((a : A) → m ≡ ok a → Returns (f a))
    → Returns (m >>= f)
bind m f (a, e) next = let (b, h) = next a e in (b, rw e h)

bind_ok {ℓ κ} :
    {A : Type ℓ} {B : Type κ} (m : Outcome A) (f : A → Outcome B) (a : A)
    → m ≡ ok a
    → Returns (f a)
    → Returns (m >>= f)
bind_ok m f a e (b, h) = (b, rw e h)

slice-Returns : (s : Bytes) (lo hi : ℕ) → lo ≤ hi → hi ≤ length s → Returns (slice s lo hi)
slice-Returns s lo hi p q = (_, slice-eq-ok s lo hi p q)

slice_from-Returns : (s : Bytes) (lo : ℕ) → lo ≤ length s → Returns (slice_from s lo)
slice_from-Returns s lo p = (_, slice_from-eq-ok s lo p)

front-Returns :
    (raw : Bytes) (j t : ℕ)
    → j + t < length raw
    → Returns (if ltb j (j + t) then slice raw j (j + t - 1) else ok [])
front-Returns raw j t h = elim (Bool-cases (ltb j (j + t))) [
  | inl e ↦
      let less : j < j + t = ground arith in
      rw e (slice-Returns raw j (j + t - 1) (omega arith) (omega arith))
  | inr e ↦ rw e ([], refl)
]

params_at-Returns :
    (p : Platform) (raw : Bytes) (j : ℕ) (o : Option ℕ)
    → IsInLine raw j o
    → Returns (params_at p raw j o)
unfolding params_at IsInLine
params_at-Returns p raw j none h = bind _ _ (slice_from-Returns raw j h) (λ rest e. (_, refl))
params_at-Returns p raw j (some t) h =
    bind _ _ (front-Returns raw j t h)
      (λ front e. bind _ _ (slice_from-Returns raw (j + t + 1) (omega arith)) (λ last k. (_, refl)))

command_at-Returns :
    (p : Platform) (raw : Bytes) (i : ℕ) (o : Option ℕ)
    → i ≤ length raw
    → ((k : ℕ) → o ≡ some k → i + k < length raw)
    → Returns (command_at p raw i o)
unfolding command_at
command_at-Returns p raw i none h within =
    bind _ _ (slice_from-Returns raw i h) (λ rest e. (_, refl))
command_at-Returns p raw i (some k) h within =
    let inside : i + k < length raw = within k refl in
    let (o, found, line) =
      find_trailer-total raw (i + k + 1) (omega arith) (length raw + 1) 0 (omega arith)
        (omega arith) in
    bind _ _ (slice-Returns raw i (i + k) (omega arith) (omega arith)) (λ command e.
      bind_ok _ _ o found
        (bind _ _ (params_at-Returns p raw (i + k + 1) o line) (λ params _. (_, refl))))

-- The index of the command is in the line.
IsAfterSource : Bytes → Option (Option Source × ℕ) → Type 0
IsAfterSource raw none = 0 ≤ length raw
IsAfterSource raw (some (source, i)) = i ≤ length raw

after_source-Returns :
    (p : Platform) (tags : Option (Map Bytes)) (time : ℕ) (raw : Bytes)
    (o : Option (Option Source × ℕ))
    → IsAfterSource raw o
    → Returns (after_source p tags time raw o)
unfolding after_source IsAfterSource
after_source-Returns p tags time raw none h = (none, refl)
after_source-Returns p tags time raw (some (source, i)) h =
    bind_ok _ _ (drop i raw) (slice_from-eq-ok raw i h) (
      bind _ _
        (command_at-Returns p raw i (index_byte (drop i raw) b' ') h
          (λ k e. omega (arith, index_byte-lt-length b' ' (drop i raw) k e, length-drop i raw)))
        (λ words e. (_, refl)))

source_at-Returns :
    (raw : Bytes) (o : Option ℕ)
    → ((k : ℕ) → o ≡ some k → k < length raw)
    → (r : Option (Option Source × ℕ)) × (source_at raw o ≡ ok r) × IsAfterSource raw r
unfolding source_at IsAfterSource
source_at-Returns raw none h = (none, refl, omega arith)
source_at-Returns raw (some i) h = elim (Bool-cases (ltb i 2)) [
  | inl e ↦ (none, rw e refl, omega arith)
  | inr e ↦
      let wide : 1 ≤ i = ground arith in
      let inside : i < length raw = h i refl in
      (
        some (some (parse_source (take (i - 1) (drop 1 raw))), i + 1),
        rw e (rw (slice-eq-ok raw 1 i wide (omega arith)) refl),
        omega arith,
      )
]

parse_source_part-Returns :
    (raw : Bytes)
    → (r : Option (Option Source × ℕ)) × (parse_source_part raw ≡ ok r) × IsAfterSource raw r
unfolding parse_source_part IsAfterSource
parse_source_part-Returns [] = (_, refl, omega arith)
parse_source_part-Returns (c ∷ cs) = elim (Bool-cases (c == b':')) [
  | inl e ↦
      let (r, same, h) =
        source_at-Returns (c ∷ cs) (index_byte (c ∷ cs) b' ')
          (index_byte-lt-length b' ' (c ∷ cs)) in
      (r, rw e same, h)
  | inr e ↦ (some (none, 0), rw e refl, omega arith)
]

after_tags-Returns :
    (p : Platform) (o : Option (Option (Map Bytes) × ℕ × Bytes)) → Returns (after_tags p o)
unfolding after_tags
after_tags-Returns p none = (none, refl)
after_tags-Returns p (some (tags, time, raw)) =
    let (r, same, h) = parse_source_part-Returns raw in
    bind_ok _ _ r same (after_source-Returns p tags time raw r h)

tags_at-Returns :
    (p : Platform) (raw : Bytes) (o : Option ℕ)
    → ((k : ℕ) → o ≡ some k → k < length raw)
    → Returns (tags_at p raw o)
unfolding tags_at
tags_at-Returns p raw none h = (none, refl)
tags_at-Returns p raw (some i) h = elim (Bool-cases (ltb i 2)) [
  | inl e ↦ (none, rw e refl)
  | inr e ↦
      let wide : 1 ≤ i = ground arith in
      let inside : i < length raw = h i refl in
      rw e (
        bind _ _ (slice-Returns raw 1 i wide (omega arith))
          (λ text k. bind _ _ (slice_from-Returns raw (i + 1) (omega arith)) (λ rest l. (_, refl))))
]

parse_tags_part-Returns :
    (p : Platform) (raw : Bytes) → 0 < length raw → Returns (parse_tags_part p raw)
unfolding parse_tags_part
parse_tags_part-Returns p raw h = bind _ _ (element-eq-ok raw 0 h) (λ first e.
    elim (Bool-cases (first == b'@')) [
      | inl k ↦ rw k (tags_at-Returns p raw (index_byte raw b' ') (index_byte-lt-length b' ' raw))
      | inr k ↦ rw k (_, refl)
    ])

-- ParseEvent gives an event or nil on every line: none of its indices and slices is out of range,
-- and the loop that looks for " :" ends.
pub parse_event-total :
    (p : Platform) (line : Bytes) → (o : Option Event) × (parse_event p line ≡ ok o)
unfolding parse_event
parse_event-total p line = elim (Bool-cases (ltb (length (trim_left (trim_right line))) 2)) [
  | inl e ↦ (none, rw e refl)
  | inr e ↦
      let long : 0 < length (trim_left (trim_right line)) = ground arith in
      rw e (bind _ _ (parse_tags_part-Returns p _ long) (λ parsed k. after_tags-Returns p parsed))
]
