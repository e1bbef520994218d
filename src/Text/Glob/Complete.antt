-- ===== src/Text/Glob/Complete.antt =====
-- What matches a pattern by its meaning is accepted by `Glob`.
use girc.Prelude.{
  ℕ, ◌-◌, ◌≡◌, ◌≤◌, refl, arith, Bool, true, false, not, ◌&&◌, ◌||◌, some, List, [], ◌∷◌, ◌++◌, leb,
  ◌==◌, Bytes, codes, beq, beq_iff, beq_refl, has_prefix, length, drop, length-append,
  drop-length-append, append_assoc, append-nil, ap, ◌∙◌, sym, Bool-cases, inl, inr, zero, suc,
}
use girc.Text.Glob.{split_star, has_suffix, after_first, glob_rest, glob_parts, glob}

-- The meaning of a pattern, by its parts: the text is the parts in their order, with any text
-- between two of them.
unfoldable pub Fits : List Bytes → Bytes → Type 0
Fits [] s = s ≡ []
Fits (part ∷ []) s = s ≡ part
Fits (part ∷ next ∷ parts) s =
    (gap : Bytes) × (rest : Bytes) × (s ≡ part ++ (gap ++ rest)) × Fits (next ∷ parts) rest

drop-append : (n : ℕ) (xs ys : Bytes) → n ≤ length xs → drop n (xs ++ ys) ≡ drop n xs ++ ys
drop-append zero xs ys h = refl
drop-append (suc n) [] ys h = absurd (omega arith)
drop-append (suc n) (x ∷ xs) ys h = drop-append n xs ys (omega arith)

has_suffix-append : (front s : Bytes) → has_suffix (front ++ s) s ≡ true
unfolding has_suffix
has_suffix-append front s =
    let size = length-append front s in
    let fits : leb (length s) (length (front ++ s)) ≡ true = ground arith in
    let cut : drop (length (front ++ s) - length s) (front ++ s) ≡ s =
      ap (λ n. drop n (front ++ s)) {x = length (front ++ s) - length s} {y = length front}
        (omega (arith, size))
      ∙ drop-length-append front s in
    rw fits (rw cut (beq_refl s))

prefix_nil : (s : Bytes) → has_prefix s [] ≡ true
unfolding has_prefix
prefix_nil [] = refl
prefix_nil (c ∷ cs) = refl

has_prefix-append : (part rest : Bytes) → has_prefix (part ++ rest) part ≡ true
unfolding has_prefix
has_prefix-append [] rest = prefix_nil rest
has_prefix-append (c ∷ cs) rest = ground (arith, has_prefix-append cs rest)

after_first-here :
    (s part : Bytes) → has_prefix s part ≡ true → after_first s part ≡ some (drop (length part) s)
unfolding after_first has_prefix
after_first-here [] [] h = refl
after_first-here [] (p ∷ ps) h = cc
after_first-here (c ∷ cs) part h = rw h refl

-- What stands behind the first occurrence ends with what stands behind any other one.
after_first-append :
    (front part rest : Bytes)
    → (z : Bytes) × (more : Bytes) × (after_first (front ++ (part ++ rest)) part ≡ some z)
      × (z ≡ more ++ rest)
unfolding after_first
after_first-append [] part rest = (
  rest,
  [],
  after_first-here (part ++ rest) part (has_prefix-append part rest)
      ∙ ap some (drop-length-append part rest),
  refl,
)
after_first-append (c ∷ cs) part rest =
    elim (Bool-cases (has_prefix ((c ∷ cs) ++ (part ++ rest)) part)) [
      | inl e ↦ (
        drop (length part) ((c ∷ cs) ++ (part ++ rest)),
        drop (length part) ((c ∷ cs) ++ part),
        rw e refl,
        ap (drop (length part)) (sym (append_assoc (c ∷ cs) part rest))
            ∙ drop-append (length part) ((c ∷ cs) ++ part) rest
                (omega (arith, length-append (c ∷ cs) part)),
      )
      | inr e ↦
          let (z, more, found, same) = after_first-append cs part rest in
          (z, more, rw e found, same)
    ]

or-true : (a b : Bool) → b ≡ true → (a || b) ≡ true
or-true true b h = refl
or-true false b h = h

-- The loop accepts every text that ends with one that fits.
glob_rest_complete :
    (trailing : Bool) (part : Bytes) (parts : List Bytes) (front s : Bytes)
    → Fits (part ∷ parts) s
    → glob_rest trailing (front ++ s) (part ∷ parts) ≡ true
unfolding glob_rest Fits
glob_rest_complete trailing part [] front s h =
    or-true trailing (has_suffix (front ++ s) part)
      (ap (λ x. has_suffix (front ++ x) part) h ∙ has_suffix-append front part)
glob_rest_complete trailing part (next ∷ parts) front s (gap, rest, same, h) =
    let (z, more, found, end) = after_first-append front part (gap ++ rest) in
    rw same (
      rw (found, glob_rest)
        (ap (λ x. glob_rest trailing x (next ∷ parts)) (end ∙ sym (append_assoc more gap rest))
          ∙ glob_rest_complete trailing next parts (more ++ gap) rest h))

-- The parts, each behind a star.
stars : List Bytes → Bytes
stars [] = []
stars (part ∷ parts) = b'*' ∷ (part ++ stars parts)

stars-split_star : (piece m : Bytes) → stars (split_star piece m) ≡ b'*' ∷ (piece ++ m)
unfolding stars split_star
stars-split_star piece [] = refl
stars-split_star piece (c ∷ cs) = elim (Bool-cases (c == b'*')) [
  | inl e ↦
      let same : c ≡ b'*' = ground arith in
      rw e (
        ap (λ r. b'*' ∷ (piece ++ r)) (stars-split_star [] cs)
        ∙ ap (λ d. b'*' ∷ (piece ++ (d ∷ cs))) (sym same))
  | inr e ↦
      rw e
        (stars-split_star (piece ++ (c ∷ [])) cs ∙ ap (◌∷◌ b'*') (append_assoc piece (c ∷ []) cs))
]

and-false : (a : Bool) → (a && false) ≡ false
and-false true = refl
and-false false = refl

Fits-nil : (input : Bytes) → Fits (split_star [] []) input → input ≡ []
unfolding Fits split_star
Fits-nil input h = h

glob_parts_complete :
    (input pattern : Bytes) (parts : List Bytes)
    → stars parts ≡ b'*' ∷ pattern
    → Fits parts input
    → glob_parts input pattern parts ≡ true
unfolding glob_parts Fits stars
glob_parts_complete input pattern [] k h = cc
glob_parts_complete input pattern (part ∷ []) k h =
    let same : part ++ [] ≡ pattern = cc in
    (beq_iff input pattern).1 (h ∙ sym (append-nil part) ∙ same)
glob_parts_complete input pattern (part ∷ next ∷ parts) k (gap, rest, same, h) = rw same (
    rw (has_prefix-append part (gap ++ rest)) (
      rw (and-false (not (has_prefix pattern (codes "*")))) (
        ap (λ x. glob_rest (has_suffix pattern (codes "*")) x (next ∷ parts))
          (sym (append_assoc part gap rest))
        ∙ glob_rest_complete (has_suffix pattern (codes "*")) next parts (part ++ gap) rest h)))

-- Glob accepts every text that is the parts of the pattern between its stars, in their order, with
-- any text in the place of each star.
pub glob_complete :
    (input pattern : Bytes) → Fits (split_star [] pattern) input → glob input pattern ≡ true
unfolding glob
glob_complete input [] h = (beq_iff input []).1 (Fits-nil input h)
glob_complete input (c ∷ cs) h = elim (Bool-cases (beq (c ∷ cs) (codes "*"))) [
  | inl e ↦ rw e refl
  | inr e ↦
      rw e (
        glob_parts_complete input (c ∷ cs) (split_star [] (c ∷ cs)) (stars-split_star [] (c ∷ cs))
          h)
]
