-- ===== src/Modes/Arguments.antt =====
-- How `CModes.Parse` reads the flags of a mode change and hands out its arguments.
pub mod RoundTrip
use girc.Prelude.{
  ℕ, ◌+◌, ◌<◌, ◌≡◌, ◌≤◌, ◌∙◌, refl, arith, Bool, true, false, ◌&&◌, ◌||◌, List, [], ◌∷◌, ◌++◌, ◌==◌,
  Bytes, not, if◌then◌else◌, ap, Bool-cases, inl, inr, length, get_or, ltb, suc, zero, is_empty,
}
use girc.Text.Fold.{rune_bytes}
use girc.Modes.{CMode, CModes, has_arg, parse_from, parse, short}

unfoldable pub is_sign : ℕ → Bool
is_sign c = c == b'+' || c == b'-'

-- The flags that are modes.
unfoldable pub mode_flags : Bytes → Bytes
unfolding is_sign
mode_flags [] = []
mode_flags (c ∷ cs) = let rest = mode_flags cs in if is_sign c then rest else c ∷ rest

unfoldable pub names : List CMode → Bytes
names [] = []
names (m ∷ ms) = m.name ∷ names ms

-- What `parse_from` does at a flag that is a mode.
mode_of : CModes → List Bytes → Bool → ℕ → ℕ → CMode
mode_of c args add used f = record {
  add = add;
  name = f;
  setting = (has_arg c add f).1;
  args = if (has_arg c add f).0 && ltb used (length args) then get_or args used [] else [];
}

parse_from-sign :
    (c : CModes) (args : List Bytes) (add : Bool) (used f : ℕ) (fs : Bytes)
    → is_sign f ≡ true
    → parse_from c args add used (f ∷ fs) ≡ parse_from c args (f == b'+') used fs
unfolding parse_from is_sign
parse_from-sign c args add used f fs h = rw h refl

parse_from-mode :
    (c : CModes) (args : List Bytes) (add : Bool) (used f : ℕ) (fs : Bytes)
    → is_sign f ≡ false
    → parse_from c args add used (f ∷ fs)
      ≡ mode_of c args add used f
        ∷ parse_from c args add
            (if (has_arg c add f).0 && ltb used (length args) then used + 1 else used)
            fs
unfolding parse_from is_sign mode_of
parse_from-mode c args add used f fs h = rw h refl

parse_from-nil :
    (c : CModes) (args : List Bytes) (add : Bool) (used : ℕ) → parse_from c args add used [] ≡ []
unfolding parse_from
parse_from-nil c args add used = refl

names-parse_from :
    (c : CModes) (args : List Bytes) (add : Bool) (used : ℕ) (flags : Bytes)
    → names (parse_from c args add used flags) ≡ mode_flags flags
unfolding names mode_flags mode_of
names-parse_from c args add used [] = rw (parse_from-nil c args add used) refl
names-parse_from c args add used (f ∷ fs) = elim (Bool-cases (is_sign f)) [
  | inl e ↦
      rw (parse_from-sign c args add used f fs e)
        (rw e (names-parse_from c args (f == b'+') used fs))
  | inr e ↦ rw (parse_from-mode c args add used f fs e) (
      rw e (
        ap (λ ns. f ∷ ns)
          (names-parse_from c args add
            (if (has_arg c add f).0 && ltb used (length args) then used + 1 else used) fs)))
]

-- The sign that holds behind the flags, where `add` held before them.
unfoldable pub sign_after : Bool → Bytes → Bool
unfolding is_sign
sign_after add [] = add
sign_after add (f ∷ fs) = sign_after (if is_sign f then f == b'+' else add) fs

-- How many of the changes take an argument.
unfoldable pub takers : CModes → List CMode → ℕ
takers c [] = 0
takers c (m ∷ ms) = if (has_arg c m.add m.name).0 then takers c ms + 1 else takers c ms

-- The change for a flag under a sign, with `n` takers before it.
abbrev pub change : CModes → List Bytes → Bool → ℕ → ℕ → CMode
change c args add f n = record {
  add = add;
  name = f;
  setting = (has_arg c add f).1;
  args = if (has_arg c add f).0 then get_or args n [] else [];
}

get_or-length : (args : List Bytes) (n : ℕ) → length args ≤ n → get_or args n [] ≡ []
get_or-length [] n h = refl
get_or-length (a ∷ args) zero h = absurd (omega arith)
get_or-length (a ∷ args) (suc n) h = get_or-length args n (omega arith)

module _ (c : CModes) (args : List Bytes) where
  -- The arguments used, where `taken` changes take one.
  abbrev IsUsed : ℕ → ℕ → Type 0
  IsUsed used taken = used ≡ (if ltb taken (length args) then taken else length args)

  used_argument :
      (used taken : ℕ) (takes : Bool)
      → IsUsed used taken
      → (if takes && ltb used (length args) then get_or args used [] else [])
        ≡ (if takes then get_or args taken [] else [])
  used_argument used taken takes inv = ground (arith, get_or-length args taken)

  mode_of-change :
      (add : Bool) (used taken f : ℕ)
      → IsUsed used taken
      → mode_of c args add used f ≡ change c args add f taken
  unfolding mode_of
  mode_of-change add used taken f inv =
      ap (λ a. record { add = add; name = f; setting = (has_arg c add f).1; args = a })
        (used_argument used taken ((has_arg c add f).0) inv)

  next-IsUsed :
      (used taken : ℕ) (takes : Bool)
      → IsUsed used taken
      → IsUsed
          (if takes && ltb used (length args) then used + 1 else used)
          (if takes then taken + 1 else taken)
  next-IsUsed used taken takes inv = ground arith

  takers_next :
      (taken : ℕ) (m : CMode) (ms : List CMode)
      → (if (has_arg c m.add m.name).0 then taken + 1 else taken) + takers c ms
        ≡ taken + takers c (m ∷ ms)
  unfolding takers
  takers_next taken m ms = ground arith

  parse_from-append :
      (add : Bool) (used taken : ℕ) (before : Bytes) (f : ℕ) (after : Bytes)
      → is_sign f ≡ false
      → IsUsed used taken
      → (later : List CMode) × (parse_from c args add used (before ++ (f ∷ after))
          ≡ parse_from c args add used before
            ++ (change c args
                  (sign_after add before)
                  f
                  (taken + takers c (parse_from c args add used before))
                ∷ later))
  unfolding sign_after takers mode_of
  parse_from-append add used taken [] f after h inv =
      let later =
        parse_from c args add
          (if (has_arg c add f).0 && ltb used (length args) then used + 1 else used) after in
      (
        later,
        rw (parse_from-mode c args add used f after h, parse_from-nil c args add used)
            (ap (λ m. m ∷ later) (mode_of-change add used taken f inv)
              ∙ ap (λ n. change c args add f n ∷ later) (omega arith)),
      )
  parse_from-append add used taken (g ∷ before) f after h inv = elim (Bool-cases (is_sign g)) [
    | inl e ↦
        let (later, same) = parse_from-append (g == b'+') used taken before f after h inv in
        (
          later,
          rw
              (
                parse_from-sign c args add used g (before ++ (f ∷ after)) e,
                parse_from-sign c args add used g before e,
                e,
              )
              same,
        )
    | inr e ↦
        let m = mode_of c args add used g in
        let takes = (has_arg c add g).0 in
        let used' = if takes && ltb used (length args) then used + 1 else used in
        let (later, same) =
          parse_from-append add used' (if takes then taken + 1 else taken) before f after h
            (next-IsUsed used taken takes inv) in
        (
          later,
          rw
              (
                parse_from-mode c args add used g (before ++ (f ∷ after)) e,
                parse_from-mode c args add used g before e,
                e,
              )
              (ap (λ ms. m ∷ ms) same
                ∙ ap
                    (λ n.
                      m
                      ∷ (parse_from c args add used' before
                          ++ (change c args (sign_after add before) f n ∷ later)))
                    (takers_next taken m (parse_from c args add used' before))),
        )
  ]

-- Parse gives one change for every flag but the signs, in the order of the flags; and the one for
-- a flag that stands behind `before` follows those that Parse gives for `before`, has the sign that
-- stands last in `before`, or "+" if there is none, is a setting if the server's lists say so, and
-- has an argument if the lists say so under that sign: the first one that the changes before it
-- leave, or "" if there are too few.
pub parse_lem :
    (c : CModes) (args : List Bytes) (flags before : Bytes) (f : ℕ) (after : Bytes)
    → is_sign f ≡ false
    → (names (parse c flags args) ≡ mode_flags flags)
      × ((later : List CMode) × (parse c (before ++ (f ∷ after)) args
            ≡ parse c before args
              ++ (change c args (sign_after true before) f (takers c (parse c before args))
                  ∷ later)))
unfolding parse
parse_lem c args flags before f after h =
    let none_used : IsUsed c args 0 0 = ground arith in
    let (later, found) = parse_from-append c args true 0 0 before f after h none_used in
    (
      names-parse_from c args true 0 flags,
      (
        later,
        found
            ∙ ap (λ n. parse c before args ++ (change c args (sign_after true before) f n ∷ later))
                (omega arith),
      ),
    )
