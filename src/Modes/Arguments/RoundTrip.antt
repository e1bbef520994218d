-- ===== src/Modes/Arguments/RoundTrip.antt =====
-- Printing a mode change with `CMode.Short` and reading it back with `CModes.Parse`.
use girc.Prelude.{
  ℕ, ◌<◌, ◌≡◌, refl, arith, Bool, true, false, [], ◌∷◌, ◌==◌, Bytes, not, if◌then◌else◌, ap,
  is_empty,
}
use girc.Text.Fold.{rune_bytes}
use girc.Modes.{CMode, CModes, has_arg, parse, short}
use girc.Modes.Arguments.{is_sign, mode_of, parse_from-sign, parse_from-mode}

-- `parse` gives such a change: what it says of its own kind is what the server's lists say.
pub record IsOfKind (c : CModes) (m : CMode) : Type 0 where
  pub name_lt : m.name < 128
  pub name_is_mode : is_sign m.name ≡ false
  pub takes : (has_arg c m.add m.name).0 ≡ not (is_empty m.args)
  pub sets : m.setting ≡ (has_arg c m.add m.name).1

short-eq : (m : CMode) → m.name < 128 → short m ≡ (if m.add then b'+' else b'-') ∷ m.name ∷ []
unfolding short rune_bytes
short-eq m h = ground arith

is_sign-sign : (add : Bool) → is_sign (if add then b'+' else b'-') ≡ true
unfolding is_sign
is_sign-sign true = refl
is_sign-sign false = refl

sign-plus : (add : Bool) → ((if add then b'+' else b'-') == b'+') ≡ add
sign-plus true = refl
sign-plus false = refl

mode_of-kind :
    (c : CModes) (add : Bool) (name : ℕ) (setting : Bool) (args : Bytes)
    → (has_arg c add name).0 ≡ not (is_empty args)
    → setting ≡ (has_arg c add name).1
    → mode_of c (if is_empty args then [] else args ∷ []) add 0 name
      ≡ record { add = add; name = name; setting = setting; args = args }
unfolding mode_of
mode_of-kind c add name setting [] h k = rw h (rw k refl)
mode_of-kind c add name setting (x ∷ xs) h k = rw h (rw k refl)

-- A change of the kind that the server's lists say is read back from its printed sign and name
-- and from its argument.
parse-short :
    (c : CModes) (m : CMode)
    → IsOfKind c m
    → parse c (short m) (if is_empty m.args then [] else m.args ∷ []) ≡ m ∷ []
unfolding parse
parse-short c m h = rw (short-eq m h.name_lt) (
    rw
      (parse_from-sign c (if is_empty m.args then [] else m.args ∷ []) true 0
        (if m.add then b'+' else b'-') (m.name ∷ []) (is_sign-sign m.add))
      (rw (sign-plus m.add) (
        rw
          (parse_from-mode c (if is_empty m.args then [] else m.args ∷ []) m.add 0 m.name []
            h.name_is_mode)
          (ap (λ n. n ∷ []) (mode_of-kind c m.add m.name m.setting m.args h.takes h.sets)))))
