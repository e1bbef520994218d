-- ===== src/Modes/Changes.antt =====
-- What the changes of a MODE message leave in the modes of a channel: `CModes.Apply`.
use girc.Prelude.{◌≡◌, refl, arith, Bool, true, false, ◌&&◌, ◌||◌, List, [], ◌∷◌, ◌++◌, Bytes, beq}
use girc.Text.Fold.{rune_bytes}
use girc.Modes.{
  CMode, CModes, replacement, replaced, replace_modes, is_in, add_modes, apply, has_mode_in,
  has_mode,
}

-- Some change sets the mode: its type is not that of a list or of a user prefix, and its sign is "+".
unfoldable pub sets : List CMode → Bytes → Bool
sets [] mode = false
sets (m ∷ ms) mode = (m.setting && m.add && beq (rune_bytes m.name) mode) || sets ms mode

name-replaced :
    (m : CMode) (changes : List CMode) → (replaced m (replacement m changes)).name ≡ m.name
unfolding replaced replacement
name-replaced m [] = refl
name-replaced m (n ∷ ns) = ground (arith, name-replaced m ns)

has_mode_in-replace_modes :
    (modes changes : List CMode) (mode : Bytes)
    → has_mode_in (replace_modes modes changes) mode ≡ has_mode_in modes mode
unfolding has_mode_in replace_modes
has_mode_in-replace_modes [] changes mode = refl
has_mode_in-replace_modes (m ∷ ms) changes mode =
    rw (name-replaced m changes) (rw (has_mode_in-replace_modes ms changes mode))

has_mode_in-append :
    (modes : List CMode) (m : CMode) (mode : Bytes)
    → has_mode_in (modes ++ (m ∷ [])) mode
      ≡ (has_mode_in modes mode || beq (rune_bytes m.name) mode)
unfolding has_mode_in
has_mode_in-append [] m mode = ground arith
has_mode_in-append (n ∷ ns) m mode = ground (arith, has_mode_in-append ns m mode)

is_in-has_mode_in :
    (m : CMode) (modes : List CMode) (mode : Bytes)
    → is_in m modes ≡ true
    → beq (rune_bytes m.name) mode ≡ true
    → has_mode_in modes mode ≡ true
unfolding has_mode_in is_in
is_in-has_mode_in m [] mode h e = cc
is_in-has_mode_in m (n ∷ ns) mode h e = grind (arith, is_in-has_mode_in m ns mode)

has_mode_in-add_modes :
    (modes changes : List CMode) (mode : Bytes)
    → has_mode_in (add_modes modes changes) mode ≡ (has_mode_in modes mode || sets changes mode)
unfolding add_modes sets
has_mode_in-add_modes modes [] mode = ground arith
has_mode_in-add_modes modes (m ∷ ms) mode = ground (
  arith,
  has_mode_in-add_modes modes ms mode,
  has_mode_in-add_modes (modes ++ (m ∷ [])) ms mode,
  has_mode_in-append modes m mode,
  is_in-has_mode_in m modes mode,
)

-- After Apply, HasMode is true for exactly the modes for which it was true before and those that a
-- "+" change of a setting names; so a "-" change removes no mode.
pub has_mode-apply :
    (c : CModes) (changes : List CMode) (mode : Bytes)
    → has_mode (apply c changes) mode ≡ (has_mode c mode || sets changes mode)
unfolding has_mode apply
has_mode-apply c changes mode =
    rw (has_mode_in-add_modes (replace_modes c.modes changes) changes mode)
      (rw (has_mode_in-replace_modes c.modes changes mode))
