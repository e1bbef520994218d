-- ===== src/Text/Glob.antt =====
-- format.go: `Glob`.
pub mod Complete
use girc.Prelude.{
  ◌-◌, Bool, true, false, not, ◌&&◌, ◌||◌, Option, none, some, List, [], ◌∷◌, ◌++◌, leb, ◌==◌,
  if◌then◌else◌, Bytes, codes, beq, is_empty, has_prefix, length, drop,
}

-- strings.Split(s, "*"), behind a piece that is already read
unfoldable pub split_star : Bytes → Bytes → List Bytes
split_star piece [] = piece ∷ []
split_star piece (c ∷ cs) =
    let next = split_star [] cs in
    let longer = split_star (piece ++ (c ∷ [])) cs in if c == b'*' then piece ∷ next else longer

-- strings.HasSuffix
unfoldable pub has_suffix : Bytes → Bytes → Bool
has_suffix s suffix =
    leb (length suffix) (length s) && beq (drop (length s - length suffix) s) suffix

-- strings.Contains, strings.Index and the slice behind the text found; `none` if there is none.
unfoldable pub after_first : Bytes → Bytes → Option Bytes
after_first [] part = if is_empty part then some [] else none
after_first (c ∷ cs) part =
    let later = after_first cs part in
    if has_prefix (c ∷ cs) part then some (drop (length part) (c ∷ cs)) else later

-- The loop over the middle parts, and the check of the last one.
unfoldable pub glob_rest : Bool → Bytes → List Bytes → Bool
unfolding has_suffix after_first
glob_rest trailing input [] = trailing
glob_rest trailing input (part ∷ []) = trailing || has_suffix input part
glob_rest trailing input (part ∷ next ∷ parts) = elim (after_first input part) [
  | none ↦ false
  | some rest ↦ glob_rest trailing rest (next ∷ parts)
]

unfoldable pub glob_parts : Bytes → Bytes → List Bytes → Bool
unfolding glob_rest
glob_parts input pattern [] = beq input pattern
glob_parts input pattern (part ∷ []) = beq input pattern
glob_parts input pattern (part ∷ next ∷ parts) =
    if not (has_prefix pattern (codes "*")) && not (has_prefix input part)
    then false
    else glob_rest (has_suffix pattern (codes "*")) input (next ∷ parts)

-- Glob
unfoldable pub glob : Bytes → Bytes → Bool
unfolding split_star glob_parts
glob input pattern =
    if is_empty pattern
    then beq input pattern
    else if beq pattern (codes "*")
    then true
    else glob_parts input pattern (split_star [] pattern)
