-- ===== src/Tracker/Lists.antt =====
-- The loops over `ChannelList` and `UserList`, and what they do to the number of times that a
-- name stands in the list.
use girc.Prelude.{
  ◌+◌, ◌-◌, ◌<◌, ◌≡◌, refl, arith, Bool, false, ◌||◌, List, [], ◌∷◌, ◌++◌, ltb, if◌then◌else◌,
  Bytes, beq, beq_iff, count, count-append, sort_strings, count-sort_strings,
}

-- `list[i] == name` for some i
unfoldable pub mem_string : Bytes → List Bytes → Bool
mem_string name [] = false
mem_string name (x ∷ xs) = beq x name || mem_string name xs

-- The list without its first entry that is `name`: the search for `j`, and the `append`.
unfoldable pub remove_first : Bytes → List Bytes → List Bytes
remove_first name [] = []
remove_first name (x ∷ xs) = let rest = remove_first name xs in if beq x name then xs else x ∷ rest

-- The first entry that is `from` becomes `to`.
unfoldable pub replace_first : Bytes → Bytes → List Bytes → List Bytes
replace_first from to [] = []
replace_first from to (x ∷ xs) =
    let rest = replace_first from to xs in if beq x from then to ∷ xs else x ∷ rest

pub mem_string-count : (name : Bytes) (xs : List Bytes) → mem_string name xs ≡ ltb 0 (count name xs)
unfolding mem_string count
mem_string-count name [] = refl
mem_string-count name (x ∷ xs) = ground (arith, mem_string-count name xs)

pub count-remove_first :
    (u name : Bytes) (xs : List Bytes)
    → count u (remove_first name xs) ≡ (if beq name u then count u xs - 1 else count u xs)
unfolding remove_first count
count-remove_first u name [] = ground arith
count-remove_first u name (x ∷ xs) =
    ground (arith, count-remove_first u name xs, beq_iff x name, beq_iff name u, beq_iff x u)

pub count-replace_first :
    (u from to : Bytes) (xs : List Bytes)
    → 0 < count from xs
    → count u (replace_first from to xs)
      ≡ (if beq from u then count u xs - 1 else count u xs) + (if beq to u then 1 else 0)
unfolding replace_first count
count-replace_first u from to [] h = ground arith
count-replace_first u from to (x ∷ xs) h =
    ground (arith, count-replace_first u from to xs, beq_iff x from, beq_iff from u, beq_iff x u)

-- What `addUser` and `addChannel` do to the list.
pub count-add_string :
    (u name : Bytes) (xs : List Bytes)
    → count u (sort_strings (xs ++ (name ∷ []))) ≡ count u xs + (if beq name u then 1 else 0)
count-add_string u name xs = ground (
  arith,
  count-sort_strings u (xs ++ (name ∷ [])),
  count-append u xs (name ∷ []),
  count-single u name,
)
  where
    count-single : (v n : Bytes) → count v (n ∷ []) ≡ (if beq n v then 1 else 0)
    count-single v n = unfold count in ground arith
