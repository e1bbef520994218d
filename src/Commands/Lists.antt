-- ===== src/Commands/Lists.antt =====
-- The lines of Commands.Join and Commands.List.
use girc.Prelude.{
  ℕ, ◌+◌, ◌-◌, ◌≡◌, ◌≤◌, ◌<◌, refl, arith, ltb, true, false, List, [], ◌∷◌, ◌++◌, if◌then◌else◌,
  Bytes, codes, is_empty, length, length-append, All, Bool-cases, inl, inr,
}
use girc.Actions.{Action, send}
use girc.Commands.{send_event, join_from, join}

-- A name behind the text, with a comma between them.
unfoldable pub and_name : Bytes → Bytes → Bytes
and_name buffer name = if is_empty buffer then name else buffer ++ (b',' ∷ name)

-- The names behind the text.
unfoldable pub and_names : Bytes → List Bytes → Bytes
and_names buffer [] = buffer
and_names buffer (name ∷ names) = and_names (and_name buffer name) names

-- The line has room for the name. The comma is counted for the first name too.
abbrev pub HasRoom : ℕ → Bytes → Bytes → Type 0
HasRoom max buffer name = length buffer + 1 + length name ≤ max

-- The line has room for each of the names.
abbrev pub Fit : ℕ → Bytes → List Bytes → Type 0
Fit max buffer [] = Unit
Fit max buffer (name ∷ names) = HasRoom max buffer name × Fit max (and_name buffer name) names

-- The line is within the limit.
abbrev pub IsWithin : ℕ → Action → Type 0
IsWithin max (send e) = All (λ param. length param ≤ max) e.params
IsWithin max _ = Unit

module _ (max : ℕ) (command : Bytes) where
  ltb-room :
      (buffer name : Bytes)
      → HasRoom max buffer name
      → ltb max (length (buffer ++ (b',' ∷ name))) ≡ false
  ltb-room buffer name h = ground (arith, length-append buffer (b',' ∷ name))

  ltb-no_room :
      (buffer name : Bytes)
      → max < length buffer + 1 + length name
      → ltb max (length (buffer ++ (b',' ∷ name))) ≡ true
  ltb-no_room buffer name h = ground (arith, length-append buffer (b',' ∷ name))

  join_from-Fit :
      (buffer name : Bytes) (names : List Bytes)
      → Fit max buffer (name ∷ names)
      → join_from max command buffer (name ∷ names)
        ≡ send_event command (and_names buffer (name ∷ names) ∷ []) ∷ []
  unfolding join_from and_names and_name
  join_from-Fit buffer name [] h = rw (ltb-room buffer name h.0) refl
  join_from-Fit buffer name (next ∷ names) h =
      rw (ltb-room buffer name h.0) (join_from-Fit (and_name buffer name) next names h.1)

  join_from-overflow :
      (buffer : Bytes) (names : List Bytes) (name : Bytes) (later : List Bytes)
      → Fit max buffer names
      → max < length (and_names buffer names) + 1 + length name
      → join_from max command buffer (names ++ (name ∷ later))
        ≡ send_event command (and_names buffer names ∷ []) ∷ join_from max command [] later
  unfolding join_from and_names and_name
  join_from-overflow buffer [] name [] h over = rw (ltb-no_room buffer name over) refl
  join_from-overflow buffer [] name (next ∷ later) h over = rw (ltb-no_room buffer name over) refl
  join_from-overflow buffer (x ∷ []) name later h over =
      rw (ltb-room buffer x h.0) (join_from-overflow (and_name buffer x) [] name later h.1 over)
  join_from-overflow buffer (x ∷ y ∷ names) name later h over =
      rw (ltb-room buffer x h.0)
        (join_from-overflow (and_name buffer x) (y ∷ names) name later h.1 over)

  and_name-le :
      (buffer name : Bytes)
      → ltb max (length (buffer ++ (b',' ∷ name))) ≡ false
      → length (and_name buffer name) ≤ max
  unfolding and_name
  and_name-le [] name h = ground arith
  and_name-le (c ∷ cs) name h = ground (arith, length-append (c ∷ cs) (b',' ∷ name))

  join_from-IsWithin :
      (buffer : Bytes) (names : List Bytes)
      → length buffer ≤ max
      → All (IsWithin max) (join_from max command buffer names)
  unfolding join_from and_name send_event
  join_from-IsWithin buffer [] h = tt
  join_from-IsWithin buffer (name ∷ []) h =
      elim (Bool-cases (ltb max (length (buffer ++ (b',' ∷ name))))) [
        | inl e ↦ rw e ((h, tt), tt)
        | inr e ↦ rw e ((and_name-le buffer name e, tt), tt)
      ]
  join_from-IsWithin buffer (name ∷ next ∷ names) h =
      elim (Bool-cases (ltb max (length (buffer ++ (b',' ∷ name))))) [
        | inl e ↦ rw e ((h, tt), join_from-IsWithin [] (next ∷ names) (omega arith))
        | inr e ↦
            rw e
              (join_from-IsWithin (and_name buffer name) (next ∷ names) (and_name-le buffer name e))
      ]

-- Every JOIN that Join sends is within the limit: its list of channels has at most the length of
-- an event less that of the command and a space.
join-IsWithin : (max : ℕ) (channels : List Bytes) → All (IsWithin (max - 4 - 1)) (join max channels)
unfolding join
join-IsWithin max channels =
    join_from-IsWithin (max - 4 - 1) (codes "JOIN") [] channels (omega arith)

-- Where a line has room for some names and not for the next one, Join sends a line with the names
-- that fit, and then what it sends for the names behind the one that did not fit: that one is
-- joined by no line.
join-overflow :
    (max : ℕ) (names : List Bytes) (name : Bytes) (later : List Bytes)
    → Fit (max - 4 - 1) [] names
    → max - 4 - 1 < length (and_names [] names) + 1 + length name
    → join max (names ++ (name ∷ later))
      ≡ send_event (codes "JOIN") (and_names [] names ∷ []) ∷ join max later
unfolding join
join-overflow max names name later h over =
    join_from-overflow (max - 4 - 1) (codes "JOIN") [] names name later h over
