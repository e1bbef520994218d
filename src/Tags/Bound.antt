-- ===== src/Tags/Bound.antt =====
-- The limit on the length of the tags of a message.
use girc.Prelude.{
  ℕ, ◌+◌, ◌≤◌, arith, none, some, List, [], ◌∷◌, ◌++◌, ◌==◌, Bytes, if◌then◌else◌, inl, inr,
  Bool-cases, length, ltb, Map, lookup, length-append, sort_strings, keys,
}
use girc.Tags.{Tags, written, write_tags, tag_bytes, max_tag_length, value_of}

length-written :
    (name value : Bytes) (current max : ℕ)
    → length (written name value current max) ≤ length name + length value + 2
unfolding written
length-written name value current max = ground (
  arith,
  length-append (name ++ (if ltb 0 (length value) then b'=' ∷ value else []))
      (if ltb (current + 1) max then b';' ∷ [] else []),
  length-append name (if ltb 0 (length value) then b'=' ∷ value else []),
)

write_tags-le :
    (t : Map Bytes) (max : ℕ) (names : List Bytes) (buffer : Bytes) (current : ℕ)
    → length buffer ≤ max_tag_length
    → length (write_tags t max buffer current names) ≤ max_tag_length
unfolding write_tags
write_tags-le t max [] buffer current h = h
write_tags-le t max (name ∷ names) buffer current h =
    let value = value_of (lookup name t) in
    elim (Bool-cases (ltb max_tag_length (length buffer + length name + length value + 2))) [
      | inl e ↦ rw e h
      | inr e ↦ rw e (
          write_tags-le t max names (buffer ++ written name value current max) (current + 1) (
            ground (
              arith,
              length-append buffer (written name value current max),
              length-written name value current max,
            )))
    ]

-- Whatever the tags, their printed form has at most 4094 bytes.
length-tag_bytes-le : (t : Tags) → length (tag_bytes t) ≤ max_tag_length
unfolding tag_bytes
length-tag_bytes-le none = omega arith
length-tag_bytes-le (some t) = elim (Bool-cases (length t == 0)) [
  | inl e ↦ rw e (omega arith)
  | inr e ↦ rw e (write_tags-le t (length t) (sort_strings (keys t)) (b'@' ∷ []) 0 (omega arith))
]
