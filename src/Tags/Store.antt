-- ===== src/Tags/Store.antt =====
-- Setting and getting tags, and what `Get` returns for a tag that was parsed.
use girc.Prelude.{
  ◌+◌, ◌≡◌, ◌≢◌, refl, ap, arith, false, ◌||◌, some, [], ◌∷◌, ◌++◌, Bytes, if◌then◌else◌, inl, inr,
  Bool-cases, beq, length, ltb, Map, insert, lookup-insert, lookup-insert_self, Lacks, All-append,
  index_byte, index_byte-append, append_assoc, append-nil, ne→==, ◌∙◌, ◌<◌, length-append,
  take-length-append, drop-length-add_one-append,
}
use girc.Tags.{encode, get, set, stored, decode, parse_tags, parse_part, split_tags, without_at}
use girc.Tags.Escape.{decode-encode}

stored-injective : (t : Map Bytes) {t' : Map Bytes} → stored t ≡ stored t' → t' ≡ t
stored-injective t h = cc

get-stored :
    (t : Map Bytes) (key value j : Bytes)
    → get (some (insert key (encode value) t)) j
      ≡ (if beq key j then some value else get (some t) j)
unfolding get
get-stored t key value j =
    rw lookup-insert (elim (Bool-cases (beq key j)) [
      | inl e ↦ rw e (ap some (decode-encode value))
      | inr e ↦ rw e
    ])

set-eq-stored :
    (t : Map Bytes) (key value : Bytes) {t' : Map Bytes}
    → set t key value ≡ stored t'
    → t' ≡ insert key (encode value) t
unfolding set
set-eq-stored t key value h = ground arith

-- After a `Set` that succeeds, `Get` returns the value under its key and what it returned before
-- under any other.
get-set :
    (t : Map Bytes) (key value j : Bytes) {t' : Map Bytes}
    → set t key value ≡ stored t'
    → get (some t') j ≡ (if beq key j then some value else get (some t) j)
get-set t key value j h = rw (set-eq-stored t key value h) (get-stored t key value j)

split_tags-Lacks : (s piece : Bytes) → Lacks b';' s → split_tags piece s ≡ (piece ++ s) ∷ []
unfolding split_tags
split_tags-Lacks [] piece h = rw append-nil
split_tags-Lacks (x ∷ s) piece h =
    rw (ne→== x b';' h.0, split_tags) (split_tags-Lacks s (piece ++ (x ∷ [])) h.1 ∙ rw append_assoc)

without_at-Lacks :
    (s : Bytes) → Lacks b'@' s → (rest : Bytes) → s ≢ [] → without_at (s ++ rest) ≡ s ++ rest
unfolding without_at
without_at-Lacks [] h rest ne = absurd (ne refl)
without_at-Lacks (c ∷ s) h rest ne = ground (arith, h.0)

length_pos : (key : Bytes) → key ≢ [] → 0 < length key
length_pos [] h = absurd (h refl)
length_pos (x ∷ key) h = omega arith

-- A tag that was parsed is decoded twice: once by `ParseTags`, and once more by `Get`.
get-parse_tags :
    (key value : Bytes)
    → key ≢ []
    → Lacks b'=' key
    → Lacks b';' key
    → Lacks b'@' key
    → Lacks b';' value
    → get (some (parse_tags (key ++ (b'=' ∷ value)))) key ≡ some (decode (decode value))
unfolding parse_tags get
get-parse_tags key value ne p q r v =
    let raw = key ++ (b'=' ∷ value) in
    let whole : split_tags [] raw ≡ raw ∷ [] =
      split_tags-Lacks raw [] (All-append _ key (b'=' ∷ value) q (omega arith, v)) in
    let at : index_byte raw b'=' ≡ some (length key) = index_byte-append b'=' key value p in
    let test : (ltb (length key) 1 || ltb (length raw) (length key + 1)) ≡ false =
      ground (arith, length_pos key ne, length-append key (b'=' ∷ value)) in
    rw (without_at-Lacks key r (b'=' ∷ value) ne, whole)
      (rw (at, parse_part)
        (rw (test, take-length-append, drop-length-add_one-append) (rw lookup-insert_self)))
