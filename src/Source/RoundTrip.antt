-- ===== src/Source/RoundTrip.antt =====
-- Printing a source and reading it back.
use girc.Prelude.{
  ◌≡◌, ◌≢◌, true, ◌&&◌, none, some, [], ◌∷◌, ◌++◌, ltb, Bytes, Lacks, All-append, refl, arith,
  append_assoc, length, take, index_byte, index_byte-append, index_byte-Lacks, length-append,
  take-length-append, drop-length-add_one-append, ltb-zero-suc,
}
use girc.Source.{Source, parse_source, len, string, bytes}

-- A source that its printed form determines.
pub record IsPlain (s : Source) : Type 0 where
  pub name_ne_nil : s.name ≢ []
  pub name_lacks_ident : Lacks b'!' s.name
  pub name_lacks_host : Lacks b'@' s.name
  pub ident_lacks_host : Lacks b'@' s.ident
  pub host_lacks_ident : s.ident ≡ [] → Lacks b'!' s.host

-- `Source.Len` is the length of both printed forms, which are the same text.
pub len-string : (s : Source) → (len s ≡ length (string s)) × (bytes s ≡ string s)
unfolding len string bytes
len-string s = ground (
  arith,
  length-append s.name (b'!' ∷ s.ident),
  length-append s.name (b'@' ∷ s.host),
  length-append (s.name ++ (b'!' ∷ s.ident)) (b'@' ∷ s.host),
  append_assoc s.name (b'!' ∷ []) s.ident,
  append_assoc s.name (b'@' ∷ []) s.host,
  append_assoc (s.name ++ (b'!' ∷ s.ident)) (b'@' ∷ []) s.host,
)

length_pos : (name : Bytes) → name ≢ [] → ltb 0 (length name) ≡ true
length_pos [] h = absurd (h refl)
length_pos (x ∷ name) h = ground arith

-- `<nick>!<user>@<host>`
parse_source_full :
    (name ident host : Bytes)
    → name ≢ []
    → Lacks b'!' name
    → Lacks b'@' name
    → Lacks b'@' ident
    → parse_source ((name ++ (b'!' ∷ ident)) ++ (b'@' ∷ host))
      ≡ record { name = name; ident = ident; host = host }
unfolding parse_source
parse_source_full name ident host ne p q r =
    let raw = (name ++ (b'!' ∷ ident)) ++ (b'@' ∷ host) in
    let user : index_byte raw b'!' ≡ some (length name) =
      rw append_assoc (index_byte-append b'!' name (ident ++ (b'@' ∷ host)) p) in
    let at : index_byte raw b'@' ≡ some (length (name ++ (b'!' ∷ ident))) =
      index_byte-append b'@' (name ++ (b'!' ∷ ident)) host
        (All-append _ name (b'!' ∷ ident) q (omega arith, r)) in
    let order : (ltb 0 (length name) && ltb (length name) (length (name ++ (b'!' ∷ ident))))
        ≡ true =
      ground (arith, length_pos name ne, length-append name (b'!' ∷ ident)) in
    let first : take (length name) raw ≡ name = rw append_assoc (take-length-append name _) in
    simp (user, at, order, first, take-length-append, drop-length-add_one-append)

-- `<nick>!<user>`
parse_source_user :
    (name ident : Bytes)
    → name ≢ []
    → Lacks b'!' name
    → Lacks b'@' name
    → Lacks b'@' ident
    → parse_source (name ++ (b'!' ∷ ident)) ≡ record { name = name; ident = ident; host = [] }
unfolding parse_source
parse_source_user name ident ne p q r =
    let at : index_byte (name ++ (b'!' ∷ ident)) b'@' ≡ none =
      index_byte-Lacks b'@' (name ++ (b'!' ∷ ident))
        (All-append _ name (b'!' ∷ ident) q (omega arith, r)) in
    rw (
      index_byte-append b'!' name ident p,
      at,
      length_pos name ne,
      take-length-append,
      drop-length-add_one-append,
    )

-- `<nick>@<host>`
parse_source_host :
    (name host : Bytes)
    → name ≢ []
    → Lacks b'!' name
    → Lacks b'@' name
    → Lacks b'!' host
    → parse_source (name ++ (b'@' ∷ host)) ≡ record { name = name; ident = []; host = host }
unfolding parse_source
parse_source_host name host ne p q r =
    let user : index_byte (name ++ (b'@' ∷ host)) b'!' ≡ none =
      index_byte-Lacks b'!' (name ++ (b'@' ∷ host))
        (All-append _ name (b'@' ∷ host) p (omega arith, r)) in
    rw (
      user,
      index_byte-append b'@' name host q,
      length_pos name ne,
      take-length-append,
      drop-length-add_one-append,
    )

parse_source_name :
    (name : Bytes)
    → Lacks b'!' name
    → Lacks b'@' name
    → parse_source name ≡ record { name = name; ident = []; host = [] }
unfolding parse_source
parse_source_name name p q = rw (index_byte-Lacks b'!' name p, index_byte-Lacks b'@' name q)

parse_source_parts :
    (name ident host : Bytes)
    → IsPlain (record { name = name; ident = ident; host = host })
    → parse_source (string (record { name = name; ident = ident; host = host }))
      ≡ record { name = name; ident = ident; host = host }
unfolding string
parse_source_parts name [] [] h = parse_source_name name h.name_lacks_ident h.name_lacks_host
parse_source_parts name [] (y ∷ ys) h = simp ltb-zero-suc (
    parse_source_host name (y ∷ ys) h.name_ne_nil h.name_lacks_ident h.name_lacks_host
      (h.host_lacks_ident refl))
parse_source_parts name (x ∷ xs) [] h = simp ltb-zero-suc (
    parse_source_user name (x ∷ xs) h.name_ne_nil h.name_lacks_ident h.name_lacks_host
      h.ident_lacks_host)
parse_source_parts name (x ∷ xs) (y ∷ ys) h = simp ltb-zero-suc (
    parse_source_full name (x ∷ xs) (y ∷ ys) h.name_ne_nil h.name_lacks_ident h.name_lacks_host
      h.ident_lacks_host)

-- A source whose name is not empty and has no "!" or "@", whose ident has no "@", and whose host
-- has no "!" if there is no ident, is read back from its printed form.
pub parse_source-string : (s : Source) → IsPlain s → parse_source (string s) ≡ s
parse_source-string s p = parse_source_parts s.name s.ident s.host p
