-- ===== src/Registry/Size.antt =====
-- The number of handlers, `Caller.Len`, and that an identifier stands at most once in a map.
use girc.Prelude.{
  count-keys-insert, count-keys-delete, length-insert, length-delete, count-lookup, is_some, ◌+◌,
  ◌≡◌, ◌≤◌, refl, arith, Bool, false, ◌||◌, Option, none, some, ◌∷◌, [], if◌then◌else◌, Bytes, beq,
  is_empty, length, Map, lookup, insert, delete, keys, count, Bool-cases, inl, inr, ap,
}
use girc.Wire.{Platform, to_upper}
use girc.Registry.{
  Caller, Table, handlers_of, handlers_at, put, id_of, remove_found, remove_from, remove_id, remove,
  with_bg, register, clear, total, len, total_for, count_for,
}
use girc.Registry.Refine.{at, handlers_at-insert, handlers_at-delete}

nil_unique {ℓ} : (V : Type ℓ) (i : Bytes) → count i (keys {V = V} []) ≤ 1
unfolding count keys
nil_unique V i = omega arith

module _ {ℓ} {H : Type ℓ} where
  total-insert :
      (cmd : Bytes) (handlers : Map H) (table : Table H)
      → total (insert cmd handlers table) + length (handlers_at cmd table)
        ≡ total table + length handlers
  unfolding total insert handlers_at lookup
  total-insert cmd handlers [] = omega arith
  total-insert cmd handlers ((k, m) ∷ table) = ground (arith, total-insert cmd handlers table)

  total-delete :
      (cmd : Bytes) (table : Table H) → total (delete cmd table) + total_for cmd table ≡ total table
  unfolding total delete total_for
  total-delete cmd [] = omega arith
  total-delete cmd ((k, m) ∷ table) = ground (arith, total-delete cmd table)

  -- No identifier stands twice in the map of a command.
  abbrev pub HasUniqueIds : Table H → Type 0
  HasUniqueIds table = (cmd uid : Bytes) → count uid (keys (handlers_at cmd table)) ≤ 1

  insert-HasUniqueIds :
      (cmd : Bytes) (handlers : Map H) (table : Table H)
      → ((uid : Bytes) → count uid (keys handlers) ≤ 1)
      → HasUniqueIds table
      → HasUniqueIds (insert cmd handlers table)
  insert-HasUniqueIds cmd handlers table p h k i = elim (Bool-cases (beq cmd k)) [
    | inl e ↦ rw (handlers_at-insert cmd k handlers table) (rw e (p i))
    | inr e ↦ rw (handlers_at-insert cmd k handlers table) (rw e (h k i))
  ]

  delete-HasUniqueIds :
      (cmd : Bytes) (table : Table H) → HasUniqueIds table → HasUniqueIds (delete cmd table)
  delete-HasUniqueIds cmd table h k i = elim (Bool-cases (beq cmd k)) [
    | inl e ↦ rw (handlers_at-delete cmd k table) (rw e (nil_unique H i))
    | inr e ↦ rw (handlers_at-delete cmd k table) (rw e (h k i))
  ]

  put-HasUniqueIds :
      (cmd uid : Bytes) (h : H) (table : Table H)
      → HasUniqueIds table
      → HasUniqueIds (put cmd uid h table)
  unfolding put
  put-HasUniqueIds cmd uid h table p =
      insert-HasUniqueIds cmd (insert uid h (handlers_at cmd table)) table
        (λ i. ground (arith, count-keys-insert uid i h (handlers_at cmd table), p cmd i)) p

  total-put :
      (cmd uid : Bytes) (h : H) (table : Table H)
      → total (put cmd uid h table)
        ≡ total table + (if is_some (lookup uid (handlers_at cmd table)) then 0 else 1)
  unfolding put
  total-put cmd uid h table = omega (
    arith,
    total-insert cmd (insert uid h (handlers_at cmd table)) table,
    length-insert uid h (handlers_at cmd table),
  )

  -- What Remove leaves: one handler less, if it says that there was one.
  abbrev pub Shrinks : Caller H → Caller H × Bool → Type 0
  Shrinks c r = HasUniqueIds r.0.external × (len r.0 + (if r.1 then 1 else 0) ≡ len c)

  remove_found-Shrinks :
      (cmd uid : Bytes) (c : Caller H) (handlers : Map H) (found : Option H)
      → HasUniqueIds c.external
      → handlers_at cmd c.external ≡ handlers
      → lookup uid handlers ≡ found
      → Shrinks c (remove_found cmd uid c handlers found)
  unfolding remove_found len
  remove_found-Shrinks cmd uid c handlers none u e f = (u, omega arith)
  remove_found-Shrinks cmd uid c handlers (some h) u e f =
      let unique : (i : Bytes) → count i (keys handlers) ≤ 1 = λ i. rw (← e) (u cmd i) in
      let size : length (handlers_at cmd c.external) ≡ length handlers = ap length e in
      (
        insert-HasUniqueIds cmd (delete uid handlers) c.external
            (λ i. ground (arith, count-keys-delete uid i handlers, unique i)) u,
        omega (
          arith,
          total-insert cmd (delete uid handlers) c.external,
          length-delete uid handlers,
          count-lookup uid handlers h f,
          unique uid,
          size,
        ),
      )

  remove_from-Shrinks :
      (cmd uid : Bytes) (c : Caller H) (o : Option (Map H))
      → HasUniqueIds c.external
      → lookup cmd c.external ≡ o
      → Shrinks c (remove_from cmd uid c o)
  unfolding remove_from handlers_at len
  remove_from-Shrinks cmd uid c none u e = (u, omega arith)
  remove_from-Shrinks cmd uid c (some handlers) u e =
      remove_found-Shrinks cmd uid c handlers (lookup uid handlers) u (ap handlers_of e) refl

  remove_id-Shrinks :
      (c : Caller H) (id : Bytes × Bytes) → HasUniqueIds c.external → Shrinks c (remove_id c id)
  unfolding remove_id len
  remove_id-Shrinks c (cmd, uid) u = elim (Bool-cases (is_empty cmd || is_empty uid)) [
    | inl e ↦ rw e (u, omega arith)
    | inr e ↦ rw e (remove_from-Shrinks cmd uid c (lookup cmd c.external) u refl)
  ]

  -- Where no identifier stands twice, none does after a registration, a Clear or a Remove either.
  -- Len grows by one at a registration for users under a free identifier, and stays at one under
  -- an identifier that is in use; it falls by Count at a Clear; and it falls by one at a Remove
  -- that succeeds, and stays at one that does not.
  pub len_lem :
      (p : Platform) (c : Caller H) (uid : Bytes) (bg : Bool) (cmd id : Bytes) (h : H)
      → HasUniqueIds c.external
      → HasUniqueIds (register p uid false bg cmd h c).0.external
        × (len (register p uid false bg cmd h c).0
            ≡ len c + (if is_some (at c (to_upper p cmd) (with_bg bg uid)) then 0 else 1))
        × HasUniqueIds (clear p c cmd).external
        × (len (clear p c cmd) + count_for p c cmd ≡ len c)
        × Shrinks c (remove c id)
  unfolding register len clear count_for remove
  len_lem p c uid bg cmd id h u = (
    put-HasUniqueIds (to_upper p cmd) (with_bg bg uid) h c.external u,
    total-put (to_upper p cmd) (with_bg bg uid) h c.external,
    delete-HasUniqueIds (to_upper p cmd) c.external u,
    total-delete (to_upper p cmd) c.external,
    remove_id-Shrinks c (id_of id) u,
  )
