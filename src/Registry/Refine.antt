-- ===== src/Registry/Refine.antt =====
-- The registry as a function: which handler stands under a command and an identifier.
use girc.Prelude.{
  is_some, ◌≡◌, refl, arith, Bool, true, false, ◌&&◌, Option, none, some, ◌∷◌, [], if◌then◌else◌,
  Bytes, beq, beq_iff, beq_refl, is_empty, index_byte-append, take-length-append,
  drop-length-add_one-append, Lacks, Map, lookup, insert, delete, lookup-insert, lookup-delete,
  Bool-cases, inl, inr, ap, sym, ◌∙◌,
}
use girc.Wire.{Platform, to_upper}
use girc.Registry.{
  Caller, Table, handlers_of, handlers_at, put, id_of, id_at, remove_found, remove_from, remove_id,
  remove, cuid, with_bg, register, clear, clear_all,
}

id_of-cuid : (cmd uid : Bytes) → Lacks b':' cmd → id_of (cuid cmd uid) ≡ (cmd, uid)
unfolding id_of id_at cuid
id_of-cuid cmd uid h =
    rw (index_byte-append b':' cmd uid h)
      (rw (take-length-append cmd (b':' ∷ uid)) (rw (drop-length-add_one-append cmd b':' uid) refl))

module _ {ℓ} {H : Type ℓ} where
  -- The abstract registry.
  abbrev pub at : Caller H → Bytes → Bytes → Option H
  at c cmd uid = lookup uid (handlers_at cmd c.external)

  pub handlers_at-insert :
      (cmd k : Bytes) (handlers : Map H) (table : Table H)
      → handlers_at k (insert cmd handlers table)
        ≡ (if beq cmd k then handlers else handlers_at k table)
  unfolding handlers_at
  handlers_at-insert cmd k handlers table = elim (Bool-cases (beq cmd k)) [
    | inl e ↦ rw (lookup-insert cmd k handlers table) (rw e refl)
    | inr e ↦ rw (lookup-insert cmd k handlers table) (rw e refl)
  ]

  pub handlers_at-delete :
      (cmd k : Bytes) (table : Table H)
      → handlers_at k (delete cmd table) ≡ (if beq cmd k then [] else handlers_at k table)
  unfolding handlers_at
  handlers_at-delete cmd k table = elim (Bool-cases (beq cmd k)) [
    | inl e ↦ rw (lookup-delete cmd k table) (rw e refl)
    | inr e ↦ rw (lookup-delete cmd k table) (rw e refl)
  ]

  lookup-put :
      (cmd uid k i : Bytes) (h : H) (table : Table H)
      → lookup i (handlers_at k (put cmd uid h table))
        ≡ (if beq cmd k && beq uid i then some h else lookup i (handlers_at k table))
  unfolding put
  lookup-put cmd uid k i h table = elim (Bool-cases (beq cmd k)) [
    | inl e ↦ rw (handlers_at-insert cmd k (insert uid h (handlers_at cmd table)) table) (
        rw e (
          rw (lookup-insert uid i h (handlers_at cmd table)) (
            ap (λ c. if beq uid i then some h else lookup i (handlers_at c table))
              ((beq_iff cmd k).0 e))))
    | inr e ↦ rw (handlers_at-insert cmd k (insert uid h (handlers_at cmd table)) table) (rw e refl)
  ]

  lookup-take_out :
      (cmd uid k i : Bytes) (handlers : Map H) (table : Table H)
      → handlers_at cmd table ≡ handlers
      → lookup i (handlers_at k (insert cmd (delete uid handlers) table))
        ≡ (if beq cmd k && beq uid i then none else lookup i (handlers_at k table))
  lookup-take_out cmd uid k i handlers table e = elim (Bool-cases (beq cmd k)) [
    | inl same ↦ rw (handlers_at-insert cmd k (delete uid handlers) table) (
        rw same (
          rw (lookup-delete uid i handlers) (
            ap (λ m. if beq uid i then none else lookup i m)
              (sym e ∙ ap (λ c. handlers_at c table) ((beq_iff cmd k).0 same)))))
    | inr other ↦ rw (handlers_at-insert cmd k (delete uid handlers) table) (rw other refl)
  ]

  missing :
      (f : Bytes → Bytes → Option H) (cmd uid k i : Bytes)
      → f cmd uid ≡ none
      → f k i ≡ (if beq cmd k && beq uid i then none else f k i)
  missing f cmd uid k i h = ground (arith, beq_iff cmd k, beq_iff uid i)

  set_and_unset :
      (f : Bytes → Bytes → Option H) (cmd uid k i : Bytes) (h : H)
      → f cmd uid ≡ none
      → (if beq cmd k && beq uid i then none else if beq cmd k && beq uid i then some h else f k i)
        ≡ f k i
  set_and_unset f cmd uid k i h e = ground (arith, beq_iff cmd k, beq_iff uid i)

  register-cuid :
      (p : Platform) (c : Caller H) (uid : Bytes) (bg : Bool) (cmd : Bytes) (h : H)
      → (register p uid false bg cmd h c).1 ≡ cuid (to_upper p cmd) (with_bg bg uid)
  unfolding register
  register-cuid p c uid bg cmd h = refl

  at-register :
      (p : Platform) (uid : Bytes) (bg : Bool) (cmd : Bytes) (h : H) (c : Caller H) (k i : Bytes)
      → at (register p uid false bg cmd h c).0 k i
        ≡ (if beq (to_upper p cmd) k && beq (with_bg bg uid) i then some h else at c k i)
  unfolding register
  at-register p uid bg cmd h c k i = lookup-put (to_upper p cmd) (with_bg bg uid) k i h c.external

  at-clear :
      (p : Platform) (c : Caller H) (cmd k i : Bytes)
      → at (clear p c cmd) k i ≡ (if beq (to_upper p cmd) k then none else at c k i)
  unfolding clear lookup
  at-clear p c cmd k i = elim (Bool-cases (beq (to_upper p cmd) k)) [
    | inl e ↦ rw (handlers_at-delete (to_upper p cmd) k c.external) (rw e refl)
    | inr e ↦ rw (handlers_at-delete (to_upper p cmd) k c.external) (rw e refl)
  ]

  at-clear_all : (c : Caller H) (k i : Bytes) → at (clear_all c) k i ≡ none
  unfolding clear_all handlers_at lookup
  at-clear_all c k i = refl

  -- What a removal does to the abstract registry, and whether it says that there was a handler.
  abbrev pub Removes : Bytes → Bytes → Caller H → Caller H × Bool → Type ℓ
  Removes cmd uid c r =
      ((k i : Bytes) → at r.0 k i ≡ (if beq cmd k && beq uid i then none else at c k i))
      × (r.1 ≡ is_some (at c cmd uid))

  remove_found-Removes :
      (cmd uid : Bytes) (c : Caller H) (handlers : Map H) (found : Option H)
      → handlers_at cmd c.external ≡ handlers
      → lookup uid handlers ≡ found
      → Removes cmd uid c (remove_found cmd uid c handlers found)
  unfolding remove_found
  remove_found-Removes cmd uid c handlers none e f =
      (λ k i. missing (at c) cmd uid k i (rw e f), rw e (rw f refl))
  remove_found-Removes cmd uid c handlers (some h) e f =
      (λ k i. lookup-take_out cmd uid k i handlers c.external e, rw e (rw f refl))

  remove_from-Removes :
      (cmd uid : Bytes) (c : Caller H) (o : Option (Map H))
      → lookup cmd c.external ≡ o
      → Removes cmd uid c (remove_from cmd uid c o)
  unfolding remove_from handlers_at lookup
  remove_from-Removes cmd uid c none e = (λ k i. missing (at c) cmd uid k i (rw e refl), rw e refl)
  remove_from-Removes cmd uid c (some handlers) e =
      remove_found-Removes cmd uid c handlers (lookup uid handlers) (ap handlers_of e) refl

  remove-Removes :
      (c : Caller H) (cmd uid : Bytes)
      → Lacks b':' cmd
      → is_empty cmd ≡ false
      → is_empty uid ≡ false
      → Removes cmd uid c (remove c (cuid cmd uid))
  unfolding remove remove_id
  remove-Removes c cmd uid h p q =
      rw (id_of-cuid cmd uid h)
        (rw p (rw q (remove_from-Removes cmd uid c (lookup cmd c.external) refl)))

  -- For a command without ":" and an identifier, neither of them empty, the registry refines a
  -- function from a command and an identifier to a handler: registering a handler for users sets
  -- one place, Clear empties a command, ClearAll everything, and Remove the place that the
  -- identifier names, and it says whether there was a handler.
  pub registry_refines :
      (p : Platform) (c : Caller H) (uid : Bytes) (bg : Bool) (cmd : Bytes) (h : H)
      → Lacks b':' cmd
      → is_empty cmd ≡ false
      → is_empty uid ≡ false
      → ((k i : Bytes)
          → at (register p uid false bg cmd h c).0 k i
            ≡ (if beq (to_upper p cmd) k && beq (with_bg bg uid) i then some h else at c k i))
        × ((k i : Bytes)
            → at (clear p c cmd) k i ≡ (if beq (to_upper p cmd) k then none else at c k i))
        × ((k i : Bytes) → at (clear_all c) k i ≡ none)
        × Removes cmd uid c (remove c (cuid cmd uid))
  registry_refines p c uid bg cmd h lacks m n = (
    λ k i. at-register p uid bg cmd h c k i,
    λ k i. at-clear p c cmd k i,
    λ k i. at-clear_all c k i,
    remove-Removes c cmd uid lacks m n,
  )

  -- Remove with the identifier that a registration gave succeeds and undoes it, if the identifier
  -- was free, and the command in upper case has no ":" and is not empty, nor are the letters.
  pub remove-register :
      (p : Platform) (c : Caller H) (uid : Bytes) (bg : Bool) (cmd : Bytes) (h : H)
      → Lacks b':' (to_upper p cmd)
      → is_empty (to_upper p cmd) ≡ false
      → is_empty (with_bg bg uid) ≡ false
      → at c (to_upper p cmd) (with_bg bg uid) ≡ none
      → let r = register p uid false bg cmd h c in
        ((remove r.0 r.1).1 ≡ true) × ((k i : Bytes) → at (remove r.0 r.1).0 k i ≡ at c k i)
  remove-register p c uid bg cmd h lacks m n free =
      let r = register p uid false bg cmd h c in
      let (gone, said) = remove-Removes r.0 (to_upper p cmd) (with_bg bg uid) lacks m n in
      rw (register-cuid p c uid bg cmd h) (
        said
            ∙ ap is_some (at-register p uid bg cmd h c (to_upper p cmd) (with_bg bg uid))
            ∙ rw (beq_refl (to_upper p cmd)) (rw (beq_refl (with_bg bg uid)) refl),
        λ k i.
            gone k i
            ∙ ap (λ o. if beq (to_upper p cmd) k && beq (with_bg bg uid) i then none else o)
                (at-register p uid bg cmd h c k i)
            ∙ set_and_unset (at c) (to_upper p cmd) (with_bg bg uid) k i h free,
      )
