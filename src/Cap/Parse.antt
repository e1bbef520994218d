-- ===== src/Cap/Parse.antt =====
-- What the client keeps of the server's lists of capabilities.
use girc.Prelude.{
  ℕ, ◌+◌, ◌≡◌, ◌≤◌, arith, Bool, true, ◌&&◌, ◌||◌, Option, none, some, List, [], ◌∷◌, if◌then◌else◌,
  Bytes, codes, beq, beq_iff, beq_refl, length, get_or, leb, Map, lookup, insert, keys, count,
  is_some, branches, Option-cases, inl, inr, lookup-insert, count-keys-insert, count-lookup,
  index_byte, split, drop, take,
}
use girc.Event.{Event, last}
use girc.Cap.Subcommands.{del-ls, del-new, nak-ls, nak-new}
use girc.Cap.Options.{Caps, parse_options, cap_at, parse_caps, parse_cap}
use girc.Cap.{
  Config, CapState, some_value, contains, select_cap, select_caps, possible_cap_list, handle_cap,
}

-- No capability stands twice.
abbrev IsUnique : Caps → Type 0
IsUnique caps = (k : Bytes) → count k (keys caps) ≤ 1

insert-IsUnique :
    (name : Bytes) (attrs : Map Bytes) (caps : Caps)
    → IsUnique caps
    → IsUnique (insert name attrs caps)
insert-IsUnique name attrs caps h k = ground (arith, count-keys-insert name k attrs caps, h k)

cap_at-IsUnique :
    (part : Bytes) (at : Option ℕ) (caps : Caps) → IsUnique caps → IsUnique (cap_at part at caps)
unfolding cap_at
cap_at-IsUnique part none caps h = insert-IsUnique part [] caps h
cap_at-IsUnique part (some i) caps h =
    branches IsUnique _ _ _ (λ _. insert-IsUnique part [] caps h)
      (λ _.
        insert-IsUnique (take i part) (parse_options (split b',' [] (drop (i + 1) part)) []) caps h)

parse_caps-IsUnique :
    (parts : List Bytes) (caps : Caps) → IsUnique caps → IsUnique (parse_caps parts caps)
unfolding parse_caps
parse_caps-IsUnique [] caps h = h
parse_caps-IsUnique (part ∷ parts) caps h =
    parse_caps-IsUnique parts (cap_at part (index_byte part b'=') caps)
      (cap_at-IsUnique part (index_byte part b'=') caps h)

parse_cap-IsUnique : (raw : Bytes) → IsUnique (parse_cap raw)
unfolding parse_cap count keys
parse_cap-IsUnique raw = parse_caps-IsUnique (split b' ' [] raw) [] (λ k. omega arith)

lookup-select_cap :
    (name : Bytes) (attrs : Map Bytes) (values : Option (List Bytes)) (tmp : Caps) (k : Bytes)
    → lookup k (select_cap name attrs values tmp)
      ≡ (if beq name k && is_some values then some attrs else lookup k tmp)
unfolding select_cap contains some_value lookup
lookup-select_cap name attrs none tmp k = ground arith
lookup-select_cap name [] (some values) tmp k = ground (arith, lookup-insert name k [] tmp)
lookup-select_cap name (attr ∷ attrs) (some []) tmp k =
    ground (arith, lookup-insert name k (attr ∷ attrs) tmp)
lookup-select_cap name ((attr, v) ∷ attrs) (some (value ∷ values)) tmp k =
    ground (arith, lookup-insert name k ((attr, v) ∷ attrs) tmp, beq_refl attr)

absent : (k : Bytes) (caps : Caps) → count k (keys caps) ≡ 0 → lookup k caps ≡ none
absent k caps h = elim (Option-cases (lookup k caps)) [
  | inl e ↦ e
  | inr (attrs, e) ↦ absurd (omega (arith, count-lookup k caps attrs e, h))
]

lookup-select_caps :
    (possible : Map (List Bytes)) (caps tmp : Caps) (k : Bytes)
    → IsUnique caps
    → lookup k (select_caps possible caps tmp) ≡ (
        if is_some (lookup k possible) && is_some (lookup k caps)
        then lookup k caps
        else lookup k tmp)
unfolding select_caps count keys lookup
lookup-select_caps possible [] tmp k h = ground arith
lookup-select_caps possible ((name, attrs) ∷ caps) tmp k h =
    let tail : IsUnique caps = λ j. ground (arith, h j) in
    ground (
      arith,
      lookup-select_caps possible caps (select_cap name attrs (lookup name possible) tmp) k tail,
      lookup-select_cap name attrs (lookup name possible) tmp k,
      beq_iff name k,
      absent k caps,
      h k,
    )

module _ (order : List Bytes → List Bytes) (show : Map Bytes → Bytes) (config : Config)
    (tls : Bool) where
  -- After CAP LS or CAP NEW with at least three parameters, the capabilities to request are those
  -- of the message that are possible, each with the attributes that the message gives it,
  -- whatever values the configuration lists for it, and those that waited before under other
  -- names.
  pub lookup-handle_cap :
      (now : ℕ) (s : CapState) (e : Event) (k : Bytes)
      → leb 3 (length e.params) ≡ true
      → (beq (get_or e.params 1 []) (codes "LS") || beq (get_or e.params 1 []) (codes "NEW")) ≡ true
      → lookup k (handle_cap order show config tls now s e).0.tmp_cap ≡ (
          if is_some (lookup k (possible_cap_list config s.sts now))
            && is_some (lookup k (parse_cap (last e)))
          then lookup k (parse_cap (last e))
          else lookup k s.tmp_cap)
  unfolding handle_cap
  lookup-handle_cap now s e k three listing =
      let subcommand : Bytes = get_or e.params 1 [] in
      ground (
        arith,
        del-ls subcommand,
        del-new subcommand,
        nak-ls subcommand,
        nak-new subcommand,
        lookup-select_caps (possible_cap_list config s.sts now) (parse_cap (last e)) s.tmp_cap k
            (parse_cap-IsUnique (last e)),
      )
