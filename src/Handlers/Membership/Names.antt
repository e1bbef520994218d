-- ===== src/Handlers/Membership/Names.antt =====
-- handleNAMES keeps the tracker consistent, and does not panic.
use girc.Prelude.{
  ℕ, ◌≡◌, ◌<◌, refl, arith, Option, none, some, List, [], ◌∷◌, Bytes, IsAscii, All, All-append,
  ◌++◌, ◌==◌, length, ltb, has_byte, Outcome, ok, panic, Bool-cases, Option-cases, inl, inr, lookup,
  lookup-insert_self, insert-insert, get_elem?,
}
use girc.Client.{Client, notify, update_state}
use girc.Event.{Event, last}
use girc.Handlers.Membership.{
  named, named_user, named_source, enter_named, name_as, name_part, name_parts, names_in, names_at,
  handle_names, split_spaces,
}
use girc.Handlers.Membership.Leave.{Handles}
use girc.Perms.{parse_user_prefix}
use girc.Source.{Source, parse_source}
use girc.Source
use girc.Text.Valid.{is_valid_nick}
use girc.Source.Ascii.{name-parse_source-IsAscii}
use girc.Perms.Ascii.{parse_user_prefix-IsAscii}
use girc.Text.Fold.Laws.{IsAscii-IsSettled}
use girc.Text.Fold.{to_rfc1459, IsSettled}
use girc.Tracker.{User, Channel, State, lookup_channel, lookup_user, create_user, add_channel}
use girc.Tracker.Consistent.{IsConsistent, create_user-IsConsistent}
use girc.Tracker.Consistent.Join.{link, link-IsConsistent}
use girc.Tracker.Consistent.Update.{update_user-IsConsistent}
use girc.Tracker.Create.{channels-create_user, created_user_found}

-- The channel whose names are listed is tracked, under the key of its name.
abbrev HasChannel : Bytes → State → Type 0
HasChannel key s = (ch : Channel) × (lookup key s.channels ≡ some ch)

-- The round is made, keeps the state consistent, and keeps the channel.
abbrev Names : Bytes → Outcome State → Type 0
Names key r = (s : State) × (r ≡ ok s) × IsConsistent s × HasChannel key s

named-IsConsistent :
    (key : Bytes) (src : Source) (modes : Bytes) (s : State) (ch : Channel) (u : User)
    → IsConsistent s
    → to_rfc1459 key ≡ key
    → IsSettled src.name
    → lookup key s.channels ≡ some ch
    → lookup (to_rfc1459 src.name) s.users ≡ some u
    → IsConsistent (named key src modes s ch u)
unfolding link Source.id
named-IsConsistent key src modes s ch u h settled settled' e e' =
    let linked =
      link-IsConsistent key (to_rfc1459 src.name) ch u (to_rfc1459 src.name) ch.name s h e e'
        (h.channel_key key ch e) settled' settled settled' in
    let updated =
      update_user-IsConsistent (to_rfc1459 src.name)
        (link key (to_rfc1459 src.name) ch u (to_rfc1459 src.name) ch.name s) linked
        (add_channel u ch.name) (named_user ch modes u) (lookup-insert_self _ _ _) refl refl in
    rw insert-insert at updated

-- The nickname of a source, if there is one, is kept by a second `ToRFC1459`.
abbrev NamesSettled : Option Source → Type 0
NamesSettled none = Unit
NamesSettled (some src) = IsSettled src.name

name_as_total :
    (now : ℕ) (key : Bytes) (s : State) (modes : Bytes) (found : Option Source)
    → IsConsistent s
    → HasChannel key s
    → to_rfc1459 key ≡ key
    → NamesSettled found
    → Names key (name_as now key s modes found)
unfolding name_as
name_as_total now key s modes none h c k p = (s, refl, h, c)
name_as_total now key s modes (some src) h (ch, e) k p =
    let s' = (create_user now src s).0 in
    let (u, e') = created_user_found now src s in
    let e'' : lookup key s'.channels ≡ some ch = rw channels-create_user e in
    (
      named key src modes s' ch u,
      rw (e'', e', enter_named),
      named-IsConsistent key src modes s' ch u (create_user-IsConsistent now src s h) k p e''
          (unfold lookup_user in e'),
      (_, lookup-insert_self _ _ _),
    )

NamesSettled-named_source : (nick : Bytes) → IsAscii nick → NamesSettled (named_source nick)
unfolding named_source
NamesSettled-named_source nick h = elim (Bool-cases (has_byte nick b'@')) [
  | inl e ↦ rw e (IsAscii-IsSettled (parse_source nick).name (name-parse_source-IsAscii nick h))
  | inr e ↦ elim (Bool-cases (is_valid_nick nick)) [
    | inl v ↦ rw (e, v) (IsAscii-IsSettled nick h)
    | inr v ↦ rw (e, v) tt
  ]
]

module _ (now : ℕ) (key : Bytes) (key_settled : to_rfc1459 key ≡ key) where
  name_part_total :
      (s : State) (part : Bytes)
      → IsConsistent s
      → HasChannel key s
      → IsAscii part
      → Names key (name_part now key s (parse_user_prefix part))
  unfolding name_part
  name_part_total s part h c a = elim (Option-cases (parse_user_prefix part)) [
    | inl e ↦ rw e (s, refl, h, c)
    | inr ((modes, nick), e) ↦ rw e (
        name_as_total now key s modes (named_source nick) h c key_settled
          (NamesSettled-named_source nick (parse_user_prefix-IsAscii part modes nick a e)))
  ]

  name_parts_total :
      (parts : List Bytes) (s : State)
      → IsConsistent s
      → HasChannel key s
      → All IsAscii parts
      → Names key (name_parts now key parts s)
  unfolding name_parts
  name_parts_total [] s h c a = (s, refl, h, c)
  name_parts_total (part ∷ parts) s h c a =
      let (s', runs, h', c') = name_part_total s part h c a.0 in
      let (s'', runs', h'', c'') = name_parts_total parts s' h' c' a.1 in
      (s'', rw runs runs', h'', c'')

split_spaces-IsAscii :
    (s piece : Bytes) → IsAscii piece → IsAscii s → All IsAscii (split_spaces piece s)
unfolding split_spaces
split_spaces-IsAscii [] piece p h = (p, tt)
split_spaces-IsAscii (x ∷ s) piece p h = elim (Bool-cases (x == b' ')) [
  | inl e ↦ rw (e, split_spaces) (p, split_spaces-IsAscii s [] tt h.1)
  | inr e ↦
      rw (e, split_spaces)
        (split_spaces-IsAscii s (piece ++ (x ∷ [])) (All-append _ piece (x ∷ []) p (h.0, tt)) h.1)
]

-- The third parameter of a NAMES reply is there, and is kept by a second `ToRFC1459`.
abbrev pub ThirdIsSettled : Option Bytes → Type 0
ThirdIsSettled none = ⊥
ThirdIsSettled (some name) = IsSettled name

names_at_total :
    (now : ℕ) (c : Client) (e : Event) (name : Option Bytes)
    → IsConsistent c.state
    → ThirdIsSettled name
    → IsAscii (last e)
    → Handles (names_at now c e name)
unfolding names_at lookup_channel
names_at_total now c e none h p a = absurd p
names_at_total now c e (some name) h p a =
    elim (Option-cases (lookup (to_rfc1459 name) c.state.channels)) [
      | inl found ↦ rw (found, names_in) (c, refl, h)
      | inr (ch, found) ↦
          let (s, runs, h', c') =
            name_parts_total now (to_rfc1459 name) p (split_spaces [] (last e)) c.state h
              (ch, found) (split_spaces-IsAscii (last e) [] tt a) in
          (notify update_state (record c { state = s }), rw (found, names_in) (rw runs), h')
    ]

-- In a consistent state handleNAMES does not panic on a reply with three parameters, and leaves a
-- consistent state, if the list of names is ASCII and a second `ToRFC1459` keeps the channel's name.
pub handle_names_total :
    (now : ℕ) (c : Client) (e : Event)
    → IsConsistent c.state
    → ThirdIsSettled (get_elem? e.params 2)
    → IsAscii (last e)
    → (c' : Client) × (handle_names now c e ≡ ok c') × IsConsistent c'.state
unfolding handle_names
handle_names_total now c e h p a = elim (Bool-cases (ltb (length e.params) 1)) [
  | inl b ↦ rw b (c, refl, h)
  | inr b ↦ rw b (names_at_total now c e (get_elem? e.params 2) h p a)
]

get_elem?-short : (l : List Bytes) → length l < 3 → get_elem? l 2 ≡ none
get_elem?-short [] h = refl
get_elem?-short (x ∷ []) h = refl
get_elem?-short (x ∷ y ∷ []) h = refl
get_elem?-short (x ∷ y ∷ z ∷ l) h = absurd (omega arith)

-- handleNAMES panics on a reply with one or two parameters.
handle_names_short :
    (now : ℕ) (c : Client) (e : Event)
    → 0 < length e.params
    → length e.params < 3
    → handle_names now c e ≡ panic
unfolding handle_names names_at
handle_names_short now c e h h' = elim (Bool-cases (ltb (length e.params) 1)) [
  | inl b ↦ absurd (ground arith)
  | inr b ↦ rw (b, get_elem?-short e.params h') refl
]
