-- ===== src/Handlers/Membership/Join.antt =====
-- handleJOIN keeps the tracker consistent, and does not panic.
use girc.Prelude.{
  ℕ, ◌≡◌, refl, ◌∙◌, arith, ◌&&◌, Option, none, some, List, [], ◌∷◌, Bytes, beq_iff,
  lookup-insert_self, insert-insert, ok, Bool-cases, inl, inr, if◌then◌else◌, beq,
}
use girc.Client.{Client, get_id, notify, update_state}
use girc.Event.{Event}
use girc.Handlers.Membership.{
  channel_ready, user_ready, extend, entered, after_join, join_as, join_user, join_channel,
  join_from, handle_join, ask_about_us,
}
use girc.Source.{Source}
use girc.Source
use girc.Text.Fold.{to_rfc1459, IsSettled}
use girc.Tracker.{
  User, Channel, State, lookup_channel, lookup_user, create_channel, create_user, add_user,
  add_channel,
}
use girc.Tracker.Create.{created_channel, created_user, channels-create_user}
use girc.Tracker.Consistent.{
  IsConsistent, members, users_of, users_of-create_channel, create_channel-IsConsistent,
  create_user-IsConsistent,
}
use girc.Tracker.Consistent.Join.{link, link-IsConsistent}
use girc.Tracker.Consistent.Counts.{count-insert_channel, count-add_user}
use girc.Tracker.Consistent.Update.{update_user-IsConsistent, same_tables-IsConsistent}

channel_ready_total :
    (now : ℕ) (name : Bytes) (s : State) (found : Option Channel)
    → IsConsistent s
    → lookup_channel s name ≡ found
    → (s' : State) × (channel_ready now name s found ≡ some s')
      × IsConsistent s'
      × ((ch : Channel) × (lookup_channel s' name ≡ some ch))
      × ((c : Bytes) → users_of s' c ≡ users_of s c)
unfolding channel_ready
channel_ready_total now name s none h e =
    let (made, ch) = created_channel now name s e in
    (
      (create_channel now name s).0,
      rw made,
      create_channel-IsConsistent now name s h,
      ch,
      users_of-create_channel now name s,
    )
channel_ready_total now name s (some ch) h e = (s, refl, h, (ch, e), λ c. refl)

user_ready_total :
    (now : ℕ) (src : Source) (s : State) (found : Option User)
    → IsConsistent s
    → lookup_user s src.name ≡ found
    → (s' : State) × (user_ready now src s found ≡ some s')
      × IsConsistent s'
      × ((u : User) × (lookup_user s' src.name ≡ some u))
      × (s'.channels ≡ s.channels)
unfolding user_ready
user_ready_total now src s none h e =
    let (made, u) = created_user now src s e in
    (
      (create_user now src s).0,
      rw made,
      create_user-IsConsistent now src s h,
      u,
      channels-create_user now src s,
    )
user_ready_total now src s (some u) h e = (s, refl, h, (u, e), refl)

extend-same :
    (params : List Bytes) (u : User)
    → ((extend params u).channel_list ≡ u.channel_list) × ((extend params u).nick ≡ u.nick)
unfolding extend
extend-same params u = ground arith

entered-IsConsistent :
    (name : Bytes) (src : Source) (params : List Bytes) (s : State) (ch : Channel) (u : User)
    → IsConsistent s
    → IsSettled name
    → IsSettled src.name
    → lookup_channel s name ≡ some ch
    → lookup_user s src.name ≡ some u
    → IsConsistent (entered name src params s ch u)
unfolding lookup_channel lookup_user link
entered-IsConsistent name src params s ch u h settled settled' e e' =
    let linked =
      link-IsConsistent (to_rfc1459 name) (to_rfc1459 src.name) ch u u.nick ch.name s h e e'
        (h.channel_key (to_rfc1459 name) ch e) (h.user_key (to_rfc1459 src.name) u e') settled
        settled' in
    let same = extend-same params (add_channel u ch.name) in
    let updated =
      update_user-IsConsistent (to_rfc1459 src.name)
        (link (to_rfc1459 name) (to_rfc1459 src.name) ch u u.nick ch.name s) linked
        (add_channel u ch.name) (extend params (add_channel u ch.name)) (lookup-insert_self _ _ _)
        same.0 same.1 in
    rw insert-insert at updated

-- The membership after handleJOIN: the user stands in the channel, and nothing else changes.
abbrev pub Joins : Bytes → Bytes → State → State → Type 0
Joins name nick s s' =
    (c u : Bytes)
    → members s' c u
      ≡ (if beq (to_rfc1459 name) c && beq (to_rfc1459 nick) u then 1 else members s c u)

entered-Joins :
    (name : Bytes) (src : Source) (params : List Bytes) (s : State) (ch : Channel) (u : User)
    → IsConsistent s
    → lookup_channel s name ≡ some ch
    → lookup_user s src.name ≡ some u
    → Joins name src.name s (entered name src params s ch u)
unfolding lookup_channel lookup_user
entered-Joins name src params s ch u h e e' c v = ground (
  arith,
  count-insert_channel c v (to_rfc1459 name) (add_user ch u.nick) s.channels,
  count-add_user v u.nick ch,
  beq_iff (to_rfc1459 name) c,
  h.user_key (to_rfc1459 src.name) u e',
  h.lists.once c v,
)

users_of-after_join :
    (name : Bytes) (src : Source) (c : Client)
    → (after_join name src c).state.channels ≡ c.state.channels
unfolding after_join ask_about_us
users_of-after_join name src c = ground arith

state-after_join :
    (name : Bytes) (src : Source) (c : Client)
    → IsConsistent c.state
    → IsConsistent (after_join name src c).state
unfolding after_join ask_about_us
state-after_join name src c h = elim (Bool-cases (beq (Source.id src) (get_id c))) [
  | inl e ↦ rw e (same_tables-IsConsistent c.state _ refl refl h)
  | inr e ↦ rw e h
]

join_as_total :
    (now : ℕ) (c : Client) (src : Source) (name : Bytes) (params : List Bytes)
    → IsConsistent c.state
    → IsSettled name
    → IsSettled src.name
    → (c' : Client) × (join_as now c src name params ≡ ok c')
      × IsConsistent c'.state
      × Joins name src.name c.state c'.state
unfolding join_as
join_as_total now c src name params h settled settled' =
    let (s, made, h', (ch, e), kept) = channel_ready_total now name c.state _ h refl in
    let (s', made', h'', (u, e'), same) = user_ready_total now src s _ h' refl in
    let e'' : lookup_channel s' name ≡ some ch = unfold lookup_channel in rw same e in
    let s'' = entered name src params s' ch u in
    (
      notify update_state (after_join name src (record c { state = s'' })),
      rw (made, join_channel) (rw (made', join_user) (rw (e'', e'))),
      state-after_join name src (record c { state = s'' })
          (entered-IsConsistent name src params s' ch u h'' settled settled' e'' e'),
      λ c₁ u₁.
          rw users_of-after_join
            (entered-Joins name src params s' ch u h'' e'' e' c₁ u₁ ∙ rw (same, kept c₁)),
    )

-- The names by which an event refers to its source and its first parameter are kept by a second
-- `ToRFC1459`.
abbrev pub SourceIsSettled : Option Source → Type 0
SourceIsSettled none = Unit
SourceIsSettled (some src) = IsSettled src.name

abbrev pub FirstIsSettled : List Bytes → Type 0
FirstIsSettled [] = Unit
FirstIsSettled (name ∷ params) = IsSettled name

-- An event of a source that joins a channel does so; any other changes nothing.
abbrev pub JoinsAs : Option Source → List Bytes → State → State → Type 0
JoinsAs (some src) (name ∷ params) s s' = Joins name src.name s s'
JoinsAs _ _ s s' = (c u : Bytes) → members s' c u ≡ members s c u

join_from_total :
    (now : ℕ) (c : Client) (source : Option Source) (params : List Bytes)
    → IsConsistent c.state
    → SourceIsSettled source
    → FirstIsSettled params
    → (c' : Client) × (join_from now c source params ≡ ok c')
      × IsConsistent c'.state
      × JoinsAs source params c.state c'.state
unfolding join_from
join_from_total now c none [] h p q = (c, refl, h, λ c₁ u₁. refl)
join_from_total now c none (name ∷ params) h p q = (c, refl, h, λ c₁ u₁. refl)
join_from_total now c (some src) [] h p q = (c, refl, h, λ c₁ u₁. refl)
join_from_total now c (some src) (name ∷ params) h p q = join_as_total now c src name params h q p

-- In a consistent state handleJOIN does not panic, and leaves a consistent state in which the
-- source stands in the channel and nothing else has changed in the lists of users (nothing at all
-- without a source or a channel), if a second `ToRFC1459` keeps the two names.
pub handle_join_total :
    (now : ℕ) (c : Client) (e : Event)
    → IsConsistent c.state
    → SourceIsSettled e.source
    → FirstIsSettled e.params
    → (c' : Client) × (handle_join now c e ≡ ok c')
      × IsConsistent c'.state
      × JoinsAs e.source e.params c.state c'.state
unfolding handle_join
handle_join_total now c e = join_from_total now c e.source e.params
