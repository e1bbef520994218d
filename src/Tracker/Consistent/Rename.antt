-- ===== src/Tracker/Consistent/Rename.antt =====
-- A user takes another nickname: `state.renameUser`.
use girc.Prelude.{
  ℕ, ◌+◌, ◌-◌, ◌<◌, ◌≤◌, ◌≡◌, refl, arith, true, Option, none, some, List, [], ◌∷◌, if◌then◌else◌,
  Bytes, beq, beq_iff, count, lookup, insert, delete, lookup-insert, lookup-delete, Option-cases,
  Bool-cases, inl, inr, ◌⊎◌, ok, count-sort_strings, sort_strings,
}
use girc.Text.Fold.{to_rfc1459, IsSettled}
use girc.Tracker.{
  User, Channel, State, rename_user, rename_user_at, rename_in_all, rename_in, rename_self,
  lookup_user,
}
use girc.Tracker.Lists.{mem_string, replace_first, mem_string-count, count-replace_first}
use girc.Tracker.Consistent.{members, users_of, channels_of, IsConsistent, ChannelKeys}
use girc.Tracker.Consistent.Counts.{
  count-insert_channel, count-insert_user, count-delete_user, count-nil,
}

-- What the loop over the channels of a user leaves.
record Renamed (from to : Bytes) (keys : List Bytes) (s s' : State) : Type 0 where
  users : s'.users ≡ s.users
  counts :
      (c u : Bytes)
      → count u (users_of s' c)
        ≡ (if beq from u then count u (users_of s c) - count c keys else count u (users_of s c))
          + (if beq (to_rfc1459 to) u then count c keys else 0)
  channel_key : ChannelKeys s.channels → ChannelKeys s'.channels

Renamed-nil : (from to : Bytes) (s : State) → Renamed from to [] s s
unfolding count
Renamed-nil from to s = record { users = refl; counts = λ c u. ground arith; channel_key = λ k. k }

-- The channel, and the state, behind one round of the loop.
abbrev renamed_channel : Bytes → Bytes → Channel → Channel
renamed_channel from to ch = record ch {
  user_list = sort_strings (replace_first from (to_rfc1459 to) ch.user_list);
}

abbrev renamed : Bytes → Bytes → Bytes → State → Channel → State
renamed from to key s ch = record s {
  channels = insert key (renamed_channel from to ch) s.channels;
}

count-renamed :
    (from to key : Bytes) (s : State) (ch : Channel) (c u : Bytes)
    → lookup key s.channels ≡ some ch
    → 0 < count from ch.user_list
    → count u (users_of (renamed from to key s ch) c) ≡ (
        if beq key c
        then (if beq from u then count u (users_of s c) - 1 else count u (users_of s c))
          + (if beq (to_rfc1459 to) u then 1 else 0)
        else count u (users_of s c))
count-renamed from to key s ch c u found p = ground (
  arith,
  count-insert_channel c u key (renamed_channel from to ch) s.channels,
  count-sort_strings u (replace_first from (to_rfc1459 to) ch.user_list),
  count-replace_first u from (to_rfc1459 to) ch.user_list,
  beq_iff key c,
)

Renamed-cons :
    (from to key : Bytes) (keys : List Bytes) (s : State) (ch : Channel) (s' : State)
    → lookup key s.channels ≡ some ch
    → 0 < count from ch.user_list
    → ((c : Bytes) → count c (key ∷ keys) ≤ count from (users_of s c))
    → Renamed from to keys (renamed from to key s ch) s'
    → Renamed from to (key ∷ keys) s s'
unfolding count
Renamed-cons from to key keys s ch s' found p listed h = record {
  users = h.users;
  counts = λ c u.
      ground
        (arith, h.counts c u, count-renamed from to key s ch c u found p, listed c, beq_iff from u);
  channel_key = λ k. h.channel_key (λ c x q. ground (
    arith,
    lookup-insert key c (renamed_channel from to ch) s.channels,
    k c x,
    k key ch found,
    beq_iff key c,
  ));
}

-- The channels of the list are there and list the user, so the loop does not panic.
rename_in_all_total :
    (from to : Bytes) (keys : List Bytes) (s : State)
    → ((c : Bytes) → count c keys ≤ count from (users_of s c))
    → (s' : State) × (rename_in_all from to keys s ≡ ok s') × Renamed from to keys s s'
unfolding rename_in_all
rename_in_all_total from to [] s listed = (s, refl, Renamed-nil from to s)
rename_in_all_total from to (key ∷ keys) s listed = elim (Option-cases (lookup key s.channels)) [
  | inl e ↦ absurd (unfold count in ground (arith, listed key, beq_iff key key))
  | inr (ch, found) ↦
      let member : 0 < count from ch.user_list =
        unfold count in ground (arith, listed key, beq_iff key key) in
      let test : mem_string from ch.user_list ≡ true =
        ground (arith, mem_string-count from ch.user_list) in
      let (s', runs, done) = rename_in_all_total from to keys (renamed from to key s ch) (λ c.
        unfold count in
        ground (
          arith,
          listed c,
          count-renamed from to key s ch c from found member,
          beq_iff from from,
        )) in
      (
        s',
        rw (found, rename_in, test) runs,
        Renamed-cons from to key keys s ch s' found member listed done,
      )
]

-- The new nickname is free, or another spelling of the old one.
abbrev pub IsFree : Bytes → Bytes → State → Type 0
IsFree from to s = (lookup (to_rfc1459 to) s.users ≡ none) ⊎ (to_rfc1459 to ≡ to_rfc1459 from)

-- The state behind the update of `s.users`.
abbrev moved : ℕ → Bytes → Bytes → State → User → State
moved now from to s usr = record s {
  users =
      insert (to_rfc1459 to) (record usr { nick = to; last_active = now }) (delete from s.users);
}

move_user-IsConsistent :
    (now : ℕ) (from to : Bytes) (s s' : State) (usr : User)
    → IsConsistent s
    → lookup from s.users ≡ some usr
    → IsSettled to
    → (lookup (to_rfc1459 to) s.users ≡ none) ⊎ (to_rfc1459 to ≡ from)
    → Renamed from to usr.channel_list (moved now from to s usr) s'
    → IsConsistent s'
unfolding count
move_user-IsConsistent now from to s s' usr h found settled free q =
    let theirs : (c u : Bytes)
        → count c (channels_of s' u) ≡ (
            if beq (to_rfc1459 to) u
            then count c usr.channel_list
            else if beq from u
            then 0
            else count c (channels_of s u)) =
      λ c u. rw q.users (
        ground (
          arith,
          count-insert_user c u (to_rfc1459 to) (record usr { nick = to; last_active = now })
              (delete from s.users),
          count-delete_user c u from s.users,
        )) in
    record {
      lists = record {
        agree = λ c u. ground (
          arith,
          q.counts c u,
          theirs c u,
          h.lists.agree c u,
          h.lists.agree c from,
          beq_iff from u,
          beq_iff (to_rfc1459 to) u,
        );
        once = λ c u. ground (
          arith,
          q.counts c u,
          h.lists.agree c u,
          h.lists.agree c from,
          h.lists.once c u,
          h.lists.once c from,
          beq_iff from u,
          beq_iff (to_rfc1459 to) u,
        );
        channel_settled = λ c u p. ground (
          arith,
          q.counts c u,
          h.lists.agree c from,
          h.lists.channel_settled c u,
          h.lists.channel_settled c from,
        );
        user_settled = λ c u p.
            ground (arith, q.counts c u, h.lists.user_settled c u, beq_iff (to_rfc1459 to) u);
      };
      channel_key = q.channel_key h.channel_key;
      user_key = rw q.users (λ u x p. ground (
        arith,
        lookup-insert (to_rfc1459 to) u (record usr { nick = to; last_active = now })
            (delete from s.users),
        lookup-delete from u s.users,
        h.user_key u x,
        beq_iff (to_rfc1459 to) u,
      ));
    }

-- The membership after `state.renameUser`: the new nickname stands where the old one stood.
abbrev pub RenamesUser : Bytes → Bytes → State → State → Type 0
RenamesUser from to s s' =
    (c u : Bytes)
    → members s' c u ≡ (
        if beq (to_rfc1459 to) u then members s c from else if beq from u then 0 else members s c u)

unknown-RenamesUser :
    (from to : Bytes) (s : State)
    → IsConsistent s
    → lookup from s.users ≡ none
    → (lookup (to_rfc1459 to) s.users ≡ none) ⊎ (to_rfc1459 to ≡ from)
    → RenamesUser from to s s
unknown-RenamesUser from to s h e free c u = ground (
  arith,
  h.lists.agree c u,
  h.lists.agree c from,
  beq_iff from u,
  beq_iff (to_rfc1459 to) u,
  count-nil c,
)

move_user-RenamesUser :
    (now : ℕ) (from to : Bytes) (s s' : State) (usr : User)
    → IsConsistent s
    → lookup from s.users ≡ some usr
    → (lookup (to_rfc1459 to) s.users ≡ none) ⊎ (to_rfc1459 to ≡ from)
    → Renamed from to usr.channel_list (moved now from to s usr) s'
    → RenamesUser from to s s'
move_user-RenamesUser now from to s s' usr h found free q c u = ground (
  arith,
  q.counts c u,
  h.lists.agree c u,
  h.lists.agree c from,
  beq_iff from u,
  beq_iff (to_rfc1459 to) u,
  count-nil c,
)

rename_user_at_total :
    (now : ℕ) (from to : Bytes) (s : State) (found : Option User)
    → IsConsistent s
    → lookup from s.users ≡ found
    → IsSettled to
    → (lookup (to_rfc1459 to) s.users ≡ none) ⊎ (to_rfc1459 to ≡ from)
    → (s' : State) × (rename_user_at now from to s found ≡ ok s')
      × IsConsistent s'
      × RenamesUser from to s s'
unfolding rename_user
rename_user_at_total now from to s none h e settled free =
    (s, refl, h, unknown-RenamesUser from to s h e free)
rename_user_at_total now from to s (some usr) h e settled free =
    let (s', runs, q) =
      rename_in_all_total from to usr.channel_list (moved now from to s usr)
        (λ c. ground (arith, h.lists.agree c from)) in
    (
      s',
      runs,
      move_user-IsConsistent now from to s s' usr h e settled free q,
      move_user-RenamesUser now from to s s' usr h e free q,
    )

rename_self-IsConsistent :
    (from to : Bytes) (s : State) → IsConsistent s → IsConsistent (rename_self from to s)
unfolding rename_self
rename_self-IsConsistent from to s h = elim (Bool-cases (beq from (to_rfc1459 s.nick))) [
  | inl e ↦ rw e (record { lists = h.lists; channel_key = h.channel_key; user_key = h.user_key })
  | inr e ↦ rw e h
]

users-rename_self : (from to : Bytes) (s : State) → (rename_self from to s).users ≡ s.users
unfolding rename_self
users-rename_self from to s = ground arith

channels-rename_self : (from to : Bytes) (s : State) → (rename_self from to s).channels ≡ s.channels
unfolding rename_self
channels-rename_self from to s = ground arith

-- In a consistent state `state.renameUser` to a free nickname does not panic, and leaves a
-- consistent state in which the new nickname stands in the channels where the old one stood, if a
-- second `ToRFC1459` keeps both names.
pub rename_user_total :
    (now : ℕ) (from to : Bytes) (s : State)
    → IsConsistent s
    → IsSettled from
    → IsSettled to
    → IsFree from to s
    → (s' : State) × (rename_user now from to s ≡ ok s')
      × IsConsistent s'
      × RenamesUser (to_rfc1459 from) to s s'
unfolding rename_user lookup_user
rename_user_total now from to s h settled settled' free =
    let (s', runs, h', q) =
      rename_user_at_total now (to_rfc1459 from) to (rename_self (to_rfc1459 from) to s) _
        (rename_self-IsConsistent (to_rfc1459 from) to s h) refl settled'
        (rw users-rename_self free) in
    (s', rw settled runs, h', rw channels-rename_self at q)
