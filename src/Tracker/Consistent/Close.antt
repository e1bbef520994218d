-- ===== src/Tracker/Consistent/Close.antt =====
-- A channel is forgotten, with the users that are in no other: `state.deleteChannel`.
use girc.Prelude.{
  ◌-◌, ◌<◌, ◌≤◌, ◌≡◌, refl, arith, false, Option, none, some, List, [], ◌∷◌, if◌then◌else◌, Bytes,
  beq, beq_iff, count, lookup, delete, lookup-insert, lookup-delete, Option-cases, inl, inr, ◌≢◌,
  ok, ◌∙◌,
}
use girc.Text.Fold.{to_rfc1459}
use girc.Tracker.{
  User, Channel, State, leave_channel, keep_or_delete, delete_channel, delete_channel_at,
  drop_members,
}
use girc.Tracker.Lists.{count-remove_first}
use girc.Tracker.Consistent.{members, channels_of, IsConsistent, UserKeys}
use girc.Tracker.Consistent.Counts.{
  count-delete_channel, count-keep_or_delete, count-nil, channels-keep_or_delete,
  UserKeys-keep_or_delete,
}

-- What the loop over the users of the channel leaves.
record Closed (name : Bytes) (users : List Bytes) (s s' : State) : Type 0 where
  channels : s'.channels ≡ s.channels
  counts :
      (c u : Bytes)
      → count c (channels_of s' u) ≡ (
          if beq (to_rfc1459 name) c
          then count c (channels_of s u) - count u users
          else count c (channels_of s u))
  user_key : UserKeys s.users → UserKeys s'.users

Closed-nil : (name : Bytes) (s : State) → Closed name [] s s
unfolding count
Closed-nil name s = record { channels = refl; counts = λ c u. ground arith; user_key = λ k. k }

-- The state behind one round of the loop.
abbrev evicted : Bytes → Bytes → State → User → State
evicted name user s usr = keep_or_delete user (leave_channel usr name) s

Closed-cons :
    (name user : Bytes) (users : List Bytes) (s : State) (usr : User) (s' : State)
    → lookup user s.users ≡ some usr
    → Closed name users (evicted name user s usr) s'
    → Closed name (user ∷ users) s s'
unfolding count
Closed-cons name user users s usr s' found h = record {
  channels = h.channels ∙ channels-keep_or_delete user (leave_channel usr name) s;
  counts = λ c u.
      unfold leave_channel in
      ground (
        arith,
        h.counts c u,
        count-keep_or_delete c u user (leave_channel usr name) s,
        count-remove_first c (to_rfc1459 name) usr.channel_list,
        beq_iff user u,
      );
  user_key = λ k. h.user_key (
      UserKeys-keep_or_delete user (leave_channel usr name) s
        (unfold leave_channel in k user usr found) k);
}

lookup-evicted :
    (name user u : Bytes) (s : State) (usr : User)
    → beq user u ≡ false
    → lookup u (evicted name user s usr).users ≡ lookup u s.users
unfolding keep_or_delete
lookup-evicted name user u s usr ne =
    ground
      (arith, lookup-delete user u s.users, lookup-insert user u (leave_channel usr name) s.users)

-- Every user of the list is there, and none is listed twice, so the loop does not panic.
drop_members_total :
    (name : Bytes) (users : List Bytes) (s : State)
    → ((u : Bytes) → 0 < count u users → lookup u s.users ≢ none)
    → ((u : Bytes) → count u users ≤ 1)
    → (s' : State) × (drop_members name users s ≡ ok s') × Closed name users s s'
unfolding drop_members
drop_members_total name [] s present once = (s, refl, Closed-nil name s)
drop_members_total name (user ∷ users) s present once = elim (Option-cases (lookup user s.users)) [
  | inl e ↦ absurd (present user (unfold count in ground (arith, beq_iff user user)) e)
  | inr (usr, found) ↦
      let (s', runs, done) =
        drop_members_total name users (evicted name user s usr)
          (λ u p.
            unfold count in
            ground (arith, lookup-evicted name user u s usr, present u, once u, beq_iff user u))
          (λ u. unfold count in omega (arith, once u)) in
      (s', rw found runs, Closed-cons name user users s usr s' found done)
]

channels_of-present :
    (s : State) (c u : Bytes) → 0 < count c (channels_of s u) → lookup u s.users ≢ none
unfolding count
channels_of-present s c u p e = ground arith

forget_channel-IsConsistent :
    (key : Bytes) (s s' : State) (ch : Channel)
    → IsConsistent s
    → lookup key s.channels ≡ some ch
    → Closed key ch.user_list s s'
    → IsConsistent (record s' { channels = delete key s'.channels })
forget_channel-IsConsistent key s s' ch h found q =
    let left : (c u : Bytes)
        → count c (channels_of s' u) ≡ (if beq key c then 0 else count c (channels_of s u)) =
      λ c u. ground (
        arith,
        q.counts c u,
        h.lists.agree c u,
        beq_iff key c,
        beq_iff (to_rfc1459 key) c,
        h.lists.channel_settled key u,
      ) in
    record {
      lists = record {
        agree = λ c u.
            rw q.channels (
              ground (arith, left c u, count-delete_channel c u key s.channels, h.lists.agree c u));
        once = λ c u.
            rw q.channels
              (ground (arith, count-delete_channel c u key s.channels, h.lists.once c u));
        channel_settled = λ c u. rw q.channels (λ p.
            ground (arith, count-delete_channel c u key s.channels, h.lists.channel_settled c u));
        user_settled = λ c u. rw q.channels (λ p.
            ground (arith, count-delete_channel c u key s.channels, h.lists.user_settled c u));
      };
      channel_key =
          rw q.channels
            (λ c x p. ground (arith, lookup-delete key c s.channels, h.channel_key c x));
      user_key = q.user_key h.user_key;
    }

-- The membership after `state.deleteChannel`: the channel has no users, and nothing else changes.
abbrev pub DeletesChannel : Bytes → State → State → Type 0
DeletesChannel key s s' = (c u : Bytes) → members s' c u ≡ (if beq key c then 0 else members s c u)

unknown-DeletesChannel :
    (key : Bytes) (s : State) → lookup key s.channels ≡ none → DeletesChannel key s s
unknown-DeletesChannel key s e c u = ground (arith, beq_iff key c, count-nil u)

forget_channel-DeletesChannel :
    (key : Bytes) (s s' : State) (ch : Channel)
    → Closed key ch.user_list s s'
    → DeletesChannel key s (record s' { channels = delete key s'.channels })
forget_channel-DeletesChannel key s s' ch q c u =
    rw q.channels (count-delete_channel c u key s.channels)

delete_channel_at_total :
    (key : Bytes) (s : State) (found : Option Channel)
    → IsConsistent s
    → lookup key s.channels ≡ found
    → (s' : State) × (delete_channel_at key s found ≡ ok s')
      × IsConsistent s'
      × DeletesChannel key s s'
unfolding delete_channel
delete_channel_at_total key s none h e = (s, refl, h, unknown-DeletesChannel key s e)
delete_channel_at_total key s (some ch) h e =
    let (s', runs, q) =
      drop_members_total key ch.user_list s
        (λ u p. channels_of-present s key u (ground (arith, h.lists.agree key u)))
        (λ u. ground (arith, h.lists.once key u)) in
    (
      record s' { channels = delete key s'.channels },
      rw runs,
      forget_channel-IsConsistent key s s' ch h e q,
      forget_channel-DeletesChannel key s s' ch q,
    )

-- In a consistent state `state.deleteChannel` does not panic, and leaves a consistent state in
-- which the channel has no users, and every other channel has the users that it had.
pub delete_channel_total :
    (name : Bytes) (s : State)
    → IsConsistent s
    → (s' : State) × (delete_channel name s ≡ ok s')
      × IsConsistent s'
      × DeletesChannel (to_rfc1459 name) s s'
unfolding delete_channel
delete_channel_total name s h =
    delete_channel_at_total (to_rfc1459 name) s (lookup (to_rfc1459 name) s.channels) h refl
