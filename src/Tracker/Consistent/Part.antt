-- ===== src/Tracker/Consistent/Part.antt =====
-- A user leaves one channel, or all of them: `state.deleteUser`.
use girc.Prelude.{
  ℕ, ◌-◌, ◌<◌, ◌≡◌, refl, arith, ◌&&◌, ◌||◌, Option, none, some, List, [], ◌∷◌, if◌then◌else◌,
  Bytes, beq, beq_iff, count, lookup, insert, delete, lookup-insert, is_empty, lookup-delete,
  Option-cases, inl, inr, ◌≢◌, ok,
}
use girc.Text.Fold.{to_rfc1459}
use girc.Tracker.{
  User, Channel, State, drop_user, leave_channel, delete_user, delete_user_at, delete_user_in,
  part_channels, lookup_user, lookup_channel,
}
use girc.Tracker.Lists.{count-remove_first}
use girc.Tracker.Consistent.{members, users_of, channels_of, IsConsistent, ChannelKeys}
use girc.Tracker.Consistent.Counts.{
  count-insert_channel, count-delete_user, count-keep_or_delete, count-nil, channels-keep_or_delete,
  UserKeys-keep_or_delete,
}

-- The user at the key `u₀` leaves the channel at `c₀`.
module _ (channel_name nick : Bytes) (s : State) (usr : User) (ch : Channel) (h : IsConsistent s)
    (found_usr : lookup (to_rfc1459 nick) s.users ≡ some usr)
    (found_ch : lookup (to_rfc1459 channel_name) s.channels ≡ some ch) where
  abbrev parted : State
  parted = delete_user_in channel_name nick s usr (some ch)

  count-users_of-parted :
      (c u : Bytes)
      → count u (users_of parted c) ≡ (
          if beq (to_rfc1459 channel_name) c && beq (to_rfc1459 nick) u
          then count u (users_of s c) - 1
          else count u (users_of s c))
  unfolding delete_user_in drop_user
  count-users_of-parted c u = rw channels-keep_or_delete (
      ground (
        arith,
        count-insert_channel c u (to_rfc1459 channel_name) (drop_user ch nick) s.channels,
        count-remove_first u (to_rfc1459 nick) ch.user_list,
        beq_iff (to_rfc1459 channel_name) c,
      ))

  count-channels_of-parted :
      (c u : Bytes)
      → count c (channels_of parted u) ≡ (
          if beq (to_rfc1459 channel_name) c && beq (to_rfc1459 nick) u
          then count c (channels_of s u) - 1
          else count c (channels_of s u))
  unfolding delete_user_in leave_channel
  count-channels_of-parted c u = rw count-keep_or_delete (
      ground (
        arith,
        count-remove_first c (to_rfc1459 channel_name) usr.channel_list,
        beq_iff (to_rfc1459 nick) u,
      ))

  parted-IsConsistent : IsConsistent parted
  unfolding delete_user_in
  parted-IsConsistent = record {
    lists = record {
      agree = λ c u.
          ground
            (arith, count-users_of-parted c u, count-channels_of-parted c u, h.lists.agree c u);
      once = λ c u. ground (arith, count-users_of-parted c u, h.lists.once c u);
      channel_settled =
          λ c u p. ground (arith, count-users_of-parted c u, h.lists.channel_settled c u);
      user_settled = λ c u p. ground (arith, count-users_of-parted c u, h.lists.user_settled c u);
    };
    channel_key = rw channels-keep_or_delete (λ c x p.
        unfold drop_user in
        ground (
          arith,
          lookup-insert (to_rfc1459 channel_name) c (drop_user ch nick) s.channels,
          h.channel_key c x,
          h.channel_key (to_rfc1459 channel_name) ch found_ch,
          beq_iff (to_rfc1459 channel_name) c,
        ));
    user_key =
        UserKeys-keep_or_delete (to_rfc1459 nick) (leave_channel usr channel_name) _
          (unfold leave_channel in h.user_key (to_rfc1459 nick) usr found_usr) h.user_key;
  }

-- What the loop over the channels of a user leaves.
record Parted (nick : Bytes) (keys : List Bytes) (s s' : State) : Type 0 where
  users : s'.users ≡ s.users
  counts :
      (c u : Bytes)
      → count u (users_of s' c) ≡ (
          if beq (to_rfc1459 nick) u
          then count u (users_of s c) - count c keys
          else count u (users_of s c))
  channel_key : ChannelKeys s.channels → ChannelKeys s'.channels

Parted-nil : (nick : Bytes) (s : State) → Parted nick [] s s
unfolding count
Parted-nil nick s = record { users = refl; counts = λ c u. ground arith; channel_key = λ k. k }

-- The state behind one round of the loop.
abbrev dropped : Bytes → Bytes → State → Channel → State
dropped nick key s ch = record s { channels = insert key (drop_user ch nick) s.channels }

Parted-cons :
    (nick key : Bytes) (keys : List Bytes) (s : State) (ch : Channel) (s' : State)
    → lookup key s.channels ≡ some ch
    → Parted nick keys (dropped nick key s ch) s'
    → Parted nick (key ∷ keys) s s'
unfolding count
Parted-cons nick key keys s ch s' found h = record {
  users = h.users;
  counts = λ c u.
      unfold drop_user in
      ground (
        arith,
        h.counts c u,
        count-insert_channel c u key (drop_user ch nick) s.channels,
        count-remove_first u (to_rfc1459 nick) ch.user_list,
        beq_iff key c,
      );
  channel_key = λ k. h.channel_key (λ c x p.
      unfold drop_user in
      ground (
        arith,
        lookup-insert key c (drop_user ch nick) s.channels,
        k c x,
        k key ch found,
        beq_iff key c,
      ));
}

-- Every channel of the list is there, so the loop does not panic.
part_channels_total :
    (nick : Bytes) (keys : List Bytes) (s : State)
    → ((c : Bytes) → 0 < count c keys → lookup c s.channels ≢ none)
    → (s' : State) × (part_channels nick keys s ≡ ok s') × Parted nick keys s s'
unfolding part_channels
part_channels_total nick [] s present = (s, refl, Parted-nil nick s)
part_channels_total nick (key ∷ keys) s present = elim (Option-cases (lookup key s.channels)) [
  | inl e ↦ absurd (present key (unfold count in ground (arith, beq_iff key key)) e)
  | inr (ch, found) ↦
      let (s', runs, done) = part_channels_total nick keys (dropped nick key s ch) (λ c p. ground (
        arith,
        lookup-insert key c (drop_user ch nick) s.channels,
        present c (unfold count in omega arith),
      )) in
      (s', rw found runs, Parted-cons nick key keys s ch s' found done)
]

users_of-present :
    (s : State) (c u : Bytes) → 0 < count u (users_of s c) → lookup c s.channels ≢ none
unfolding count
users_of-present s c u p e = ground arith

-- The user leaves all its channels, and is forgotten.
forget_user-IsConsistent :
    (nick : Bytes) (s s' : State) (usr : User)
    → IsConsistent s
    → lookup (to_rfc1459 nick) s.users ≡ some usr
    → Parted nick usr.channel_list s s'
    → IsConsistent (record s' { users = delete (to_rfc1459 nick) s'.users })
forget_user-IsConsistent nick s s' usr h found q =
    let left : (c u : Bytes)
        → count u (users_of s' c)
          ≡ (if beq (to_rfc1459 nick) u then 0 else count u (users_of s c)) =
      λ c u. ground (arith, q.counts c u, h.lists.agree c u, beq_iff (to_rfc1459 nick) u) in
    record {
      lists = record {
        agree = λ c u. rw q.users (
            ground (
              arith,
              left c u,
              count-delete_user c u (to_rfc1459 nick) s.users,
              h.lists.agree c u,
            ));
        once = λ c u. ground (arith, left c u, h.lists.once c u);
        channel_settled = λ c u p. ground (arith, left c u, h.lists.channel_settled c u);
        user_settled = λ c u p. ground (arith, left c u, h.lists.user_settled c u);
      };
      channel_key = q.channel_key h.channel_key;
      user_key =
          rw q.users
            (λ u x p. ground (arith, lookup-delete (to_rfc1459 nick) u s.users, h.user_key u x));
    }

-- The membership after `state.deleteUser`: the user is gone from the channel, or from every channel
-- if none is named, and nothing else changes.
abbrev pub DeletesUser : Bytes → Bytes → State → State → Type 0
DeletesUser channel_name nick s s' =
    (c u : Bytes)
    → members s' c u ≡ (
        if beq (to_rfc1459 nick) u && (is_empty channel_name || beq (to_rfc1459 channel_name) c)
        then 0
        else members s c u)

unknown_user-DeletesUser :
    (channel_name nick : Bytes) (s : State)
    → IsConsistent s
    → lookup (to_rfc1459 nick) s.users ≡ none
    → DeletesUser channel_name nick s s
unknown_user-DeletesUser channel_name nick s h e c u =
    ground (arith, h.lists.agree c u, beq_iff (to_rfc1459 nick) u, count-nil c)

unknown_channel-DeletesUser :
    (x : ℕ) (xs nick : Bytes) (s : State)
    → lookup (to_rfc1459 (x ∷ xs)) s.channels ≡ none
    → DeletesUser (x ∷ xs) nick s s
unknown_channel-DeletesUser x xs nick s e c u =
    ground (arith, beq_iff (to_rfc1459 (x ∷ xs)) c, count-nil u)

parted-DeletesUser :
    (x : ℕ) (xs nick : Bytes) (s : State) (usr : User) (ch : Channel)
    → IsConsistent s
    → lookup (to_rfc1459 nick) s.users ≡ some usr
    → lookup (to_rfc1459 (x ∷ xs)) s.channels ≡ some ch
    → DeletesUser (x ∷ xs) nick s (delete_user_in (x ∷ xs) nick s usr (some ch))
parted-DeletesUser x xs nick s usr ch h e e' c u =
    ground (arith, count-users_of-parted (x ∷ xs) nick s usr ch h e e' c u, h.lists.once c u)

forget_user-DeletesUser :
    (nick : Bytes) (s s' : State) (usr : User)
    → IsConsistent s
    → lookup (to_rfc1459 nick) s.users ≡ some usr
    → Parted nick usr.channel_list s s'
    → DeletesUser [] nick s (record s' { users = delete (to_rfc1459 nick) s'.users })
forget_user-DeletesUser nick s s' usr h found q c u =
    ground (arith, q.counts c u, h.lists.agree c u, beq_iff (to_rfc1459 nick) u)

delete_user_at_total :
    (channel_name nick : Bytes) (s : State) (found : Option User)
    → IsConsistent s
    → lookup (to_rfc1459 nick) s.users ≡ found
    → (s' : State) × (delete_user_at channel_name nick s found ≡ ok s')
      × IsConsistent s'
      × DeletesUser channel_name nick s s'
unfolding delete_user lookup_channel
delete_user_at_total channel_name nick s none h e =
    (s, refl, h, unknown_user-DeletesUser channel_name nick s h e)
delete_user_at_total [] nick s (some usr) h e =
    let (s', runs, q) = part_channels_total nick usr.channel_list s (λ c p.
      users_of-present s c (to_rfc1459 nick) (ground (arith, h.lists.agree c (to_rfc1459 nick)))) in
    (
      record s' { users = delete (to_rfc1459 nick) s'.users },
      rw runs,
      forget_user-IsConsistent nick s s' usr h e q,
      forget_user-DeletesUser nick s s' usr h e q,
    )
delete_user_at_total (c ∷ cs) nick s (some usr) h e =
    elim (Option-cases (lookup (to_rfc1459 (c ∷ cs)) s.channels)) [
      | inl missing ↦
          (s, rw (missing, lookup_channel), h, unknown_channel-DeletesUser c cs nick s missing)
      | inr (ch, found) ↦ (
        delete_user_in (c ∷ cs) nick s usr (some ch),
        rw (found, lookup_channel),
        parted-IsConsistent (c ∷ cs) nick s usr ch h e found,
        parted-DeletesUser c cs nick s usr ch h e found,
      )
    ]

-- In a consistent state `state.deleteUser` does not panic, and leaves a consistent state in which
-- the user is gone from the channel, or from every channel if none is named; nothing else changes
-- in the lists of users.
pub delete_user_total :
    (channel_name nick : Bytes) (s : State)
    → IsConsistent s
    → (s' : State) × (delete_user channel_name nick s ≡ ok s')
      × IsConsistent s'
      × DeletesUser channel_name nick s s'
unfolding delete_user lookup_user
delete_user_total channel_name nick s h =
    delete_user_at_total channel_name nick s (lookup (to_rfc1459 nick) s.users) h refl
