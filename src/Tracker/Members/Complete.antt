-- ===== src/Tracker/Members/Complete.antt =====
-- In a consistent state the lists name entries of the tables only.
use girc.Prelude.{
  ◌≡◌, ◌<◌, refl, arith, Option, none, some, List, [], ◌∷◌, Bytes, beq_refl, count, lookup, ap,
}
use mathlib.Core.List.{map}
use girc.Text.Fold.{to_rfc1459}
use girc.Tracker.{User, Channel, State, lookup_user, lookup_channel}
use girc.Tracker.Consistent.{channels_of, members, user_list_of, channel_list_of, IsConsistent}
use girc.Tracker.Members.{with_found, found_users, users, found_channels, channels}

-- The keys of the entries.
abbrev pub user_id : User → Bytes
user_id u = to_rfc1459 u.nick

abbrev pub channel_id : Channel → Bytes
channel_id ch = to_rfc1459 ch.name

count-head : (x : Bytes) (xs : List Bytes) → 0 < count x (x ∷ xs)
unfolding count
count-head x xs = rw (beq_refl x) (omega arith)

count-tail : (y x : Bytes) (xs : List Bytes) → 0 < count y xs → 0 < count y (x ∷ xs)
unfolding count
count-tail y x xs h = ground arith

found_users-all :
    (s : State) (nicks : List Bytes)
    → ((u : Bytes)
        → 0 < count u nicks
        → (usr : User) × (lookup_user s u ≡ some usr) × (user_id usr ≡ u))
    → map user_id (found_users s nicks) ≡ nicks
unfolding found_users with_found
found_users-all s [] h = refl
found_users-all s (nick ∷ nicks) h =
    let (usr, found, same) = h nick (count-head nick nicks) in
    rw found
      (rw same (ap (◌∷◌ nick) (found_users-all s nicks (λ u k. h u (count-tail u nick nicks k)))))

found_channels-all :
    (s : State) (names : List Bytes)
    → ((c : Bytes)
        → 0 < count c names
        → (ch : Channel) × (lookup_channel s c ≡ some ch) × (channel_id ch ≡ c))
    → map channel_id (found_channels s names) ≡ names
unfolding found_channels with_found
found_channels-all s [] h = refl
found_channels-all s (name ∷ names) h =
    let (ch, found, same) = h name (count-head name names) in
    rw found (
      rw same (ap (◌∷◌ name) (found_channels-all s names (λ c k. h c (count-tail c name names k)))))

-- A key that is listed has an entry.
listed_user :
    (c : Bytes) (o : Option User) → 0 < count c (channel_list_of o) → (usr : User) × (o ≡ some usr)
unfolding count
listed_user c none h = absurd (omega arith)
listed_user c (some usr) h = (usr, refl)

listed_channel :
    (u : Bytes) (o : Option Channel) → 0 < count u (user_list_of o) → (ch : Channel) × (o ≡ some ch)
unfolding count
listed_channel u none h = absurd (omega arith)
listed_channel u (some ch) h = (ch, refl)

module _ (s : State) (h : IsConsistent s) where
  user_of :
      (c u : Bytes)
      → 0 < members s c u
      → (usr : User) × (lookup_user s u ≡ some usr) × (user_id usr ≡ u)
  unfolding lookup_user
  user_of c u k =
      let listed : 0 < count c (channels_of s u) = omega (arith, h.lists.agree c u) in
      let (usr, found) = listed_user c (lookup u s.users) listed in
      (usr, rw (h.lists.user_settled c u k) found, h.user_key u usr found)

  channel_of :
      (c u : Bytes)
      → 0 < members s c u
      → (ch : Channel) × (lookup_channel s c ≡ some ch) × (channel_id ch ≡ c)
  unfolding lookup_channel
  channel_of c u k =
      let (ch, found) = listed_channel u (lookup c s.channels) k in
      (ch, rw (h.lists.channel_settled c u k) found, h.channel_key c ch found)

  member : (c u : Bytes) → 0 < count c (channels_of s u) → 0 < members s c u
  member c u k = omega (arith, h.lists.agree c u)

  -- In a consistent state Channel.Users of a tracked channel gives a user for every name of the
  -- channel's list, in its order, and User.Channels of a tracked user a channel for every name of
  -- the user's list.
  pub users_complete :
      (c u : Bytes) (ch : Channel) (usr : User)
      → lookup c s.channels ≡ some ch
      → lookup u s.users ≡ some usr
      → (map user_id (users s ch) ≡ ch.user_list)
        × (map channel_id (channels s usr) ≡ usr.channel_list)
  unfolding users channels
  users_complete c u ch usr p q = (
    found_users-all s ch.user_list (λ v k. user_of c v (rw p k)),
    found_channels-all s usr.channel_list (λ d k. channel_of d u (member d u (rw q k))),
  )
