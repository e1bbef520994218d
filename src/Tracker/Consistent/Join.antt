-- ===== src/Tracker/Consistent/Join.antt =====
-- A user joins a channel: `Channel.addUser` and `User.addChannel` together.
use girc.Prelude.{
  ◌+◌, ◌≡◌, arith, ◌&&◌, some, ◌==◌, if◌then◌else◌, Bytes, beq, beq_iff, count, lookup, insert,
  lookup-insert,
}
use girc.Text.Fold.{to_rfc1459}
use girc.Tracker.{User, Channel, State, add_user, add_channel}
use girc.Tracker.Consistent.{users_of, channels_of, Agree, IsConsistent}
use girc.Tracker.Consistent.Counts.{
  count-add_user, count-add_channel, name-add_user, nick-add_channel, count-insert_channel,
  count-insert_user,
}

-- `channel.addUser(nick)` and `user.addChannel(name)` on the entries at the keys.
unfoldable pub link : Bytes → Bytes → Channel → User → Bytes → Bytes → State → State
link c u ch usr nick name s = record s {
  channels = insert c (add_user ch nick) s.channels;
  users = insert u (add_channel usr name) s.users;
}

module _ (c₀ u₀ : Bytes) (ch : Channel) (usr : User) (nick name : Bytes) (s : State)
    (h : IsConsistent s) (found_ch : lookup c₀ s.channels ≡ some ch)
    (found_usr : lookup u₀ s.users ≡ some usr) (to_c : to_rfc1459 name ≡ c₀)
    (to_u : to_rfc1459 nick ≡ u₀) (c_settled : to_rfc1459 c₀ ≡ c₀)
    (u_settled : to_rfc1459 u₀ ≡ u₀) where
  abbrev joined : State
  joined = link c₀ u₀ ch usr nick name s

  count-users_of-link :
      (c u : Bytes)
      → count u (users_of joined c)
        ≡ count u (users_of s c)
          + (if beq c₀ c && beq u₀ u && count u (users_of s c) == 0 then 1 else 0)
  unfolding link
  count-users_of-link c u = ground (
    arith,
    count-insert_channel c u c₀ (add_user ch nick) s.channels,
    count-add_user u nick ch,
    beq_iff c₀ c,
  )

  count-channels_of-link :
      (c u : Bytes)
      → count c (channels_of joined u)
        ≡ count c (channels_of s u)
          + (if beq c₀ c && beq u₀ u && count c (channels_of s u) == 0 then 1 else 0)
  unfolding link
  count-channels_of-link c u = ground (
    arith,
    count-insert_user c u u₀ (add_channel usr name) s.users,
    count-add_channel c name usr,
    beq_iff u₀ u,
  )

  link-Agree : Agree (users_of joined) (channels_of joined)
  link-Agree = record {
    agree = λ c u.
        ground (arith, count-users_of-link c u, count-channels_of-link c u, h.lists.agree c u);
    once = λ c u. ground (arith, count-users_of-link c u, h.lists.once c u);
    channel_settled =
        λ c u p. ground (arith, count-users_of-link c u, h.lists.channel_settled c u, beq_iff c₀ c);
    user_settled =
        λ c u p. ground (arith, count-users_of-link c u, h.lists.user_settled c u, beq_iff u₀ u);
  }

  pub link-IsConsistent : IsConsistent joined
  unfolding link
  link-IsConsistent = record {
    lists = link-Agree;
    channel_key = λ c x p. ground (
      arith,
      lookup-insert c₀ c (add_user ch nick) s.channels,
      h.channel_key c x,
      h.channel_key c₀ ch found_ch,
      name-add_user nick ch,
      beq_iff c₀ c,
    );
    user_key = λ u x p. ground (
      arith,
      lookup-insert u₀ u (add_channel usr name) s.users,
      h.user_key u x,
      h.user_key u₀ usr found_usr,
      nick-add_channel name usr,
      beq_iff u₀ u,
    );
  }
