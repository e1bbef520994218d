-- ===== src/Tracker/Create.antt =====
-- What `state.createChannel` and `state.createUser` leave in the tables.
use girc.Prelude.{
  ℕ, ◌≡◌, refl, true, none, some, Bytes, lookup, lookup-insert_self, Option-cases, inl, inr,
}
use girc.Source.{Source}
use girc.Source
use girc.Text.Fold.{to_rfc1459}
use girc.Tracker.{
  User, Channel, State, lookup_channel, lookup_user, create_channel, create_channel_at, create_user,
  create_user_at,
}

module _ (now : ℕ) (name : Bytes) (s : State) where
  -- A new channel is made, and is found.
  pub created_channel :
      lookup_channel s name ≡ none
      → ((create_channel now name s).1 ≡ true)
        × ((ch : Channel) × (lookup_channel (create_channel now name s).0 name ≡ some ch))
  unfolding create_channel lookup_channel
  created_channel e = rw (e, create_channel_at) (refl, (_, lookup-insert_self _ _ _))

module _ (now : ℕ) (src : Source) (s : State) where
  pub created_user :
      lookup_user s src.name ≡ none
      → ((create_user now src s).1 ≡ true)
        × ((u : User) × (lookup_user (create_user now src s).0 src.name ≡ some u))
  unfolding create_user lookup_user Source.id
  created_user e = rw (e, create_user_at) (refl, (_, lookup-insert_self _ _ _))

  -- Whether or not the user was there, it is found afterwards.
  pub created_user_found : (u : User) × (lookup_user (create_user now src s).0 src.name ≡ some u)
  unfolding create_user lookup_user Source.id
  created_user_found = elim (Option-cases (lookup (to_rfc1459 src.name) s.users)) [
    | inl e ↦ rw (e, create_user_at) (_, lookup-insert_self _ _ _)
    | inr (u, e) ↦ rw (e, create_user_at) (u, e)
  ]

  pub channels-create_user : (create_user now src s).0.channels ≡ s.channels
  unfolding create_user Source.id
  channels-create_user = elim (Option-cases (lookup (to_rfc1459 src.name) s.users)) [
    | inl e ↦ rw (e, create_user_at)
    | inr (u, e) ↦ rw (e, create_user_at)
  ]
