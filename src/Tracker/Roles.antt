-- ===== src/Tracker/Roles.antt =====
-- The users of a channel by their permissions, and how long they are known: `Channel.Trusted`,
-- `Channel.Admins`, `User.Lifetime`, `User.Active` and `User.IsActive`. Times are in nanoseconds.
use girc.Prelude.{
  ℕ, ◌-◌, ◌*◌, ◌≡◌, refl, sym, Bool, true, false, ltb, Option, none, some, List, [], ◌∷◌,
  if◌then◌else◌, Bytes, ap, ◌∙◌, Bool-cases, inl, inr,
}
use girc.Perms.{Perms, lookup_perms, is_admin, is_trusted}
use girc.Tracker.{User, Channel, State, lookup_user}
use girc.Tracker.Members.{with_found, found_users, users}

-- `ok && test(perms)`
holds : (Perms → Bool) → Option Perms → Bool
holds test none = false
holds test (some perms) = test perms

with_role : (Perms → Bool) → Bytes → Option User → List User → List User
unfolding holds
with_role test name none rest = rest
with_role test name (some user) rest =
    if holds test (lookup_perms user.perms name) then user ∷ rest else rest

unfoldable pub found_with : (Perms → Bool) → Bytes → State → List Bytes → List User
unfolding with_role
found_with test name s [] = []
found_with test name s (nick ∷ nicks) =
    with_role test name (lookup_user s nick) (found_with test name s nicks)

-- Channel.Trusted on a client that is not nil
unfoldable pub trusted : State → Channel → List User
unfolding found_with
trusted s ch = found_with is_trusted ch.name s ch.user_list

-- Channel.Admins on a client that is not nil
unfoldable pub admins : State → Channel → List User
unfolding found_with
admins s ch = found_with is_admin ch.name s ch.user_list

-- User.Lifetime
unfoldable pub lifetime : ℕ → User → ℕ
lifetime now u = now - u.first_seen

-- User.Active
unfoldable pub active : ℕ → User → ℕ
active now u = now - u.last_active

-- User.IsActive
unfoldable pub is_active : ℕ → User → Bool
unfolding active
is_active now u = ltb (active now u) (60000000000 * 30)

-- Those of the users that pass the test, in their order.
unfoldable pub those : (User → Bool) → List User → List User
those test [] = []
those test (u ∷ us) = if test u then u ∷ those test us else those test us

unfoldable pub has_role : (Perms → Bool) → Bytes → User → Bool
unfolding holds
has_role test name u = holds test (lookup_perms u.perms name)

those-with_found :
    (test : Perms → Bool) (name : Bytes) (o : Option User) (us : List User)
    → those (has_role test name) (with_found o us)
      ≡ with_role test name o (those (has_role test name) us)
unfolding those with_found with_role has_role
those-with_found test name none us = refl
those-with_found test name (some u) us = refl

found_with-those :
    (test : Perms → Bool) (name : Bytes) (s : State) (nicks : List Bytes)
    → found_with test name s nicks ≡ those (has_role test name) (found_users s nicks)
unfolding found_with found_users those
found_with-those test name s [] = refl
found_with-those test name s (nick ∷ nicks) =
    ap (with_role test name (lookup_user s nick)) (found_with-those test name s nicks)
    ∙ sym (those-with_found test name (lookup_user s nick) (found_users s nicks))

-- Channel.Trusted gives those of Channel.Users, in their order, who are trusted in the channel.
trusted-users :
    (s : State) (ch : Channel) → trusted s ch ≡ those (has_role is_trusted ch.name) (users s ch)
unfolding trusted users
trusted-users s ch = found_with-those is_trusted ch.name s ch.user_list

-- An administrator is trusted.
holds-is_admin : (o : Option Perms) → holds is_admin o ≡ true → holds is_trusted o ≡ true
unfolding holds is_trusted
holds-is_admin none h = cc
holds-is_admin (some perms) h = rw h refl

has_role-is_admin :
    (name : Bytes) (u : User) → has_role is_admin name u ≡ true → has_role is_trusted name u ≡ true
unfolding has_role
has_role-is_admin name u h = holds-is_admin (lookup_perms u.perms name) h

those_narrow :
    (name : Bytes) (us : List User)
    → those (has_role is_admin name) (those (has_role is_trusted name) us)
      ≡ those (has_role is_admin name) us
unfolding those
those_narrow name [] = refl
those_narrow name (u ∷ us) = elim (Bool-cases (has_role is_trusted name u)) [
  | inl trust ↦ rw (trust, those_narrow name us) refl
  | inr doubt ↦ elim (Bool-cases (has_role is_admin name u)) [
    | inl admin ↦ rw (has_role-is_admin name u admin, admin, those_narrow name us) refl
    | inr other ↦ rw (doubt, other) (those_narrow name us)
  ]
]

-- Channel.Admins gives those of Channel.Trusted, in their order, who are administrators of the
-- channel.
admins-trusted :
    (s : State) (ch : Channel) → admins s ch ≡ those (has_role is_admin ch.name) (trusted s ch)
unfolding admins users
admins-trusted s ch =
    found_with-those is_admin ch.name s ch.user_list
    ∙ sym (those_narrow ch.name (users s ch))
    ∙ ap (those (has_role is_admin ch.name)) (sym (trusted-users s ch))
