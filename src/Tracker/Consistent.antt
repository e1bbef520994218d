-- ===== src/Tracker/Consistent.antt =====
-- The channels' user lists and the users' channel lists agree.
pub mod Counts
pub mod Join
pub mod Part
pub mod Close
pub mod Rename
pub mod Update
use girc.Prelude.{
  ℕ, ◌+◌, ◌-◌, ◌<◌, ◌≤◌, ◌≡◌, refl, arith, Bool, true, false, Option, none, some, List, [], ◌∷◌,
  ltb, if◌then◌else◌, Bytes, beq, beq_iff, count, Map, lookup, insert, delete, lookup-insert,
  lookup-delete, Option-cases, inl, inr,
}
use girc.Source.{Source}
use girc.Source
use girc.Text.Fold.{to_rfc1459}
use girc.Tracker.{
  reset, User, Channel, State, create_channel, create_channel_at, create_user, create_user_at,
}
use mathlib.Core.Path.{fun_ext}

abbrev pub user_list_of : Option Channel → List Bytes
user_list_of none = []
user_list_of (some ch) = ch.user_list

abbrev pub channel_list_of : Option User → List Bytes
channel_list_of none = []
channel_list_of (some u) = u.channel_list

-- The users listed in the channel at this key, and the channels listed for the user at this key.
abbrev pub users_of : State → Bytes → List Bytes
users_of s c = user_list_of (lookup c s.channels)

abbrev pub channels_of : State → Bytes → List Bytes
channels_of s u = channel_list_of (lookup u s.users)

-- The abstract view of the tables: how often a user stands in a channel, which is 0 or 1.
abbrev pub members : State → Bytes → Bytes → ℕ
members s c u = count u (users_of s c)

-- The two tables, as functions of a key, list each other's keys.
pub record Agree (us cs : Bytes → List Bytes) : Type 0 where
  -- A channel lists a user as often as the user lists the channel, and at most once.
  pub agree : (c u : Bytes) → count u (us c) ≡ count c (cs u)
  pub once : (c u : Bytes) → count u (us c) ≤ 1
  -- The names listed are in the form of the keys.
  pub channel_settled : (c u : Bytes) → 0 < count u (us c) → to_rfc1459 c ≡ c
  pub user_settled : (c u : Bytes) → 0 < count u (us c) → to_rfc1459 u ≡ u

-- A channel or user stands under the key of its name.
abbrev pub ChannelKeys : Map Channel → Type 0
ChannelKeys m = (c : Bytes) (ch : Channel) → lookup c m ≡ some ch → to_rfc1459 ch.name ≡ c

abbrev pub UserKeys : Map User → Type 0
UserKeys m = (u : Bytes) (usr : User) → lookup u m ≡ some usr → to_rfc1459 usr.nick ≡ u

pub record IsConsistent (s : State) : Type 0 where
  pub lists : Agree (users_of s) (channels_of s)
  pub channel_key : ChannelKeys s.channels
  pub user_key : UserKeys s.users

-- Two tables with the same lists.
pub Agree-congr :
    {us cs us' cs' : Bytes → List Bytes}
    → ((c : Bytes) → us' c ≡ us c)
    → ((u : Bytes) → cs' u ≡ cs u)
    → Agree us cs
    → Agree us' cs'
Agree-congr {us} {cs} p q h = rw (fun_ext p, fun_ext q) h

-- A new channel has no users.
module _ (now : ℕ) (name : Bytes) (s : State) where
  users_of-create_channel_at :
      (found : Option Channel)
      → lookup (to_rfc1459 name) s.channels ≡ found
      → (c : Bytes) → users_of (create_channel_at now name s found).0 c ≡ users_of s c
  unfolding create_channel
  users_of-create_channel_at none e c =
      simp lookup-insert (ground (arith, beq_iff (to_rfc1459 name) c))
  users_of-create_channel_at (some ch) e c = refl

  pub users_of-create_channel :
      (c : Bytes) → users_of (create_channel now name s).0 c ≡ users_of s c
  unfolding create_channel
  users_of-create_channel = users_of-create_channel_at (lookup (to_rfc1459 name) s.channels) refl

module _ (now : ℕ) (name : Bytes) (s : State) (h : IsConsistent s) where
  create_channel_at-IsConsistent :
      (found : Option Channel)
      → lookup (to_rfc1459 name) s.channels ≡ found
      → IsConsistent (create_channel_at now name s found).0
  unfolding create_channel
  create_channel_at-IsConsistent none e = record {
    lists = Agree-congr (users_of-create_channel_at now name s none e) (λ u. refl) h.lists;
    channel_key = λ c ch.
        simp lookup-insert (ground (arith, beq_iff (to_rfc1459 name) c, h.channel_key c ch));
    user_key = h.user_key;
  }
  create_channel_at-IsConsistent (some ch) e = h

  pub create_channel-IsConsistent : IsConsistent (create_channel now name s).0
  unfolding create_channel
  create_channel-IsConsistent =
      create_channel_at-IsConsistent (lookup (to_rfc1459 name) s.channels) refl

module _ (now : ℕ) (src : Source) (s : State) (h : IsConsistent s) where
  create_user_at-IsConsistent :
      (found : Option User)
      → lookup (Source.id src) s.users ≡ found
      → IsConsistent (create_user_at now src s found).0
  unfolding create_user Source.id
  create_user_at-IsConsistent none e = record {
    lists =
        Agree-congr (λ c. refl)
          (λ u. simp lookup-insert (ground (arith, beq_iff (to_rfc1459 src.name) u))) h.lists;
    channel_key = h.channel_key;
    user_key = λ u usr.
        simp lookup-insert (ground (arith, beq_iff (to_rfc1459 src.name) u, h.user_key u usr));
  }
  create_user_at-IsConsistent (some u) e = h

  pub create_user-IsConsistent : IsConsistent (create_user now src s).0
  unfolding create_user
  create_user-IsConsistent = create_user_at-IsConsistent (lookup (Source.id src) s.users) refl

-- The tables are empty after `state.reset`.
pub reset-IsConsistent : (s : State) → IsConsistent (reset s)
unfolding reset lookup count
reset-IsConsistent s = record {
  lists = record {
    agree = λ c u. refl;
    once = λ c u. omega arith;
    channel_settled = λ c u p. absurd (omega arith);
    user_settled = λ c u p. absurd (omega arith);
  };
  channel_key = λ c ch p. cc;
  user_key = λ u usr p. cc;
}
