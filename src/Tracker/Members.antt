-- ===== src/Tracker/Members.antt =====
-- The users of a channel and the channels of a user: `Channel.Users` and `User.Channels`.
pub mod Complete
use girc.Prelude.{Option, none, some, List, [], ◌∷◌, Bytes}
use girc.Tracker.{User, Channel, State, lookup_user, lookup_channel}

-- append, unless the pointer is nil
unfoldable pub with_found {ℓ} : {A : Type ℓ} → Option A → List A → List A
with_found none rest = rest
with_found (some a) rest = a ∷ rest

unfoldable pub found_users : State → List Bytes → List User
unfolding with_found
found_users s [] = []
found_users s (nick ∷ nicks) = with_found (lookup_user s nick) (found_users s nicks)

-- Channel.Users on a client that is not nil
unfoldable pub users : State → Channel → List User
unfolding found_users
users s ch = found_users s ch.user_list

unfoldable pub found_channels : State → List Bytes → List Channel
unfolding with_found
found_channels s [] = []
found_channels s (name ∷ names) = with_found (lookup_channel s name) (found_channels s names)

-- User.Channels on a client that is not nil
unfoldable pub channels : State → User → List Channel
unfolding found_channels
channels s u = found_channels s u.channel_list
