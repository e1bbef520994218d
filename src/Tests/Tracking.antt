-- ===== src/Tests/Tracking.antt =====
-- The tracker and its handlers on a small session.
use girc.Prelude.{
  ℕ, ◌≡◌, refl, false, none, some, List, [], ◌∷◌, Bytes, codes, Outcome, ok, panic, inl, beq,
  lookup, insert, sort_strings, insert_sorted,
}
use girc.Client.{Client, get_id}
use girc.Event.{Event}
use girc.Handlers.Membership.{handle_join, handle_part, handle_kick, handle_quit}
use girc.Handlers.Membership.Join.{handle_join_total, Joins}
use girc.Handlers.Membership.Leave.{handle_part_total, handle_kick_total, handle_quit_total}
use girc.Handlers.Sequences.{here, next, Step, step, Call, join, handle, Reach-total, IsExpected}
use girc.Source.{Source}
use girc.Source
use girc.Text.Fold.{to_rfc1459, IsSettled}
use girc.Tracker.Lists.{mem_string}
use girc.Tracker.{
  State, User, Channel, reset, create_channel, create_user, add_user, add_channel, lookup_channel,
  lookup_user, delete_user, delete_channel, rename_user,
}
use girc.Tracker.Consistent.{IsConsistent, reset-IsConsistent, users_of, channels_of}
use girc.Tracker.Consistent.Close.{delete_channel_total, DeletesChannel}
use girc.Tracker.Consistent.Part.{delete_user_total, DeletesUser}
use girc.Tracker.Consistent.Rename.{rename_user_total, RenamesUser}
use girc.Tracker.Members.{users, channels}
use girc.Tracker.Members.Complete.{users_complete, user_id, channel_id}
use mathlib.Core.List.{map}

abbrev blank : State
blank = record {
  nick = [];
  ident = [];
  host = [];
  channels = [];
  users = [];
  enabled_cap = [];
  tmp_cap = [];
  server_options = [];
  max_line_length = 0;
  max_prefix_length = 0;
  motd = [];
}

abbrev pub fresh : Client
fresh = record {
  state = reset blank;
  config_nick = codes "Bot";
  config_user = codes "bot";
  sent = [];
  updates = [];
}

abbrev from_user : Bytes → Source
from_user nick = record { name = nick; ident = codes "u"; host = codes "h" }

abbrev event_from : Bytes → Bytes → List Bytes → Event
event_from nick command params = record {
  source = some (from_user nick);
  tags = none;
  timestamp = 0;
  command = command;
  params = params;
  sensitive = false;
  echo = false;
}

abbrev bob_joins : Event
bob_joins = event_from (codes "Bob") (codes "JOIN") (codes "#Go" ∷ [])

fresh-IsConsistent : IsConsistent fresh.state
fresh-IsConsistent = reset-IsConsistent blank

bob-IsSettled : IsSettled (codes "Bob")
unfolding to_rfc1459
bob-IsSettled = refl

rob-IsSettled : IsSettled (codes "Rob")
unfolding to_rfc1459
rob-IsSettled = refl

go-IsSettled : IsSettled (codes "#Go")
unfolding to_rfc1459
go-IsSettled = refl

handle_join_total_example :
    (c : Client) × (handle_join 5 fresh bob_joins ≡ ok c)
    × IsConsistent c.state
    × Joins (codes "#Go") (codes "Bob") fresh.state c.state
handle_join_total_example =
    handle_join_total 5 fresh bob_joins fresh-IsConsistent bob-IsSettled go-IsSettled

client_of : Outcome Client → Client
client_of (ok c) = c
client_of panic = fresh

-- The client once Bob is in #Go.
abbrev with_bob : Client
with_bob = client_of (handle_join 5 fresh bob_joins)

with_bob-IsConsistent : IsConsistent with_bob.state
unfolding client_of
with_bob-IsConsistent = let (c, e, h, j) = handle_join_total_example in rw e h

bob_is_listed :
    (users_of with_bob.state (codes "#go") ≡ codes "bob" ∷ [])
    × (channels_of with_bob.state (codes "bob") ≡ codes "#go" ∷ [])
unfolding client_of handle_join reset lookup insert beq create_channel create_user add_user
    add_channel to_rfc1459 Source.id sort_strings mem_string lookup_channel lookup_user get_id
    insert_sorted
bob_is_listed = (refl, refl)

handle_part_total_example :
    (c : Client) × (handle_part with_bob
        (event_from (codes "BOB") (codes "PART") (codes "#go" ∷ []))
      ≡ ok c)
    × IsConsistent c.state
handle_part_total_example =
    handle_part_total with_bob (event_from (codes "BOB") (codes "PART") (codes "#go" ∷ []))
      with_bob-IsConsistent

handle_kick_total_example :
    (c : Client) × (handle_kick with_bob
        (event_from (codes "op") (codes "KICK") (codes "#go" ∷ codes "Bob" ∷ []))
      ≡ ok c)
    × IsConsistent c.state
handle_kick_total_example =
    handle_kick_total with_bob
      (event_from (codes "op") (codes "KICK") (codes "#go" ∷ codes "Bob" ∷ []))
      with_bob-IsConsistent

handle_quit_total_example :
    (c : Client) × (handle_quit with_bob (event_from (codes "Bob") (codes "QUIT") []) ≡ ok c)
    × IsConsistent c.state
handle_quit_total_example =
    handle_quit_total with_bob (event_from (codes "Bob") (codes "QUIT") []) with_bob-IsConsistent

rob_is_free : lookup (codes "rob") with_bob.state.users ≡ none
unfolding client_of handle_join reset lookup insert beq create_channel create_user add_user
    add_channel to_rfc1459 Source.id sort_strings mem_string lookup_channel lookup_user get_id
    insert_sorted
rob_is_free = refl

rob_folds : to_rfc1459 (codes "Rob") ≡ codes "rob"
unfolding to_rfc1459
rob_folds = refl

rob_IsFree : lookup (to_rfc1459 (codes "Rob")) with_bob.state.users ≡ none
rob_IsFree = rw rob_folds rob_is_free

abbrev bob_renames : Event
bob_renames = event_from (codes "Bob") (codes "NICK") (codes "Rob" ∷ [])

abbrev names_reply : Event
names_reply =
    event_from (codes "srv") (codes "353")
      (codes "Bot" ∷ codes "=" ∷ codes "#Go" ∷ codes "@Bob +amy" ∷ [])

join-Step : Step fresh with_bob
unfolding handle client_of
join-Step =
    let (c, e, h, j) = handle_join_total_example in
    step 5 join bob_joins (bob-IsSettled, go-IsSettled) (rw e)

Reach-total_example :
    IsConsistent with_bob.state
    × ((now : ℕ) (call : Call) (e : Event)
        → IsExpected call with_bob e
        → (c'' : Client) × (handle now call with_bob e ≡ ok c'') × IsConsistent c''.state)
Reach-total_example = Reach-total fresh-IsConsistent (next here join-Step)

delete_channel_total_example :
    (s : State) × (delete_channel (codes "#GO") with_bob.state ≡ ok s)
    × IsConsistent s
    × DeletesChannel (to_rfc1459 (codes "#GO")) with_bob.state s
delete_channel_total_example =
    delete_channel_total (codes "#GO") with_bob.state with_bob-IsConsistent

delete_user_total_example :
    (s : State) × (delete_user (codes "#GO") (codes "Bob") with_bob.state ≡ ok s)
    × IsConsistent s
    × DeletesUser (codes "#GO") (codes "Bob") with_bob.state s
delete_user_total_example =
    delete_user_total (codes "#GO") (codes "Bob") with_bob.state with_bob-IsConsistent

rename_user_total_example :
    (s : State) × (rename_user 9 (codes "Bob") (codes "Rob") with_bob.state ≡ ok s)
    × IsConsistent s
    × RenamesUser (to_rfc1459 (codes "Bob")) (codes "Rob") with_bob.state s
rename_user_total_example =
    rename_user_total 9 (codes "Bob") (codes "Rob") with_bob.state with_bob-IsConsistent
      bob-IsSettled rob-IsSettled (inl rob_IsFree)

go_channel : (ch : Channel) × (lookup (codes "#go") with_bob.state.channels ≡ some ch)
unfolding client_of handle_join reset lookup insert beq create_channel create_user add_user
    add_channel to_rfc1459 Source.id sort_strings mem_string lookup_channel lookup_user get_id
    insert_sorted
go_channel = (_, refl)

bob_user : (u : User) × (lookup (codes "bob") with_bob.state.users ≡ some u)
unfolding client_of handle_join reset lookup insert beq create_channel create_user add_user
    add_channel to_rfc1459 Source.id sort_strings mem_string lookup_channel lookup_user get_id
    insert_sorted
bob_user = (_, refl)

users_complete_example :
    (map user_id (users with_bob.state go_channel.0) ≡ go_channel.0.user_list)
    × (map channel_id (channels with_bob.state bob_user.0) ≡ bob_user.0.channel_list)
users_complete_example =
    users_complete with_bob.state with_bob-IsConsistent (codes "#go") (codes "bob") go_channel.0
      bob_user.0 go_channel.1 bob_user.1
