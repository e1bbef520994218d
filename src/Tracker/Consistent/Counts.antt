-- ===== src/Tracker/Consistent/Counts.antt =====
-- How the operations change the number of times that a name stands in a list of the tables.
use girc.Prelude.{
  ◌+◌, ◌≡◌, refl, arith, true, ◌&&◌, List, [], ◌∷◌, ◌==◌, if◌then◌else◌, Bytes, beq, beq_iff, count,
  Map, lookup, insert, delete, lookup-insert, length, lookup-delete, Bool-cases, inl, inr,
}
use girc.Text.Fold.{to_rfc1459}
use girc.Tracker.{User, Channel, State, add_user, add_channel, keep_or_delete}
use girc.Tracker.Lists.{mem_string-count, count-add_string}
use girc.Tracker.Consistent.{channels_of, user_list_of, channel_list_of, UserKeys}

pub count-add_user :
    (u nick : Bytes) (ch : Channel)
    → count u (add_user ch nick).user_list
      ≡ count u ch.user_list
        + (if beq (to_rfc1459 nick) u && count u ch.user_list == 0 then 1 else 0)
unfolding add_user
count-add_user u nick ch = ground (
  arith,
  mem_string-count (to_rfc1459 nick) ch.user_list,
  beq_iff (to_rfc1459 nick) u,
  count-add_string u (to_rfc1459 nick) ch.user_list,
)

pub count-add_channel :
    (c name : Bytes) (usr : User)
    → count c (add_channel usr name).channel_list
      ≡ count c usr.channel_list
        + (if beq (to_rfc1459 name) c && count c usr.channel_list == 0 then 1 else 0)
unfolding add_channel
count-add_channel c name usr = ground (
  arith,
  mem_string-count (to_rfc1459 name) usr.channel_list,
  beq_iff (to_rfc1459 name) c,
  count-add_string c (to_rfc1459 name) usr.channel_list,
)

pub name-add_user : (nick : Bytes) (ch : Channel) → (add_user ch nick).name ≡ ch.name
unfolding add_user
name-add_user nick ch = ground arith

pub nick-add_channel : (name : Bytes) (usr : User) → (add_channel usr name).nick ≡ usr.nick
unfolding add_channel
nick-add_channel name usr = ground arith

pub count-insert_channel :
    (c u key : Bytes) (ch : Channel) (m : Map Channel)
    → count u (user_list_of (lookup c (insert key ch m)))
      ≡ (if beq key c then count u ch.user_list else count u (user_list_of (lookup c m)))
count-insert_channel c u key ch m = rw lookup-insert (ground arith)

pub count-insert_user :
    (c u key : Bytes) (usr : User) (m : Map User)
    → count c (channel_list_of (lookup u (insert key usr m)))
      ≡ (if beq key u then count c usr.channel_list else count c (channel_list_of (lookup u m)))
count-insert_user c u key usr m = rw lookup-insert (ground arith)

pub count-delete_channel :
    (c u key : Bytes) (m : Map Channel)
    → count u (user_list_of (lookup c (delete key m)))
      ≡ (if beq key c then 0 else count u (user_list_of (lookup c m)))
unfolding count
count-delete_channel c u key m = rw lookup-delete (ground arith)

pub count-delete_user :
    (c u key : Bytes) (m : Map User)
    → count c (channel_list_of (lookup u (delete key m)))
      ≡ (if beq key u then 0 else count c (channel_list_of (lookup u m)))
unfolding count
count-delete_user c u key m = rw lookup-delete (ground arith)

pub count-nil : (c : Bytes) → count c [] ≡ 0
unfolding count
count-nil c = refl

count-is_nil : (c : Bytes) (l : List Bytes) → (length l == 0) ≡ true → count c l ≡ 0
unfolding count
count-is_nil c [] h = refl
count-is_nil c (x ∷ l) h = ground arith

-- Whether the user is kept or deleted, its lists are those of the record given.
pub count-keep_or_delete :
    (c u key : Bytes) (usr : User) (s : State)
    → count c (channels_of (keep_or_delete key usr s) u)
      ≡ (if beq key u then count c usr.channel_list else count c (channels_of s u))
unfolding keep_or_delete
count-keep_or_delete c u key usr s = elim (Bool-cases (length usr.channel_list == 0)) [
  | inl e ↦
      rw e (ground (arith, count-delete_user c u key s.users, count-is_nil c usr.channel_list e))
  | inr e ↦ rw e (count-insert_user c u key usr s.users)
]

pub channels-keep_or_delete :
    (key : Bytes) (usr : User) (s : State) → (keep_or_delete key usr s).channels ≡ s.channels
unfolding keep_or_delete
channels-keep_or_delete key usr s = ground arith

pub UserKeys-keep_or_delete :
    (key : Bytes) (usr : User) (s : State)
    → to_rfc1459 usr.nick ≡ key
    → UserKeys s.users
    → UserKeys (keep_or_delete key usr s).users
unfolding keep_or_delete
UserKeys-keep_or_delete key usr s e h u v p = elim (Bool-cases (length usr.channel_list == 0)) [
  | inl b ↦ ground (arith, b, lookup-delete key u s.users, h u v)
  | inr b ↦ ground (arith, b, lookup-insert key u usr s.users, h u v, beq_iff key u)
]
