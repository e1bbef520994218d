-- ===== src/Tracker/Consistent/Update.antt =====
-- Writes to other fields of a user or a channel keep the tables consistent.
use girc.Prelude.{◌≡◌, refl, arith, some, Bytes, beq_iff, lookup, insert, lookup-insert}
use girc.Tracker.{User, Channel, State}
use girc.Tracker.Consistent.{IsConsistent, Agree-congr}

module _ (key : Bytes) (s : State) (h : IsConsistent s) where
  pub update_user-IsConsistent :
      (usr usr' : User)
      → lookup key s.users ≡ some usr
      → usr'.channel_list ≡ usr.channel_list
      → usr'.nick ≡ usr.nick
      → IsConsistent (record s { users = insert key usr' s.users })
  update_user-IsConsistent usr usr' found same named = record {
    lists =
        Agree-congr (λ c. refl) (λ u. simp lookup-insert (ground (arith, beq_iff key u))) h.lists;
    channel_key = h.channel_key;
    user_key = λ u x p. ground (
      arith,
      lookup-insert key u usr' s.users,
      h.user_key u x,
      h.user_key key usr found,
      beq_iff key u,
    );
  }

  pub update_channel-IsConsistent :
      (ch ch' : Channel)
      → lookup key s.channels ≡ some ch
      → ch'.user_list ≡ ch.user_list
      → ch'.name ≡ ch.name
      → IsConsistent (record s { channels = insert key ch' s.channels })
  update_channel-IsConsistent ch ch' found same named = record {
    lists =
        Agree-congr (λ c. simp lookup-insert (ground (arith, beq_iff key c))) (λ u. refl) h.lists;
    channel_key = λ c x p. ground (
      arith,
      lookup-insert key c ch' s.channels,
      h.channel_key c x,
      h.channel_key key ch found,
      beq_iff key c,
    );
    user_key = h.user_key;
  }

-- Fields outside the two tables.
pub same_tables-IsConsistent :
    (s s' : State)
    → s'.channels ≡ s.channels
    → s'.users ≡ s.users
    → IsConsistent s
    → IsConsistent s'
same_tables-IsConsistent s s' p q h = record {
  lists = Agree-congr (λ c. rw p) (λ u. rw q) h.lists;
  channel_key = rw p h.channel_key;
  user_key = rw q h.user_key;
}
