-- ===== src/Messages/Origin.antt =====
-- Where a message comes from: `Event.IsFromChannel` and `Event.IsFromUser`.
use girc.Prelude.{
  ℕ, ◌≡◌, arith, true, false, [], ◌∷◌, Bytes, get_or, has_byte, Bool-cases, inl, inr, refl,
}
use girc.Event.{Event}
use girc.Text.Valid.{is_valid_channel, is_valid_nick, valid_channel_from, is_channel_prefix}
use girc.Messages.{is_message, is_from_channel, is_from_user}

is_valid_channel-prefix :
    (c : ℕ) (others : Bytes) → is_valid_channel (c ∷ others) ≡ true → is_channel_prefix c ≡ true
unfolding is_valid_channel valid_channel_from
is_valid_channel-prefix c others h = ground arith

nil_nick : is_valid_nick [] ≡ false
unfolding is_valid_nick
nil_nick = refl

is_valid_nick-prefix :
    (c : ℕ) (others : Bytes) → is_channel_prefix c ≡ true → is_valid_nick (c ∷ others) ≡ false
unfolding is_valid_nick is_channel_prefix has_byte
is_valid_nick-prefix c others h = ground arith

-- No channel name is a nickname.
is_valid_nick-is_valid_channel :
    (name : Bytes) → is_valid_channel name ≡ true → is_valid_nick name ≡ false
is_valid_nick-is_valid_channel [] h = nil_nick
is_valid_nick-is_valid_channel (c ∷ others) h =
    is_valid_nick-prefix c others (is_valid_channel-prefix c others h)

-- No event is from a channel and from a user at once.
is_from_user-is_from_channel : (e : Event) → is_from_channel e ≡ true → is_from_user e ≡ false
unfolding is_from_channel is_from_user
is_from_user-is_from_channel e h = elim (Bool-cases (is_message e)) [
  | inl m ↦
      let valid : is_valid_channel (get_or e.params 0 []) ≡ true = ground arith in
      rw m (is_valid_nick-is_valid_channel (get_or e.params 0 []) valid)
  | inr m ↦ rw m refl
]
