-- ===== src/Handlers/Membership/Leave.antt =====
-- handlePART, handleKICK, handleQUIT and handleNICK keep the tracker consistent, and do not panic.
use girc.Prelude.{
  ℕ, ◌≡◌, refl, ap, Bool, true, false, Option, none, some, List, [], ◌∷◌, Bytes, length, ltb, beq,
  Outcome, ok, ◌>>=◌, Bool-cases, inl, inr, if◌then◌else◌,
}
use girc.Client.{Client, get_id, get_nick, notify, update_state}
use girc.Event.{Event, last}
use girc.Handlers.Membership.{
  part_from, handle_part, kick_from, handle_kick, nick_from, handle_nick, quit_from, handle_quit,
}
use girc.Source.{Source}
use girc.Source
use girc.Text.Fold.{to_rfc1459, IsSettled}
use girc.Tracker.{State, delete_channel, delete_user, rename_user}
use girc.Tracker.Consistent.{IsConsistent}
use girc.Tracker.Consistent.Part.{delete_user_total}
use girc.Tracker.Consistent.Close.{delete_channel_total}
use girc.Tracker.Consistent.Rename.{rename_user_total, IsFree}

-- The operation gives a state, and a consistent one.
abbrev Settles : Outcome State → Type 0
Settles r = (s : State) × (r ≡ ok s) × IsConsistent s

-- A choice between two operations.
Settles-if : (b : Bool) (x y : Outcome State) → Settles x → Settles y → Settles (if b then x else y)
Settles-if true x y hx hy = hx
Settles-if false x y hx hy = hy

-- The handler gives a client, with a consistent state.
abbrev pub Handles : Outcome Client → Type 0
Handles r = (c : Client) × (r ≡ ok c) × IsConsistent c.state

-- A handler that stores the state and notifies.
Handles-notify :
    (c : Client) (r : Outcome State)
    → Settles r
    → Handles (r >>= λ s. ok (notify update_state (record c { state = s })))
Handles-notify c r (s, e, h) = (notify update_state (record c { state = s }), rw e, h)

module _ (s : State) (h : IsConsistent s) where
  Settles-delete_channel : (name : Bytes) → Settles (delete_channel name s)
  Settles-delete_channel name =
      let (s', runs, h', q) = delete_channel_total name s h in (s', runs, h')

  Settles-delete_user : (name nick : Bytes) → Settles (delete_user name nick s)
  Settles-delete_user name nick =
      let (s', runs, h', q) = delete_user_total name nick s h in (s', runs, h')

  Settles-rename_user :
      (now : ℕ) (from to : Bytes)
      → IsSettled from
      → IsSettled to
      → IsFree from to s
      → Settles (rename_user now from to s)
  Settles-rename_user now from to p q free =
      let (s', runs, h', r) = rename_user_total now from to s h p q free in (s', runs, h')

part_from_total :
    (c : Client) (source : Option Source) (params : List Bytes)
    → IsConsistent c.state
    → Handles (part_from c source params)
unfolding part_from
part_from_total c none params h = (c, refl, h)
part_from_total c (some src) [] h = (c, refl, h)
part_from_total c (some src) ([] ∷ params) h = (c, refl, h)
part_from_total c (some src) ((x ∷ xs) ∷ params) h = Handles-notify c _ (
    Settles-if (beq (Source.id src) (get_id c)) _ _ (Settles-delete_channel c.state h (x ∷ xs))
      (Settles-delete_user c.state h (x ∷ xs) (Source.id src)))

-- In a consistent state handlePART does not panic, and leaves a consistent state.
pub handle_part_total :
    (c : Client) (e : Event)
    → IsConsistent c.state
    → (c' : Client) × (handle_part c e ≡ ok c') × IsConsistent c'.state
unfolding handle_part
handle_part_total c e = part_from_total c e.source e.params

kick_from_total :
    (c : Client) (params : List Bytes) → IsConsistent c.state → Handles (kick_from c params)
unfolding kick_from
kick_from_total c [] h = (c, refl, h)
kick_from_total c (channel ∷ []) h = (c, refl, h)
kick_from_total c (channel ∷ user ∷ params) h = Handles-notify c _ (
    Settles-if (beq user (get_nick c)) _ _ (Settles-delete_channel c.state h channel)
      (Settles-delete_user c.state h channel user))

-- In a consistent state handleKICK does not panic, and leaves a consistent state.
pub handle_kick_total :
    (c : Client) (e : Event)
    → IsConsistent c.state
    → (c' : Client) × (handle_kick c e ≡ ok c') × IsConsistent c'.state
unfolding handle_kick
handle_kick_total c e = kick_from_total c e.params

quit_from_total :
    (c : Client) (source : Option Source) → IsConsistent c.state → Handles (quit_from c source)
unfolding quit_from
quit_from_total c none h = (c, refl, h)
quit_from_total c (some src) h = elim (Bool-cases (beq (Source.id src) (get_id c))) [
  | inl e ↦ rw e (c, refl, h)
  | inr e ↦ rw e (Handles-notify c _ (Settles-delete_user c.state h [] (Source.id src)))
]

-- In a consistent state handleQUIT does not panic, and leaves a consistent state.
pub handle_quit_total :
    (c : Client) (e : Event)
    → IsConsistent c.state
    → (c' : Client) × (handle_quit c e ≡ ok c') × IsConsistent c'.state
unfolding handle_quit
handle_quit_total c e = quit_from_total c e.source

-- The nickname that a NICK event announces is kept by a second `ToRFC1459`, and is free, or
-- another spelling of the old one.
abbrev pub RenameIsSettled : Option Source → Event → State → Type 0
RenameIsSettled none e s = Unit
RenameIsSettled (some src) e s =
    IsSettled src.name × IsSettled (last e) × IsFree (Source.id src) (last e) s

nick_from_total :
    (now : ℕ) (c : Client) (e : Event) (source : Option Source)
    → IsConsistent c.state
    → RenameIsSettled source e c.state
    → Handles (nick_from now c e source)
unfolding nick_from Source.id
nick_from_total now c e none h p = (c, refl, h)
nick_from_total now c e (some src) h p = Handles-notify c _ (
    Settles-if (ltb 0 (length e.params)) _ (ok c.state)
      (Settles-rename_user c.state h now (to_rfc1459 src.name) (last e) (ap to_rfc1459 p.0) p.1 p.2)
      (c.state, refl, h))

-- In a consistent state handleNICK does not panic, and leaves a consistent state, if a second
-- `ToRFC1459` keeps both nicknames, and the new one is free or another spelling of the old one.
pub handle_nick_total :
    (now : ℕ) (c : Client) (e : Event)
    → IsConsistent c.state
    → RenameIsSettled e.source e c.state
    → (c' : Client) × (handle_nick now c e ≡ ok c') × IsConsistent c'.state
unfolding handle_nick
handle_nick_total now c e = nick_from_total now c e e.source
