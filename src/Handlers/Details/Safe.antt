-- ===== src/Handlers/Details/Safe.antt =====
-- These handlers keep the tracker consistent.
use girc.Prelude.{
  ℕ, ◌<◌, ◌≡◌, refl, arith, ◌&&◌, ◌||◌, Option, none, some, List, [], ◌∷◌, Bytes, codes, beq, ltb,
  length, drop, ◌==◌, ok, Bool-cases, Option-cases, inl, inr, if◌then◌else◌, lookup, is_empty,
}
use girc.Client.{Client, notify, update_state}
use girc.Event.{Event, last}
use girc.Handlers.Details.{
  write_user, write_user_at, write_channel, write_channel_at, notify_found, topic_of, topic_from,
  handle_topic, away_from, handle_away, chghost_from, handle_chghost, account_from, handle_account,
  tags_from, handle_tags, active_from, update_last_active, who_user, whox_from, who_from,
  handle_who, mode_user, mode_users, mode_channel, mode_from, handle_mode, handle_motd,
  handle_myinfo, myinfo_from, strip_hops,
}
use girc.Handlers.Membership.Leave.{Handles}
use girc.Modes.{CMode}
use girc.Modes
use girc.Source.{Source}
use girc.Source
use girc.Tags
use girc.Text.Fold.{to_rfc1459}
use girc.Text.Valid.{is_valid_channel}
use girc.Tracker.{User, Channel, State, lookup_channel, lookup_user}
use girc.Tracker.Consistent.{IsConsistent}
use girc.Tracker.Consistent.Update.{
  update_user-IsConsistent, update_channel-IsConsistent, same_tables-IsConsistent,
}

module _ (name : Bytes) (s : State) (h : IsConsistent s) where
  write_user-IsConsistent :
      (f : User → User)
      → ((u : User) → (f u).channel_list ≡ u.channel_list)
      → ((u : User) → (f u).nick ≡ u.nick)
      → IsConsistent (write_user name f s)
  unfolding write_user lookup_user
  write_user-IsConsistent f same named = elim (Option-cases (lookup (to_rfc1459 name) s.users)) [
    | inl e ↦ rw (e, write_user_at) h
    | inr (u, e) ↦
        rw (e, write_user_at)
          (update_user-IsConsistent (to_rfc1459 name) s h u (f u) e (same u) (named u))
  ]

  write_channel-IsConsistent :
      (f : Channel → Channel)
      → ((ch : Channel) → (f ch).user_list ≡ ch.user_list)
      → ((ch : Channel) → (f ch).name ≡ ch.name)
      → IsConsistent (write_channel name f s)
  unfolding write_channel lookup_channel
  write_channel-IsConsistent f same named =
      elim (Option-cases (lookup (to_rfc1459 name) s.channels)) [
        | inl e ↦ rw (e, write_channel_at) h
        | inr (ch, e) ↦
            rw (e, write_channel_at)
              (update_channel-IsConsistent (to_rfc1459 name) s h ch (f ch) e (same ch) (named ch))
      ]

state-notify_found :
    {A : Type 0} (o : Option A) (ntype : Bytes) (c : Client)
    → (notify_found o ntype c).state ≡ c.state
unfolding notify_found
state-notify_found none ntype c = refl
state-notify_found (some a) ntype c = refl

module _ (c : Client) (e : Event) (h : IsConsistent c.state) where
  topic_of-IsConsistent : (name : Bytes) → IsConsistent (topic_of c e name).state
  unfolding topic_of
  topic_of-IsConsistent name =
      rw state-notify_found (write_channel-IsConsistent name c.state h _ (λ ch. refl) (λ ch. refl))

  topic_from-IsConsistent : (params : List Bytes) → IsConsistent (topic_from c e params).state
  unfolding topic_from
  topic_from-IsConsistent [] = h
  topic_from-IsConsistent (name ∷ []) = topic_of-IsConsistent name
  topic_from-IsConsistent (first ∷ name ∷ params) = topic_of-IsConsistent name

  pub handle_topic-IsConsistent : IsConsistent (handle_topic c e).state
  unfolding handle_topic
  handle_topic-IsConsistent = topic_from-IsConsistent e.params

  pub handle_motd-IsConsistent : IsConsistent (handle_motd c e).state
  unfolding handle_motd
  handle_motd-IsConsistent = same_tables-IsConsistent c.state _ refl refl h

  myinfo_from-IsConsistent : (params : List Bytes) → IsConsistent (myinfo_from c params).state
  unfolding myinfo_from
  myinfo_from-IsConsistent (p ∷ server ∷ version ∷ params) =
      same_tables-IsConsistent c.state _ refl refl h
  myinfo_from-IsConsistent _ = h

  pub handle_myinfo-IsConsistent : IsConsistent (handle_myinfo c e).state
  unfolding handle_myinfo
  handle_myinfo-IsConsistent = myinfo_from-IsConsistent e.params

  active_from-IsConsistent :
      (now : ℕ) (source : Option Source) → IsConsistent (active_from now c source).state
  unfolding active_from
  active_from-IsConsistent now none = h
  active_from-IsConsistent now (some src) =
      write_user-IsConsistent src.name c.state h _ (λ u. refl) (λ u. refl)

  pub update_last_active-IsConsistent : (now : ℕ) → IsConsistent (update_last_active now c e).state
  unfolding update_last_active
  update_last_active-IsConsistent now = active_from-IsConsistent now e.source

  who_user-IsConsistent :
      (ident host nick account realname : Bytes)
      → IsConsistent (who_user c ident host nick account realname).state
  unfolding who_user
  who_user-IsConsistent ident host nick account realname =
      rw state-notify_found (write_user-IsConsistent nick c.state h _ (λ u. refl) (λ u. refl))

-- The source of an event is there.
abbrev pub HasSource : Event → Type 0
HasSource e = (src : Source) × (e.source ≡ some src)

mode_users-IsConsistent :
    (channel : Bytes) (modes : List CMode) (s : State)
    → IsConsistent s
    → IsConsistent (mode_users channel modes s)
unfolding mode_users mode_user
mode_users-IsConsistent channel [] s h = h
mode_users-IsConsistent channel (m ∷ modes) s h = elim (Bool-cases (m.setting || is_empty m.args)) [
  | inl e ↦ rw (e, mode_user) (mode_users-IsConsistent channel modes s h)
  | inr e ↦
      rw (e, mode_user)
        (mode_users-IsConsistent channel modes _
          (write_user-IsConsistent m.args s h _ (λ u. refl) (λ u. refl)))
]

mode_channel-IsConsistent :
    (c : Client) (name flags : Bytes) (args : List Bytes) (ch : Option Channel)
    → IsConsistent c.state
    → IsConsistent (mode_channel c name flags args ch).state
unfolding mode_channel
mode_channel-IsConsistent c name flags args none h = h
mode_channel-IsConsistent c name flags args (some ch) h =
    let modes = Modes.parse ch.modes flags args in
    mode_users-IsConsistent ch.name modes _ (
      write_channel-IsConsistent name c.state h
        (λ x. record x { modes = Modes.apply x.modes modes }) (λ x. refl) (λ x. refl))

mode_from-IsConsistent :
    (c : Client) (params : List Bytes)
    → IsConsistent c.state
    → IsConsistent (mode_from c params).state
unfolding mode_from
mode_from-IsConsistent c [] h = h
mode_from-IsConsistent c (name ∷ []) h = h
mode_from-IsConsistent c (name ∷ flags ∷ args) h = elim (Bool-cases (is_valid_channel name)) [
  | inl e ↦ rw e (mode_channel-IsConsistent c name flags args (lookup_channel c.state name) h)
  | inr e ↦ rw e h
]

pub handle_mode-IsConsistent :
    (c : Client) (e : Event) → IsConsistent c.state → IsConsistent (handle_mode c e).state
unfolding handle_mode
handle_mode-IsConsistent c e h =
    mode_from-IsConsistent c
      (if beq e.command (codes "324") && ltb 2 (length e.params) then drop 1 e.params else e.params)
      h

-- The handlers that read the source of the event with no test do not panic where it is there.
module _ (c : Client) (h : IsConsistent c.state) where
  written_user :
      (name : Bytes) (f : User → User)
      → ((u : User) → (f u).channel_list ≡ u.channel_list)
      → ((u : User) → (f u).nick ≡ u.nick)
      → Handles (ok (notify update_state (record c { state = write_user name f c.state })))
  written_user name f same named = (_, refl, write_user-IsConsistent name c.state h f same named)

  chghost_from-Handles :
      (src : Source) (params : List Bytes) → Handles (chghost_from c (some src) params)
  unfolding chghost_from
  chghost_from-Handles src (user ∷ host ∷ []) =
      written_user src.name (λ u. record u { ident = user; host = host }) (λ u. refl) (λ u. refl)
  chghost_from-Handles src _ = (c, refl, h)

  account_from-Handles :
      (src : Source) (params : List Bytes) → Handles (account_from c (some src) params)
  unfolding account_from
  account_from-Handles src (account ∷ []) =
      written_user src.name
        (λ u. record u { extras_account = if beq account (codes "*") then [] else account })
        (λ u. refl) (λ u. refl)
  account_from-Handles src _ = (c, refl, h)

  tags_from-Handles :
      (src : Source) (account : Option Bytes) → Handles (tags_from c (some src) account)
  unfolding tags_from
  tags_from-Handles src none = (c, refl, h)
  tags_from-Handles src (some account) =
      written_user (Source.id src) (λ u. record u { extras_account = account }) (λ u. refl)
        (λ u. refl)

  module _ (e : Event) where
    away_from-Handles : (src : Source) → Handles (away_from c e (some src))
    unfolding away_from
    away_from-Handles src =
        written_user src.name (λ u. record u { extras_away = last e }) (λ u. refl) (λ u. refl)

    pub handle_away-Handles : HasSource e → Handles (handle_away c e)
    unfolding handle_away last
    handle_away-Handles (src, p) = rw p (away_from-Handles src)

    pub handle_chghost-Handles : HasSource e → Handles (handle_chghost c e)
    unfolding handle_chghost
    handle_chghost-Handles (src, p) = rw p (chghost_from-Handles src e.params)

    pub handle_account-Handles : HasSource e → Handles (handle_account c e)
    unfolding handle_account
    handle_account-Handles (src, p) = rw p (account_from-Handles src e.params)

    pub handle_tags-Handles : HasSource e → Handles (handle_tags c e)
    unfolding handle_tags
    handle_tags-Handles (src, p) = elim (Bool-cases (Tags.tag_count e.tags == 0)) [
      | inl b ↦ rw b (c, refl, h)
      | inr b ↦ rw (b, p) (tags_from-Handles src (Tags.get e.tags (codes "account")))
    ]

    whox_from-IsConsistent : (params : List Bytes) → IsConsistent (whox_from c e params).state
    unfolding whox_from
    whox_from-IsConsistent (p₀ ∷ i ∷ p₂ ∷ ident ∷ host ∷ nick ∷ account ∷ p₇ ∷ []) =
        elim (Bool-cases (beq i (codes "1"))) [
          | inl b ↦ rw b (who_user-IsConsistent c e h ident host nick account (last e))
          | inr b ↦ rw b h
        ]
    whox_from-IsConsistent _ = h

    who_from-Handles : (params : List Bytes) → 5 < length params → Handles (who_from c e params)
    unfolding who_from
    who_from-Handles (p₀ ∷ p₁ ∷ ident ∷ host ∷ p₄ ∷ nick ∷ params) n =
        (_, refl, who_user-IsConsistent c e h ident host nick [] (strip_hops 0 (last e)))
    who_from-Handles _ n = absurd (omega arith)

    pub handle_who-Handles : 5 < length e.params → Handles (handle_who c e)
    unfolding handle_who
    handle_who-Handles n = elim (Bool-cases (beq e.command (codes "354"))) [
      | inl b ↦ rw b (_, refl, whox_from-IsConsistent e.params)
      | inr b ↦ rw b (who_from-Handles e.params n)
    ]
