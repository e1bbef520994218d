-- ===== src/Handlers/Sequences.antt =====
-- Sequences of handler calls. Handlers for one event run concurrently, each under the lock of the
-- state, so any order of calls is a sequence of these steps.
use girc.Prelude.{ℕ, ◌≡◌, refl, ◌<◌, IsAscii, Outcome, ok, length, get_elem?, sym, ◌∙◌}
use girc.Client.{Client}
use girc.Event.{Event, last}
use girc.Handlers.Membership.{
  handle_join, handle_part, handle_kick, handle_quit, handle_nick, handle_names,
}
use girc.Handlers.Membership.Join.{SourceIsSettled, FirstIsSettled, handle_join_total}
use girc.Handlers.Membership.Leave.{
  Handles, RenameIsSettled, handle_part_total, handle_kick_total, handle_quit_total,
  handle_nick_total,
}
use girc.Handlers.Membership.Names.{ThirdIsSettled, handle_names_total}
use girc.Handlers.Details.{
  handle_topic, handle_away, handle_chghost, handle_account, handle_tags, update_last_active,
  handle_who, handle_mode, handle_motd, handle_myinfo,
}
use girc.Handlers.Details.Safe.{
  HasSource, handle_topic-IsConsistent, handle_motd-IsConsistent, handle_myinfo-IsConsistent,
  update_last_active-IsConsistent, handle_mode-IsConsistent, handle_away-Handles,
  handle_chghost-Handles, handle_account-Handles, handle_tags-Handles, handle_who-Handles,
}
use girc.Tracker.Consistent.{IsConsistent}

-- The handlers of `registerBuiltins` that read or write the tables, each with its event.
pub data Call : Type 0 where
  join part kick quit nick names topic away chghost account tags active who mode motd myinfo : Call

-- The handler called on an event.
unfoldable pub handle : ℕ → Call → Client → Event → Outcome Client
handle now join c e = handle_join now c e
handle now part c e = handle_part c e
handle now kick c e = handle_kick c e
handle now quit c e = handle_quit c e
handle now nick c e = handle_nick now c e
handle now names c e = handle_names now c e
handle now topic c e = ok (handle_topic c e)
handle now away c e = handle_away c e
handle now chghost c e = handle_chghost c e
handle now account c e = handle_account c e
handle now tags c e = handle_tags c e
handle now active c e = ok (update_last_active now c e)
handle now who c e = handle_who c e
handle now mode c e = ok (handle_mode c e)
handle now motd c e = ok (handle_motd c e)
handle now myinfo c e = ok (handle_myinfo c e)

-- What a server sends: names that a second `ToRFC1459` keeps (ASCII names), a new nickname that is
-- free, and the source and the parameters that the handlers read with no test.
abbrev pub IsExpected : Call → Client → Event → Type 0
IsExpected join c e = SourceIsSettled e.source × FirstIsSettled e.params
IsExpected nick c e = RenameIsSettled e.source e c.state
IsExpected names c e = ThirdIsSettled (get_elem? e.params 2) × IsAscii (last e)
IsExpected away c e = HasSource e
IsExpected chghost c e = HasSource e
IsExpected account c e = HasSource e
IsExpected tags c e = HasSource e
IsExpected who c e = 5 < length e.params
IsExpected _ c e = Unit

-- On an expected event, in a consistent state, no handler panics, and each leaves a consistent
-- state.
pub handle-Handles :
    (now : ℕ) (call : Call) (c : Client) (e : Event)
    → IsConsistent c.state
    → IsExpected call c e
    → Handles (handle now call c e)
unfolding handle
handle-Handles now join c e h p =
    let (c', runs, h', j) = handle_join_total now c e h p.0 p.1 in (c', runs, h')
handle-Handles now part c e h p = handle_part_total c e h
handle-Handles now kick c e h p = handle_kick_total c e h
handle-Handles now quit c e h p = handle_quit_total c e h
handle-Handles now nick c e h p = handle_nick_total now c e h p
handle-Handles now names c e h p = handle_names_total now c e h p.0 p.1
handle-Handles now topic c e h p = (_, refl, handle_topic-IsConsistent c e h)
handle-Handles now away c e h p = handle_away-Handles c h e p
handle-Handles now chghost c e h p = handle_chghost-Handles c h e p
handle-Handles now account c e h p = handle_account-Handles c h e p
handle-Handles now tags c e h p = handle_tags-Handles c h e p
handle-Handles now active c e h p = (_, refl, update_last_active-IsConsistent c e h now)
handle-Handles now who c e h p = handle_who-Handles c h e p
handle-Handles now mode c e h p = (_, refl, handle_mode-IsConsistent c e h)
handle-Handles now motd c e h p = (_, refl, handle_motd-IsConsistent c e h)
handle-Handles now myinfo c e h p = (_, refl, handle_myinfo-IsConsistent c e h)

-- A call on an expected event, at some time.
pub data Step (c c' : Client) : Type 0 where
  step :
      (now : ℕ) (call : Call) (e : Event)
      → IsExpected call c e
      → handle now call c e ≡ ok c'
      → Step c c'

pub data Reach (c : Client) : Client → Type 0 where
  here : Reach c c
  next : {c₁ c₂ : Client} → Reach c c₁ → Step c₁ c₂ → Reach c c₂

ok-injective : {a b : Client} → ok a ≡ ok b → a ≡ b
ok-injective h = cc

Step-IsConsistent : {c c' : Client} → Step c c' → IsConsistent c.state → IsConsistent c'.state
Step-IsConsistent {c} (step now call e p runs) h =
    let (c'', runs', h') = handle-Handles now call c e h p in
    rw (ok-injective (sym runs ∙ runs')) h'

Reach-IsConsistent : {c c' : Client} → Reach c c' → IsConsistent c.state → IsConsistent c'.state
Reach-IsConsistent here h = h
Reach-IsConsistent (next r s) h = Step-IsConsistent s (Reach-IsConsistent r h)

-- From a client whose state is consistent, whatever expected events are handled and in whatever
-- order, the tables stay consistent, and the next expected event is handled without a panic.
pub Reach-total :
    {c c' : Client}
    → IsConsistent c.state
    → Reach c c'
    → IsConsistent c'.state
      × ((now : ℕ) (call : Call) (e : Event)
          → IsExpected call c' e
          → (c'' : Client) × (handle now call c' e ≡ ok c'') × IsConsistent c''.state)
Reach-total {c} {c'} h r =
    (Reach-IsConsistent r h, λ now call e. handle-Handles now call c' e (Reach-IsConsistent r h))
