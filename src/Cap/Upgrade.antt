-- ===== src/Cap/Upgrade.antt =====
-- What the handler of CAP does to the strict transport policy.
use girc.Prelude.{
  ℕ, ◌≡◌, refl, ap, ◌∙◌, is_some, is_empty, Bool, true, false, not, ◌&&◌, ◌||◌, Option, none, some,
  List, [], ◌∷◌, Bytes, codes, beq, length, get_or, leb, ◌==◌, Map, lookup, branches, split, ℤ, pos,
  less, atoi,
}
use girc.Event.{Event, plain_event, last}
use girc.Actions.{Action, run_handlers, close}
use girc.Sasl.{SaslMech}
use mathlib.Core.Path.{subst}
use girc.Policy.{Sts, apply_policy, duration_from, preload_from, port_from}
use girc.Cap.Options.{parse_cap}
use girc.Cap.{
  select_caps, possible_cap_list, Config, CapState, ask, finish_with, finish, enforce, acknowledge,
  handle_cap, enable_caps,
}

-- The state with the capabilities that the event acknowledges.
abbrev enabled_by : CapState → Event → CapState
enabled_by s e = record s {
  enabled_cap = enable_caps (split b' ' [] (last e)) s.tmp_cap s.enabled_cap;
}

-- The policy that the event acknowledges, if it acknowledges one.
unfoldable pub policy_of : CapState → Event → Option (Map Bytes)
policy_of s e = lookup (codes "sts") (enable_caps (split b' ' [] (last e)) s.tmp_cap s.enabled_cap)

module _ (order : List Bytes → List Bytes) (show : Map Bytes → Bytes) (config : Config) where
  -- The port of the policy is `port`.
  data HasPort (port : ℤ) (r : CapState × List Action) : Type 0 where
    has : r.0.sts.upgrade_port ≡ port → HasPort port r

  finish_with-HasPort :
      (s : CapState) (b : Bool) (mech : Option SaslMech)
      → HasPort s.sts.upgrade_port (finish_with s b mech)
  unfolding finish_with
  finish_with-HasPort s true none = has refl
  finish_with-HasPort s true (some mech) = has refl
  finish_with-HasPort s false none = has refl
  finish_with-HasPort s false (some mech) = has refl

  finish-HasPort : (s : CapState) → HasPort s.sts.upgrade_port (finish config s)
  unfolding finish
  finish-HasPort s =
      finish_with-HasPort s (is_some (lookup (codes "sasl") s.enabled_cap)) config.sasl

  enforce-HasPort :
      (policy : Map Bytes) (s : CapState) (r : Sts × Bool)
      → HasPort r.0.upgrade_port (enforce show config true policy s r)
  unfolding enforce
  enforce-HasPort policy s (sts, true) = has refl
  enforce-HasPort policy s (sts, false) = finish-HasPort (record s { sts = sts })

  duration_from-upgrade_port :
      (now : ℕ) (duration : Option Bytes) (s : Sts)
      → (duration_from now duration s).0.upgrade_port ≡ s.upgrade_port
  unfolding duration_from
  duration_from-upgrade_port now none s = refl
  duration_from-upgrade_port now (some duration) s = refl

  preload_from-upgrade_port :
      (preload : Option Bytes) (r : Sts × Bool)
      → (preload_from preload r).0.upgrade_port ≡ r.0.upgrade_port
  unfolding preload_from
  preload_from-upgrade_port none r = refl
  preload_from-upgrade_port (some preload) (s, invalid) = refl

  apply_policy-upgrade_port :
      (now : ℕ) (policy : Map Bytes) (s : Sts)
      → (apply_policy true now policy s).0.upgrade_port ≡ s.upgrade_port
  unfolding apply_policy
  apply_policy-upgrade_port now policy s =
      preload_from-upgrade_port (lookup (codes "preload") policy)
        (duration_from now (lookup (codes "duration") policy) s)
      ∙ duration_from-upgrade_port now (lookup (codes "duration") policy) s

  acknowledge-HasPort :
      (now : ℕ) (s : CapState) (policy : Option (Map Bytes))
      → HasPort s.sts.upgrade_port (acknowledge show config true now s policy)
  unfolding acknowledge
  acknowledge-HasPort now s none = finish-HasPort s
  acknowledge-HasPort now s (some policy) =
      branches (HasPort s.sts.upgrade_port) (not config.disable_sts) _ _
        (λ e.
          subst
            (λ port.
              HasPort port (enforce show config true policy s (apply_policy true now policy s.sts)))
            (apply_policy-upgrade_port now policy s.sts)
            (enforce-HasPort policy s (apply_policy true now policy s.sts)))
        (λ e. finish-HasPort s)

  ask-HasPort : (s : CapState) (e : Event) → HasPort s.sts.upgrade_port (ask order s e)
  unfolding ask
  ask-HasPort s e =
      branches (HasPort s.sts.upgrade_port) (length e.params == 3) _ _
        (λ _.
          branches (HasPort s.sts.upgrade_port) (is_empty s.tmp_cap) _ _ (λ _. has refl)
            (λ _. has refl))
        (λ _. has refl)

  handle_cap-HasPort :
      (now : ℕ) (s : CapState) (e : Event)
      → HasPort s.sts.upgrade_port (handle_cap order show config true now s e)
  unfolding handle_cap
  handle_cap-HasPort now s e =
      let subcommand = get_or e.params 1 [] in
      let P = HasPort s.sts.upgrade_port in
      branches P (leb 2 (length e.params) && beq subcommand (codes "DEL")) _ _ (λ _. has refl)
        (λ _.
          branches P (leb 2 (length e.params) && beq subcommand (codes "NAK")) _ _ (λ _. has refl)
            (λ _.
              branches P
                (leb 3 (length e.params)
                  && (beq subcommand (codes "LS") || beq subcommand (codes "NEW")))
                _ _
                (λ _.
                  ask-HasPort
                    (record s {
                      tmp_cap =
                          select_caps (possible_cap_list config s.sts now) (parse_cap (last e))
                            s.tmp_cap;
                    })
                    e)
                (λ _.
                  branches P (length e.params == 3 && beq subcommand (codes "ACK")) _ _
                    (λ _. acknowledge-HasPort now _ _) (λ _. has refl))))

  -- On a connection over TLS the handler keeps the port.
  pub upgrade_port-handle_cap :
      (now : ℕ) (s : CapState) (e : Event)
      → (handle_cap order show config true now s e).0.sts.upgrade_port ≡ s.sts.upgrade_port
  upgrade_port-handle_cap now s e = elim (handle_cap-HasPort now s e) [ has same ↦ same ]

  handle_cap-ack :
      (tls : Bool) (now : ℕ) (s : CapState) (e : Event)
      → length e.params ≡ 3
      → get_or e.params 1 [] ≡ codes "ACK"
      → handle_cap order show config tls now s e
        ≡ acknowledge show config tls now (enabled_by s e) (policy_of s e)
  unfolding handle_cap policy_of beq
  handle_cap-ack tls now s e three ack = rw (three, ack) refl

  acknowledge-upgrade :
      (now : ℕ) (s : CapState) (policy : Map Bytes) (text : Bytes)
      → config.disable_sts ≡ false
      → lookup (codes "port") policy ≡ some text
      → less (atoi text).0 (pos 21) ≡ false
      → acknowledge show config false now s (some policy) ≡ (
        record s { sts = record s.sts { upgrade_port = (atoi text).0; begin_upgrade = true } },
        run_handlers (plain_event (codes "STS_UPGRADE_INIT") []) ∷ close ∷ [],
      )
  unfolding acknowledge enforce apply_policy port_from
  acknowledge-upgrade now s policy text d port valid =
      rw (d, port)
        (ap
          (λ b.
            enforce show config false policy s (record s.sts { upgrade_port = (atoi text).0 }, b))
          valid)

  -- Without TLS, a policy with a port from 21 on is taken up and the connection is closed.
  pub handle_cap-upgrade :
      (now : ℕ) (s : CapState) (e : Event) (policy : Map Bytes) (text : Bytes)
      → config.disable_sts ≡ false
      → length e.params ≡ 3
      → get_or e.params 1 [] ≡ codes "ACK"
      → policy_of s e ≡ some policy
      → lookup (codes "port") policy ≡ some text
      → less (atoi text).0 (pos 21) ≡ false
      → ((handle_cap order show config false now s e).0.sts
          ≡ record s.sts { upgrade_port = (atoi text).0; begin_upgrade = true })
        × ((handle_cap order show config false now s e).1
            ≡ run_handlers (plain_event (codes "STS_UPGRADE_INIT") []) ∷ close ∷ [])
  handle_cap-upgrade now s e policy text d three ack known port valid =
      let upgraded =
        handle_cap-ack false now s e three ack
        ∙ ap (acknowledge show config false now (enabled_by s e)) known
        ∙ acknowledge-upgrade now (enabled_by s e) policy text d port valid in
      (ap (λ r. r.0.sts) upgraded, ap (λ r. r.1) upgraded)
