-- ===== src/Cap/Offers.antt =====
-- What the client does in a negotiation of capabilities, over any sequence of CAP messages.
use girc.Prelude.{
  ℕ, ◌<◌, ◌≡◌, refl, arith, Bool, true, false, not, ◌&&◌, ◌||◌, Option, none, some, List, [], ◌∷◌,
  ◌++◌, Bytes, codes, beq, length, get_or, leb, ◌==◌, is_some, is_empty, All, All-append, Map,
  lookup, keys, branches,
}
use girc.Event.{Event, plain_event, last}
use girc.Actions.{Action, write, receive, run_handlers, close}
use girc.Sasl.{SaslMech, cap_end}
use girc.Policy.{Sts, apply_policy}
use girc.Cap.Options.{Caps, parse_cap}
use girc.Cap.{Config, CapState, request, ask, finish_with, finish, enforce, acknowledge, handle_cap}
use girc.Cap.Allowed.{may_request, IsAllowed, select_caps-IsAllowed, All-keys}

not-true : (b : Bool) → not b ≡ true → b ≡ false
not-true b h = ground arith

length-keys : (tmp : Caps) → is_empty tmp ≡ false → 0 < length (keys tmp)
unfolding keys
length-keys [] h = absurd (ground arith)
length-keys (cap ∷ tmp) h = omega arith

module _ (order : List Bytes → List Bytes) (show : Map Bytes → Bytes) (config : Config)
    (tls : Bool) where
  -- What the client may do in a negotiation.
  pub data Allowed : Action → Type 0 where
    end : Allowed cap_end
    ask_for :
        (names : List Bytes)
        → All (λ k. may_request config k ≡ true) names
        → 0 < length names
        → Allowed (request (order names))
    log_in :
        (mech : SaslMech)
        → config.sasl ≡ some mech
        → Allowed (write (plain_event (codes "AUTHENTICATE") (mech.method ∷ [])))
    give_up :
        (text : Bytes)
        → config.disable_sts ≡ false
        → Allowed (receive (plain_event (codes "ERROR") (text ∷ [])))
    start_upgrade :
        tls ≡ false
        → config.disable_sts ≡ false
        → Allowed (run_handlers (plain_event (codes "STS_UPGRADE_INIT") []))
    hang_up : tls ≡ false → config.disable_sts ≡ false → Allowed close

  -- A negotiation: the points of time and the events of CAP that arrive.
  unfoldable pub negotiate : List (ℕ × Event) → CapState → CapState × List Action
  negotiate [] s = (s, [])
  negotiate ((now, e) ∷ events) s =
      let step = handle_cap order show config tls now s e in
      let rest = negotiate events step.0 in (rest.0, step.1 ++ rest.1)

  -- Only allowed capabilities are waiting, and only what is allowed was done.
  abbrev pub IsGood : CapState × List Action → Type 0
  IsGood r = IsAllowed config r.0.tmp_cap × All Allowed r.1

  nil-IsAllowed : IsAllowed config []
  unfolding lookup
  nil-IsAllowed k h = absurd (ground arith)

  finish_with-IsGood :
      (s : CapState) (b : Bool) (mech : Option SaslMech)
      → config.sasl ≡ mech
      → IsGood (finish_with s b mech)
  unfolding finish_with
  finish_with-IsGood s true none h = (nil-IsAllowed, (end, tt))
  finish_with-IsGood s true (some mech) h = (nil-IsAllowed, (log_in mech h, tt))
  finish_with-IsGood s false none h = (nil-IsAllowed, (end, tt))
  finish_with-IsGood s false (some mech) h = (nil-IsAllowed, (end, tt))

  finish-IsGood : (s : CapState) → IsGood (finish config s)
  unfolding finish
  finish-IsGood s =
      finish_with-IsGood s (is_some (lookup (codes "sasl") s.enabled_cap)) config.sasl refl

  enforce-IsGood :
      (policy : Map Bytes) (s : CapState) (r : Sts × Bool)
      → config.disable_sts ≡ false
      → IsAllowed config s.tmp_cap
      → IsGood (enforce show config tls policy s r)
  unfolding enforce
  enforce-IsGood policy s (sts, true) d h = (h, (give_up _ d, tt))
  enforce-IsGood policy s (sts, false) d h =
      branches IsGood (not tls) _ _
        (λ e. (h, (start_upgrade (not-true tls e) d, (hang_up (not-true tls e) d, tt))))
        (λ e. finish-IsGood (record s { sts = sts }))

  acknowledge-IsGood :
      (now : ℕ) (s : CapState) (policy : Option (Map Bytes))
      → IsAllowed config s.tmp_cap
      → IsGood (acknowledge show config tls now s policy)
  unfolding acknowledge
  acknowledge-IsGood now s none h = finish-IsGood s
  acknowledge-IsGood now s (some policy) h =
      branches IsGood (not config.disable_sts) _ _
        (λ e.
          enforce-IsGood policy s (apply_policy tls now policy s.sts)
            (not-true config.disable_sts e) h)
        (λ e. finish-IsGood s)

  ask-IsGood : (s : CapState) (e : Event) → IsAllowed config s.tmp_cap → IsGood (ask order s e)
  unfolding ask
  ask-IsGood s e h =
      branches IsGood (length e.params == 3) _ _
        (λ three.
          branches IsGood (is_empty s.tmp_cap) _ _ (λ none_left. (h, (end, tt)))
            (λ some_left. (
              h,
              (
                ask_for (keys s.tmp_cap) (All-keys config s.tmp_cap h)
                    (length-keys s.tmp_cap some_left),
                tt,
              ),
            )))
        (λ more. (h, tt))

  handle_cap-IsGood :
      (now : ℕ) (s : CapState) (e : Event)
      → IsAllowed config s.tmp_cap
      → IsGood (handle_cap order show config tls now s e)
  unfolding handle_cap
  handle_cap-IsGood now s e h =
      branches IsGood (leb 2 (length e.params) && beq (get_or e.params 1 []) (codes "DEL")) _ _
        (λ _. (h, tt))
        (λ _.
          branches IsGood (leb 2 (length e.params) && beq (get_or e.params 1 []) (codes "NAK")) _ _
            (λ _. (h, (end, tt)))
            (λ _.
              branches IsGood
                (leb 3 (length e.params)
                  && (beq (get_or e.params 1 []) (codes "LS")
                      || beq (get_or e.params 1 []) (codes "NEW")))
                _ _
                (λ _.
                  ask-IsGood _ e
                    (select_caps-IsAllowed config s.sts now (parse_cap (last e)) s.tmp_cap h))
                (λ _.
                  branches IsGood (length e.params == 3 && beq (get_or e.params 1 []) (codes "ACK"))
                    _ _ (λ _. acknowledge-IsGood now _ _ h) (λ _. (h, tt)))))

  -- Whatever CAP events arrive in a negotiation, the client requests only capabilities that the
  -- configuration allows, and at least one at a time; besides it only ends the negotiation, logs
  -- in by the mechanism of the configuration, and, unless the strict transport policy is
  -- disabled, gives up with an error or, without TLS, upgrades the connection.
  pub negotiate-Allowed :
      (events : List (ℕ × Event)) (s : CapState)
      → IsAllowed config s.tmp_cap
      → All Allowed (negotiate events s).1
  unfolding negotiate
  negotiate-Allowed [] s h = tt
  negotiate-Allowed ((now, e) ∷ events) s h =
      let good = handle_cap-IsGood now s e h in
      All-append Allowed _ _ good.1
        (negotiate-Allowed events (handle_cap order show config tls now s e).0 good.0)
