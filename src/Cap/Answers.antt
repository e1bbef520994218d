-- ===== src/Cap/Answers.antt =====
-- Which CAP messages the client answers.
use girc.Prelude.{
  ℕ, ◌≡◌, refl, arith, Bool, true, false, not, ◌&&◌, ◌||◌, Option, none, some, List, [], ◌∷◌, Bytes,
  codes, beq, length, get_or, leb, ◌==◌, Map, lookup, split, if◌then◌else◌, branches, Bool-cases,
  inl, inr,
}
use girc.Event.{Event, last}
use girc.Actions.{Action, write, send}
use girc.Sasl.{SaslMech, cap_end}
use girc.Policy.{Sts, apply_policy}
use girc.Cap.Subcommands.{del-nak, del-ls, del-new, del-ack, nak-ack, ls-ack, new-ack}
use girc.Cap.{
  Config, CapState, ask, request, finish_with, finish, enforce, acknowledge, enable_caps,
  handle_cap,
}

-- The events that are written to the server.
unfoldable pub written : List Action → List Event
written [] = []
written (write e ∷ actions) = e ∷ written actions
written (send e ∷ actions) = e ∷ written actions
written (_ ∷ actions) = written actions

unfoldable pub answers : List Action → ℕ
unfolding written
answers actions = length (written actions)

-- The messages that end a list of the server, or take up or refuse a request.
abbrev pub wants_answer : Event → Bool
wants_answer e =
    let subcommand = get_or e.params 1 [] in
    (leb 2 (length e.params) && beq subcommand (codes "NAK"))
    || (length e.params == 3
        && (beq subcommand (codes "LS")
            || beq subcommand (codes "NEW")
            || beq subcommand (codes "ACK")))

-- A policy that is enforced: it is invalid, or the connection is without TLS.
abbrev pub is_enforced : Config → Bool → ℕ → Sts → Option (Map Bytes) → Bool
is_enforced config tls now sts none = false
is_enforced config tls now sts (some policy) =
    not config.disable_sts && ((apply_policy tls now policy sts).1 || not tls)

-- An ACK with such a policy among the capabilities that are enabled then.
abbrev pub ends_connection : Config → Bool → ℕ → CapState → Event → Bool
ends_connection config tls now s e =
    length e.params == 3
    && beq (get_or e.params 1 []) (codes "ACK")
    && is_enforced config tls now s.sts
        (lookup (codes "sts") (enable_caps (split b' ' [] (last e)) s.tmp_cap s.enabled_cap))

answers-finish_with :
    (s : CapState) (sasl : Bool) (mech : Option SaslMech) → answers (finish_with s sasl mech).1 ≡ 1
unfolding finish_with answers written cap_end
answers-finish_with s true (some mech) = refl
answers-finish_with s true none = refl
answers-finish_with s false mech = refl

module _ (order : List Bytes → List Bytes) (show : Map Bytes → Bytes) (config : Config)
    (tls : Bool) where
  answers-finish : (s : CapState) → answers (finish config s).1 ≡ 1
  unfolding finish
  answers-finish s = answers-finish_with s _ config.sasl

  answers-enforce :
      (policy : Map Bytes) (s : CapState) (applied : Sts × Bool)
      → answers (enforce show config tls policy s applied).1
        ≡ (if applied.1 || not tls then 0 else 1)
  unfolding enforce answers written
  answers-enforce policy s (sts, true) = refl
  answers-enforce policy s (sts, false) = elim (Bool-cases tls) [
    | inl e ↦ rw e (answers-finish (record s { sts = sts }))
    | inr e ↦ rw e refl
  ]

  answers-acknowledge :
      (now : ℕ) (s : CapState) (policy : Option (Map Bytes))
      → answers (acknowledge show config tls now s policy).1
        ≡ (if is_enforced config tls now s.sts policy then 0 else 1)
  unfolding acknowledge
  answers-acknowledge now s none = answers-finish s
  answers-acknowledge now s (some policy) = elim (Bool-cases config.disable_sts) [
    | inl e ↦ rw e (answers-finish s)
    | inr e ↦ rw e (answers-enforce policy s (apply_policy tls now policy s.sts))
  ]

  answers-ask :
      (s : CapState) (e : Event)
      → answers (ask order s e).1 ≡ (if length e.params == 3 then 1 else 0)
  unfolding ask answers written cap_end request
  answers-ask s e = ground arith

  -- What is to be written on the event.
  abbrev expected : ℕ → CapState → Event → ℕ
  expected now s e = if wants_answer e && not (ends_connection config tls now s e) then 1 else 0

  answers-cap_end : answers (cap_end ∷ []) ≡ 1
  unfolding answers written cap_end
  answers-cap_end = refl

  answers-nil : answers [] ≡ 0
  unfolding answers written
  answers-nil = refl

  -- handleCAP writes one message to the server if the event refuses a request, or has three
  -- parameters and ends a list, adds capabilities or acknowledges a request; but none if it
  -- acknowledges a strict transport policy that the client enforces, because the policy is invalid
  -- or the connection is without TLS; and none on any other event.
  pub handle_cap_answers :
      (now : ℕ) (s : CapState) (e : Event)
      → answers (handle_cap order show config tls now s e).1
        ≡ (if wants_answer e && not (ends_connection config tls now s e) then 1 else 0)
  unfolding handle_cap
  handle_cap_answers now s e =
      let subcommand : Bytes = get_or e.params 1 [] in
      branches (λ (r : CapState × List Action). answers r.1 ≡ expected now s e)
        (leb 2 (length e.params) && beq subcommand (codes "DEL")) _ _
        (λ h. rw answers-nil (
          ground
            (arith, del-nak subcommand, del-ls subcommand, del-new subcommand, del-ack subcommand)))
        (λ _.
          branches (λ (r : CapState × List Action). answers r.1 ≡ expected now s e)
            (leb 2 (length e.params) && beq subcommand (codes "NAK")) _ _
            (λ h. rw answers-cap_end (ground (arith, nak-ack subcommand)))
            (λ nak.
              branches (λ (r : CapState × List Action). answers r.1 ≡ expected now s e)
                (leb 3 (length e.params)
                  && (beq subcommand (codes "LS") || beq subcommand (codes "NEW")))
                _ _
                (λ h. rw (answers-ask _ e) (ground (arith, ls-ack subcommand, new-ack subcommand)))
                (λ ls.
                  branches (λ (r : CapState × List Action). answers r.1 ≡ expected now s e)
                    (length e.params == 3 && beq subcommand (codes "ACK")) _ _
                    (λ ack. rw (answers-acknowledge now _ _) (ground arith))
                    (λ other. rw answers-nil (ground arith)))))
