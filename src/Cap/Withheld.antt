-- ===== src/Cap/Withheld.antt =====
-- The capability "sts" where the client does not offer to take it up.
use girc.Prelude.{
  ℕ, ◌≡◌, refl, ap, ◌∙◌, arith, Bool, true, false, not, ◌&&◌, ◌||◌, Option, none, some, List, [],
  Bytes, codes, beq, is_some, length, get_or, leb, ◌==◌, Map, lookup, insert, branches, Bool-cases,
  inl, inr,
}
use girc.Event.{Event}
use girc.Policy.{Sts}
use girc.Actions.{Action}
use girc.Sasl.{SaslMech}
use girc.Tracker.Lists.{mem_string}
use girc.Cap.Options.{Caps}
use girc.Cap.Allowed.{lookup-copy_names, lookup-copy_caps}
use girc.Cap.Parse.{lookup-handle_cap}
use girc.Cap.{
  Config, CapState, possible_cap, copy_caps, dynamic_caps, possible_cap_list, offers_sts,
  finish_with, finish, enforce, acknowledge, handle_cap,
}

-- "sts" is not among the capabilities to request.
abbrev pub LacksSts : Caps → Type 0
LacksSts tmp = lookup (codes "sts") tmp ≡ none

sts-possible_cap : mem_string (codes "sts") possible_cap ≡ false
unfolding mem_string possible_cap beq
sts-possible_cap = refl

sts-dynamic_caps :
    (config : Config) (sts : Sts) (t : ℕ)
    → offers_sts config sts t ≡ false
    → is_some (lookup (codes "sts") (dynamic_caps config sts t)) ≡ false
unfolding dynamic_caps insert lookup beq
sts-dynamic_caps config sts t h = rw h (
    branches (λ (caps : Map (List Bytes)). is_some (lookup (codes "sts") caps) ≡ false)
      (is_some config.sasl) _ _ (λ _. refl) (λ _. refl))

-- A server's "sts" is not possible where it is not offered.
pub sts-possible_cap_list :
    (config : Config) (sts : Sts) (t : ℕ)
    → lookup (codes "sts") config.supported_caps ≡ none
    → offers_sts config sts t ≡ false
    → is_some (lookup (codes "sts") (possible_cap_list config sts t)) ≡ false
unfolding possible_cap_list
sts-possible_cap_list config sts t unsupported h =
    lookup-copy_names possible_cap (copy_caps config.supported_caps (dynamic_caps config sts t))
      (codes "sts")
    ∙ ap
        (λ b.
          b
          || is_some
              (lookup (codes "sts") (copy_caps config.supported_caps (dynamic_caps config sts t))))
        sts-possible_cap
    ∙ lookup-copy_caps config.supported_caps (dynamic_caps config sts t) (codes "sts")
    ∙ ap (λ o. is_some o || is_some (lookup (codes "sts") (dynamic_caps config sts t))) unsupported
    ∙ sts-dynamic_caps config sts t h

finish_with-LacksSts :
    (s : CapState) (sasl : Bool) (mech : Option SaslMech)
    → LacksSts (finish_with s sasl mech).0.tmp_cap
unfolding finish_with lookup
finish_with-LacksSts s true (some mech) = refl
finish_with-LacksSts s true none = refl
finish_with-LacksSts s false mech = refl

module _ (order : List Bytes → List Bytes) (show : Map Bytes → Bytes) (config : Config) (tls : Bool)
    (now : ℕ) where
  enforce-LacksSts :
      (policy : Map Bytes) (s : CapState) (applied : Sts × Bool)
      → LacksSts s.tmp_cap
      → LacksSts (enforce show config tls policy s applied).0.tmp_cap
  unfolding enforce finish
  enforce-LacksSts policy s (sts, true) h = h
  enforce-LacksSts policy s (sts, false) h =
      branches (λ (r : CapState × List Action). LacksSts r.0.tmp_cap) (not tls) _ _ (λ _. h)
        (λ _. finish_with-LacksSts (record s { sts = sts }) _ config.sasl)

  acknowledge-LacksSts :
      (s : CapState) (policy : Option (Map Bytes))
      → LacksSts s.tmp_cap
      → LacksSts (acknowledge show config tls now s policy).0.tmp_cap
  unfolding acknowledge finish
  acknowledge-LacksSts s none h = finish_with-LacksSts s _ config.sasl
  acknowledge-LacksSts s (some policy) h =
      branches (λ (r : CapState × List Action). LacksSts r.0.tmp_cap) (not config.disable_sts) _ _
        (λ _. enforce-LacksSts policy s _ h) (λ _. finish_with-LacksSts s _ config.sasl)

  -- An event that offers no capabilities.
  other-LacksSts :
      (s : CapState) (e : Event)
      → (leb 3 (length e.params)
          && (beq (get_or e.params 1 []) (codes "LS") || beq (get_or e.params 1 []) (codes "NEW")))
        ≡ false
      → LacksSts s.tmp_cap
      → LacksSts (handle_cap order show config tls now s e).0.tmp_cap
  unfolding handle_cap
  other-LacksSts s e other h =
      let P : CapState × List Action → Type 0 = λ r. LacksSts r.0.tmp_cap in
      branches P (leb 2 (length e.params) && beq (get_or e.params 1 []) (codes "DEL")) _ _ (λ _. h)
        (λ _.
          branches P (leb 2 (length e.params) && beq (get_or e.params 1 []) (codes "NAK")) _ _
            (λ _. h)
            (λ _. rw other (
              branches P (length e.params == 3 && beq (get_or e.params 1 []) (codes "ACK")) _ _
                (λ _. acknowledge-LacksSts _ _ h) (λ _. h))))

  -- Where "sts" is not possible, an event does not put it among the capabilities to request.
  pub handle_cap-LacksSts :
      (s : CapState) (e : Event)
      → is_some (lookup (codes "sts") (possible_cap_list config s.sts now)) ≡ false
      → LacksSts s.tmp_cap
      → LacksSts (handle_cap order show config tls now s e).0.tmp_cap
  handle_cap-LacksSts s e impossible h =
      elim (Bool-cases (
        leb 3 (length e.params)
        && (beq (get_or e.params 1 []) (codes "LS") || beq (get_or e.params 1 []) (codes "NEW")))) [
          | inl listing ↦
              lookup-handle_cap order show config tls now s e (codes "sts") (ground arith)
                (ground arith)
              ∙ rw impossible h
          | inr other ↦ other-LacksSts s e other h
        ]
