-- ===== src/Conn/Session/Failures.antt =====
-- A connection that fails without a strict transport policy.
use girc.Prelude.{
  ℕ, ◌+◌, ◌-◌, ◌≡◌, ◌<◌, refl, ap, ◌∙◌, arith, Bool, true, false, not, ◌&&◌, none, some, [], ltb,
  Bytes, ℤ, negsuc, is_empty, codes, is_some, lookup, Map, List,
}
use girc.Policy.{Sts, reset, expired, enabled}
use girc.Setup.{is_valid, server_address}
use girc.Event.{Event}
use girc.Cap.{Config, CapState, offers_sts, possible_cap_list, handle_cap}
use girc.Cap.Withheld.{LacksSts, sts-possible_cap_list, handle_cap-LacksSts}
use girc.Conn.Session.{
  Options, Dialing, unreachable, failed, Machine, new_conn, refused, dialed, fail, settle, start,
}

-- A valid configuration, an address to bind to that resolves, and a server that does not answer.
pub record IsUnreachable (options : Options) (d : Dialing) : Type 0 where
  pub valid : (is_valid options.settings).1 ≡ none
  pub bound : (not d.own_dialer && not (is_empty options.bind) && not d.resolves) ≡ false
  pub silent : d.answers ≡ false

module _ (options : Options) (d : Dialing) (sts : Sts) (off : enabled sts ≡ false)
    (never : sts.persistence_duration ≡ negsuc 0)
    (fallback : options.cap.disable_sts_fallback ≡ false) where
  never-expired : expired d.now sts ≡ true
  unfolding expired
  never-expired = rw never refl

  new_conn-unreachable :
      (address : Bytes)
      → IsUnreachable options d
      → new_conn options d address sts
        ≡ (reset (record sts { last_failed = d.now }), failed unreachable)
  unfolding new_conn refused dialed fail
  new_conn-unreachable address h =
      rw (h.valid, h.bound, h.silent, never-expired, fallback, off) refl

and_false : (a b : Bool) → (a && b && false) ≡ false
and_false a b = ground arith

offers_sts-failed :
    (config : Config) (sts : Sts) (now t : ℕ)
    → config.disable_sts_fallback ≡ false
    → t < now + 300000000000
    → offers_sts config (reset (record sts { last_failed = now })) t ≡ false
unfolding offers_sts reset
offers_sts-failed config sts now t fallback soon =
    let recent : ltb (t - now) 300000000000 ≡ true = ground arith in
    rw (recent, fallback) (and_false (not config.disable_sts) (not config.ssl))

-- A client that never had a strict transport policy and cannot reach the server behaves as if an
-- upgrade had failed: if the configuration allows to fall back and does not itself list "sts" among
-- its capabilities, then in the five minutes after the attempt "sts" is not possible, and no event
-- that is handled under that state of the policy puts it among the capabilities to request.
pub offers_sts-start :
    (join : Bytes → ℤ → Bytes) (order : List Bytes → List Bytes) (show : Map Bytes → Bytes)
    (tls : Bool) (d : Dialing) (m : Machine) (t : ℕ) (s : CapState) (e : Event)
    → enabled m.state.sts ≡ false
    → m.state.sts.persistence_duration ≡ negsuc 0
    → m.options.cap.disable_sts_fallback ≡ false
    → lookup (codes "sts") m.options.cap.supported_caps ≡ none
    → IsUnreachable m.options d
    → t < d.now + 300000000000
    → s.sts ≡ (start join d m).0.state.sts
    → LacksSts s.tmp_cap
    → ((start join d m).2 ≡ some unreachable)
      × (is_some
            (lookup (codes "sts") (possible_cap_list m.options.cap (start join d m).0.state.sts t))
          ≡ false)
      × LacksSts (handle_cap order show m.options.cap tls t s e).0.tmp_cap
unfolding start settle
offers_sts-start join order show tls d m t s e off never fallback unlisted h soon same waiting =
    let address = server_address join m.options.settings m.state.sts in
    let fresh : Machine = record m { state = record m.state { enabled_cap = []; tmp_cap = [] } } in
    let missed = new_conn-unreachable m.options d m.state.sts off never fallback address h in
    let withheld : offers_sts m.options.cap (start join d m).0.state.sts t ≡ false =
      ap (λ r. offers_sts m.options.cap (settle address fresh r).0.state.sts t) missed
      ∙ offers_sts-failed m.options.cap m.state.sts d.now t fallback soon in
    let impossible =
      sts-possible_cap_list m.options.cap (start join d m).0.state.sts t unlisted withheld in
    (
      ap (λ r. (settle address fresh r).2) missed,
      impossible,
      handle_cap-LacksSts order show m.options.cap tls t s e
          (ap (λ p. is_some (lookup (codes "sts") (possible_cap_list m.options.cap p t))) same
            ∙ impossible)
          waiting,
    )
