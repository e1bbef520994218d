-- ===== src/Conn/Session/Secure.antt =====
-- A strict transport policy keeps every connection on TLS: attempts and ends of connections.
pub mod Run
use girc.Prelude.{
  ℕ, ◌≡◌, refl, ap, ◌∙◌, arith, Bool, true, false, not, ◌&&◌, ◌||◌, Option, none, some, List, [],
  ◌∷◌, ◌++◌, append_assoc, Option-cases, inl, inr, panic, ◌>>=◌, if◌then◌else◌, Bytes, Map, ℤ, pos,
  less, Outcome, ok, branches, is_empty,
}
use mathlib.Core.Path.{subst, sym}
use girc.Event.{Event}
use girc.Actions.{Action}
use girc.Policy.{Sts, reset, expired, enabled}
use girc.Setup.{Settings, Refusal, is_valid, server_address}
use girc.Cap.{Config, CapState, handle_cap}
use girc.Cap.Upgrade.{upgrade_port-handle_cap}
use girc.Conn.Session.{
  Options, Dialing, Connection, Failure, Attempt, upgrade_failed, invalid, unresolved, unreachable,
  failed, connected, Machine, new_conn, refused, dialed, secured, fail, tls_handshake, fallback,
  announced, settle, start, connect, connect_on, step_on, ended, finish, closing,
  machine_and_actions, Input, connects, receives, ends, while_connected, while_idle, step, run,
  with_name,
}

-- The configuration, the server and the port of a policy.
pub record Target : Type 0 where
  pub config : Config
  pub server : Bytes
  pub port : ℤ

module _ (join : Bytes → ℤ → Bytes) (target : Target) where
  unfoldable pub IsSafe : Option Connection → Type 0
  IsSafe none = Unit
  IsSafe (some conn) = (conn.secure ≡ true) × (conn.address ≡ join target.server target.port)

  -- The policy is on, and a connection is over TLS to its port.
  pub record IsSecured (m : Machine) : Type 0 where
    pub port_on : less (pos 0) target.port ≡ true
    pub has_policy : m.state.sts.upgrade_port ≡ target.port
    pub has_config : m.options.cap ≡ target.config
    pub has_server : m.options.settings.server ≡ target.server
    pub is_safe : IsSafe m.conn

  -- STS_ERR_FALLBACK is among the actions.
  pub data Announces (actions : List Action) : Type 0 where
    among :
        (before after : List Action) → actions ≡ before ++ (fallback ∷ after) → Announces actions

  -- Still secured, or fallen back with an event, which the configuration allows.
  pub data Kept (r : Machine × List Action) : Type 0 where
    still : IsSecured r.0 → Kept r
    fell_back : target.config.disable_sts_fallback ≡ false → Announces r.1 → Kept r

  -- What newConn gives under the policy.
  data Safe (sts : Sts) : Sts × Attempt → Type 0 where
    reached : (conn : Connection) → IsSafe (some conn) → Safe sts (sts, connected conn)
    missed : (failure : Failure) → Safe sts (sts, failed failure)
    dropped :
        (now : ℕ)
        → target.config.disable_sts_fallback ≡ false
        → Safe sts (reset (record sts { last_failed = now }), failed upgrade_failed)

  module _ (options : Options) (sts : Sts) (on : enabled sts ≡ true)
      (has_config : options.cap ≡ target.config) where
    fail-Safe : (now : ℕ) → Safe sts (fail options now sts)
    unfolding fail
    fail-Safe now =
        branches (λ r. Safe sts (r, failed (if enabled sts then upgrade_failed else unreachable)))
          (expired now sts && not options.cap.disable_sts_fallback) _ _
          (λ e. rw on (dropped now (ground (arith, ap (λ c. c.disable_sts_fallback) has_config))))
          (λ e. missed _)

    new_conn-Safe :
        (d : Dialing) → Safe sts (new_conn options d (join target.server target.port) sts)
    unfolding new_conn refused dialed secured tls_handshake IsSafe
    new_conn-Safe d =
        elim (is_valid options.settings).1
          as (λ r. Safe sts (refused options d (join target.server target.port) sts r)) [
            | some refusal ↦ missed (invalid refusal)
            | none ↦
                branches (Safe sts)
                  (not d.own_dialer && not (is_empty options.bind) && not d.resolves) _ _
                  (λ _. missed unresolved)
                  (λ _.
                    branches (Safe sts) (not d.answers) _ _ (λ _. fail-Safe d.now)
                      (λ _.
                        branches (Safe sts) (options.cap.ssl || enabled sts) _ _
                          (λ _. reached _ (refl, refl)) (λ e. absurd (ground arith))))
          ]

  -- A client without a connection that is secured.
  pub record IsReady (m : Machine) : Type 0 where
    pub secured : IsSecured m
    pub idle : m.conn ≡ none

  announced-dropped :
      (sts : Sts) (now : ℕ)
      → announced (reset (record sts { last_failed = now })) upgrade_failed ≡ fallback ∷ []
  unfolding announced reset enabled
  announced-dropped sts now = refl

  with_name-same :
      (o : Options) → ((with_name o).cap ≡ o.cap) × ((with_name o).settings ≡ o.settings)
  unfolding with_name
  with_name-same o =
      branches (λ (w : Options). (w.cap ≡ o.cap) × (w.settings ≡ o.settings)) (is_empty o.name) _ _
        (λ _. (refl, refl)) (λ _. (refl, refl))

  settle-Kept :
      (address : Bytes) (m : Machine) (r : Sts × Attempt)
      → IsReady m
      → Safe m.state.sts r
      → Kept (machine_and_actions (settle address m r))
  unfolding settle machine_and_actions with_name IsSafe
  settle-Kept address m _ ready (reached conn safe) = still record {
    port_on = ready.secured.port_on;
    has_policy = ready.secured.has_policy;
    has_config = (with_name-same m.options).0 ∙ ready.secured.has_config;
    has_server = ap (λ s. s.server) (with_name-same m.options).1 ∙ ready.secured.has_server;
    is_safe = safe;
  }
  settle-Kept address m _ ready (missed failure) = still (record ready.secured {})
  settle-Kept address m _ ready (dropped now allowed) =
      fell_back allowed (among [] [] (announced-dropped m.state.sts now))

  -- The other fields of the state do not matter.
  pub state-IsSecured :
      (m : Machine) (state : CapState)
      → state.sts.upgrade_port ≡ m.state.sts.upgrade_port
      → IsSecured m
      → IsSecured (record m { state = state })
  state-IsSecured m state same h = record {
    port_on = h.port_on;
    has_policy = same ∙ h.has_policy;
    has_config = h.has_config;
    has_server = h.has_server;
    is_safe = h.is_safe;
  }

  enabled-IsSecured : (m : Machine) → IsSecured m → enabled m.state.sts ≡ true
  unfolding enabled
  enabled-IsSecured m h = ap (less (pos 0)) h.has_policy ∙ h.port_on

  address-IsSecured :
      (m : Machine)
      → IsSecured m
      → server_address join m.options.settings m.state.sts ≡ join target.server target.port
  unfolding server_address
  address-IsSecured m h = rw (enabled-IsSecured m h) (
      ap (λ name. join name m.state.sts.upgrade_port) h.has_server
      ∙ ap (join target.server) h.has_policy)

  pub start-Kept :
      (d : Dialing) (m : Machine) → IsReady m → Kept (machine_and_actions (start join d m))
  unfolding start
  start-Kept d m ready =
      let secured = ready.secured in
      let fresh : Machine = record m {
        state = record m.state { enabled_cap = []; tmp_cap = [] };
      } in
      subst (λ a. Kept (machine_and_actions (settle a fresh (new_conn m.options d a m.state.sts))))
        (sym (address-IsSecured m secured))
        (settle-Kept (join target.server target.port) fresh _
          (record { secured = state-IsSecured m fresh.state refl secured; idle = ready.idle })
          (new_conn-Safe m.options m.state.sts (enabled-IsSecured m secured) secured.has_config d))

  abbrev no_upgrade : CapState → CapState
  no_upgrade s = record s { sts = record s.sts { begin_upgrade = false } }

  abbrev renewed : ℕ → CapState → CapState
  renewed now s = record s { sts = record s.sts { persistence_received = now } }

  ended-Kept :
      (error : Bool) (now : ℕ) (d : Dialing) (m : Machine)
      → IsReady m
      → Kept (ended join error now d m)
  unfolding ended
  ended-Kept true now d m ready = still ready.secured
  ended-Kept false now d m ready =
      branches Kept m.state.sts.begin_upgrade _ _
        (λ e.
          start-Kept d (record m { state = no_upgrade m.state })
            record {
              secured = state-IsSecured m (no_upgrade m.state) refl ready.secured;
              idle = ready.idle;
            })
        (λ e.
          branches Kept (enabled m.state.sts) _ _
            (λ _. still (state-IsSecured m (renewed now m.state) refl ready.secured))
            (λ _. still ready.secured))

  Announces-append :
      (front actions : List Action) → Announces actions → Announces (front ++ actions)
  Announces-append front actions (among before after same) =
      among (front ++ before) after
        (ap (λ a. front ++ a) same ∙ sym (append_assoc front before (fallback ∷ after)))

  pub Announces-extend :
      (actions more : List Action) → Announces actions → Announces (actions ++ more)
  Announces-extend actions more (among before after same) =
      among before (after ++ more)
        (ap (λ a. a ++ more) same ∙ append_assoc before (fallback ∷ after) more)

  pub behind : (front : List Action) (r : Machine × List Action) → Kept r → Kept (r.0, front ++ r.1)
  behind front r (still h) = still h
  behind front r (fell_back allowed h) = fell_back allowed (Announces-append front r.1 h)

  pub finish-Kept :
      (error : Bool) (now : ℕ) (d : Dialing) (conn : Connection) (m : Machine)
      → IsSecured m
      → Kept (finish join error now d conn m)
  unfolding finish IsSafe
  finish-Kept error now d conn m h =
      let ready : IsReady (record m { conn = none }) = record {
        secured = record {
          port_on = h.port_on;
          has_policy = h.has_policy;
          has_config = h.has_config;
          has_server = h.has_server;
          is_safe = tt;
        };
        idle = refl;
      } in
      behind (closing conn.address error) _
        (ended-Kept error now d (record m { conn = none }) ready)
