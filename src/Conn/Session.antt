-- ===== src/Conn/Session.antt =====
-- conn.go: `newConn`, `tlsHandshake` and `internalConnect`, with what the handler of CAP does
-- while the client is connected. What the network and the goroutines do is the input: whether an
-- address can be resolved and answers, and how `group.Wait` ends. A mocked connection is not
-- modelled, and a dialer of the user's gives a connection without TLS.
pub mod Secure
pub mod Upgrade
pub mod Failures
use girc.Prelude.{
  ℕ, Bool, true, false, not, ◌&&◌, ◌||◌, Option, none, some, List, [], ◌∷◌, ◌++◌, if◌then◌else◌,
  Bytes, codes, is_empty, Map, ℤ, Outcome, ok, panic, ◌>>=◌,
}
use girc.Event.{Event, plain_event}
use girc.Actions.{Action, write, run_handlers}
use girc.Policy.{Sts, reset, expired, enabled}
use girc.Setup.{Settings, Refusal, is_valid, server_address}
use girc.Cap.{Config, CapState, list_cap, handle_cap}

-- WebIRC
pub record WebIrc : Type 0 where
  pub password : Bytes
  pub gateway : Bytes
  pub hostname : Bytes
  pub address : Bytes

-- WebIRC.Params
unfoldable pub web_irc_params : WebIrc → List Bytes
web_irc_params w = w.password ∷ w.gateway ∷ w.hostname ∷ w.address ∷ []

-- The part of `Config` that connecting reads.
pub record Options : Type 0 where
  pub settings : Settings
  pub cap : Config
  pub web_irc : WebIrc
  pub server_pass : Bytes
  pub name : Bytes
  pub bind : Bytes

-- What an attempt meets: the time, whether there is a dialer of the user's, whether
-- net.ResolveTCPAddr succeeds, and whether Dial does.
pub record Dialing : Type 0 where
  pub now : ℕ
  pub own_dialer : Bool
  pub resolves : Bool
  pub answers : Bool

-- ircConn: where it leads and whether its socket is a tls.Conn.
pub record Connection : Type 0 where
  pub address : Bytes
  pub secure : Bool

-- The error of newConn; `upgrade_failed` is an ErrSTSUpgradeFailed.
pub data Failure : Type 0 where
  invalid : Refusal → Failure
  unresolved unreachable upgrade_failed : Failure

pub data Attempt : Type 0 where
  failed : Failure → Attempt
  connected : Connection → Attempt

-- tlsHandshake, whose error is always nil: tls.Client does not use the connection yet.
unfoldable pub tls_handshake : Connection → Option Connection
tls_handshake conn = some record conn { secure = true }

-- newConn, where dialing or the handshake failed.
unfoldable pub fail : Options → ℕ → Sts → Sts × Attempt
fail options now sts = (
  if expired now sts && not options.cap.disable_sts_fallback
      then reset (record sts { last_failed = now })
      else sts,
  failed (if enabled sts then upgrade_failed else unreachable),
)

secured : Options → ℕ → Sts → Option Connection → Sts × Attempt
unfolding fail
secured options now sts none = fail options now sts
secured options now sts (some conn) = (sts, connected conn)

dialed : Options → Dialing → Bytes → Sts → Sts × Attempt
unfolding secured fail tls_handshake
dialed options d address sts =
    let conn : Connection = record { address = address; secure = false } in
    if not d.own_dialer && not (is_empty options.bind) && not d.resolves
    then (sts, failed unresolved)
    else if not d.answers
    then fail options d.now sts
    else if options.cap.ssl || enabled sts
    then secured options d.now sts (tls_handshake conn)
    else (sts, connected conn)

refused : Options → Dialing → Bytes → Sts → Option Refusal → Sts × Attempt
unfolding dialed
refused options d address sts none = dialed options d address sts
refused options d address sts (some refusal) = (sts, failed (invalid refusal))

-- newConn, which validates a copy of the configuration
unfoldable pub new_conn : Options → Dialing → Bytes → Sts → Sts × Attempt
unfolding refused
new_conn options d address sts = refused options d address sts ((is_valid options.settings).1)

-- The client: its configuration, the state that outlives a connection, and the connection.
pub record Machine : Type 0 where
  pub options : Options
  pub state : CapState
  pub conn : Option Connection

sensitive : Bytes → List Bytes → Action
sensitive command params = write (record (plain_event command params) { sensitive = true })

-- internalConnect: what it sends once it is connected.
unfoldable pub register : Options → Bytes → List Action
unfolding sensitive
register options address =
    (if not (is_empty options.web_irc.password)
      then sensitive (codes "WEBIRC") (web_irc_params options.web_irc) ∷ []
      else [])
    ++ ((if not (is_empty options.server_pass)
          then sensitive (codes "PASS") (options.server_pass ∷ []) ∷ []
          else [])
        ++ (list_cap options.cap
            ++ (write (plain_event (codes "NICK") (options.settings.nick ∷ []))
                ∷ write (
                    plain_event (codes "USER") (
                      options.settings.user
                      ∷ codes "*"
                      ∷ codes "*"
                      ∷ (if is_empty options.name then options.settings.user else options.name)
                      ∷ []))
                ∷ run_handlers (plain_event (codes "INITIALIZED") (address ∷ []))
                ∷ [])))

pub with_name : Options → Options
with_name options =
    if is_empty options.name then record options { name = options.settings.user } else options

pub fallback : Action
fallback = run_handlers (plain_event (codes "STS_ERR_FALLBACK") [])

-- The event for a failure: only where the upgrade failed and the policy was reset.
announced : Sts → Failure → List Action
unfolding fallback
announced sts upgrade_failed = if not (enabled sts) then fallback ∷ [] else []
announced sts _ = []

-- What internalConnect does with the result of newConn; the error is the last component.
settle : Bytes → Machine → Sts × Attempt → Machine × List Action × Option Failure
unfolding announced with_name
settle address m (sts, failed failure) =
    (record m { state = record m.state { sts = sts } }, announced sts failure, some failure)
settle address m (sts, connected conn) = (
  record { options = with_name m.options; state = record m.state { sts = sts }; conn = some conn },
  register m.options address,
  none,
)

-- internalConnect, up to group.Wait. `join` is net.JoinHostPort on the decimal form of the port.
unfoldable pub start :
    (Bytes → ℤ → Bytes) → Dialing → Machine → Machine × List Action × Option Failure
unfolding settle
start join d m =
    let address = server_address join m.options.settings m.state.sts in
    let fresh = record m { state = record m.state { enabled_cap = []; tmp_cap = [] } } in
    settle address fresh (new_conn m.options d address m.state.sts)

connect_on :
    (Bytes → ℤ → Bytes)
    → Dialing
    → Machine
    → Option Connection
    → Outcome (Machine × List Action × Option Failure)
unfolding start
connect_on join d m none = ok (start join d m)
connect_on join d m (some conn) = panic

-- Connect, DialerConnect; a second connect panics.
unfoldable pub connect :
    (Bytes → ℤ → Bytes) → Dialing → Machine → Outcome (Machine × List Action × Option Failure)
unfolding connect_on
connect join d m = connect_on join d m m.conn

pub machine_and_actions : Machine × List Action × Option Failure → Machine × List Action
machine_and_actions (m, actions, failure) = (m, actions)

-- internalConnect, from group.Wait on: `error` says whether a loop returned an error, `now` is
-- the time, and `d` is what a restart meets.
ended : (Bytes → ℤ → Bytes) → Bool → ℕ → Dialing → Machine → Machine × List Action
unfolding start machine_and_actions
ended join true now d m = (m, [])
ended join false now d m =
    if m.state.sts.begin_upgrade
    then machine_and_actions (
        start join d (record m {
          state = record m.state { sts = record m.state.sts { begin_upgrade = false } };
        }))
    else if enabled m.state.sts
    then (
      record m {
        state = record m.state { sts = record m.state.sts { persistence_received = now } };
      },
      [],
    )
    else (m, [])

unfoldable pub closing : Bytes → Bool → List Action
closing address error =
    (if not error then run_handlers (plain_event (codes "CLOSED") (address ∷ [])) ∷ [] else [])
    ++ (run_handlers (plain_event (codes "DISCONNECTED") (address ∷ [])) ∷ [])

unfoldable pub finish :
    (Bytes → ℤ → Bytes) → Bool → ℕ → Dialing → Connection → Machine → Machine × List Action
unfolding ended closing
finish join error now d conn m =
    let next = ended join error now d (record m { conn = none }) in
    (next.0, closing conn.address error ++ next.1)

-- What happens to a client: it is told to connect, a CAP event arrives, or its connection ends.
pub data Input : Type 0 where
  connects : Dialing → Input
  receives : ℕ → Event → Input
  ends : Bool → ℕ → Dialing → Input

module _ (join : Bytes → ℤ → Bytes) (order : List Bytes → List Bytes)
    (show : Map Bytes → Bytes) where
  while_connected : Machine → Input → Connection → Outcome (Machine × List Action)
  unfolding finish connect
  while_connected m (connects d) conn = panic
  while_connected m (receives now e) conn =
      let handled = handle_cap order show m.options.cap conn.secure now m.state e in
      ok (record m { state = handled.0 }, handled.1)
  while_connected m (ends error now d) conn = ok (finish join error now d conn m)

  -- Without a connection no event arrives and none ends.
  while_idle : Machine → Input → Outcome (Machine × List Action)
  unfolding connect machine_and_actions
  while_idle m (connects d) = connect join d m >>= λ r. ok (machine_and_actions r)
  while_idle m _ = ok (m, [])

  step_on : Machine → Input → Option Connection → Outcome (Machine × List Action)
  unfolding while_connected while_idle
  step_on m input none = while_idle m input
  step_on m input (some conn) = while_connected m input conn

  unfoldable pub step : Machine → Input → Outcome (Machine × List Action)
  unfolding step_on
  step m input = step_on m input m.conn

  unfoldable pub run : Machine → List Input → Outcome (Machine × List Action)
  unfolding step
  run m [] = ok (m, [])
  run m (input ∷ inputs) = do
    (next, actions) ← step m input
    (end, more) ← run next inputs
    ok (end, actions ++ more)
