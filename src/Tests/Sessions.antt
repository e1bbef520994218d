-- ===== src/Tests/Sessions.antt =====
-- Connecting under strict transport policies at concrete inputs.
use girc.Prelude.{
  is_some, map, not, if◌then◌else◌, ◌≡◌, refl, arith, true, false, none, some, List, [], ◌∷◌, Bytes,
  codes, Map, ℤ, pos, negsuc, lookup, ok,
}
use girc.Event.{Event, plain_event}
use girc.Actions.{Action, write, run_handlers}
use girc.Policy.{Sts, enabled}
use girc.Setup.{is_valid, server_address}
use girc.Text.Valid.{is_valid_nick, is_valid_user}
use girc.Cap.{Config, CapState, list_cap, possible_cap_list, handle_cap}
use girc.Cap.Withheld.{LacksSts}
use girc.Conn.Session.{
  Options, Dialing, Machine, connects, unreachable, start, run, step, connect, tls_handshake,
  register, new_conn,
}
use girc.Conn.Session.Secure.{Target, IsSecured, IsSafe, Kept}
use girc.Conn.Session.Secure.Run.{run-Kept}
use girc.Conn.Session.Upgrade.{secure_connection}
use girc.Conn.{mark_echo}
use girc.Conn.Stream.{Decoded, read_error, read_loop}
use girc.Conn.Stream.RoundTrip.{written, read_loop-written}
use girc.Conn.Stream.Ends.{read_loop-total}
use girc.Tests.Tracking.{fresh}
use girc.Tests.Lines.{platform, message, message-IsPrintable}
use girc.Conn.Session.Failures.{IsUnreachable, offers_sts-start}

abbrev order : List Bytes → List Bytes
order names = names

abbrev show : Map Bytes → Bytes
show policy = codes "map"

abbrev join : Bytes → ℤ → Bytes
join host port = host

abbrev cap_config : Config
cap_config = record {
  sasl = none;
  disable_sts = false;
  disable_sts_fallback = false;
  ssl = false;
  supported_caps = [];
  disable_tracking = false;
}

abbrev options : Options
options = record {
  settings = record { server = codes "irc"; port = pos 6667; nick = codes "me"; user = codes "me" };
  cap = cap_config;
  web_irc = record { password = []; gateway = []; hostname = []; address = [] };
  server_pass = [];
  name = [];
  bind = [];
}

abbrev no_policy : Sts
no_policy = record {
  begin_upgrade = false;
  upgrade_port = negsuc 0;
  persistence_duration = negsuc 0;
  persistence_received = 0;
  preload = false;
  last_failed = 0;
}

abbrev with_policy : Sts
with_policy = record no_policy { upgrade_port = pos 6697 }

-- A client with this policy and this connection.
abbrev machine : Sts → Machine
machine sts = record {
  options = options;
  state = record { enabled_cap = []; tmp_cap = []; sts = sts };
  conn = none;
}

abbrev dialing : Dialing
dialing = record { now = 1000; own_dialer = false; resolves = true; answers = true }

abbrev silent : Dialing
silent = record { now = 1000; own_dialer = false; resolves = true; answers = false }

abbrev target : Target
target = record { config = cap_config; server = codes "irc"; port = pos 6697 }

idle-IsSafe : IsSafe join target none
unfolding IsSafe
idle-IsSafe = tt

machine-IsSecured : IsSecured join target (machine with_policy)
machine-IsSecured = record {
  port_on = refl;
  has_policy = refl;
  has_config = refl;
  has_server = refl;
  is_safe = idle-IsSafe;
}

options-is_valid : (is_valid options.settings).1 ≡ none
unfolding is_valid is_valid_nick is_valid_user
options-is_valid = refl

machine-IsUnreachable : IsUnreachable options silent
machine-IsUnreachable = record { valid = options-is_valid; bound = refl; silent = refl }

no_policy-enabled : enabled no_policy ≡ false
unfolding enabled
no_policy-enabled = refl

abbrev sts_offer : Event
sts_offer = plain_event (codes "CAP") (codes "me" ∷ codes "LS" ∷ codes "sts=port=6697" ∷ [])

abbrev missed_sts : Sts
missed_sts = (start join silent (machine no_policy)).0.state.sts

abbrev later_state : CapState
later_state = record { enabled_cap = []; tmp_cap = []; sts = missed_sts }

nil-LacksSts : LacksSts []
unfolding lookup
nil-LacksSts = refl

cap_config-unlisted : lookup (codes "sts") cap_config.supported_caps ≡ none
unfolding lookup
cap_config-unlisted = refl

offers_sts-start_example :
    ((start join silent (machine no_policy)).2 ≡ some unreachable)
    × (is_some (lookup (codes "sts") (possible_cap_list cap_config missed_sts 2000)) ≡ false)
    × LacksSts (handle_cap order show cap_config false 2000 later_state sts_offer).0.tmp_cap
offers_sts-start_example =
    offers_sts-start join order show false silent (machine no_policy) 2000 later_state sts_offer
      no_policy-enabled refl refl cap_config-unlisted machine-IsUnreachable (omega arith) refl
      nil-LacksSts

-- The client once it is connected under the policy, and what it did.
abbrev connected_machine : Machine
connected_machine = record (machine with_policy) {
  options = record options { name = codes "me" };
  conn = some (secure_connection (codes "irc"));
}

abbrev registration : List Action
registration =
    write (plain_event (codes "CAP") (codes "LS" ∷ codes "302" ∷ []))
    ∷ write (plain_event (codes "NICK") (codes "me" ∷ []))
    ∷ write (plain_event (codes "USER") (codes "me" ∷ codes "*" ∷ codes "*" ∷ codes "me" ∷ []))
    ∷ run_handlers (plain_event (codes "INITIALIZED") (codes "irc" ∷ []))
    ∷ []

connected_run :
    run join order show (machine with_policy) (connects dialing ∷ [])
    ≡ ok (connected_machine, registration)
unfolding run step connect start new_conn is_valid is_valid_nick is_valid_user server_address
    enabled tls_handshake register list_cap
connected_run = refl

run-Kept_example : Kept join target (connected_machine, registration)
run-Kept_example =
    run-Kept join target order show (machine with_policy) (connects dialing ∷ []) _
      machine-IsSecured connected_run

abbrev offered : Map Bytes
offered = (codes "port", codes "6697") ∷ (codes "duration", codes "100") ∷ []

-- Connected without TLS, with a policy that the server has offered.
abbrev plain_machine : Machine
plain_machine = record (machine no_policy) {
  state = record { enabled_cap = []; tmp_cap = (codes "sts", offered) ∷ []; sts = no_policy };
  conn = some record { address = codes "irc"; secure = false };
}

abbrev acknowledged : Event
acknowledged = plain_event (codes "CAP") (codes "me" ∷ codes "ACK" ∷ codes "sts" ∷ [])

read_loop-written_example :
    read_loop platform fresh true 2 (written platform (message ∷ []))
    ≡ ok (map (λ e. if not true then mark_echo fresh e else e) (message ∷ []), read_error)
read_loop-written_example =
    read_loop-written platform fresh true 2 (message ∷ []) (message-IsPrintable, tt) (omega arith)

read_loop-total_example :
    (r : List Event × Decoded) × (read_loop platform fresh false 20 (codes ":bob PING x\n:") ≡ ok r)
read_loop-total_example =
    read_loop-total platform fresh false 20 (codes ":bob PING x\n:") (omega arith)
