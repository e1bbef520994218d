-- ===== src/Cap.antt =====
-- cap.go: the capabilities that the client may ask for, and the handler of CAP. Go's `range` over
-- the map of the capabilities to request has no fixed order: it is the argument `order`. The
-- formatting of a policy by `%#v` is the argument `show`, and `tls` says whether
-- TLSConnectionState gives a state.
pub mod Options
pub mod Parse
pub mod Allowed
pub mod Offers
pub mod Enabled
pub mod Answers
pub mod Upgrade
pub mod Withheld
mod Subcommands
use girc.Prelude.{
  ℕ, ◌+◌, ◌-◌, ◌==◌, ltb, leb, Bool, true, false, not, ◌&&◌, ◌||◌, Option, none, some, List, [],
  ◌∷◌, ◌++◌, if◌then◌else◌, Bytes, codes, beq, is_empty, length, get_or, take, drop, split, is_some,
  join_with, index_byte, Map, lookup, insert, delete, keys, ℤ, pos, less, atoi,
}
use girc.Event.{Event, plain_event, last}
use girc.Actions.{Action, write, receive, run_handlers, close}
use girc.Sasl.{SaslMech, cap_end}
use girc.Cap.Options.{Caps, parse_cap}
use girc.Policy.{Sts, apply_policy}

-- The part of `Config` that the negotiation reads; `none` is a SASL that is nil.
pub record Config : Type 0 where
  pub sasl : Option SaslMech
  pub disable_sts : Bool
  pub disable_sts_fallback : Bool
  pub ssl : Bool
  pub supported_caps : Map (List Bytes)
  pub disable_tracking : Bool

-- The fields of `state` that the negotiation uses.
pub record CapState : Type 0 where
  pub enabled_cap : Caps
  pub tmp_cap : Caps
  pub sts : Sts

-- possibleCap; all its values are nil.
unfoldable pub possible_cap : List Bytes
possible_cap =
    codes "account-notify"
    ∷ codes "account-tag"
    ∷ codes "away-notify"
    ∷ codes "batch"
    ∷ codes "cap-notify"
    ∷ codes "chghost"
    ∷ codes "extended-join"
    ∷ codes "invite-notify"
    ∷ codes "message-tags"
    ∷ codes "msgid"
    ∷ codes "multi-prefix"
    ∷ codes "server-time"
    ∷ codes "userhost-in-names"
    ∷ codes "draft/message-tags-0.2"
    ∷ codes "draft/msgid"
    ∷ []

-- Client.listCAP
unfoldable pub list_cap : Config → List Action
list_cap config =
    if not config.disable_tracking
    then write (plain_event (codes "CAP") (codes "LS" ∷ codes "302" ∷ [])) ∷ []
    else []

-- The loops of possibleCapList.
unfoldable pub copy_caps : Map (List Bytes) → Map (List Bytes) → Map (List Bytes)
copy_caps [] out = out
copy_caps ((name, values) ∷ caps) out = copy_caps caps (insert name values out)

unfoldable pub copy_names : List Bytes → Map (List Bytes) → Map (List Bytes)
copy_names [] out = out
copy_names (name ∷ names) out = copy_names names (insert name [] out)

-- Whether "sts" is offered; `now` and `last_failed` are in nanoseconds.
unfoldable pub offers_sts : Config → Sts → ℕ → Bool
offers_sts config sts now =
    not config.disable_sts
    && not config.ssl
    && not (ltb (now - sts.last_failed) 300000000000 && not config.disable_sts_fallback)

-- The entries that depend on the configuration.
dynamic_caps : Config → Sts → ℕ → Map (List Bytes)
unfolding offers_sts
dynamic_caps config sts now =
    let with_sasl = if is_some config.sasl then insert (codes "sasl") [] [] else [] in
    if offers_sts config sts now then insert (codes "sts") [] with_sasl else with_sasl

-- possibleCapList
unfoldable pub possible_cap_list : Config → Sts → ℕ → Map (List Bytes)
unfolding possible_cap copy_caps copy_names dynamic_caps
possible_cap_list config sts now =
    copy_names possible_cap (copy_caps config.supported_caps (dynamic_caps config sts now))

-- The loops that set `contains`.
some_value : Map Bytes → Bytes → List Bytes → Bool
some_value attrs attr [] = false
some_value attrs attr (value ∷ values) = is_some (lookup attr attrs) || some_value attrs attr values

unfoldable pub contains : Map Bytes → Map Bytes → List Bytes → Bool
unfolding some_value
contains attrs [] values = false
contains attrs ((attr, value) ∷ rest) values =
    some_value attrs attr values || contains attrs rest values

-- The loop over the capabilities that the server offers.
unfoldable pub select_cap : Bytes → Map Bytes → Option (List Bytes) → Caps → Caps
unfolding contains
select_cap name attrs none tmp = tmp
select_cap name attrs (some values) tmp =
    if is_empty values || is_empty attrs
    then insert name attrs tmp
    else if not (contains attrs attrs values)
    then tmp
    else insert name attrs tmp

unfoldable pub select_caps : Map (List Bytes) → Caps → Caps → Caps
unfolding select_cap
select_caps possible [] tmp = tmp
select_caps possible ((name, attrs) ∷ caps) tmp =
    select_caps possible caps (select_cap name attrs (lookup name possible) tmp)

-- The loop over the capabilities that the server takes back.
unfoldable pub delete_caps : List Bytes → Caps → Caps
delete_caps [] enabled = enabled
delete_caps (name ∷ names) enabled = delete_caps names (delete name enabled)

-- The loop over the capabilities that the server acknowledges.
attributes_of : Option (Map Bytes) → Map Bytes
attributes_of none = []
attributes_of (some attrs) = attrs

unfoldable pub enable_caps : List Bytes → Caps → Caps → Caps
unfolding attributes_of
enable_caps [] tmp enabled = enabled
enable_caps (name ∷ names) tmp enabled =
    enable_caps names tmp (insert name (attributes_of (lookup name tmp)) enabled)

unfoldable pub request : List Bytes → Action
request names = write (plain_event (codes "CAP") (codes "REQ" ∷ join_with b' ' names ∷ []))

-- handleCAP for LS and NEW, once the capabilities are selected.
ask : (List Bytes → List Bytes) → CapState → Event → CapState × List Action
unfolding request
ask order s e =
    if length e.params == 3
    then if is_empty s.tmp_cap
      then (s, cap_end ∷ [])
      else (s, request (order (keys s.tmp_cap)) ∷ [])
    else (s, [])

-- handleCAP for ACK, behind the strict transport policy.
finish_with : CapState → Bool → Option SaslMech → CapState × List Action
finish_with s true (some mech) =
    (record s { tmp_cap = [] }, write (plain_event (codes "AUTHENTICATE") (mech.method ∷ [])) ∷ [])
finish_with s _ _ = (record s { tmp_cap = [] }, cap_end ∷ [])

finish : Config → CapState → CapState × List Action
unfolding finish_with
finish config s = finish_with s (is_some (lookup (codes "sasl") s.enabled_cap)) config.sasl

-- handleCAP for ACK, on the policy as it was applied and whether it is invalid.
enforce :
    (Map Bytes → Bytes) → Config → Bool → Map Bytes → CapState → Sts × Bool → CapState × List Action
unfolding finish
enforce show config tls policy s (sts, true) = (
  record s { sts = sts },
  receive (
        plain_event (codes "ERROR") (
          (codes
              "closing connection: strict transport policy provided by server is invalid; possible MITM? config: "
            ++ show policy)
          ∷ []))
      ∷ [],
)
enforce show config tls policy s (sts, false) =
    if not tls
    then (
      record s { sts = record sts { begin_upgrade = true } },
      run_handlers (plain_event (codes "STS_UPGRADE_INIT") []) ∷ close ∷ [],
    )
    else finish config (record s { sts = sts })

acknowledge :
    (Map Bytes → Bytes) → Config → Bool → ℕ → CapState → Option (Map Bytes) → CapState × List Action
unfolding enforce finish
acknowledge show config tls now s none = finish config s
acknowledge show config tls now s (some policy) =
    if not config.disable_sts
    then enforce show config tls policy s (apply_policy tls now policy s.sts)
    else finish config s

-- handleCAP
unfoldable pub handle_cap :
    (List Bytes → List Bytes)
    → (Map Bytes → Bytes)
    → Config
    → Bool
    → ℕ
    → CapState
    → Event
    → CapState × List Action
unfolding ask acknowledge
handle_cap order show config tls now s e =
    let subcommand = get_or e.params 1 [] in
    if leb 2 (length e.params) && beq subcommand (codes "DEL")
    then (record s { enabled_cap = delete_caps (keys (parse_cap (last e))) s.enabled_cap }, [])
    else if leb 2 (length e.params) && beq subcommand (codes "NAK")
    then (s, cap_end ∷ [])
    else if leb 3 (length e.params) && (beq subcommand (codes "LS") || beq subcommand (codes "NEW"))
    then ask order
        (record s {
          tmp_cap = select_caps (possible_cap_list config s.sts now) (parse_cap (last e)) s.tmp_cap;
        })
        e
    else if length e.params == 3 && beq subcommand (codes "ACK")
    then acknowledge show config tls now
        (record s { enabled_cap = enable_caps (split b' ' [] (last e)) s.tmp_cap s.enabled_cap })
        (lookup (codes "sts") (enable_caps (split b' ' [] (last e)) s.tmp_cap s.enabled_cap))
    else (s, [])
