-- ===== src/Tests/Negotiation.antt =====
-- A negotiation of capabilities at concrete inputs.
use girc.Prelude.{
  not, if◌then◌else◌, ◌&&◌, ◌≡◌, refl, arith, true, false, ◌&&◌, ◌||◌, some, List, [], ◌∷◌,
  if◌then◌else◌, Bytes, codes, Map, lookup, split, is_some, All, beq, negsuc,
}
use girc.Event.{Event, plain_event, last}
use girc.Sasl.{sasl_external}
use girc.Tracker.Lists.{mem_string}
use girc.Cap.Options.{parse_cap}
use girc.Cap.{Config, CapState, possible_cap_list, handle_cap}
use girc.Cap.Allowed.{IsAllowed}
use girc.Cap.Offers.{Allowed, negotiate, negotiate-Allowed}
use girc.Cap.Enabled.{is_enabled, is_enabled-handle_cap}
use girc.Cap.Parse.{lookup-handle_cap}
use girc.Cap.Answers.{answers, wants_answer, ends_connection, handle_cap_answers}

abbrev order : List Bytes → List Bytes
order names = names

abbrev show : Map Bytes → Bytes
show policy = codes "map"

abbrev config : Config
config = record {
  sasl = some (sasl_external (codes "me"));
  disable_sts = false;
  disable_sts_fallback = false;
  ssl = false;
  supported_caps = (codes "labels", codes "x" ∷ []) ∷ [];
  disable_tracking = false;
}

abbrev fresh : CapState
fresh = record {
  enabled_cap = [];
  tmp_cap = [];
  sts = record {
    begin_upgrade = false;
    upgrade_port = negsuc 0;
    persistence_duration = negsuc 0;
    persistence_received = 0;
    preload = false;
    last_failed = 0;
  };
}

abbrev offer : Event
offer =
    plain_event (codes "CAP")
      (codes "*" ∷ codes "LS" ∷ codes "sasl=PLAIN labels=y batch other" ∷ [])

abbrev accepted : Event
accepted = plain_event (codes "CAP") (codes "*" ∷ codes "ACK" ∷ codes "sasl labels batch" ∷ [])

fresh-IsAllowed : IsAllowed config fresh.tmp_cap
unfolding lookup
fresh-IsAllowed k h = absurd (ground arith)

negotiate-Allowed_example :
    All
      (Allowed order show config false)
      (negotiate order show config false ((7, offer) ∷ (8, accepted) ∷ []) fresh).1
negotiate-Allowed_example =
    negotiate-Allowed order show config false ((7, offer) ∷ (8, accepted) ∷ []) fresh
      fresh-IsAllowed

is_enabled-handle_cap_example :
    is_enabled (handle_cap order show config false 8 fresh accepted).0 (codes "batch")
    ≡ mem_string (codes "batch") (split b' ' [] (last accepted)) || is_enabled fresh (codes "batch")
unfolding beq
is_enabled-handle_cap_example =
    is_enabled-handle_cap order show config false 8 fresh accepted (codes "batch")

handle_cap_answers_example :
    answers (handle_cap order show config false 7 fresh offer).1
    ≡ (if wants_answer offer && not (ends_connection config false 7 fresh offer) then 1 else 0)
handle_cap_answers_example = handle_cap_answers order show config false 7 fresh offer

offer-lists : (beq (codes "LS") (codes "LS") || beq (codes "LS") (codes "NEW")) ≡ true
unfolding beq
offer-lists = refl

lookup-handle_cap_example :
    lookup (codes "labels") (handle_cap order show config false 7 fresh offer).0.tmp_cap ≡ (
      if is_some (lookup (codes "labels") (possible_cap_list config fresh.sts 7))
        && is_some (lookup (codes "labels") (parse_cap (last offer)))
      then lookup (codes "labels") (parse_cap (last offer))
      else lookup (codes "labels") fresh.tmp_cap)
lookup-handle_cap_example =
    lookup-handle_cap order show config false 7 fresh offer (codes "labels") refl offer-lists
