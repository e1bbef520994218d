-- ===== src/Policy.antt =====
-- The strict transport policy: `strictTransport` of state.go and its update in cap.go. Points of
-- time are in nanoseconds, 0 for the zero time.
use girc.Prelude.{
  ℕ, ◌-◌, ◌/◌, Bool, true, false, ◌||◌, Option, none, some, Bytes, codes, beq, ltb, if◌then◌else◌,
  Map, lookup, ℤ, pos, negsuc, less, atoi,
}

-- strictTransport
pub record Sts : Type 0 where
  pub begin_upgrade : Bool
  pub upgrade_port : ℤ
  pub persistence_duration : ℤ
  pub persistence_received : ℕ
  pub preload : Bool
  pub last_failed : ℕ

-- strictTransport.reset
unfoldable pub reset : Sts → Sts
reset s = record s { upgrade_port = negsuc 0; persistence_duration = negsuc 0; preload = false }

-- `time.Since(t)`, which stops at the longest duration, in whole seconds
unfoldable pub seconds_since : ℕ → ℕ → ℕ
seconds_since now t =
    (if ltb 9223372036854775807 (now - t) then 9223372036854775807 else now - t) / 1000000000

-- strictTransport.expired
unfoldable pub expired : ℕ → Sts → Bool
unfolding seconds_since
expired now s = less s.persistence_duration (pos (seconds_since now s.persistence_received))

-- strictTransport.enabled
unfoldable pub enabled : Sts → Bool
enabled s = less (pos 0) s.upgrade_port

-- strconv.ParseBool, without its error
unfoldable pub parse_bool : Bytes → Bool
parse_bool s =
    beq s (codes "1")
    || beq s (codes "t")
    || beq s (codes "T")
    || beq s (codes "TRUE")
    || beq s (codes "true")
    || beq s (codes "True")

-- handleCAP: the keys of the policy, each with whether the policy is invalid.
unfoldable pub port_from : Option Bytes → Sts → Sts × Bool
port_from none s = (s, true)
port_from (some port) s = (record s { upgrade_port = (atoi port).0 }, less (atoi port).0 (pos 21))

unfoldable pub duration_from : ℕ → Option Bytes → Sts → Sts × Bool
duration_from now none s = (s, true)
duration_from now (some duration) s =
    (record s { persistence_duration = (atoi duration).0; persistence_received = now }, false)

unfoldable pub preload_from : Option Bytes → Sts × Bool → Sts × Bool
unfolding parse_bool
preload_from none r = r
preload_from (some preload) (s, invalid) = (record s { preload = parse_bool preload }, invalid)

-- The update of the policy; the result says whether it is invalid.
unfoldable pub apply_policy : Bool → ℕ → Map Bytes → Sts → Sts × Bool
unfolding port_from duration_from preload_from
apply_policy true now policy s =
    preload_from (lookup (codes "preload") policy)
      (duration_from now (lookup (codes "duration") policy) s)
apply_policy false now policy s = port_from (lookup (codes "port") policy) s
