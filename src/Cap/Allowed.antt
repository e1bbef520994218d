-- ===== src/Cap/Allowed.antt =====
-- Only capabilities that the configuration allows wait to be requested.
use girc.Prelude.{
  ℕ, ◌≡◌, refl, arith, Bool, true, not, ◌&&◌, ◌||◌, Option, none, some, List, [], ◌∷◌, Bytes, codes,
  beq, beq_iff, beq_refl, is_some, All, Map, lookup, insert, keys, lookup-insert,
}
use girc.Policy.{Sts}
use girc.Tracker.Lists.{mem_string}
use girc.Cap.Options.{Caps}
use girc.Cap.{
  Config, possible_cap, copy_caps, copy_names, dynamic_caps, possible_cap_list, select_cap,
  select_caps, offers_sts,
}

module _ (config : Config) where
  -- The capabilities that the configuration allows.
  abbrev pub may_request : Bytes → Bool
  may_request k =
      mem_string k possible_cap
      || is_some (lookup k config.supported_caps)
      || (beq (codes "sasl") k && is_some config.sasl)
      || (beq (codes "sts") k && not config.disable_sts && not config.ssl)

  -- Only allowed capabilities are waiting to be requested.
  abbrev pub IsAllowed : Caps → Type 0
  IsAllowed tmp = (k : Bytes) → is_some (lookup k tmp) ≡ true → may_request k ≡ true

pub lookup-copy_names :
    (names : List Bytes) (out : Map (List Bytes)) (k : Bytes)
    → is_some (lookup k (copy_names names out)) ≡ mem_string k names || is_some (lookup k out)
unfolding copy_names mem_string
lookup-copy_names [] out k = refl
lookup-copy_names (name ∷ names) out k = ground (
  arith,
  lookup-copy_names names (insert name [] out) k,
  lookup-insert name k [] out,
  beq_iff name k,
)

pub lookup-copy_caps :
    (caps out : Map (List Bytes)) (k : Bytes)
    → is_some (lookup k (copy_caps caps out)) ≡ is_some (lookup k caps) || is_some (lookup k out)
unfolding copy_caps lookup
lookup-copy_caps [] out k = refl
lookup-copy_caps ((name, values) ∷ caps) out k = ground (
  arith,
  lookup-copy_caps caps (insert name values out) k,
  lookup-insert name k values out,
  beq_iff name k,
)

module _ (config : Config) where
  dynamic-IsAllowed :
      (sts : Sts) (now : ℕ) (k : Bytes)
      → is_some (lookup k (dynamic_caps config sts now)) ≡ true
      → may_request config k ≡ true
  unfolding dynamic_caps offers_sts insert lookup
  dynamic-IsAllowed sts now k h = ground arith

  possible-IsAllowed :
      (sts : Sts) (now : ℕ) (k : Bytes)
      → is_some (lookup k (possible_cap_list config sts now)) ≡ true
      → may_request config k ≡ true
  unfolding possible_cap_list
  possible-IsAllowed sts now k h = ground (
    arith,
    lookup-copy_names possible_cap (copy_caps config.supported_caps (dynamic_caps config sts now))
        k,
    lookup-copy_caps config.supported_caps (dynamic_caps config sts now) k,
    dynamic-IsAllowed sts now k,
  )

  select_cap-IsAllowed :
      (name : Bytes) (attrs : Map Bytes) (values : Option (List Bytes)) (tmp : Caps)
      → (is_some values ≡ true → may_request config name ≡ true)
      → IsAllowed config tmp
      → IsAllowed config (select_cap name attrs values tmp)
  unfolding select_cap
  select_cap-IsAllowed name attrs none tmp p h k = h k
  select_cap-IsAllowed name attrs (some values) tmp p h k =
      ground (arith, lookup-insert name k attrs tmp, beq_iff name k, h k, p)

  pub select_caps-IsAllowed :
      (sts : Sts) (now : ℕ) (caps tmp : Caps)
      → IsAllowed config tmp
      → IsAllowed config (select_caps (possible_cap_list config sts now) caps tmp)
  unfolding select_caps
  select_caps-IsAllowed sts now [] tmp h = h
  select_caps-IsAllowed sts now ((name, attrs) ∷ caps) tmp h =
      select_caps-IsAllowed sts now caps
        (select_cap name attrs (lookup name (possible_cap_list config sts now)) tmp)
        (select_cap-IsAllowed name attrs (lookup name (possible_cap_list config sts now)) tmp
          (possible-IsAllowed sts now name) h)

  pub All-keys :
      (tmp : Caps) → IsAllowed config tmp → All (λ k. may_request config k ≡ true) (keys tmp)
  unfolding keys lookup
  All-keys [] h = tt
  All-keys ((k, attrs) ∷ tmp) h =
      (ground (arith, h k, beq_refl k), All-keys tmp (λ j e. ground (arith, h j)))
