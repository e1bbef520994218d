-- ===== src/Cap/Enabled.antt =====
-- Which capabilities the client takes to be enabled.
use girc.Prelude.{
  ℕ, ◌≡◌, refl, arith, Bool, not, ◌&&◌, ◌||◌, List, [], ◌∷◌, if◌then◌else◌, Bytes, codes, beq,
  beq_iff, length, get_or, leb, ◌==◌, split, is_some, Map, lookup, insert, delete, keys,
  lookup-insert, lookup-delete,
}
use girc.Event.{Event, last}
use girc.Cap.Subcommands.{nak-ack, ls-ack, new-ack}
use girc.Tracker.Lists.{mem_string}
use girc.Cap.Options.{Caps, parse_cap}
use girc.Cap.{Config, CapState, delete_caps, enable_caps, attributes_of, handle_cap}

-- The client takes the capability to be enabled.
abbrev pub is_enabled : CapState → Bytes → Bool
is_enabled s k = is_some (lookup k s.enabled_cap)

lookup-delete_caps :
    (names : List Bytes) (enabled : Caps) (k : Bytes)
    → is_some (lookup k (delete_caps names enabled))
      ≡ not (mem_string k names) && is_some (lookup k enabled)
unfolding delete_caps mem_string
lookup-delete_caps [] enabled k = refl
lookup-delete_caps (name ∷ names) enabled k = ground (
  arith,
  lookup-delete_caps names (delete name enabled) k,
  lookup-delete name k enabled,
  beq_iff name k,
)

lookup-enable_caps :
    (names : List Bytes) (tmp enabled : Caps) (k : Bytes)
    → is_some (lookup k (enable_caps names tmp enabled))
      ≡ mem_string k names || is_some (lookup k enabled)
unfolding enable_caps mem_string
lookup-enable_caps [] tmp enabled k = refl
lookup-enable_caps (name ∷ names) tmp enabled k = ground (
  arith,
  lookup-enable_caps names tmp (insert name (attributes_of (lookup name tmp)) enabled) k,
  lookup-insert name k (attributes_of (lookup name tmp)) enabled,
  beq_iff name k,
)

module _ (order : List Bytes → List Bytes) (show : Map Bytes → Bytes) (config : Config)
    (tls : Bool) where
  -- After CAP ACK with three parameters the capabilities of its list are enabled besides those
  -- that were; after CAP DEL those of its list are no longer; any other event leaves them.
  pub is_enabled-handle_cap :
      (now : ℕ) (s : CapState) (e : Event) (k : Bytes)
      → is_enabled (handle_cap order show config tls now s e).0 k ≡ (
          if leb 2 (length e.params) && beq (get_or e.params 1 []) (codes "DEL")
          then not (mem_string k (keys (parse_cap (last e)))) && is_enabled s k
          else if length e.params == 3 && beq (get_or e.params 1 []) (codes "ACK")
          then mem_string k (split b' ' [] (last e)) || is_enabled s k
          else is_enabled s k)
  unfolding handle_cap
  is_enabled-handle_cap now s e k =
      let subcommand : Bytes = get_or e.params 1 [] in
      ground (
        arith,
        nak-ack subcommand,
        ls-ack subcommand,
        new-ack subcommand,
        lookup-delete_caps (keys (parse_cap (last e))) s.enabled_cap k,
        lookup-enable_caps (split b' ' [] (last e)) s.tmp_cap s.enabled_cap k,
      )
