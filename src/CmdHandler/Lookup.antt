-- ===== src/CmdHandler/Lookup.antt =====
-- What Add stores.
use girc.Prelude.{
  ◌≡◌, refl, arith, Bool, not, ◌||◌, Option, none, some, List, [], ◌∷◌, if◌then◌else◌, Bytes, beq,
  is_some, Map, lookup, insert, lookup-insert, lookup-insert_self, pos, less, Bool-cases, branches,
  inl, inr,
}
use girc.Tracker.Lists.{mem_string}
use girc.CmdHandler.{
  Command, AddError, alias_registered, to_lower, valid_name, lower_aliases, add_aliases,
  add_checked, add_lowered, add,
}

-- The names of a command.
unfoldable pub has_name : Command → Bytes → Bool
has_name cmd name = beq cmd.name name || mem_string name cmd.aliases

-- Without an error all the aliases lead to the command, and nothing else changes.
lookup-add_aliases :
    (cmd : Command) (aliases : List Bytes) (cmds : Map Command) (name : Bytes)
    → (add_aliases cmd aliases cmds).1 ≡ none
    → lookup name (add_aliases cmd aliases cmds).0
      ≡ (if mem_string name aliases then some cmd else lookup name cmds)
unfolding add_aliases mem_string
lookup-add_aliases cmd [] cmds name h = refl
lookup-add_aliases cmd (alias ∷ aliases) cmds name h =
    elim (Bool-cases (is_some (lookup alias cmds))) [
      | inl e ↦ absurd (ground (arith, h, e))
      | inr e ↦
          let rest : (add_aliases cmd aliases (insert alias cmd cmds)).1 ≡ none = rw e at h in
          let later = lookup-add_aliases cmd aliases (insert alias cmd cmds) name rest in
          rw e (ground (arith, later, lookup-insert alias name cmd cmds))
    ]

-- An entry that is the command stays, with an error too.
lookup-add_aliases-kept :
    (cmd : Command) (aliases : List Bytes) (cmds : Map Command) (name : Bytes)
    → lookup name cmds ≡ some cmd
    → lookup name (add_aliases cmd aliases cmds).0 ≡ some cmd
unfolding add_aliases
lookup-add_aliases-kept cmd [] cmds name h = h
lookup-add_aliases-kept cmd (alias ∷ aliases) cmds name h =
    branches (λ (r : Map Command × Option AddError). lookup name r.0 ≡ some cmd)
      (is_some (lookup alias cmds)) _ _ (λ e. h)
      (λ e.
        lookup-add_aliases-kept cmd aliases (insert alias cmd cmds) name
          (ground (arith, lookup-insert alias name cmd cmds)))

-- What a result of Add says of the map before it.
abbrev pub Stores : Command → Map Command → Map Command × Option AddError → Type 0
Stores cmd cmds r =
    (name : Bytes) → lookup name r.0 ≡ (if has_name cmd name then some cmd else lookup name cmds)

Stores-add_checked :
    (cmd : Command) (cmds : Map Command)
    → (add_checked cmd cmds).1 ≡ none
    → Stores cmd cmds (add_checked cmd cmds)
unfolding add_checked has_name
Stores-add_checked cmd cmds h name = elim (Bool-cases (is_some (lookup cmd.name cmds))) [
  | inl e ↦ absurd (ground (arith, h, e))
  | inr e ↦
      let rest : (add_aliases cmd cmd.aliases (insert cmd.name cmd cmds)).1 ≡ none = rw e at h in
      let later = lookup-add_aliases cmd cmd.aliases (insert cmd.name cmd cmds) name rest in
      rw e (ground (arith, later, lookup-insert cmd.name name cmd cmds))
]

-- The command as Add stores it.
unfoldable pub stored : (Bytes → Bytes) → Command → Command
stored unicode_lower cmd = record cmd {
  name = to_lower unicode_lower cmd.name;
  aliases = (lower_aliases unicode_lower cmd.aliases).1;
  min_args = if less cmd.min_args (pos 0) then pos 0 else cmd.min_args;
}

-- The command with the aliases that the loop gave.
abbrev with_aliases : Command → List Bytes → Command
with_aliases cmd aliases = record cmd {
  aliases = aliases;
  min_args = if less cmd.min_args (pos 0) then pos 0 else cmd.min_args;
}

Stores-add_lowered :
    (cmd : Command) (cmds : Map Command) (r : Option Bytes × List Bytes)
    → (add_lowered cmd cmds r).1 ≡ none
    → Stores (with_aliases cmd r.1) cmds (add_lowered cmd cmds r)
unfolding add_lowered
Stores-add_lowered cmd cmds (some alias, aliases) h = absurd (ground arith)
Stores-add_lowered cmd cmds (none, aliases) h = Stores-add_checked (with_aliases cmd aliases) cmds h

-- If Add returns no error, the name of the command and its aliases, in lower case, lead to the
-- command, and every other name to what it led to before.
pub lookup-add :
    (unicode_lower : Bytes → Bytes) (cmd : Command) (cmds : Map Command)
    → (add unicode_lower (some cmd) cmds).1 ≡ none
    → Stores (stored unicode_lower cmd) cmds (add unicode_lower (some cmd) cmds)
unfolding add stored
lookup-add unicode_lower cmd cmds h =
    let lowered : Command = record cmd { name = to_lower unicode_lower cmd.name } in
    elim (Bool-cases (not (valid_name (to_lower unicode_lower cmd.name)))) [
      | inl e ↦ absurd (ground (arith, h, e))
      | inr e ↦
          rw e
            (Stores-add_lowered lowered cmds (lower_aliases unicode_lower cmd.aliases) (rw e at h))
    ]

checked_alias_error :
    (cmd : Command) (cmds : Map Command) (alias : Bytes)
    → (add_checked cmd cmds).1 ≡ some (alias_registered alias)
    → lookup cmd.name (add_checked cmd cmds).0 ≡ some cmd
unfolding add_checked
checked_alias_error cmd cmds alias h = elim (Bool-cases (is_some (lookup cmd.name cmds))) [
  | inl e ↦ absurd (ground (arith, h, e))
  | inr e ↦ rw e (
      lookup-add_aliases-kept cmd cmd.aliases (insert cmd.name cmd cmds) cmd.name
        (lookup-insert_self cmd.name cmd cmds))
]

lowered_alias_error :
    (cmd : Command) (cmds : Map Command) (r : Option Bytes × List Bytes) (alias : Bytes)
    → (add_lowered cmd cmds r).1 ≡ some (alias_registered alias)
    → lookup cmd.name (add_lowered cmd cmds r).0 ≡ some (with_aliases cmd r.1)
unfolding add_lowered
lowered_alias_error cmd cmds (some wrong, aliases) alias h = absurd (ground arith)
lowered_alias_error cmd cmds (none, aliases) alias h =
    checked_alias_error (with_aliases cmd aliases) cmds alias h

-- Where Add returns the error that an alias is taken, it has registered the command under its
-- name all the same.
add-alias_registered :
    (unicode_lower : Bytes → Bytes) (cmd : Command) (cmds : Map Command) (alias : Bytes)
    → (add unicode_lower (some cmd) cmds).1 ≡ some (alias_registered alias)
    → lookup (to_lower unicode_lower cmd.name) (add unicode_lower (some cmd) cmds).0
      ≡ some (stored unicode_lower cmd)
unfolding add stored
add-alias_registered unicode_lower cmd cmds alias h =
    let lowered : Command = record cmd { name = to_lower unicode_lower cmd.name } in
    elim (Bool-cases (not (valid_name (to_lower unicode_lower cmd.name)))) [
      | inl e ↦ absurd (ground (arith, h, e))
      | inr e ↦ rw e (
          lowered_alias_error lowered cmds (lower_aliases unicode_lower cmd.aliases) alias
            (rw e at h))
    ]
