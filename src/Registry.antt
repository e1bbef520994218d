-- ===== src/Registry.antt =====
-- handler.go: `Caller`, the registry of handlers, and which handlers an event runs.
-- A handler is a value of any type `H`. The identifiers are given: `uid` stands for the letters
-- that `cuid` draws at random. The lock and the goroutines are not modelled.
pub mod Refine
pub mod Size
pub mod Exec
use girc.Prelude.{
  ℕ, ◌+◌, Bool, true, false, not, ◌&&◌, ◌||◌, Option, none, some, List, [], ◌∷◌, ◌++◌,
  if◌then◌else◌, Bytes, codes, beq, is_empty, index_byte, length, take, drop, Map, lookup, insert,
  delete,
}
use girc.Wire.{Platform, to_upper}
use girc.Text.Glob.{has_suffix}
use girc.Event.{Event}

-- map[COMMAND][CUID]Handler
abbrev pub Table {ℓ} : Type ℓ → Type ℓ
Table H = Map (Map H)

module _ {ℓ} where
  pub record Caller (H : Type ℓ) : Type ℓ where
    pub external : Table H
    pub internal : Table H

-- Caller.cuidToID
id_at : Bytes → Option ℕ → Bytes × Bytes
id_at input none = ([], [])
id_at input (some i) = (take i input, drop (i + 1) input)

unfoldable pub id_of : Bytes → Bytes × Bytes
unfolding id_at
id_of input = id_at input (index_byte input b':')

-- Caller.cuid
unfoldable pub cuid : Bytes → Bytes → Bytes
cuid cmd uid = cmd ++ (b':' ∷ uid)

-- The mark of a handler that runs in the background.
unfoldable pub with_bg : Bool → Bytes → Bytes
with_bg bg uid = if bg then uid ++ codes ":bg" else uid

module _ {ℓ} {H : Type ℓ} where
  -- newCaller
  unfoldable pub new_caller : Caller H
  new_caller = record { external = []; internal = [] }

  -- `m[cmd]` of a map of maps; a missing entry is a nil map.
  unfoldable pub handlers_of : Option (Map H) → Map H
  handlers_of none = []
  handlers_of (some handlers) = handlers

  unfoldable pub handlers_at : Bytes → Table H → Map H
  unfolding handlers_of
  handlers_at cmd table = handlers_of (lookup cmd table)

  unfoldable pub total : Table H → ℕ
  total [] = 0
  total ((cmd, handlers) ∷ table) = length handlers + total table

  -- Caller.Len
  unfoldable pub len : Caller H → ℕ
  unfolding total
  len c = total c.external

  total_for : Bytes → Table H → ℕ
  total_for cmd [] = 0
  total_for cmd ((command, handlers) ∷ table) =
      (if beq command cmd then length handlers else 0) + total_for cmd table

  -- Caller.Count
  unfoldable pub count_for : Platform → Caller H → Bytes → ℕ
  unfolding total_for
  count_for p c cmd = total_for (to_upper p cmd) c.external

  -- Caller.ClearAll
  unfoldable pub clear_all : Caller H → Caller H
  clear_all c = record c { external = [] }

  -- Caller.clearInternal
  unfoldable pub clear_internal : Caller H → Caller H
  clear_internal c = record c { internal = [] }

  -- Caller.Clear
  unfoldable pub clear : Platform → Caller H → Bytes → Caller H
  clear p c cmd = record c { external = delete (to_upper p cmd) c.external }

  -- The map of a command with the handler, or without it.
  unfoldable pub put : Bytes → Bytes → H → Table H → Table H
  unfolding handlers_at
  put cmd uid handler table = insert cmd (insert uid handler (handlers_at cmd table)) table

  remove_found : Bytes → Bytes → Caller H → Map H → Option H → Caller H × Bool
  remove_found cmd uid c handlers none = (c, false)
  remove_found cmd uid c handlers (some handler) =
      (record c { external = insert cmd (delete uid handlers) c.external }, true)

  remove_from : Bytes → Bytes → Caller H → Option (Map H) → Caller H × Bool
  unfolding remove_found
  remove_from cmd uid c none = (c, false)
  remove_from cmd uid c (some handlers) = remove_found cmd uid c handlers (lookup uid handlers)

  remove_id : Caller H → Bytes × Bytes → Caller H × Bool
  unfolding remove_from
  remove_id c (cmd, uid) =
      if is_empty cmd || is_empty uid
      then (c, false)
      else remove_from cmd uid c (lookup cmd c.external)

  -- Caller.Remove and Caller.remove
  unfoldable pub remove : Caller H → Bytes → Caller H × Bool
  unfolding remove_id id_of
  remove c cuid = remove_id c (id_of cuid)

  -- Caller.register and Caller.sregister: the registry and the identifier of the handler.
  unfoldable pub register : Platform → Bytes → Bool → Bool → Bytes → H → Caller H → Caller H × Bytes
  unfolding put cuid with_bg
  register p uid is_internal bg cmd handler c =
      let command = to_upper p cmd in
      let id = with_bg bg uid in
      (
        if is_internal
            then record c { internal = put command id handler c.internal }
            else record c { external = put command id handler c.external },
        cuid command id,
      )

  -- Caller.Add and Caller.AddHandler
  unfoldable pub add : Platform → Bytes → Bytes → H → Caller H → Caller H × Bytes
  unfolding register
  add p uid cmd handler c = register p uid false false cmd handler c

  -- Caller.AddBg
  unfoldable pub add_bg : Platform → Bytes → Bytes → H → Caller H → Caller H × Bytes
  unfolding register
  add_bg p uid cmd handler c = register p uid false true cmd handler c

  -- The handlers of a map that run in the background, or those that do not.
  unfoldable pub select : Bool → Map H → Map H
  select bg [] = []
  select bg ((id, handler) ∷ handlers) =
      let rest = select bg handlers in
      if (has_suffix id (codes ":bg") && not bg) || (not (has_suffix id (codes ":bg")) && bg)
      then rest
      else (id, handler) ∷ rest

  -- Caller.exec: the stack of handlers, which then run concurrently.
  unfoldable pub exec : Caller H → Bytes → Bool → Map H
  unfolding select handlers_at
  exec c command bg =
      select bg (handlers_at command c.internal) ++ select bg (handlers_at command c.external)

  -- Client.RunHandlers: the stacks that are run, one after the other.
  unfoldable pub run_handlers : Caller H → Event → List (Map H)
  unfolding exec
  run_handlers c e =
      (exec c (codes "*") true ∷ (if e.echo then [] else exec c e.command true ∷ []))
      ++ (exec c (codes "*") false ∷ (if e.echo then [] else exec c e.command false ∷ []))
