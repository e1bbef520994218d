-- ===== src/Registry/Exec.antt =====
-- Which handlers an event runs: `Caller.exec` and `Client.RunHandlers`.
use girc.Prelude.{
  ℕ, ◌+◌, ◌≡◌, refl, arith, Bool, true, false, not, ◌&&◌, ◌||◌, List, [], ◌∷◌, ◌++◌, if◌then◌else◌,
  Bytes, codes, beq_iff, Map, keys, count, count-append, Bool-cases, inl, inr, ap, ◌∙◌,
}
use girc.Text.Glob.{has_suffix}
use girc.Event.{Event}
use girc.Registry.{Caller, handlers_at, select, exec, run_handlers}

module _ {ℓ} {H : Type ℓ} where
  -- The number of times that the identifier stands in a stack.
  abbrev pub times : Bytes → Map H → ℕ
  times id stack = count id (keys stack)

  -- In one pass a handler runs if its mark is that of the pass.
  times-select :
      (id : Bytes) (bg : Bool) (m : Map H)
      → times id (select bg m) ≡ (
          if (has_suffix id (codes ":bg") && bg) || (not (has_suffix id (codes ":bg")) && not bg)
          then times id m
          else 0)
  unfolding select keys count
  times-select id bg [] = ground arith
  times-select id bg ((k, h) ∷ m) = ground (arith, beq_iff k id, times-select id bg m)

  keys-append : (xs ys : Map H) → keys (xs ++ ys) ≡ keys xs ++ keys ys
  unfolding keys
  keys-append [] ys = refl
  keys-append (x ∷ xs) ys = ap (◌∷◌ x.0) (keys-append xs ys)

  times-append : (id : Bytes) (xs ys : Map H) → times id (xs ++ ys) ≡ times id xs + times id ys
  times-append id xs ys = ap (count id) (keys-append xs ys) ∙ count-append id (keys xs) (keys ys)

  -- The handlers of a command, with the internal ones.
  abbrev pub registered : Caller H → Bytes → Bytes → ℕ
  registered c command id =
      times id (handlers_at command c.internal) + times id (handlers_at command c.external)

  times-select_both :
      (id : Bytes) (m : Map H) → times id (select true m) + times id (select false m) ≡ times id m
  times-select_both id m = ground (arith, times-select id true m, times-select id false m)

  times-exec :
      (c : Caller H) (command id : Bytes)
      → times id (exec c command true) + times id (exec c command false) ≡ registered c command id
  unfolding exec
  times-exec c command id =
      let inside = handlers_at command c.internal in
      let outside = handlers_at command c.external in
      omega (
        arith,
        times-append id (select true inside) (select true outside),
        times-append id (select false inside) (select false outside),
        times-select_both id inside,
        times-select_both id outside,
      )

  -- How often an identifier stands in the stacks of an event.
  unfoldable pub runs : Bytes → List (Map H) → ℕ
  runs id [] = 0
  runs id (stack ∷ stacks) = times id stack + runs id stacks

  -- RunHandlers runs every handler of the event's command and of "*" once for each time that it is
  -- registered, whether it is a background handler or not, and for an echoed message those of "*"
  -- only.
  pub runs-run_handlers :
      (c : Caller H) (e : Event) (id : Bytes)
      → runs id (run_handlers c e)
        ≡ registered c (codes "*") id + (if e.echo then 0 else registered c e.command id)
  unfolding runs run_handlers
  runs-run_handlers c e id = elim (Bool-cases e.echo) [
    | inl echoed ↦ rw echoed (omega (arith, times-exec c (codes "*") id))
    | inr first ↦ rw first (omega (arith, times-exec c (codes "*") id, times-exec c e.command id))
  ]
