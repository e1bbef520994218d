-- ===== src/Conn/Session/Secure/Run.antt =====
-- Runs of a client under a strict transport policy.
use girc.Prelude.{
  ◌≡◌, refl, ap, ◌∙◌, false, Option, none, some, List, [], ◌∷◌, ◌++◌, panic, ◌>>=◌, Bytes, Map, ℤ,
  Outcome, ok,
}
use mathlib.Core.Path.{subst, sym}
use girc.Actions.{Action}
use girc.Cap.{handle_cap}
use girc.Cap.Upgrade.{upgrade_port-handle_cap}
use girc.Conn.Session.{
  Connection, Machine, connect, connect_on, step_on, machine_and_actions, Input, connects, receives,
  ends, while_connected, while_idle, step, run,
}
use girc.Conn.Session.Secure.{
  Target, IsSafe, IsSecured, IsReady, Announces, Kept, still, fell_back, Announces-extend, behind,
  state-IsSecured, start-Kept, finish-Kept,
}

module _ (join : Bytes → ℤ → Bytes) (target : Target) where
  -- Every result is kept.
  KeptOk : Outcome (Machine × List Action) → Type 0
  KeptOk (ok r) = (Kept join target) r
  KeptOk panic = Unit

  module _ (order : List Bytes → List Bytes) (show : Map Bytes → Bytes) where
    idle-KeptOk :
        (m : Machine) (input : Input)
        → (IsReady join target) m
        → KeptOk (while_idle join order show m input)
    unfolding while_idle connect connect_on KeptOk
    idle-KeptOk m (connects d) ready =
        subst (λ o. KeptOk (connect_on join d m o >>= λ r. ok (machine_and_actions r)))
          (sym ready.idle) ((start-Kept join target) d m ready)
    idle-KeptOk m (receives now e) ready = still ready.secured
    idle-KeptOk m (ends error now d) ready = still ready.secured

    connected-KeptOk :
        (m : Machine) (input : Input) (conn : Connection)
        → m.conn ≡ some conn
        → (IsSecured join target) m
        → KeptOk (while_connected join order show m input conn)
    unfolding while_connected KeptOk IsSafe
    connected-KeptOk m (connects d) conn same h = tt
    connected-KeptOk m (receives now e) conn same h =
        let over_tls = subst (IsSafe join target) same h.is_safe in
        let handled = handle_cap order show m.options.cap conn.secure now m.state e in
        let same_port =
          ap (λ tls. (handle_cap order show m.options.cap tls now m.state e).0.sts.upgrade_port)
            over_tls.0
          ∙ upgrade_port-handle_cap order show m.options.cap now m.state e in
        still ((state-IsSecured join target) m handled.0 same_port h)
    connected-KeptOk m (ends error now d) conn same h =
        (finish-Kept join target) error now d conn m h

    step_on-KeptOk :
        (m : Machine) (input : Input) (o : Option Connection)
        → m.conn ≡ o
        → (IsSecured join target) m
        → KeptOk (step_on join order show m input o)
    unfolding step_on
    step_on-KeptOk m input none idle h = idle-KeptOk m input record { secured = h; idle = idle }
    step_on-KeptOk m input (some conn) same h = connected-KeptOk m input conn same h

    step-KeptOk :
        (m : Machine) (input : Input)
        → (IsSecured join target) m
        → KeptOk (step join order show m input)
    unfolding step
    step-KeptOk m input h = step_on-KeptOk m input m.conn refl h

    extend-KeptOk :
        (front : List Action) (o : Outcome (Machine × List Action))
        → KeptOk o
        → KeptOk (o >>= λ r. ok (r.0, front ++ r.1))
    unfolding KeptOk
    extend-KeptOk front (ok r) h = (behind join target) front r h
    extend-KeptOk front panic h = tt

    fallen-KeptOk :
        (front : List Action) (o : Outcome (Machine × List Action))
        → target.config.disable_sts_fallback ≡ false
        → (Announces join target) front
        → KeptOk (o >>= λ r. ok (r.0, front ++ r.1))
    unfolding KeptOk
    fallen-KeptOk front (ok r) allowed h =
        fell_back allowed ((Announces-extend join target) front r.1 h)
    fallen-KeptOk front panic allowed h = tt

    -- A step and what follows it.
    then-KeptOk :
        (o : Outcome (Machine × List Action)) (next : Machine → Outcome (Machine × List Action))
        → KeptOk o
        → ((m : Machine) → (IsSecured join target) m → KeptOk (next m))
        → KeptOk (o >>= λ r. next r.0 >>= λ t. ok (t.0, r.1 ++ t.1))
    unfolding KeptOk
    then-KeptOk (ok (m, actions)) next (still h) follow =
        extend-KeptOk actions (next m) (follow m h)
    then-KeptOk (ok (m, actions)) next (fell_back allowed h) follow =
        fallen-KeptOk actions (next m) allowed h
    then-KeptOk panic next h follow = tt

    run-KeptOk :
        (m : Machine) (inputs : List Input)
        → (IsSecured join target) m
        → KeptOk (run join order show m inputs)
    unfolding run KeptOk
    run-KeptOk m [] h = still h
    run-KeptOk m (input ∷ inputs) h =
        then-KeptOk (step join order show m input) (λ next. run join order show next inputs)
          (step-KeptOk m input h) (λ next safe. run-KeptOk next inputs safe)

  -- A client that a policy protects stays protected, whatever its inputs are: as long as the run
  -- gives a result, the policy is on and a connection is over TLS to its port, unless the
  -- configuration allows to fall back and STS_ERR_FALLBACK was run.
  pub run-Kept :
      (order : List Bytes → List Bytes) (show : Map Bytes → Bytes) (m : Machine)
      (inputs : List Input) (r : Machine × List Action)
      → (IsSecured join target) m
      → run join order show m inputs ≡ ok r
      → (Kept join target) r
  unfolding KeptOk
  run-Kept order show m inputs r h e = subst KeptOk e (run-KeptOk order show m inputs h)
