-- ===== src/Node/Shutdown/Task/Tokens.antt =====
-- The tokens that delay the shutdown of a node, through its life: rosrust-async/src/node/mod.rs.
use rosrust_async.Base.{
  ℕ, ◌≡◌, refl, ap, ◌∙◌, inl, inr, Bool, true, false, Bool-cases, if◌then◌else◌, Option, List, [],
  ◌∷◌, Str, ok, arith,
}
use rosrust_async.Tcpros.Net.{Net}
use rosrust_async.Xmlrpc.Dxr.{Dxr}
use rosrust_async.Xmlrpc.Master.{World, RosMasterClient}
use rosrust_async.Node.Publisher.{Host}
use rosrust_async.Node.Subscriber.{Peers}
use rosrust_async.Node.Shutdown.{Actors, Cell, stop_one, stop_actors, farewell}
use rosrust_async.Node.Shutdown.Farewell.{stop_actors-farewell}
use rosrust_async.Node.Shutdown.Task.{
  ShutdownManager, Task, spawned, waiting, stopping, ended, NodeRun, shutdown, is_shutdown, new_run,
  guarded, begin_task, release_token, stop_task, stop_rest, stop_next, end_run, call_shutdown, Step,
  polled, triggered, serve_failed, stops, ends, asked, worked, outside, Steps, stay, further,
}

-- The tokens that the task holds.
abbrev pub held : Task → ℕ
held spawned = 0
held ended = 0
held (waiting token) = if token then 1 else 0
held (stopping token rest) = if token then 1 else 0

-- The registries are empty.
abbrev pub IsStopped : {dxr : Dxr} → Actors dxr → Type 0
IsStopped a =
    (a.publisher.publications ≡ [])
    × (a.subscriber.subscriptions ≡ [])
    × (a.service.servers ≡ [])
    × (a.service.clients ≡ [])
    × (a.parameter.subscribed_params ≡ [])

module _ {dxr : Dxr} (world : World dxr) (master : RosMasterClient) (host : Host world.W)
    (net : Net world.W) (peers : Peers dxr world.W) (mgr : ShutdownManager) where
  open world use {W}
  open mgr use {M}

  abbrev Run : Type 0
  Run = NodeRun M W dxr

  abbrev PathFrom : Run → Run → Type 0
  PathFrom = Steps world master host net peers mgr

  abbrev begun : Run → Run
  begun = begin_task world master host net peers mgr

  abbrev finished : Bool → Run → Run
  finished = stop_task world master host net peers mgr

  pub shutdown-tokens :
      (reason : Option Str) (m : M) → mgr.tokens (shutdown mgr reason m).1 ≡ mgr.tokens m
  unfolding shutdown
  shutdown-tokens reason m = elim (Bool-cases (mgr.is_shutdown_triggered m)) [
    | inl e ↦ ground (arith, e)
    | inr e ↦ ground (arith, e, mgr.trigger_lem reason m e)
  ]

  pub shutdown-triggered :
      (reason : Option Str) (m : M)
      → (mgr.is_shutdown_triggered (shutdown mgr reason m).1 ≡ true)
        × ((shutdown mgr reason m).0 ≡ ok tt)
  unfolding shutdown
  shutdown-triggered reason m = elim (Bool-cases (mgr.is_shutdown_triggered m)) [
    | inl e ↦ ground (arith, e)
    | inr e ↦ ground (arith, e, mgr.trigger_lem reason m e)
  ]

  pub release_token-tokens :
      (token : Bool) (m : M)
      → mgr.tokens m ≡ held (waiting token)
      → mgr.tokens (release_token world master host net peers mgr token m) ≡ 0
  unfolding release_token
  release_token-tokens true m h = ground (arith, mgr.drop_lem m, h)
  release_token-tokens false m h = h

  pub release_token-triggered :
      (token : Bool) (m : M)
      → mgr.is_shutdown_triggered (release_token world master host net peers mgr token m)
        ≡ mgr.is_shutdown_triggered m
  unfolding release_token
  release_token-triggered true m = (mgr.drop_lem m).0
  release_token-triggered false m = refl

  abbrev pub IsHeld : Run → Type 0
  IsHeld n = mgr.tokens n.manager ≡ held n.task

  begin_task-IsHeld :
      (n : Run)
      → n.task ≡ spawned
      → IsHeld n
      → IsHeld (begin_task world master host net peers mgr n)
  unfolding begin_task guarded
  begin_task-IsHeld n e h = elim (Bool-cases (mgr.is_shutdown_completed n.manager)) [
    | inl c ↦ ground (arith, c, e, h, mgr.delay_refused n.manager c)
    | inr c ↦ ground (arith, c, e, h, mgr.delay_lem n.manager c)
  ]

  Step-IsHeld : {n n' : Run} → Step world master host net peers mgr n n' → IsHeld n → IsHeld n'
  unfolding stop_next end_run call_shutdown
  Step-IsHeld (polled n e) h = begin_task-IsHeld n e h
  Step-IsHeld (triggered n token e on) h = h ∙ ap held e
  Step-IsHeld (serve_failed n token e) h = h ∙ ap held e
  Step-IsHeld (stops n token cell rest e) h = h ∙ ap held e
  Step-IsHeld (ends n token e) h = release_token-tokens token n.manager (h ∙ ap held e)
  Step-IsHeld (asked n reason) h = shutdown-tokens reason n.manager ∙ h
  Step-IsHeld (worked n a w same) h = h
  Step-IsHeld (outside n w) h = h

  -- In every state of a node the task holds the tokens that there are.
  pub Steps-IsHeld : {n₀ n : Run} → PathFrom n₀ n → IsHeld n₀ → IsHeld n
  Steps-IsHeld stay h = h
  Steps-IsHeld (further n n' path step) h = Step-IsHeld step (Steps-IsHeld path h)

  pub new_run-IsHeld :
      (a : Actors dxr) (w : W) → IsHeld (new_run world master host net peers mgr a w)
  unfolding new_run
  new_run-IsHeld a w = mgr.new_lem.1

  pub begin_task-waiting : (n : Run) → is_shutdown mgr n ≡ false → (begun n).task ≡ waiting true
  unfolding is_shutdown begin_task guarded
  begin_task-waiting n e = ground (arith, e, mgr.delay_lem n.manager e)

  pub begin_task-refused : (n : Run) → is_shutdown mgr n ≡ true → (begun n).task ≡ waiting false
  unfolding is_shutdown begin_task guarded
  begin_task-refused n e = ground (arith, e, mgr.delay_refused n.manager e)

  pub stop_task-farewell :
      (token : Bool) (n : Run)
      → ((finished token n).world ≡ farewell world master host net peers n.actors n.world)
        × IsStopped (finished token n).actors
  unfolding stop_task stop_one stop_actors
  stop_task-farewell token n =
      let x = stop_actors-farewell world master host net peers n.actors n.world in
      (x.0, (x.1, x.2, x.3, x.4, x.5))

  pub ended-completed :
      (n : Run)
      → IsHeld n
      → held n.task ≡ 0
      → mgr.is_shutdown_triggered n.manager ≡ true
      → is_shutdown mgr n ≡ true
  unfolding is_shutdown
  ended-completed n h e on = ground (arith, h ∙ e, on, mgr.completed_lem n.manager)

  pub completed_not : (n : Run) → IsHeld n → n.task ≡ waiting true → is_shutdown mgr n ≡ false
  unfolding is_shutdown
  completed_not n h e = ground (arith, h ∙ ap held e, mgr.completed_lem n.manager)

  pub not_completed :
      (n : Run) → mgr.is_shutdown_triggered n.manager ≡ false → is_shutdown mgr n ≡ false
  unfolding is_shutdown
  not_completed n off = ground (arith, off, mgr.completed_lem n.manager)

  -- The loop and the end are steps.
  pub stop_rest-Steps :
      (first n : Run) (token : Bool) (rest : List Cell)
      → n.task ≡ stopping token rest
      → PathFrom first n
      → PathFrom first (stop_rest world master host net peers mgr token rest n)
  unfolding stop_rest stop_next end_run
  stop_rest-Steps first n token [] e path = further _ _ path (ends n token e)
  stop_rest-Steps first n token (cell ∷ rest) e path =
      stop_rest-Steps first (stop_next world master host net peers mgr token cell rest n) token rest
        refl (further _ _ path (stops n token cell rest e))
