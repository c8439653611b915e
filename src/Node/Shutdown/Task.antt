-- ===== src/Node/Shutdown/Task.antt =====
-- The task that Node::new of rosrust-async/src/node/mod.rs spawns, with `shutdown`, `shutdown_and_wait` and
-- `is_shutdown`. What others do comes between its steps.
pub mod Tokens
pub mod Phases
pub mod Complete
pub mod Waits
mod Tests
use mathlib.Core.List.{Memᴰ}
use rosrust_async.Base.{
  List, [], ◌∷◌, ℕ, zero, suc, ◌-◌, ◌==◌, ◌≡◌, ◌≢◌, Bool, true, false, ◌&&◌, if◌then◌else◌, Option,
  Str, Result, ok, err,
}
use rosrust_async.Base.Action.{Action}
use rosrust_async.Tcpros.Net.{Net}
use rosrust_async.Xmlrpc.Dxr.{Dxr}
use rosrust_async.Xmlrpc.Master.{World, RosMasterClient}
use rosrust_async.Node.Publisher.{Host}
use rosrust_async.Node.Subscriber.{Peers}
use rosrust_async.Node.Shutdown.{
  Actors, Cell, publisher_cell, subscriber_cell, service_cell, parameter_cell, actor_cells,
  stop_one,
}

-- `ShutdownManager` of async_shutdown: a shutdown is triggered once, and is complete when it is triggered
-- and no token that delays it is left. A token is refused once the shutdown is complete.
pub record ShutdownManager : Type 1 where
  pub M : Type 0
  pub AlreadyStarted : Type 0
  pub AlreadyCompleted : Type 0
  pub new : M
  pub is_shutdown_triggered : M → Bool
  pub is_shutdown_completed : M → Bool
  pub tokens : M → ℕ
  pub trigger_shutdown : Option Str → Action M AlreadyStarted (Unit {0})
  pub delay_shutdown_token : Action M AlreadyCompleted (Unit {0})
  pub drop_token : M → M
  pub new_lem : (is_shutdown_triggered new ≡ false) × (tokens new ≡ 0)
  pub completed_lem :
      (m : M) → is_shutdown_completed m ≡ (is_shutdown_triggered m && (tokens m == 0))
  pub trigger_lem :
      (reason : Option Str) (m : M)
      → is_shutdown_triggered m ≡ false
      → (m' : M) × (trigger_shutdown reason m ≡ (ok tt, m'))
        × (is_shutdown_triggered m' ≡ true)
        × (tokens m' ≡ tokens m)
  pub delay_lem :
      (m : M)
      → is_shutdown_completed m ≡ false
      → (m' : M) × (delay_shutdown_token m ≡ (ok tt, m'))
        × (is_shutdown_triggered m' ≡ is_shutdown_triggered m)
        × (tokens m' ≡ suc (tokens m))
  pub delay_refused :
      (m : M)
      → is_shutdown_completed m ≡ true
      → (e : AlreadyCompleted) × (delay_shutdown_token m ≡ (err e, m))
  pub drop_lem :
      (m : M)
      → (is_shutdown_triggered (drop_token m) ≡ is_shutdown_triggered m)
        × (tokens (drop_token m) ≡ tokens m - 1)

-- Where the task stands: not polled yet, in its select! with or without a token, in the loop with the actors
-- still to stop, or at its end.
pub data Task : Type 0 where
  spawned ended : Task
  waiting : Bool → Task
  stopping : Bool → List Cell → Task

-- The actors that the task has not stopped.
abbrev pub running : Task → List Cell
running spawned = actor_cells
running (waiting token) = actor_cells
running (stopping token rest) = rest
running ended = []

-- What a stopped actor keeps: its handles may still be cloned and dropped.
abbrev pub Same : {dxr : Dxr} → Cell → Actors dxr → Actors dxr → Type 0
Same publisher_cell a b = a.publisher.publications ≡ b.publisher.publications
Same subscriber_cell a b = a.subscriber.subscriptions ≡ b.subscriber.subscriptions
Same service_cell a b =
    (a.service.servers ≡ b.service.servers) × (a.service.clients ≡ b.service.clients)
Same parameter_cell a b = a.parameter ≡ b.parameter

pub record NodeRun (M W : Type 0) (dxr : Dxr) : Type 0 where
  pub manager : M
  pub task : Task
  pub actors : Actors dxr
  pub world : W

-- `Node::shutdown`, with a reason.
unfoldable pub shutdown :
    (mgr : ShutdownManager) → Option Str → Action mgr.M mgr.AlreadyStarted (Unit {0})
shutdown mgr reason m =
    if mgr.is_shutdown_triggered m then (ok tt, m) else mgr.trigger_shutdown reason m

unfoldable pub is_shutdown :
    {W : Type 0} {dxr : Dxr} (mgr : ShutdownManager) → NodeRun mgr.M W dxr → Bool
is_shutdown mgr n = mgr.is_shutdown_completed n.manager

module _ {dxr : Dxr} (world : World dxr) (master : RosMasterClient) (host : Host world.W)
    (net : Net world.W) (peers : Peers dxr world.W) (mgr : ShutdownManager) where
  open world use {W}
  open mgr use {M, AlreadyStarted, AlreadyCompleted}

  abbrev pub Run : Type 0
  Run = NodeRun M W dxr

  -- `Node::new` has returned.
  unfoldable pub new_run : Actors dxr → W → Run
  new_run a w = record { manager = mgr.new; task = spawned; actors = a; world = w }

  -- `.ok()`: a token that is refused is not missed.
  guarded : Result AlreadyCompleted (Unit {0}) × M → Run → Run
  guarded (ok t, m) n = record n { manager = m; task = waiting true }
  guarded (err e, m) n = record n { manager = m; task = waiting false }

  unfoldable pub begin_task : Run → Run
  unfolding guarded
  begin_task n = guarded (mgr.delay_shutdown_token n.manager) n

  unfoldable pub release_token : Bool → M → M
  release_token token m = if token then mgr.drop_token m else m

  -- A round of the loop over the actors.
  unfoldable pub stop_next : Bool → Cell → List Cell → Run → Run
  stop_next token cell rest n =
      let x = stop_one world master host net peers cell (n.actors, n.world) in
      record n { task = stopping token rest; actors = x.0; world = x.1 }

  unfoldable pub end_run : Bool → Run → Run
  unfolding release_token
  end_run token n = record n { manager = release_token token n.manager; task = ended }

  -- The loop and the end, with nothing in between.
  unfoldable pub stop_rest : Bool → List Cell → Run → Run
  unfolding stop_next end_run
  stop_rest token [] n = end_run token n
  stop_rest token (cell ∷ rest) n = stop_rest token rest (stop_next token cell rest n)

  unfoldable pub stop_task : Bool → Run → Run
  unfolding stop_rest
  stop_task token n = stop_rest token actor_cells n

  unfoldable pub call_shutdown : Option Str → Run → Run
  call_shutdown reason n = record n { manager = (shutdown mgr reason n.manager).1 }

  -- What happens to a node. The select! goes on by `triggered` or, when the API server fails, by
  -- `serve_failed`. The actors may do anything until they are stopped, and the world at any time.
  pub data Step : Run → Run → Type 0 where
    polled : (n : Run) → n.task ≡ spawned → Step n (begin_task n)
    triggered :
        (n : Run) (token : Bool)
        → n.task ≡ waiting token
        → mgr.is_shutdown_triggered n.manager ≡ true
        → Step n (record n { task = stopping token actor_cells })
    serve_failed :
        (n : Run) (token : Bool)
        → n.task ≡ waiting token
        → Step n (record n { task = stopping token actor_cells })
    stops :
        (n : Run) (token : Bool) (cell : Cell) (rest : List Cell)
        → n.task ≡ stopping token (cell ∷ rest)
        → Step n (stop_next token cell rest n)
    ends : (n : Run) (token : Bool) → n.task ≡ stopping token [] → Step n (end_run token n)
    asked : (n : Run) (reason : Option Str) → Step n (call_shutdown reason n)
    worked :
        (n : Run) (a : Actors dxr) (w : W)
        → ((cell : Cell) → ¬ (Memᴰ cell (running n.task)) → Same cell n.actors a)
        → Step n (record n { actors = a; world = w })
    outside : (n : Run) (w : W) → Step n (record n { world = w })

  pub data Steps (first : Run) : Run → Type 0 where
    stay : Steps first first
    further : (n n' : Run) → Steps first n → Step n n' → Steps first n'

  -- `wait_shutdown_complete`: where the shutdown is triggered and not complete the caller waits, and the task
  -- runs. Where it is not even triggered, nothing comes of waiting alone.
  task_goes_on : Task → Run → Run
  task_goes_on spawned n = n
  task_goes_on ended n = n
  task_goes_on (waiting token) n = stop_task token n
  task_goes_on (stopping token rest) n = stop_rest token rest n

  unfoldable pub wait_shutdown_complete : Run → Run
  unfolding task_goes_on
  wait_shutdown_complete n =
      if is_shutdown mgr n
      then n
      else if mgr.is_shutdown_triggered n.manager
      then task_goes_on n.task n
      else n

  waited : Result AlreadyStarted (Unit {0}) → Run → Result AlreadyStarted (Unit {0}) × Run
  waited (ok t) n = (ok t, wait_shutdown_complete n)
  waited (err e) n = (err e, n)

  unfoldable pub shutdown_and_wait : Option Str → Action Run AlreadyStarted (Unit {0})
  unfolding waited
  shutdown_and_wait reason n = waited (shutdown mgr reason n.manager).0 (call_shutdown reason n)
