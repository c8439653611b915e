-- ===== src/Node/Shutdown/Task/Waits.antt =====
-- Waiting for the shutdown of a node: rosrust-async/src/node/mod.rs.
use rosrust_async.Base.{◌≡◌, refl, ap, ◌∙◌, Bool, true, false, Option, Str, ok}
use rosrust_async.Tcpros.Net.{Net}
use rosrust_async.Xmlrpc.Dxr.{Dxr}
use rosrust_async.Xmlrpc.Master.{World, RosMasterClient}
use rosrust_async.Node.Publisher.{Host}
use rosrust_async.Node.Subscriber.{Peers}
use rosrust_async.Node.Shutdown.{actor_cells, Actors, farewell}
use rosrust_async.Node.Shutdown.Task.{
  ShutdownManager, spawned, waiting, stopping, NodeRun, is_shutdown, new_run, begin_task, stop_task,
  stop_rest, stop_next, call_shutdown, triggered, serve_failed, asked, Steps, further, task_goes_on,
  wait_shutdown_complete, waited, shutdown_and_wait,
}
use rosrust_async.Node.Shutdown.Task.Tokens.{IsStopped, held}
use rosrust_async.Node.Shutdown.Task.Tokens as Tokens

module _ {dxr : Dxr} (world : World dxr) (master : RosMasterClient) (host : Host world.W)
    (net : Net world.W) (peers : Peers dxr world.W) (mgr : ShutdownManager) where
  open world use {W}
  open mgr use {M}

  abbrev Run : Type 0
  Run = NodeRun M W dxr

  abbrev PathFrom : Run → Run → Type 0
  PathFrom = Steps world master host net peers mgr

  abbrev begun : Run → Run
  begun = begin_task world master host net peers mgr

  abbrev finished : Bool → Run → Run
  finished = stop_task world master host net peers mgr

  stopped_from :
      {first : Run} (n : Run)
      → PathFrom first (record n { task = stopping true actor_cells })
      → PathFrom first (finished true n)
  unfolding stop_task stop_rest stop_next
  stopped_from n =
      Tokens.stop_rest-Steps world master host net peers mgr _
        (record n { task = stopping true actor_cells }) true actor_cells refl

  wait_waiting :
      (token : Bool) (n : Run)
      → n.task ≡ waiting token
      → is_shutdown mgr n ≡ false
      → mgr.is_shutdown_triggered n.manager ≡ true
      → wait_shutdown_complete world master host net peers mgr n ≡ finished token n
  unfolding wait_shutdown_complete task_goes_on
  wait_waiting token n e off on = rw (off, on, e) refl

  -- In any state that a node comes to in which its task waits with a token, shutdown_and_wait ends well,
  -- whether or not the shutdown was asked for before. Where the task goes on with nothing done in between,
  -- the shutdown is complete by then, the master has been told to give up all that the actors had, in order,
  -- and the actors' maps are empty; and that is a state that the node can come to.
  pub shutdown_and_wait-farewell :
      (a : Actors dxr) (w : W) (n : Run) (reason : Option Str)
      → PathFrom (new_run world master host net peers mgr a w) n
      → n.task ≡ waiting true
      → let (result, n') = shutdown_and_wait world master host net peers mgr reason n in
        (result ≡ ok tt)
        × (is_shutdown mgr n' ≡ true)
        × PathFrom (new_run world master host net peers mgr a w) n'
        × (n'.world ≡ farewell world master host net peers n.actors n.world)
        × IsStopped n'.actors
  unfolding shutdown_and_wait call_shutdown waited stop_task
  shutdown_and_wait-farewell a w n reason path e =
      let m = call_shutdown world master host net peers mgr reason n in
      let kept =
        Tokens.Steps-IsHeld world master host net peers mgr path
          (Tokens.new_run-IsHeld world master host net peers mgr a w) in
      let asked_for = Tokens.shutdown-triggered world master host net peers mgr reason n.manager in
      let told = Tokens.stop_task-farewell world master host net peers mgr true m in
      let waits =
        wait_waiting true m e
          (Tokens.completed_not world master host net peers mgr m
            (Tokens.shutdown-tokens world master host net peers mgr reason n.manager ∙ kept) e)
          asked_for.0 in
      rw (asked_for.1, waited, waits)
        (
          refl,
          Tokens.ended-completed world master host net peers mgr (finished true m)
              (Tokens.release_token-tokens world master host net peers mgr true m.manager (
                Tokens.shutdown-tokens world master host net peers mgr reason n.manager
                ∙ kept
                ∙ ap held e))
              refl
              (Tokens.release_token-triggered world master host net peers mgr true m.manager
                ∙ asked_for.0),
          stopped_from m
              (further _ _ (further _ _ path (asked n reason)) (triggered m true e asked_for.0)),
          told.0,
          told.1,
        )

  wait_completed :
      (n : Run)
      → is_shutdown mgr n ≡ true
      → wait_shutdown_complete world master host net peers mgr n ≡ n
  unfolding wait_shutdown_complete
  wait_completed n on = rw (on) refl

  -- In any state that a node comes to before its task was polled, shutdown_and_wait ends well at once: the
  -- shutdown is complete, with the actors and the world as they were, so that the master was told nothing;
  -- and the task, when it is polled then, waits without a token.
  pub shutdown_and_wait-early :
      (a : Actors dxr) (w : W) (n : Run) (reason : Option Str)
      → PathFrom (new_run world master host net peers mgr a w) n
      → n.task ≡ spawned
      → let (result, n') = shutdown_and_wait world master host net peers mgr reason n in
        (result ≡ ok tt)
        × (is_shutdown mgr n' ≡ true)
        × (n'.actors ≡ n.actors)
        × (n'.world ≡ n.world)
        × ((begin_task world master host net peers mgr n').task ≡ waiting false)
  unfolding shutdown_and_wait call_shutdown waited
  shutdown_and_wait-early a w n reason path e =
      let m = call_shutdown world master host net peers mgr reason n in
      let asked_for = Tokens.shutdown-triggered world master host net peers mgr reason n.manager in
      let kept =
        Tokens.shutdown-tokens world master host net peers mgr reason n.manager
        ∙ Tokens.Steps-IsHeld world master host net peers mgr path
            (Tokens.new_run-IsHeld world master host net peers mgr a w) in
      let done =
        Tokens.ended-completed world master host net peers mgr m kept (ap held e) asked_for.0 in
      rw (asked_for.1, waited, wait_completed m done)
        (refl, done, refl, refl, Tokens.begin_task-refused world master host net peers mgr m done)

  -- When the API server fails in a state that a node comes to in which its task waits with a token and no
  -- shutdown was triggered, the actors are stopped, with empty maps, but the shutdown of the node is neither
  -- complete nor does waiting for its completion change anything.
  pub serve_failed-is_shutdown :
      (a : Actors dxr) (w : W) (n : Run)
      → PathFrom (new_run world master host net peers mgr a w) n
      → n.task ≡ waiting true
      → mgr.is_shutdown_triggered n.manager ≡ false
      → let n' = stop_task world master host net peers mgr true n in
        PathFrom (new_run world master host net peers mgr a w) n'
        × (is_shutdown mgr n' ≡ false)
        × (wait_shutdown_complete world master host net peers mgr n' ≡ n')
        × IsStopped n'.actors
  unfolding stop_task
  serve_failed-is_shutdown a w n path e off =
      let n' = finished true n in
      let told = Tokens.stop_task-farewell world master host net peers mgr true n in
      let untriggered : mgr.is_shutdown_triggered n'.manager ≡ false =
        Tokens.release_token-triggered world master host net peers mgr true n.manager ∙ off in
      let still = Tokens.not_completed world master host net peers mgr n' untriggered in
      (
        stopped_from n (further _ _ path (serve_failed n true e)),
        still,
        unfold wait_shutdown_complete task_goes_on stop_task in rw (still, untriggered) refl,
        told.1,
      )
