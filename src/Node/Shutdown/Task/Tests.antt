-- ===== src/Node/Shutdown/Task/Tests.antt =====
-- A shutdown manager, and the ends of a node with a publication and a parameter subscription.
use rosrust_async.Base.{
  ℕ, suc, ◌-◌, ◌==◌, ◌≡◌, refl, Bool, true, false, ◌&&◌, Option, none, List, ◌∷◌, Str, Result, ok,
  err,
}
use rosrust_async.Tcpros.SampleNet.{sample_net}
use rosrust_async.Xmlrpc.Samples.{sample_world, server, client}
use rosrust_async.Node.Shutdown.Samples.{host, peers, actors}
use rosrust_async.Node.Shutdown.{Cell, publisher_cell, actor_cells, farewell, farewell_at}
use rosrust_async.Node.Shutdown.Cells.{IsGone}
use rosrust_async.Node.Shutdown.Task.{
  ShutdownManager, waiting, stopping, ended, is_shutdown, shutdown, release_token, new_run,
  begin_task, stop_task, stop_rest, stop_next, end_run, call_shutdown, Run, Steps, stay, further,
  polled, asked, triggered, shutdown_and_wait,
}
use rosrust_async.Node.Shutdown.Task.Tokens.{IsStopped, stop_rest-Steps}
use rosrust_async.Node.Shutdown.Task.Complete.{is_shutdown-farewell_at}
use rosrust_async.Node.Shutdown.Task.Waits.{shutdown_and_wait-farewell, shutdown_and_wait-early}

-- Whether it was triggered, and how many tokens there are.
abbrev sample_completed : Bool × ℕ → Bool
sample_completed m = m.0 && (m.1 == 0)

abbrev delayed : Bool → Bool × ℕ → Result (Unit {0}) (Unit {0}) × (Bool × ℕ)
delayed true m = (err tt, m)
delayed false m = (ok tt, (m.0, suc m.1))

abbrev trigger : Option Str → Bool × ℕ → Result (Unit {0}) (Unit {0}) × (Bool × ℕ)
trigger reason (true, n) = (err tt, (true, n))
trigger reason (false, n) = (ok tt, (true, n))

triggers :
    (reason : Option Str) (m : Bool × ℕ)
    → m.0 ≡ false
    → (m' : Bool × ℕ) × (trigger reason m ≡ (ok tt, m')) × (m'.0 ≡ true) × (m'.1 ≡ m.1)
triggers reason (true, n) off = absurd (cc)
triggers reason (false, n) off = ((true, n), refl, refl, refl)

delays :
    (m : Bool × ℕ)
    → sample_completed m ≡ false
    → (m' : Bool × ℕ) × (delayed (sample_completed m) m ≡ (ok tt, m'))
      × (m'.0 ≡ m.0)
      × (m'.1 ≡ suc m.1)
delays m off = ((m.0, suc m.1), rw (off) refl, refl, refl)

refuses :
    (m : Bool × ℕ)
    → sample_completed m ≡ true
    → (e : Unit {0}) × (delayed (sample_completed m) m ≡ (err e, m))
refuses m on = (tt, rw (on) refl)

abbrev sample_manager : ShutdownManager
sample_manager = record {
  M = Bool × ℕ;
  AlreadyStarted = Unit {0};
  AlreadyCompleted = Unit {0};
  new = (false, 0);
  is_shutdown_triggered = λ m. m.0;
  is_shutdown_completed = sample_completed;
  tokens = λ m. m.1;
  trigger_shutdown = trigger;
  delay_shutdown_token = λ m. delayed (sample_completed m) m;
  drop_token = λ m. (m.0, m.1 - 1);
  new_lem = (refl, refl);
  completed_lem = λ m. refl;
  trigger_lem = triggers;
  delay_lem = delays;
  delay_refused = refuses;
  drop_lem = λ m. (refl, refl);
}

abbrev NodeState : Type 0
NodeState = Run sample_world client host sample_net peers sample_manager

abbrev Reaches : NodeState → NodeState → Type 0
Reaches = Steps sample_world client host sample_net peers sample_manager

abbrev fresh_node : NodeState
fresh_node = new_run sample_world client host sample_net peers sample_manager actors server

abbrev begun : NodeState
begun = begin_task sample_world client host sample_net peers sample_manager fresh_node

abbrev leaving : NodeState
leaving = call_shutdown sample_world client host sample_net peers sample_manager none begun

abbrev stopped : NodeState
stopped = stop_task sample_world client host sample_net peers sample_manager true leaving

fresh_node-begun : Reaches fresh_node begun
unfolding new_run
fresh_node-begun = further fresh_node begun stay (polled fresh_node refl)

abbrev begins_to_stop : NodeState
begins_to_stop = record leaving { task = stopping true actor_cells }

begun-begins_to_stop : Reaches begun begins_to_stop
unfolding new_run begin_task call_shutdown shutdown
begun-begins_to_stop =
    further leaving begins_to_stop (further begun leaving stay (asked begun none))
      (triggered leaving true refl refl)

begun-stopped : Reaches begun stopped
unfolding stop_task stop_rest stop_next
begun-stopped =
    stop_rest-Steps sample_world client host sample_net peers sample_manager begun begins_to_stop
      true actor_cells refl begun-begins_to_stop

is_shutdown-farewell_at_example :
    (stopped.task ≡ ended)
    × IsGone publisher_cell stopped.actors
    × ((u : NodeState) × (rest : List Cell) × Reaches begun u
        × (u.task ≡ stopping true (publisher_cell ∷ rest))
        × ((stop_next sample_world client host sample_net peers sample_manager true publisher_cell
              rest u).world
            ≡ farewell_at sample_world client host sample_net peers publisher_cell u.actors u.world)
        × Reaches
            (stop_next sample_world client host sample_net peers sample_manager true publisher_cell
              rest u)
            stopped)
unfolding is_shutdown new_run begin_task call_shutdown shutdown stop_task stop_rest stop_next
    end_run release_token
is_shutdown-farewell_at_example =
    is_shutdown-farewell_at sample_world client host sample_net peers sample_manager actors server
      fresh_node stopped publisher_cell stay refl refl begun-stopped refl

shutdown_and_wait-farewell_example :
    let (result, n') =
      shutdown_and_wait sample_world client host sample_net peers sample_manager none begun in
    (result ≡ ok tt)
    × (is_shutdown sample_manager n' ≡ true)
    × Reaches fresh_node n'
    × (n'.world ≡ farewell sample_world client host sample_net peers begun.actors begun.world)
    × IsStopped n'.actors
unfolding new_run begin_task
shutdown_and_wait-farewell_example =
    shutdown_and_wait-farewell sample_world client host sample_net peers sample_manager actors
      server begun none fresh_node-begun refl

shutdown_and_wait-early_example :
    let (result, n') =
      shutdown_and_wait sample_world client host sample_net peers sample_manager none fresh_node in
    (result ≡ ok tt)
    × (is_shutdown sample_manager n' ≡ true)
    × (n'.actors ≡ fresh_node.actors)
    × (n'.world ≡ fresh_node.world)
    × ((begin_task sample_world client host sample_net peers sample_manager n').task
        ≡ waiting false)
unfolding new_run
shutdown_and_wait-early_example =
    shutdown_and_wait-early sample_world client host sample_net peers sample_manager actors server
      fresh_node none stay refl
