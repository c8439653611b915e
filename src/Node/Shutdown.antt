-- ===== src/Node/Shutdown.antt =====
-- The end of a node: the task that Node::new of rosrust-async/src/node/mod.rs spawns stops the actors one
-- after the other. Task has the rest of that task, and says when it does so.
pub mod Stopping
pub mod Farewell
pub mod Task
pub mod Cells
mod Samples
use rosrust_async.Base.{
  Bool, if◌then◌else◌, Option, ℕ, ◌≡◌, refl, ◌∙◌, ap, List, [], ◌∷◌, map, Str, Result, Result-cases,
  inl, inr, ok, err, arith,
}
use rosrust_async.Base.Action.{Action, convert}
use rosrust_async.Tcpros.Net.{Net}
use rosrust_async.Tcpros.Service.Provider.{ServiceProvider}
use rosrust_async.Xmlrpc.Dxr.{Dxr}
use rosrust_async.Xmlrpc.Master.{World, RosMasterClient}
use rosrust_async.Xmlrpc.Master
use rosrust_async.Node.Parameter.{ParameterActorState, unsubscribe_all}
use rosrust_async.Node.Parameter
use rosrust_async.Node.Publisher.{Host, Publication, PublisherActorState, cleanup_publication}
use rosrust_async.Node.Publisher.Messages as PublisherMessages
use rosrust_async.Node.Subscriber.{Peers, Feed, SubscriberActorState, cleanup_subscription}
use rosrust_async.Node.Subscriber.Messages as SubscriberMessages
use rosrust_async.Node.Service.{ServiceActorState, cleanup_server}
use rosrust_async.Node.Service.Messages as ServiceMessages

pub record Actors (dxr : Dxr) : Type 0 where
  pub publisher : PublisherActorState
  pub subscriber : SubscriberActorState
  pub service : ServiceActorState
  pub parameter : ParameterActorState dxr

-- `actor_cells`, in the order in which the actors are stopped.
pub data Cell : Type 0 where
  publisher_cell subscriber_cell service_cell parameter_cell : Cell

abbrev pub actor_cells : List Cell
actor_cells = publisher_cell ∷ subscriber_cell ∷ service_cell ∷ parameter_cell ∷ []

-- One call of the world after the other, whatever they answer.
abbrev pub each_of : {W E A B : Type 0} → (B → Action W E A) → List B → W → W
each_of f [] w = w
each_of f (x ∷ rest) w = each_of f rest (f x w).1

module _ {dxr : Dxr} (world : World dxr) (master : RosMasterClient) (host : Host world.W)
    (net : Net world.W) (peers : Peers dxr world.W) where
  open world use {W}

  -- The stop of one actor. A failure is only logged.
  unfoldable pub stop_one : Cell → Actors dxr × W → Actors dxr × W
  stop_one publisher_cell (a, w) =
      let p = (PublisherMessages.post_stop world master host (a.publisher, w)).1 in
      (record a { publisher = p.0 }, p.1)
  stop_one subscriber_cell (a, w) =
      let b = (SubscriberMessages.post_stop world master peers (a.subscriber, w)).1 in
      (record a { subscriber = b.0 }, b.1)
  stop_one service_cell (a, w) =
      let s = (ServiceMessages.post_stop world net master (a.service, w)).1 in
      (record a { service = s.0 }, s.1)
  stop_one parameter_cell (a, w) =
      let q = (Parameter.post_stop world master (a.parameter, w)).1 in
      (record a { parameter = q.0 }, q.1)

  unfoldable pub stop_cells : List Cell → Actors dxr × W → Actors dxr × W
  unfolding stop_one
  stop_cells [] x = x
  stop_cells (cell ∷ rest) x = stop_cells rest (stop_one cell x)

  unfoldable pub stop_actors : Actors dxr × W → Actors dxr × W
  unfolding stop_cells
  stop_actors = stop_cells actor_cells

  -- What one actor tells the master.
  abbrev pub farewell_at : Cell → Actors dxr → W → W
  farewell_at publisher_cell a w =
      each_of (λ e. Master.unregister_publisher world master e.1.1.topic.name)
        a.publisher.publications w
  farewell_at subscriber_cell a w =
      each_of (λ e. Master.unregister_subscriber world master e.1.1.subscription.topic.name)
        a.subscriber.subscriptions w
  farewell_at service_cell a w =
      each_of (λ e. Master.unregister_service world master e.1.1.service.name e.1.1.url)
        a.service.servers w
  farewell_at parameter_cell a w =
      each_of (Master.unsubscribe_param world master) a.parameter.subscribed_params w

  -- What the master is told: every publication, subscription and service, and then every subscribed
  -- parameter, is given up.
  abbrev pub farewell : Actors dxr → W → W
  farewell a w = each_of (Master.unsubscribe_param world master) a.parameter.subscribed_params (
      each_of (λ e. Master.unregister_service world master e.1.1.service.name e.1.1.url)
        a.service.servers
        (each_of (λ e. Master.unregister_subscriber world master e.1.1.subscription.topic.name)
          a.subscriber.subscriptions
          (each_of (λ e. Master.unregister_publisher world master e.1.1.topic.name)
            a.publisher.publications w)))
