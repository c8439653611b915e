-- ===== src/Node/Shutdown/Farewell.antt =====
-- What the master is told when a node ends: rosrust-async/src/node/mod.rs, over the stop hooks of
-- node/actors.
use rosrust_async.Base.{◌≡◌, ◌∙◌, ap, []}
use rosrust_async.Tcpros.Net.{Net}
use rosrust_async.Xmlrpc.Dxr.{Dxr}
use rosrust_async.Xmlrpc.Master.{World, RosMasterClient}
use rosrust_async.Xmlrpc.Master
use rosrust_async.Node.Parameter.{ParameterActorState, unsubscribe_all}
use rosrust_async.Node.Parameter
use rosrust_async.Node.Publisher.{Host}
use rosrust_async.Node.Publisher.Messages as PublisherMessages
use rosrust_async.Node.Subscriber.{Peers}
use rosrust_async.Node.Subscriber.Messages as SubscriberMessages
use rosrust_async.Node.Service.Messages as ServiceMessages
use rosrust_async.Node.Shutdown.Stopping.{
  publications-stopped, subscriptions-stopped, params-stopped, service-stopped,
}
use rosrust_async.Node.Shutdown.{Actors, each_of, stop_one, stop_cells, stop_actors, farewell}

module _ {dxr : Dxr} (world : World dxr) (master : RosMasterClient) (host : Host world.W)
    (net : Net world.W) (peers : Peers dxr world.W) where
  open world use {W}

  -- When the actors of a node have stopped, in whatever states they were and whatever the master answers,
  -- the master has been told, in this order, that every publication, every subscription and every service
  -- of the actors' maps and every subscribed parameter is given up, each once for its entry and nothing
  -- else has been asked; and the maps, those of the service clients too, and the parameter subscriptions
  -- are empty.
  pub stop_actors-farewell :
      (a : Actors dxr) (w : W)
      → let x = stop_actors world master host net peers (a, w) in
        (x.1 ≡ farewell world master host net peers a w)
        × (x.0.publisher.publications ≡ [])
        × (x.0.subscriber.subscriptions ≡ [])
        × (x.0.service.servers ≡ [])
        × (x.0.service.clients ≡ [])
        × (x.0.parameter.subscribed_params ≡ [])
  unfolding stop_actors stop_cells stop_one PublisherMessages.post_stop SubscriberMessages.post_stop
      ServiceMessages.post_stop Parameter.post_stop
  stop_actors-farewell a w =
      let p =
        publications-stopped world master host net peers a.publisher.publications
          (record a.publisher { publications = [] }) w in
      let p' = (PublisherMessages.post_stop world master host (a.publisher, w)).1 in
      let b =
        subscriptions-stopped world master host net peers a.subscriber.subscriptions
          (record a.subscriber { subscriptions = [] }) p'.1 in
      let b' = (SubscriberMessages.post_stop world master peers (a.subscriber, p'.1)).1 in
      let s = service-stopped world master host net peers a.service b'.1 in
      let s' = (ServiceMessages.post_stop world net master (a.service, b'.1)).1 in
      let q =
        params-stopped world master host net peers a.parameter.subscribed_params
          (record a.parameter { subscribed_params = [] }) s'.1 in
      (
        q.0
            ∙ ap (each_of (Master.unsubscribe_param world master) a.parameter.subscribed_params) (
                s.0
                ∙ ap
                    (each_of
                      (λ e. Master.unregister_service world master e.1.1.service.name e.1.1.url)
                      a.service.servers)
                    (b.0
                      ∙ ap
                          (each_of
                            (λ e.
                              Master.unregister_subscriber world master
                                e.1.1.subscription.topic.name)
                            a.subscriber.subscriptions)
                          p.0)),
        p.1,
        b.1,
        s.1,
        s.2,
        q.1,
      )
