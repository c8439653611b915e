-- ===== src/Node/Shutdown/Stopping.antt =====
-- What the stop hook of each actor tells the master: rosrust-async/src/node/actors.
use rosrust_async.Base.{ℕ, ◌≡◌, refl, ◌∙◌, ap, List, [], ◌∷◌, Str, Result, ok, err, arith}
use rosrust_async.Base.Action.{convert}
use rosrust_async.Tcpros.Net.{Net}
use rosrust_async.Tcpros.Service.Provider.{ServiceProvider}
use rosrust_async.Xmlrpc.Dxr.{Dxr}
use rosrust_async.Xmlrpc.Master.{World, RosMasterClient}
use rosrust_async.Xmlrpc.Master
use rosrust_async.Node.Parameter.{ParameterActorState, unsubscribe_all}
use rosrust_async.Node.Parameter
use rosrust_async.Node.Publisher.{Host, Publication, PublisherActorState, cleanup_publication}
use rosrust_async.Node.Publisher.Messages as PublisherMessages
use rosrust_async.Node.Subscriber.{Peers, Feed, SubscriberActorState, cleanup_subscription}
use rosrust_async.Node.Subscriber.Messages as SubscriberMessages
use rosrust_async.Node.Service.{ServiceActorState, cleanup_server}
use rosrust_async.Node.Service.Messages as ServiceMessages
use rosrust_async.Node.Shutdown.{each_of}

convert-state : {X E F A : Type 0} (f : E → F) (q : Result E A × X) → (convert f q).1 ≡ q.1
convert-state f (ok a, x) = refl
convert-state f (err e, x) = refl

module _ {dxr : Dxr} (world : World dxr) (master : RosMasterClient) (host : Host world.W)
    (net : Net world.W) (peers : Peers dxr world.W) where
  open world use {W}

  publications-cleanup :
      (guard : ℕ) (e : Publication) (s : PublisherActorState) (w : W)
      → ((cleanup_publication world master host guard e (s, w)).1.1
          ≡ (Master.unregister_publisher world master e.topic.name w).1)
        × ((cleanup_publication world master host guard e (s, w)).1.0.publications ≡ s.publications)
  unfolding cleanup_publication
  publications-cleanup guard e s w = ground arith

  pub publications-stopped :
      (entries : List (Str × (ℕ × Publication))) (s : PublisherActorState) (w : W)
      → ((PublisherMessages.cleanup_all world master host entries (s, w)).1.1
          ≡ each_of (λ x. Master.unregister_publisher world master x.1.1.topic.name) entries w)
        × ((PublisherMessages.cleanup_all world master host entries (s, w)).1.0.publications
            ≡ s.publications)
  unfolding PublisherMessages.cleanup_all
  publications-stopped [] s w = (refl, refl)
  publications-stopped ((name, (guard, e)) ∷ rest) s w =
      let x = (cleanup_publication world master host guard e (s, w)).1 in
      let gone = publications-cleanup guard e s w in
      let more = publications-stopped rest x.0 x.1 in
      (
        more.0
            ∙ ap (each_of (λ y. Master.unregister_publisher world master y.1.1.topic.name) rest)
                gone.0,
        more.1 ∙ gone.1,
      )

  subscriptions-cleanup :
      (guard : ℕ) (e : Feed) (s : SubscriberActorState) (w : W)
      → ((cleanup_subscription world master peers guard e (s, w)).1.1
          ≡ (Master.unregister_subscriber world master e.subscription.topic.name w).1)
        × ((cleanup_subscription world master peers guard e (s, w)).1.0.subscriptions
            ≡ s.subscriptions)
  unfolding cleanup_subscription
  subscriptions-cleanup guard e s w = ground arith

  pub subscriptions-stopped :
      (entries : List (Str × (ℕ × Feed))) (s : SubscriberActorState) (w : W)
      → ((SubscriberMessages.cleanup_all world master peers entries (s, w)).1.1
          ≡ each_of
              (λ x. Master.unregister_subscriber world master x.1.1.subscription.topic.name)
              entries
              w)
        × ((SubscriberMessages.cleanup_all world master peers entries (s, w)).1.0.subscriptions
            ≡ s.subscriptions)
  unfolding SubscriberMessages.cleanup_all
  subscriptions-stopped [] s w = (refl, refl)
  subscriptions-stopped ((name, (guard, e)) ∷ rest) s w =
      let x = (cleanup_subscription world master peers guard e (s, w)).1 in
      let gone = subscriptions-cleanup guard e s w in
      let more = subscriptions-stopped rest x.0 x.1 in
      (
        more.0
            ∙ ap
                (each_of
                  (λ y. Master.unregister_subscriber world master y.1.1.subscription.topic.name)
                  rest)
                gone.0,
        more.1 ∙ gone.1,
      )

  servers-cleanup :
      (guard : ℕ) (e : ServiceProvider) (s : ServiceActorState) (w : W)
      → ((cleanup_server world net master guard e (s, w)).1.1
          ≡ (Master.unregister_service world master e.service.name e.url w).1)
        × ((cleanup_server world net master guard e (s, w)).1.0.servers ≡ s.servers)
  unfolding cleanup_server
  servers-cleanup guard e s w = ground arith

  servers-stopped :
      (entries : List (Str × (ℕ × ServiceProvider))) (s : ServiceActorState) (w : W)
      → ((ServiceMessages.cleanup_servers world net master entries (s, w)).1.1
          ≡ each_of
              (λ x. Master.unregister_service world master x.1.1.service.name x.1.1.url)
              entries
              w)
        × ((ServiceMessages.cleanup_servers world net master entries (s, w)).1.0.servers
            ≡ s.servers)
  unfolding ServiceMessages.cleanup_servers
  servers-stopped [] s w = (refl, refl)
  servers-stopped ((name, (guard, e)) ∷ rest) s w =
      let x = (cleanup_server world net master guard e (s, w)).1 in
      let gone = servers-cleanup guard e s w in
      let more = servers-stopped rest x.0 x.1 in
      (
        more.0
            ∙ ap
                (each_of (λ y. Master.unregister_service world master y.1.1.service.name y.1.1.url)
                  rest)
                gone.0,
        more.1 ∙ gone.1,
      )

  pub params-stopped :
      (names : List Str) (s : ParameterActorState dxr) (w : W)
      → ((unsubscribe_all world master names (s, w)).1.1
          ≡ each_of (Master.unsubscribe_param world master) names w)
        × ((unsubscribe_all world master names (s, w)).1.0.subscribed_params ≡ s.subscribed_params)
  unfolding unsubscribe_all
  params-stopped [] s w = (refl, refl)
  params-stopped (name ∷ rest) s w =
      let x = (convert Parameter.master_client (Master.unsubscribe_param world master name w)).1 in
      let more = params-stopped rest s x in
      (
        more.0
            ∙ ap (each_of (Master.unsubscribe_param world master) rest) (
                convert-state Parameter.master_client
                  (Master.unsubscribe_param world master name w)),
        more.1,
      )

  cleanup_servers-ok :
      (entries : List (Str × (ℕ × ServiceProvider))) (s : ServiceActorState) (w : W)
      → (ServiceMessages.cleanup_servers world net master entries (s, w)).0 ≡ ok tt
  unfolding ServiceMessages.cleanup_servers
  cleanup_servers-ok [] s w = refl
  cleanup_servers-ok ((name, (guard, e)) ∷ rest) s w =
      let x = (cleanup_server world net master guard e (s, w)).1 in cleanup_servers-ok rest x.0 x.1

  pub service-stopped :
      (s : ServiceActorState) (w : W)
      → let x = (ServiceMessages.post_stop world net master (s, w)).1 in
        (x.1
          ≡ each_of
              (λ e. Master.unregister_service world master e.1.1.service.name e.1.1.url)
              s.servers
              w)
        × (x.0.servers ≡ [])
        × (x.0.clients ≡ [])
  unfolding ServiceMessages.post_stop
  service-stopped s w =
      let s' = record s { servers = [] } in
      let gone = servers-stopped s.servers s' w in
      ground (arith, cleanup_servers-ok s.servers s' w, gone.0, gone.1)
