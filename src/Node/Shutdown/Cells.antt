-- ===== src/Node/Shutdown/Cells.antt =====
-- The stop of one actor among the four: rosrust-async/src/node/mod.rs over node/actors.
use rosrust_async.Base.{◌≡◌, ◌≢◌, refl, sym, ◌∙◌, ◌⊎◌, inl, inr, [], ap}
use rosrust_async.Tcpros.Net.{Net}
use rosrust_async.Xmlrpc.Dxr.{Dxr}
use rosrust_async.Xmlrpc.Master.{World, RosMasterClient}
use rosrust_async.Node.Parameter
use rosrust_async.Node.Publisher.{Host}
use rosrust_async.Node.Publisher.Messages as PublisherMessages
use rosrust_async.Node.Subscriber.{Peers}
use rosrust_async.Node.Subscriber.Messages as SubscriberMessages
use rosrust_async.Node.Service.Messages as ServiceMessages
use rosrust_async.Node.Shutdown.{
  Actors, Cell, publisher_cell, subscriber_cell, service_cell, parameter_cell, stop_one,
  farewell_at,
}
use rosrust_async.Node.Shutdown.Stopping.{
  publications-stopped, subscriptions-stopped, params-stopped, service-stopped,
}
use rosrust_async.Node.Shutdown.Task.{Same}

-- The actor has nothing registered.
abbrev pub IsGone : {dxr : Dxr} → Cell → Actors dxr → Type 0
IsGone publisher_cell a = a.publisher.publications ≡ []
IsGone subscriber_cell a = a.subscriber.subscriptions ≡ []
IsGone service_cell a = (a.service.servers ≡ []) × (a.service.clients ≡ [])
IsGone parameter_cell a = a.parameter.subscribed_params ≡ []

pub Same-IsGone :
    {dxr : Dxr} (cell : Cell) (a b : Actors dxr) → Same cell a b → IsGone cell a → IsGone cell b
Same-IsGone publisher_cell a b same gone = sym same ∙ gone
Same-IsGone subscriber_cell a b same gone = sym same ∙ gone
Same-IsGone service_cell a b same gone = (sym same.0 ∙ gone.0, sym same.1 ∙ gone.1)
Same-IsGone parameter_cell a b same gone = ap (λ x. x.subscribed_params) (sym same) ∙ gone

module _ {dxr : Dxr} (world : World dxr) (master : RosMasterClient) (host : Host world.W)
    (net : Net world.W) (peers : Peers dxr world.W) where
  open world use {W}

  pub stop_one-farewell_at :
      (cell : Cell) (a : Actors dxr) (w : W)
      → ((stop_one world master host net peers cell (a, w)).1
          ≡ farewell_at world master host net peers cell a w)
        × IsGone cell (stop_one world master host net peers cell (a, w)).0
  unfolding stop_one PublisherMessages.post_stop SubscriberMessages.post_stop
      ServiceMessages.post_stop Parameter.post_stop
  stop_one-farewell_at publisher_cell a w =
      publications-stopped world master host net peers a.publisher.publications
        (record a.publisher { publications = [] }) w
  stop_one-farewell_at subscriber_cell a w =
      subscriptions-stopped world master host net peers a.subscriber.subscriptions
        (record a.subscriber { subscriptions = [] }) w
  stop_one-farewell_at service_cell a w =
      let x = service-stopped world master host net peers a.service w in (x.0, (x.1, x.2))
  stop_one-farewell_at parameter_cell a w =
      params-stopped world master host net peers a.parameter.subscribed_params
        (record a.parameter { subscribed_params = [] }) w

  -- Two cells are one, or the stop of the first leaves the second alone.
  pub cell-cases :
      (c d : Cell) (a : Actors dxr) (w : W)
      → (c ≡ d) ⊎ ((c ≢ d) × Same d a (stop_one world master host net peers c (a, w)).0)
  unfolding stop_one
  cell-cases publisher_cell publisher_cell a w = inl refl
  cell-cases publisher_cell subscriber_cell a w = inr (λ e. cc, refl)
  cell-cases publisher_cell service_cell a w = inr (λ e. cc, (refl, refl))
  cell-cases publisher_cell parameter_cell a w = inr (λ e. cc, refl)
  cell-cases subscriber_cell publisher_cell a w = inr (λ e. cc, refl)
  cell-cases subscriber_cell subscriber_cell a w = inl refl
  cell-cases subscriber_cell service_cell a w = inr (λ e. cc, (refl, refl))
  cell-cases subscriber_cell parameter_cell a w = inr (λ e. cc, refl)
  cell-cases service_cell publisher_cell a w = inr (λ e. cc, refl)
  cell-cases service_cell subscriber_cell a w = inr (λ e. cc, refl)
  cell-cases service_cell service_cell a w = inl refl
  cell-cases service_cell parameter_cell a w = inr (λ e. cc, refl)
  cell-cases parameter_cell publisher_cell a w = inr (λ e. cc, refl)
  cell-cases parameter_cell subscriber_cell a w = inr (λ e. cc, refl)
  cell-cases parameter_cell service_cell a w = inr (λ e. cc, (refl, refl))
  cell-cases parameter_cell parameter_cell a w = inl refl
