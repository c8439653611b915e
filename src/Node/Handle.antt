-- ===== src/Node/Handle.antt =====
-- A node's handle: the state and the calls of rosrust-async/src/node/mod.rs, with `NodeError` of node/error.rs.
-- An actor handles a call at once, as a whole; one that has stopped (`none`) answers none.
pub mod Parameters
pub mod Cached
mod Tests
use rosrust_async.Base.{
  ℕ, Bool, true, false, Option, none, some, List, [], ◌∷◌, ◌++◌, Str, codes, decimal, Result, ok,
  err, map_err,
}
use rosrust_async.Base.Action.{Action}
use rosrust_async.Tcpros.Bytes.{IoError}
use rosrust_async.Tcpros.Net.{SocketAddr, Net}
use rosrust_async.Tcpros.Spec.{Topic, Message, new_topic, Service, new_service}
use rosrust_async.Xmlrpc.Dxr.{Dxr}
use rosrust_async.Xmlrpc.Master.{World, RosMasterClient}
use rosrust_async.Node.Publisher.{
  Host, PublisherActorError, PublisherActorState, Publisher, register_publisher,
}
use rosrust_async.Node.Publisher as Publishers
use rosrust_async.Node.Subscriber.{
  Peers, SubscriberActorError, SubscriberActorState, Subscriber, register_subscriber,
}
use rosrust_async.Node.Subscriber as Subscribers
use rosrust_async.Node.Service.{ServiceActorError, ServiceActorState, ServiceClient}
use rosrust_async.Node.Service as Services
use rosrust_async.Node.Parameter.{ParameterActorError, ParameterActorState}
use rosrust_async.Node.Publisher.Messages.{connected_subscriber_ids}

-- The errors of ractor and of the shutdown manager are known by their texts.
pub data NodeError (dxr : Dxr) : Type 0 where
  io : IoError → NodeError dxr
  dxr_failure : dxr.DxrError → NodeError dxr
  ractor actor_spawn shutdown_already_started shutdown_already_completed : Str → NodeError dxr
  invalid_dynamic_msg ros_message : Str → NodeError dxr
  publisher_actor : PublisherActorError dxr → NodeError dxr
  subscriber_actor : SubscriberActorError dxr → NodeError dxr
  service_actor : ServiceActorError dxr → NodeError dxr
  parameter_actor : ParameterActorError dxr → NodeError dxr

-- `RactorErr`
pub data RactorErr : Type 0 where
  timeout : RactorErr
  actor_error spawn_error messaging_error : Str → RactorErr

unfoldable pub from_ractor : {dxr : Dxr} → RactorErr → NodeError dxr
from_ractor timeout = ractor (codes "timeout")
from_ractor (actor_error e) = ractor e
from_ractor (spawn_error e) = ractor e
from_ractor (messaging_error e) = ractor e

-- What the handle knows besides its actors.
pub record NodeInfo : Type 0 where
  pub name : Str
  pub hostname : Str
  pub address : SocketAddr
  pub api_url : Str
  pub master_url : Str

pub record ActorRefs (dxr : Dxr) : Type 0 where
  pub pub_actor : Option PublisherActorState
  pub sub_actor : Option SubscriberActorState
  pub svc_actor : Option ServiceActorState
  pub param_actor : Option (ParameterActorState dxr)

-- `RosMasterClient::new` takes the node's name and URL.
unfoldable pub master_client : NodeInfo → RosMasterClient
master_client node = record { caller_id = node.name; caller_api = node.api_url }

-- `call_error` is what ractor says of an actor that has stopped.
module _ {dxr : Dxr} (world : World dxr) (net : Net world.W) (host : Host world.W)
    (peers : Peers dxr world.W) (node : NodeInfo) (call_error : Str) where
  open world use {W}

  abbrev pub Call : Type 0 → Type 0
  Call A = Action (ActorRefs dxr × W) (NodeError dxr) A

  abbrev master : RosMasterClient
  master = master_client node

  replied :
      {S E A : Type 0}
      → (S → ActorRefs dxr → ActorRefs dxr)
      → (E → NodeError dxr)
      → ActorRefs dxr
      → Result E A × (S × W)
      → Result (NodeError dxr) A × (ActorRefs dxr × W)
  replied put wrap actors (result, (s, w)) = (map_err wrap result, (put s actors, w))

  asked :
      {S E A : Type 0}
      → (S → ActorRefs dxr → ActorRefs dxr)
      → (E → NodeError dxr)
      → Action (S × W) E A
      → Option S
      → Call A
  asked put wrap m none x = (err (from_ractor (messaging_error call_error)), x)
  asked put wrap m (some s) (actors, w) = replied put wrap actors (m (s, w))

  ask_publisher :
      {A : Type 0} → Action (PublisherActorState × W) (PublisherActorError dxr) A → Call A
  ask_publisher m (a, w) =
      asked (λ s r. record r { pub_actor = some s }) publisher_actor m a.pub_actor (a, w)

  ask_subscriber :
      {A : Type 0} → Action (SubscriberActorState × W) (SubscriberActorError dxr) A → Call A
  ask_subscriber m (a, w) =
      asked (λ s r. record r { sub_actor = some s }) subscriber_actor m a.sub_actor (a, w)

  ask_service : {A : Type 0} → Action (ServiceActorState × W) (ServiceActorError dxr) A → Call A
  ask_service m (a, w) =
      asked (λ s r. record r { svc_actor = some s }) service_actor m a.svc_actor (a, w)

  ask_parameter :
      {A : Type 0} → Action (ParameterActorState dxr × W) (ParameterActorError dxr) A → Call A
  ask_parameter m (a, w) =
      asked (λ s r. record r { param_actor = some s }) parameter_actor m a.param_actor (a, w)

  -- What an actor only reads.
  abbrev reading : {S E A : Type 0} → (S → A) → Action (S × W) E A
  reading f (s, w) = (ok (f s), (s, w))

  unfoldable pub publish_topic : Topic → ℕ → Bool → Bool → Call Publisher
  unfolding ask_publisher asked replied
  publish_topic topic queue_size latching tcp_nodelay = ask_publisher (
      register_publisher world master host (record {
        topic = topic;
        address = node.address.0;
        caller_id = node.name;
        queue_size = queue_size;
        latching = latching;
        tcp_nodelay = tcp_nodelay;
      }))

  unfoldable pub publish : Message → Str → ℕ → Bool → Bool → Call Publisher
  unfolding publish_topic
  publish message topic_name = publish_topic (new_topic message topic_name)

  unfoldable pub get_publications : Call (List (Str × Str))
  unfolding ask_publisher asked replied
  get_publications = ask_publisher (reading Publishers.get_publications)

  unfoldable pub get_connected_subscriber_ids : Str → Call (Option (List Str))
  unfolding ask_publisher asked replied
  get_connected_subscriber_ids topic_name =
      ask_publisher (λ x. (ok (connected_subscriber_ids world master host topic_name x), x))

  -- The size of the queue is that of the channel that the subscription is made with.
  unfoldable pub subscribe : Message → Str → Bool → Call Subscriber
  unfolding ask_subscriber asked replied
  subscribe message topic_name tcp_nodelay = ask_subscriber (
      register_subscriber world master peers (record {
        topic = new_topic message topic_name;
        caller_id = node.name;
        tcp_nodelay = tcp_nodelay;
      }))

  unfoldable pub get_subscriptions : Call (List (Str × Str))
  unfolding ask_subscriber asked replied
  get_subscriptions = ask_subscriber (reading Subscribers.get_subscriptions)

  unfoldable pub get_connected_publisher_urls : Str → Call (Option (List Str))
  unfolding ask_subscriber asked replied
  get_connected_publisher_urls topic_name =
      ask_subscriber (reading (λ s. Subscribers.get_connected_publisher_urls s topic_name))

  unfoldable pub service_client : Message → Str → Bool → Call ServiceClient
  unfolding ask_service asked replied
  service_client message service_name persistent = ask_service (
      Services.register_client world net master (record {
        service = new_service message service_name;
        caller_id = node.name;
        persistent = persistent;
      }))

  unfoldable pub advertise_service : Message → Str → Call ℕ
  unfolding ask_service asked replied
  advertise_service message service_name = ask_service (
      Services.register_service world net master (record {
        service = new_service message service_name;
        address = node.address.0;
        caller_id = node.name;
      }))

  unfoldable pub get_services : Call (List (Str × Str))
  unfolding ask_service asked replied
  get_services = ask_service (reading Services.get_services)
