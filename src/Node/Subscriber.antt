-- ===== src/Node/Subscriber.antt =====
-- The subscriber actor: rosrust-async/src/node/actors/subscriber.rs. A handler is a function of the
-- actor's state and the world; the tasks that a subscription has spawned stand beside it, and what they
-- do comes between the handlers.
pub mod Preserved
pub mod Messages
pub mod Linked
pub mod Growth
pub mod Reachable
pub mod Receive
pub mod Shared
pub mod Handles
mod Tests
use rosrust_async.Base.{
  ℕ, Bool, true, false, Option, none, some, List, [], ◌∷◌, ◌++◌, map, length, Str, codes,
  decimal_i32, if◌then◌else◌, Result, ok, err, map_err,
}
use rosrust_async.Base.Action.{
  Action, ◌>>=◌, ◌>>◌, done, attempt, map_error, on_world, get_state, modify, from_result,
}
use rosrust_async.Base.Dict.{lookup, insert, remove, contains}
use rosrust_async.Tcpros.Bytes.{IoError}
use rosrust_async.Tcpros.Net.{Net, Connection}
use rosrust_async.Tcpros.Spec.{Topic, CompatibilityError, validate_topic_specs}
use rosrust_async.Tcpros.Header.Defs.{PublisherHeader}
use rosrust_async.Tcpros.Header.Visit.{Visitor}
use rosrust_async.Tcpros.Subscription.{
  SubscriptionError, Subscription, SubscriberTask, new_subscription, add_publisher,
}
use rosrust_async.Xmlrpc.Dxr.{Dxr}
use rosrust_async.Xmlrpc.Master.{World, MasterClientError, RosMasterClient}
use rosrust_async.Xmlrpc.Master
use rosrust_async.Xmlrpc.Slave.{SlaveClientError, CallAt, request_topic}
use rosrust_async.Node.Guards.{Guards, new_guard, is_alive, retain, disarm_alive}

pub data SubscriberActorError (dxr : Dxr) : Type 0 where
  master_client : MasterClientError dxr → SubscriberActorError dxr
  slave_client : SlaveClientError dxr → SubscriberActorError dxr
  url_parse : SubscriberActorError dxr
  compatibility : CompatibilityError → SubscriberActorError dxr
  subscription : SubscriptionError → SubscriberActorError dxr

-- The other nodes: the slave API at a URL, `TcpStream::connect` to a host and port in a text, and the
-- reader that is derived for a publisher's header.
pub record Peers (dxr : Dxr) (W : Type 0) : Type 1 where
  pub net : Net W
  pub call_at : net.Url → CallAt dxr W
  pub connect : Str → Action W IoError Connection
  pub visitor : Visitor PublisherHeader

-- A subscription with the tasks that it has spawned and that run. Its drop cancels them.
pub record Feed : Type 0 where
  pub subscription : Subscription
  pub tasks : List SubscriberTask

pub record SubscriberActorState : Type 0 where
  pub node_name : Str
  pub subscriptions : List (Str × (ℕ × Feed))
  pub guards : Guards

unfoldable pub new_state : Str → SubscriberActorState
new_state node_name = record { node_name = node_name; subscriptions = []; guards = [] }

-- A handle: the latched messages to give first, how many messages of the channel are behind it, and the
-- guard.
pub record Subscriber : Type 0 where
  pub latched_msgs : List Str
  pub data_rx : ℕ
  pub guard : ℕ

pub record Registration : Type 0 where
  pub topic : Topic
  pub caller_id : Str
  pub tcp_nodelay : Bool

unfoldable pub difference : List Str → List Str → List Str
difference [] other = []
difference (a ∷ rest) other =
    if contains a other then difference rest other else a ∷ difference rest other

pub get_subscriptions : SubscriberActorState → List (Str × Str)
get_subscriptions s = map (λ e. (e.0, e.1.1.subscription.topic.spec.msg_type)) s.subscriptions

pub get_connected_publisher_urls : SubscriberActorState → Str → Option (List Str)
get_connected_publisher_urls s topic_name = elim (lookup topic_name s.subscriptions) [
  | none ↦ none
  | some (guard, feed) ↦ some feed.subscription.publisher_addrs
]

module _ {dxr : Dxr} (world : World dxr) (master : RosMasterClient)
    (peers : Peers dxr world.W) where
  open world use {W}

  abbrev pub Handler : Type 0 → Type 0
  Handler A = Action (SubscriberActorState × W) (SubscriberActorError dxr) A

  abbrev Feeding : Type 0 → Type 0
  Feeding A = Action (Feed × W) (SubscriberActorError dxr) A

  channel_text : Option (Str × Str × ℕ) → Option Str
  channel_text none = none
  channel_text (some (protocol, host, port)) = some (host ++ (codes ":" ++ decimal_i32 port))

  unfoldable pub get_publisher_channel :
      Str → Str → Str → Action W (SubscriberActorError dxr) (Option Str)
  unfolding channel_text
  get_publisher_channel caller_id topic_name publisher_addr = do
    url ← from_result (map_err (λ e. url_parse) (peers.net.parse_url publisher_addr))
    protocol_info ←
        map_error slave_client
          (request_topic (peers.call_at url) caller_id topic_name ((codes "TCPROS" ∷ []) ∷ []))
    done (channel_text protocol_info)

  with_task : Option SubscriberTask → List SubscriberTask → List SubscriberTask
  with_task none tasks = tasks
  with_task (some t) tasks = t ∷ tasks

  linked :
      Feed
      → W
      → Result SubscriptionError (Option SubscriberTask) × Subscription
      → Result (SubscriberActorError dxr) (Unit {0}) × (Feed × W)
  linked feed w (ok task, s) =
      (ok tt, (record { subscription = s; tasks = with_task task feed.tasks }, w))
  linked feed w (err e, s) = (err (subscription e), (record feed { subscription = s }, w))

  connected :
      Str
      → Feed
      → Result IoError Connection × W
      → Result (SubscriberActorError dxr) (Unit {0}) × (Feed × W)
  connected publisher_addr feed (peer, w) =
      linked feed w (add_publisher peers.visitor publisher_addr peer feed.subscription)

  -- `add_publisher` connects only for a publisher that it does not have.
  add_at : Str → Option Str → Feeding (Unit {0})
  add_at publisher_addr none = done tt
  add_at publisher_addr (some channel_addr) = λ x.
      if contains publisher_addr x.0.subscription.publisher_addrs
      then (ok tt, x)
      else connected publisher_addr x.0 (peers.connect channel_addr x.1)

  pub add_publisher_to_subscription : Str → Str → Str → Feeding (Unit {0})
  unfolding linked connected with_task
  add_publisher_to_subscription caller_id topic_name publisher_addr = do
    channel ← on_world (get_publisher_channel caller_id topic_name publisher_addr)
    add_at publisher_addr channel

  -- One after the other; an error is only logged.
  unfoldable pub add_publishers : Str → Str → List Str → Feed × W → Feed × W
  add_publishers caller_id topic_name [] x = x
  add_publishers caller_id topic_name (publisher ∷ rest) x =
      add_publishers caller_id topic_name rest
        (add_publisher_to_subscription caller_id topic_name publisher x).1

  -- The subscription is gone by then, and with it its tasks.
  unfoldable pub cleanup_subscription : ℕ → Feed → Handler (Unit {0})
  cleanup_subscription guard feed = do
    modify (λ s. record s { guards = disarm_alive guard s.guards })
    _ ← on_world (
        map_error master_client
          (Master.unregister_subscriber world master feed.subscription.topic.name))
    done tt

  -- A new handle of a subscription that is in use. The latched messages and the place in the channel are
  -- those of one moment; the code reads the first and then subscribes, so that a message which a task
  -- receives in between misses the handle.
  share : Registration → ℕ → Feed → Handler Subscriber
  share r guard feed = do
    from_result
        (map_err compatibility (validate_topic_specs r.topic.spec feed.subscription.topic.spec))
    modify (λ s. record s { guards = retain guard s.guards })
    done (record {
      latched_msgs = map (λ e. e.1) feed.subscription.latched_msgs;
      data_rx = length feed.subscription.data_sent;
      guard = guard;
    })

  entered :
      Registration
      → SubscriberActorState
      → Feed × W
      → Result (SubscriberActorError dxr) Subscriber × (SubscriberActorState × W)
  entered r s (feed, w) =
      let (guard, guards) = new_guard r.topic.name s.guards in
      (
        ok (record { latched_msgs = []; data_rx = 0; guard = guard }),
        (
          record s {
            subscriptions = insert r.topic.name (guard, feed) s.subscriptions;
            guards = guards;
          },
          w,
        ),
      )

  enter : Registration → Subscription → List Str → Handler Subscriber
  enter r sub existing_publishers (s, w) = entered r s (
      add_publishers s.node_name r.topic.name existing_publishers
        (record { subscription = sub; tasks = [] }, w))

  create : Registration → Handler Subscriber
  create r = do
    sub ← from_result (map_err subscription (new_subscription r.topic r.caller_id r.tcp_nodelay))
    existing_publishers ← on_world (
        map_error master_client
          (Master.register_subscriber world master r.topic.name r.topic.spec.msg_type))
    enter r sub existing_publishers

  -- An entry whose handles are gone is taken out first; an error of its cleanup is only logged.
  replace : Registration → ℕ → Feed → Handler Subscriber
  replace r guard feed = do
    modify (λ s. record s { subscriptions = remove r.topic.name s.subscriptions })
    _ ← attempt (cleanup_subscription guard feed)
    create r

  -- By the entry that the map holds for the topic.
  register_at : Registration → Guards → Option (ℕ × Feed) → Handler Subscriber
  register_at r guards none = create r
  register_at r guards (some (guard, feed)) =
      if is_alive guard guards then share r guard feed else replace r guard feed

  pub register_subscriber : Registration → Handler Subscriber
  register_subscriber r = do
    s ← get_state
    register_at r s.guards (lookup r.topic.name s.subscriptions)

  unregister_at : Str → Option (ℕ × Feed) → Handler (Unit {0})
  unregister_at topic_name none = done tt
  unregister_at topic_name (some (guard, feed)) = do
    modify (λ s. record s { subscriptions = remove topic_name s.subscriptions })
    cleanup_subscription guard feed

  pub unregister_subscriber : Str → Handler (Unit {0})
  unregister_subscriber topic_name = do
    s ← get_state
    unregister_at topic_name (lookup topic_name s.subscriptions)

  put_back : Str → ℕ → SubscriberActorState → Feed × W → SubscriberActorState × W
  put_back topic_name guard s (feed, w) =
      (record s { subscriptions = insert topic_name (guard, feed) s.subscriptions }, w)

  update_at :
      Str → List Str → Option (ℕ × Feed) → SubscriberActorState × W → SubscriberActorState × W
  update_at topic_name publisher_addrs none x = x
  update_at topic_name publisher_addrs (some (guard, feed)) (s, w) = put_back topic_name guard s (
      add_publishers s.node_name topic_name
        (difference publisher_addrs feed.subscription.publisher_addrs) (feed, w))

  pub update_connected_publishers :
      Str → List Str → SubscriberActorState × W → SubscriberActorState × W
  unfolding put_back
  update_connected_publishers topic_name publisher_addrs x =
      update_at topic_name publisher_addrs (lookup topic_name x.0.subscriptions) x
