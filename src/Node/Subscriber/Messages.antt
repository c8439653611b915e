-- ===== src/Node/Subscriber/Messages.antt =====
-- The messages of the subscriber actor and its end: `handle` and `post_stop` of
-- rosrust-async/src/node/actors/subscriber.rs, with the end of a task of tcpros/subscription.rs.
use rosrust_async.Base.{
  Bool, ℕ, Option, none, some, List, [], ◌∷◌, Str, str_eq, if◌then◌else◌, Result, ok,
}
use rosrust_async.Base.Action.{Action, ◌>>=◌, ◌>>◌, done, attempt, get_state, modify}
use rosrust_async.Base.Dict.{lookup, insert}
use rosrust_async.Tcpros.Subscription.{
  SubscriberTask, TaskEvent, data_ready, subscriber_task, run_task,
}
use rosrust_async.Xmlrpc.Dxr.{Dxr}
use rosrust_async.Xmlrpc.Master.{World, RosMasterClient}
use rosrust_async.Node.Port.{MessagingErr, send_reply}
use rosrust_async.Node.Subscriber.{
  Peers, Feed, SubscriberActorError, SubscriberActorState, Subscriber, Registration, Handler,
  cleanup_subscription, register_subscriber, unregister_subscriber, update_connected_publishers,
}
use rosrust_async.Node.Subscriber

pub data SubscriberActorMsg : Type 0 where
  get_subscriptions : SubscriberActorMsg
  get_connected_publisher_urls : Str → SubscriberActorMsg
  register : Registration → SubscriberActorMsg
  unregister drop_subscriber : Str → SubscriberActorMsg
  update : Str → List Str → SubscriberActorMsg

pub data Reply (dxr : Dxr) : Type 0 where
  subscriptions : List (Str × Str) → Reply dxr
  urls : Option (List Str) → Reply dxr
  subscriber : Result (SubscriberActorError dxr) Subscriber → Reply dxr
  unit : Result (SubscriberActorError dxr) (Unit {0}) → Reply dxr
  no_reply : Reply dxr

-- The list without one task, the first that was spawned for the address.
unfoldable pub without_task : Str → List SubscriberTask → List SubscriberTask
without_task publisher_addr [] = []
without_task publisher_addr (t ∷ tasks) =
    if str_eq t.publisher_addr publisher_addr then tasks else t ∷ without_task publisher_addr tasks

unfoldable pub end_task : List TaskEvent → SubscriberTask → Feed → Feed
end_task events t feed = record {
  subscription = run_task events t feed.subscription;
  tasks = without_task t.publisher_addr feed.tasks;
}

unfoldable pub read_once : SubscriberTask → Feed → Feed
read_once t feed = record feed {
  subscription =
      (subscriber_task (data_ready ∷ []) t.publisher_header t.incoming feed.subscription).1;
}

unfoldable pub feed_at :
    Str → (Feed → Feed) → SubscriberActorState → Option (ℕ × Feed) → SubscriberActorState
feed_at topic_name f s none = s
feed_at topic_name f s (some (guard, feed)) = record s {
  subscriptions = insert topic_name (guard, f feed) s.subscriptions;
}

abbrev on_feed : Str → (Feed → Feed) → SubscriberActorState → SubscriberActorState
on_feed topic_name f s = feed_at topic_name f s (lookup topic_name s.subscriptions)

-- A task of the topic's subscription takes one message from its publisher, and goes on.
unfoldable pub task_reads : Str → SubscriberTask → SubscriberActorState → SubscriberActorState
unfolding read_once feed_at
task_reads topic_name t = on_feed topic_name (read_once t)

-- It runs over some events to its end.
unfoldable pub task_exits :
    Str → List TaskEvent → SubscriberTask → SubscriberActorState → SubscriberActorState
unfolding feed_at
task_exits topic_name events t = on_feed topic_name (end_task events t)

module _ {dxr : Dxr} (world : World dxr) (master : RosMasterClient)
    (peers : Peers dxr world.W) where
  -- The reply goes to the caller if there is still one; else the handler fails. An error after a drop message
  -- is only logged.
  unfoldable pub handle :
      Bool → SubscriberActorMsg → Action (SubscriberActorState × world.W) MessagingErr (Reply dxr)
  handle heard get_subscriptions = do
    s ← get_state
    send_reply heard (subscriptions (Subscriber.get_subscriptions s))
  handle heard (get_connected_publisher_urls topic_name) = do
    s ← get_state
    send_reply heard (urls (Subscriber.get_connected_publisher_urls s topic_name))
  handle heard (register r) = do
    result ← attempt (register_subscriber world master peers r)
    send_reply heard (subscriber result)
  handle heard (unregister topic_name) = do
    result ← attempt (unregister_subscriber world master peers topic_name)
    send_reply heard (unit result)
  handle heard (drop_subscriber topic_name) = do
    _ ← attempt (unregister_subscriber world master peers topic_name)
    done no_reply
  handle heard (update topic_name publishers) =
      λ x. (ok no_reply, update_connected_publishers world master peers topic_name publishers x)

  unfoldable pub cleanup_all : List (Str × (ℕ × Feed)) → Handler world master peers (Unit {0})
  cleanup_all [] = done tt
  cleanup_all ((topic_name, (guard, feed)) ∷ rest) = do
    _ ← attempt (cleanup_subscription world master peers guard feed)
    cleanup_all rest

  -- The map is taken out of the state first; an error does not end the loop.
  unfoldable pub post_stop : Handler world master peers (Unit {0})
  unfolding cleanup_all
  post_stop = do
    s ← get_state
    modify (λ s'. record s' { subscriptions = [] })
    cleanup_all s.subscriptions
