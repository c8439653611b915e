-- ===== src/Node/Subscriber/Preserved.antt =====
-- What each message and each step of a task keeps of the subscriptions: rosrust-async/src/node/actors/subscriber.rs.
use rosrust_async.Base.{
  Bool, ℕ, ◌≡◌, refl, true, false, Option, none, some, List, [], ◌∷◌, Str, if◌then◌else◌, Result,
  ok, err, map_err, arith,
}
use rosrust_async.Base.Action.{next, beside, convert, on_world, map_error, ◌>>=◌}
use rosrust_async.Base.Dict.{lookup, remove, contains}
use rosrust_async.Tcpros.Subscription.{
  Subscription, SubscriberTask, data_ready, SubscriptionError, new_subscription,
}
use rosrust_async.Tcpros.Subscription.Delivery.{subscriber_task-publisher_addrs}
use rosrust_async.Xmlrpc.Dxr.{Dxr}
use rosrust_async.Xmlrpc.Master.{World, RosMasterClient, MasterClientError}
use rosrust_async.Xmlrpc.Master
use rosrust_async.Node.Guards.{is_alive}
use rosrust_async.Node.Subscriber.{
  Peers, Feed, SubscriberActorState, SubscriberActorError, Registration, new_state, add_publishers,
  difference, cleanup_subscription, share, entered, enter, create, replace, register_at,
  register_subscriber, unregister_at, unregister_subscriber, put_back, update_at,
  update_connected_publishers,
}
use rosrust_async.Node.Subscriber
use rosrust_async.Node.Subscriber.Messages.{
  SubscriberActorMsg, handle, task_reads, task_exits, end_task, read_once, feed_at,
}
use rosrust_async.Node.Subscriber.Messages
use rosrust_async.Node.Subscriber.Growth.{add_publishers-Grows}
use rosrust_async.Node.Subscriber.Linked.{Linked, Served, insert-Linked, remove-Linked}

module _ {dxr : Dxr} (world : World dxr) (master : RosMasterClient)
    (peers : Peers dxr world.W) where
  open world use {W}

  enter-Linked :
      (r : Registration) (sub : Subscription) (existing : List Str) (s : SubscriberActorState)
      (w : W)
      → Linked s
      → sub.publisher_addrs ≡ []
      → Linked (enter world master peers r sub existing (s, w)).1.0
  unfolding enter entered
  enter-Linked r sub existing s w h fresh = insert-Linked r.topic.name _ _ s h (
      (add_publishers-Grows world master peers s.node_name r.topic.name existing
          (record { subscription = sub; tasks = [] }, w)).2
        (λ addr. unfold contains in rw (fresh) refl))

  create-Linked :
      (r : Registration) (s : SubscriberActorState) (w : W)
      → Linked s
      → Linked (create world master peers r (s, w)).1.0
  unfolding create new_subscription
  create-Linked r s w h =
      made (new_subscription r.topic r.caller_id r.tcp_nodelay) (λ sub e. ground arith)
    where
      registered :
          (sub : Subscription)
          → sub.publisher_addrs ≡ []
          → (q : Result (MasterClientError dxr) (List Str) × W)
          → Linked
              (next
                (beside s (convert Subscriber.master_client q))
                (enter world master peers r sub)).1.0
      registered sub fresh (ok existing, w') = enter-Linked r sub existing s w' h fresh
      registered sub fresh (err e, w') = h

      made :
          (q : Result SubscriptionError Subscription)
          → ((sub : Subscription) → q ≡ ok sub → sub.publisher_addrs ≡ [])
          → Linked
              (next
                (map_err Subscriber.subscription q, (s, w))
                (λ sub. do
                  existing ← on_world (
                      map_error Subscriber.master_client (
                        Master.register_subscriber world master r.topic.name r.topic.spec.msg_type))
                  enter world master peers r sub existing)).1.0
      made (ok sub) fresh =
          registered sub (fresh sub refl)
            (Master.register_subscriber world master r.topic.name r.topic.spec.msg_type w)
      made (err e) fresh = h

  cleanup-subscriptions :
      (guard : ℕ) (feed : Feed) (s : SubscriberActorState) (w : W)
      → (cleanup_subscription world master peers guard feed (s, w)).1.0.subscriptions
        ≡ s.subscriptions
  unfolding cleanup_subscription
  cleanup-subscriptions guard feed s w = ground arith

  share-subscriptions :
      (r : Registration) (guard : ℕ) (feed : Feed) (s : SubscriberActorState) (w : W)
      → (share world master peers r guard feed (s, w)).1.0.subscriptions ≡ s.subscriptions
  unfolding share
  share-subscriptions r guard feed s w = ground arith

  same-Linked :
      (s s' : SubscriberActorState) → s'.subscriptions ≡ s.subscriptions → Linked s → Linked s'
  same-Linked s s' e h name g f found = h name g f (rw (e) at found)

  replace-Linked :
      (r : Registration) (guard : ℕ) (feed : Feed) (s : SubscriberActorState) (w : W)
      → Linked s
      → Linked (replace world master peers r guard feed (s, w)).1.0
  unfolding replace
  replace-Linked r guard feed s w h =
      let s' = record s { subscriptions = remove r.topic.name s.subscriptions } in
      let x = (cleanup_subscription world master peers guard feed (s', w)).1 in
      create-Linked r x.0 x.1 (
        same-Linked s' x.0 (cleanup-subscriptions guard feed s' w) (remove-Linked r.topic.name s h))

  register-Linked :
      (r : Registration) (s : SubscriberActorState) (w : W)
      → Linked s
      → Linked (register_subscriber world master peers r (s, w)).1.0
  unfolding register_subscriber register_at
  register-Linked r s w h = found (lookup r.topic.name s.subscriptions)
    where
      joined :
          (guard : ℕ) (feed : Feed) (b : Bool)
          → Linked
              ((if b
                  then share world master peers r guard feed
                  else replace world master peers r guard feed)
                (s, w)).1.0
      joined guard feed true =
          same-Linked s (share world master peers r guard feed (s, w)).1.0
            (share-subscriptions r guard feed s w) h
      joined guard feed false = replace-Linked r guard feed s w h

      found :
          (o : Option (ℕ × Feed)) → Linked (register_at world master peers r s.guards o (s, w)).1.0
      found none = create-Linked r s w h
      found (some (guard, feed)) = joined guard feed (is_alive guard s.guards)

  unregister-Linked :
      (topic_name : Str) (s : SubscriberActorState) (w : W)
      → Linked s
      → Linked (unregister_subscriber world master peers topic_name (s, w)).1.0
  unfolding unregister_subscriber unregister_at
  unregister-Linked topic_name s w h = found (lookup topic_name s.subscriptions)
    where
      found :
          (o : Option (ℕ × Feed))
          → Linked (unregister_at world master peers topic_name o (s, w)).1.0
      found none = h
      found (some (guard, feed)) =
          let s' = record s { subscriptions = remove topic_name s.subscriptions } in
          same-Linked s' (cleanup_subscription world master peers guard feed (s', w)).1.0
            (cleanup-subscriptions guard feed s' w) (remove-Linked topic_name s h)

  update-Linked :
      (topic_name : Str) (addrs : List Str) (s : SubscriberActorState) (w : W)
      → Linked s
      → Linked (update_connected_publishers world master peers topic_name addrs (s, w)).0
  unfolding update_connected_publishers update_at put_back
  update-Linked topic_name addrs s w h = found (lookup topic_name s.subscriptions) refl
    where
      found :
          (o : Option (ℕ × Feed))
          → lookup topic_name s.subscriptions ≡ o
          → Linked (update_at world master peers topic_name addrs o (s, w)).0
      found none e = h
      found (some (guard, feed)) e =
          let offered = difference addrs feed.subscription.publisher_addrs in
          let x = add_publishers world master peers s.node_name topic_name offered (feed, w) in
          insert-Linked topic_name guard x.0 s h (
            (add_publishers-Grows world master peers s.node_name topic_name offered (feed, w)).2
              (h topic_name guard feed e))

  pub handle-Linked :
      (heard : Bool) (msg : SubscriberActorMsg) (s : SubscriberActorState) (w : W)
      → Linked s
      → Linked (handle world master peers heard msg (s, w)).1.0
  unfolding handle
  handle-Linked heard Messages.get_subscriptions s w h = h
  handle-Linked heard (Messages.get_connected_publisher_urls topic_name) s w h = h
  handle-Linked heard (Messages.register r) s w h = register-Linked r s w h
  handle-Linked heard (Messages.unregister topic_name) s w h = unregister-Linked topic_name s w h
  handle-Linked heard (Messages.drop_subscriber topic_name) s w h =
      unregister-Linked topic_name s w h
  handle-Linked heard (Messages.update topic_name publishers) s w h =
      update-Linked topic_name publishers s w h

  pub feed_at-Linked :
      (topic_name : Str) (f : Feed → Feed) (s : SubscriberActorState)
      → ((feed : Feed) → Served feed → Served (f feed))
      → Linked s
      → Linked (feed_at topic_name f s (lookup topic_name s.subscriptions))
  unfolding feed_at
  feed_at-Linked topic_name f s served h = found (lookup topic_name s.subscriptions) refl
    where
      found :
          (o : Option (ℕ × Feed))
          → lookup topic_name s.subscriptions ≡ o
          → Linked (feed_at topic_name f s o)
      found none e = h
      found (some (guard, feed)) e =
          insert-Linked topic_name guard (f feed) s h (served feed (h topic_name guard feed e))

  pub read_once-Served :
      (t : SubscriberTask) (feed : Feed) → Served feed → Served (read_once t feed)
  unfolding read_once
  read_once-Served t feed h addr =
      let kept =
        subscriber_task-publisher_addrs (data_ready ∷ []) t.publisher_header t.incoming
          feed.subscription in
      rw (kept.0) (h addr)
