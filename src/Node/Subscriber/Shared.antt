-- ===== src/Node/Subscriber/Shared.antt =====
-- A handle that joins a subscription in use, and what it receives:
-- rosrust-async/src/node/actors/subscriber.rs over tcpros/subscription.rs.
use rosrust_async.Base.{
  ℕ, ◌≤◌, ◌≡◌, refl, true, some, List, [], ◌∷◌, ◌++◌, map, append_assoc, length, length-append, Str,
  All, ok, arith, get_elem?-append_next,
}
use rosrust_async.Base.Dict.{lookup, contains, insert}
use rosrust_async.Tcpros.Net.{Fits, calls, frames, Broadcast, frames-length}
use rosrust_async.Tcpros.Spec.{validate_topic_specs}
use rosrust_async.Tcpros.Header.Defs.{PublisherHeader}
use rosrust_async.Tcpros.Subscription.{subscriber_task}
use rosrust_async.Tcpros.Subscription.Delivery.{rounds, subscriber_task-calls}
use rosrust_async.Xmlrpc.Dxr.{Dxr}
use rosrust_async.Xmlrpc.Master.{World, RosMasterClient}
use rosrust_async.Node.Guards.{is_alive, retain}
use rosrust_async.Node.Subscriber.{
  Peers, Feed, Subscriber, SubscriberActorState, Registration, register_subscriber, register_at,
  share, update_connected_publishers, update_at, put_back, difference, add_publishers,
}
use rosrust_async.Node.Subscriber.Growth.{add_publishers-Grows}
use rosrust_async.Node.Subscriber.Linked.{Grows}
use rosrust_async.Node.Subscriber.Receive.{recv_raw, take_or, received, receive}

module _ (channel : Broadcast) where
  open channel use {RecvError}

  -- All that was sent after the handle's place, in order.
  receive-sent :
      (msgs old : List Str) (guard : ℕ)
      → length msgs ≤ channel.capacity
      → receive channel
          (length msgs)
          (record { latched_msgs = []; data_rx = length old; guard = guard })
          (old ++ msgs)
        ≡ map ok msgs
  unfolding receive recv_raw take_or received
  receive-sent [] old guard few = refl
  receive-sent (msg ∷ rest) old guard few =
      let next =
        channel.recv_next (length old) (old ++ (msg ∷ rest)) msg
          (get_elem?-append_next old msg rest)
          (rw (length-append old (msg ∷ rest)) (omega arith)) in
      let more = receive-sent rest (old ++ (msg ∷ [])) guard (omega arith) in
      rw
        (next, receive, rw (length-append old (msg ∷ []), append_assoc old (msg ∷ []) rest) at more)
        refl

  -- The latched messages come first.
  pub receive-latched :
      (latched msgs old : List Str) (guard : ℕ)
      → length msgs ≤ channel.capacity
      → receive channel
          (length (latched ++ msgs))
          (record { latched_msgs = latched; data_rx = length old; guard = guard })
          (old ++ msgs)
        ≡ map ok (latched ++ msgs)
  unfolding receive recv_raw take_or
  receive-latched [] msgs old guard few = receive-sent msgs old guard few
  receive-latched (l ∷ latched) msgs old guard few =
      rw (receive-latched latched msgs old guard few) refl

module _ {dxr : Dxr} (world : World dxr) (master : RosMasterClient)
    (peers : Peers dxr world.W) where
  open world use {W}

  register-share :
      (r : Registration) (s : SubscriberActorState) (w : W) (guard : ℕ) (feed : Feed)
      → lookup r.topic.name s.subscriptions ≡ some (guard, feed)
      → is_alive guard s.guards ≡ true
      → validate_topic_specs r.topic.spec feed.subscription.topic.spec ≡ ok tt
      → register_subscriber world master peers r (s, w) ≡ (
        ok (record {
          latched_msgs = map (λ e. e.1) feed.subscription.latched_msgs;
          data_rx = length feed.subscription.data_sent;
          guard = guard;
        }),
        (record s { guards = retain guard s.guards }, w),
      )
  unfolding register_subscriber register_at share
  register-share r s w guard feed found alive fits =
      rw (found, register_at, alive, share, fits) refl

  -- A handle that is asked for while the topic has a live subscription of a compatible description
  -- joins it: neither the master nor a publisher is called, and the subscriptions stay. Once a
  -- publisher's task has then passed on some messages, each within 32 bits, no more of them than the
  -- channel holds and while somebody listens, as many reads give the latched messages of the time of
  -- joining first, and then those messages framed, in order, without loss.
  pub register_subscriber-receive :
      (channel : Broadcast) (r : Registration) (s : SubscriberActorState) (w : W) (guard : ℕ)
      (feed : Feed) (msgs : List Str) (h : PublisherHeader) (rest : Str)
      → lookup r.topic.name s.subscriptions ≡ some (guard, feed)
      → is_alive guard s.guards ≡ true
      → validate_topic_specs r.topic.spec feed.subscription.topic.spec ≡ ok tt
      → feed.subscription.listened ≡ true
      → All Fits msgs
      → length msgs ≤ channel.capacity
      → let sub = feed.subscription in
        let latched = map (λ e. e.1) sub.latched_msgs in
        let sent = (subscriber_task (rounds msgs) h (calls msgs ++ rest) sub).1.data_sent in
        (handle : Subscriber) × (register_subscriber world master peers r (s, w)
          ≡ (ok handle, (record s { guards = retain guard s.guards }, w)))
        × (receive channel (length (latched ++ frames msgs)) handle sent
            ≡ map ok (latched ++ frames msgs))
  register_subscriber-receive channel r s w guard feed msgs h rest found alive fits on all few =
      let latched = map (λ e. e.1) feed.subscription.latched_msgs in
      let got =
        receive-latched channel latched (frames msgs) feed.subscription.data_sent guard
          (rw (frames-length msgs) few) in
      (
        _,
        register-share r s w guard feed found alive fits,
        rw (subscriber_task-calls msgs h rest feed.subscription all on) got,
      )

  -- An update of the publishers of a topic with a subscription changes no other topic, and keeps the
  -- subscription with its guard. Of its publishers none is lost; a new one is among the given addresses
  -- that were not connected. If each connected publisher had its task before, each has it after.
  pub update_connected_publishers-Grows :
      (topic_name : Str) (addrs : List Str) (s : SubscriberActorState) (w : W) (guard : ℕ)
      (feed : Feed)
      → lookup topic_name s.subscriptions ≡ some (guard, feed)
      → (feed' : Feed) × ((update_connected_publishers world master peers topic_name addrs (s, w)).0
          ≡ record s { subscriptions = insert topic_name (guard, feed') s.subscriptions })
        × Grows (difference addrs feed.subscription.publisher_addrs) feed feed'
  unfolding update_connected_publishers update_at put_back
  update_connected_publishers-Grows topic_name addrs s w guard feed found =
      let offered = difference addrs feed.subscription.publisher_addrs in
      let x = add_publishers world master peers s.node_name topic_name offered (feed, w) in
      (
        x.0,
        rw (found, update_at) refl,
        add_publishers-Grows world master peers s.node_name topic_name offered (feed, w),
      )

  difference-All :
      (addrs old : List Str) → All (λ a. contains a old ≡ true) addrs → difference addrs old ≡ []
  unfolding difference
  difference-All [] old h = refl
  difference-All (a ∷ rest) old (here, there) = rw (here, difference-All rest old there) refl

  -- When all given publishers of a topic are connected, nobody is contacted.
  pub update_connected_publishers-idle :
      (topic_name : Str) (addrs : List Str) (s : SubscriberActorState) (w : W) (guard : ℕ)
      (feed : Feed)
      → lookup topic_name s.subscriptions ≡ some (guard, feed)
      → All (λ a. contains a feed.subscription.publisher_addrs ≡ true) addrs
      → update_connected_publishers world master peers topic_name addrs (s, w)
        ≡ (record s { subscriptions = insert topic_name (guard, feed) s.subscriptions }, w)
  unfolding update_connected_publishers update_at put_back add_publishers
  update_connected_publishers-idle topic_name addrs s w guard feed found all =
      rw (found, update_at, difference-All addrs feed.subscription.publisher_addrs all) refl
