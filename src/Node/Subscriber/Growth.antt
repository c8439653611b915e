-- ===== src/Node/Subscriber/Growth.antt =====
-- What adding publishers to a subscription does, one after the other:
-- rosrust-async/src/node/actors/subscriber.rs.
use rosrust_async.Base.{
  ◌≡◌, refl, inl, inr, Bool, true, false, Option, none, some, List, [], ◌∷◌, Str, if◌then◌else◌,
  Result, ok, err,
}
use rosrust_async.Base.Action.{next, beside}
use rosrust_async.Base.Dict.{contains}
use rosrust_async.Tcpros.Bytes.{IoError}
use rosrust_async.Tcpros.Net.{Connection}
use rosrust_async.Tcpros.Subscription.Delivery.{add_publisher-cases}
use rosrust_async.Xmlrpc.Dxr.{Dxr}
use rosrust_async.Xmlrpc.Master.{World, RosMasterClient}
use rosrust_async.Node.Subscriber.{
  Peers, Feed, SubscriberActorError, get_publisher_channel, with_task, linked, connected, add_at,
  add_publisher_to_subscription, add_publishers,
}
use rosrust_async.Node.Subscriber.Linked.{Grows, Grows-refl, Grows-trans, Grows-more, entry-Grows}

module _ {dxr : Dxr} (world : World dxr) (master : RosMasterClient)
    (peers : Peers dxr world.W) where
  open world use {W}

  connected-Grows :
      (a : Str) (rest : List Str) (feed : Feed) (q : Result IoError Connection × W)
      → contains a feed.subscription.publisher_addrs ≡ false
      → Grows (a ∷ rest) feed (connected world master peers a feed q).1.0
  unfolding connected linked with_task
  connected-Grows a rest feed (peer, w) new =
      elim (add_publisher-cases peers.visitor a peer feed.subscription new) [
        | inl (error, e) ↦ rw (e, linked) (Grows-refl (a ∷ rest) feed)
        | inr (t, same, e) ↦ rw (e, linked) (entry-Grows a rest t feed same new)
      ]

  add_at-Grows :
      (a : Str) (rest : List Str) (channel : Option Str) (feed : Feed) (w : W)
      → Grows (a ∷ rest) feed (add_at world master peers a channel (feed, w)).1.0
  unfolding add_at
  add_at-Grows a rest none feed w = Grows-refl (a ∷ rest) feed
  add_at-Grows a rest (some channel) feed w =
      there (contains a feed.subscription.publisher_addrs) refl
    where
      there :
          (b : Bool)
          → contains a feed.subscription.publisher_addrs ≡ b
          → Grows
              (a ∷ rest)
              feed
              (if b
                then (ok tt, (feed, w))
                else connected world master peers a feed (peers.connect channel w)).1.0
      there true e = Grows-refl (a ∷ rest) feed
      there false e = connected-Grows a rest feed (peers.connect channel w) e

  add_publisher-Grows :
      (caller_id topic_name a : Str) (rest : List Str) (feed : Feed) (w : W)
      → Grows
          (a ∷ rest)
          feed
          (add_publisher_to_subscription world master peers caller_id topic_name a (feed, w)).1.0
  unfolding add_publisher_to_subscription
  add_publisher-Grows caller_id topic_name a rest feed w =
      after (get_publisher_channel world master peers caller_id topic_name a w)
    where
      after :
          (q : Result (SubscriberActorError dxr) (Option Str) × W)
          → Grows (a ∷ rest) feed (next (beside feed q) (add_at world master peers a)).1.0
      after (ok channel, w') = add_at-Grows a rest channel feed w'
      after (err e, w') = Grows-refl (a ∷ rest) feed

  pub add_publishers-Grows :
      (caller_id topic_name : Str) (offered : List Str) (x : Feed × W)
      → Grows offered x.0 (add_publishers world master peers caller_id topic_name offered x).0
  unfolding add_publishers
  add_publishers-Grows caller_id topic_name [] (feed, w) = Grows-refl [] feed
  add_publishers-Grows caller_id topic_name (a ∷ rest) (feed, w) =
      let x' =
        (add_publisher_to_subscription world master peers caller_id topic_name a (feed, w)).1 in
      let y = (add_publishers world master peers caller_id topic_name rest x').0 in
      Grows-trans (a ∷ rest) feed x'.0 y (add_publisher-Grows caller_id topic_name a rest feed w)
        (Grows-more a rest x'.0 y (add_publishers-Grows caller_id topic_name rest x'))
