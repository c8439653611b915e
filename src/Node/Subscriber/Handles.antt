-- ===== src/Node/Subscriber/Handles.antt =====
-- The clone and the drop of a subscriber's handle: `Subscriber` and `SubscriberGuard` of
-- rosrust-async/src/node/actors/subscriber.rs. `resubscribe` of tokio starts behind all that was sent.
use rosrust_async.Base.{
  sym, true, ◌≤◌, ◌≡◌, refl, Option, none, some, List, ◌++◌, map, length, Str, ok, arith,
  length-append,
}
use rosrust_async.Tcpros.Net.{Broadcast}
use rosrust_async.Node.Guards.{is_alive, retain, release}
use rosrust_async.Node.Guards.Handles.{release-retain}
use rosrust_async.Node.Subscriber.{Subscriber, SubscriberActorState}
use rosrust_async.Node.Subscriber.Messages.{SubscriberActorMsg, drop_subscriber}
use rosrust_async.Node.Subscriber.Receive.{receive}
use rosrust_async.Node.Subscriber.Shared.{receive-latched}

-- Over the messages that the channel has had so far.
unfoldable pub clone :
    Subscriber → List Str → SubscriberActorState → Subscriber × SubscriberActorState
clone h sent s = (record h { data_rx = length sent }, record s { guards = retain h.guard s.guards })

drop_message : Option Str → Option SubscriberActorMsg
drop_message none = none
drop_message (some topic_name) = some (drop_subscriber topic_name)

-- The message that the actor gets, if any.
unfoldable pub drop_handle :
    Subscriber → SubscriberActorState → Option SubscriberActorMsg × SubscriberActorState
unfolding drop_message
drop_handle h s =
    (drop_message (release h.guard s.guards).0, record s { guards = (release h.guard s.guards).1 })

module _ (channel : Broadcast) where
  -- Let a handle have some latched messages left and be behind, in the channel, by some unread messages,
  -- no more of them with the later ones than the channel holds. Its reads give the latched messages, the
  -- unread ones and the later ones; those of its clone give the latched messages and the later ones only. A
  -- clone that is dropped tells the actor nothing, and leaves the guard in use.
  pub clone-receive :
      (h : Subscriber) (seen unread msgs : List Str) (s : SubscriberActorState)
      → h.data_rx ≡ length seen
      → is_alive h.guard s.guards ≡ true
      → length (unread ++ msgs) ≤ channel.capacity
      → let (h', s') = clone h (seen ++ unread) s in
        (receive channel (length (h.latched_msgs ++ (unread ++ msgs))) h (seen ++ (unread ++ msgs))
          ≡ map ok (h.latched_msgs ++ (unread ++ msgs)))
        × (receive channel (length (h.latched_msgs ++ msgs)) h' ((seen ++ unread) ++ msgs)
            ≡ map ok (h.latched_msgs ++ msgs))
        × ((drop_handle h' s').0 ≡ none)
        × (is_alive h.guard (drop_handle h' s').1.guards ≡ true)
  unfolding clone drop_handle
  clone-receive h seen unread msgs s place alive few = (
    (let got = receive-latched channel h.latched_msgs (unread ++ msgs) seen h.guard few in
        rw (sym place) at got),
    receive-latched channel h.latched_msgs msgs (seen ++ unread) h.guard
        (omega (arith, few, length-append unread msgs)),
    rw ((release-retain h.guard s.guards alive).0) refl,
    (release-retain h.guard s.guards alive).1,
  )
