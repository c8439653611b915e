-- ===== src/Node/Subscriber/Reachable.antt =====
-- The states that the subscriber actor can be in, and what an update of a topic's publishers does:
-- rosrust-async/src/node/actors/subscriber.rs.
use rosrust_async.Base.{Bool, ℕ, List, Str, arith}
use rosrust_async.Base.Dict.{lookup}
use rosrust_async.Tcpros.Subscription.{SubscriberTask, TaskEvent}
use rosrust_async.Xmlrpc.Dxr.{Dxr}
use rosrust_async.Xmlrpc.Master.{World, RosMasterClient}
use rosrust_async.Node.Guards.{retain, release}
use rosrust_async.Node.Subscriber.{Peers, SubscriberActorState, new_state}
use rosrust_async.Node.Subscriber.Messages.{
  SubscriberActorMsg, handle, task_reads, task_exits, end_task, read_once,
}
use rosrust_async.Node.Subscriber.Linked.{Linked, end_task-Served}
use rosrust_async.Node.Subscriber.Preserved.{handle-Linked, feed_at-Linked, read_once-Served}

module _ {dxr : Dxr} (world : World dxr) (master : RosMasterClient)
    (peers : Peers dxr world.W) where
  open world use {W}

  -- The actor takes its messages one by one; in between, tasks read and end, and handles are cloned and
  -- dropped. The world may be any at each message.
  pub data Reachable : SubscriberActorState → Type 0 where
    start : (node_name : Str) → Reachable (new_state node_name)
    message :
        (s : SubscriberActorState) (heard : Bool) (msg : SubscriberActorMsg) (w : W)
        → Reachable s
        → Reachable (handle world master peers heard msg (s, w)).1.0
    reads :
        (s : SubscriberActorState) (topic_name : Str) (t : SubscriberTask)
        → Reachable s
        → Reachable (task_reads topic_name t s)
    exits :
        (s : SubscriberActorState) (topic_name : Str) (events : List TaskEvent) (t : SubscriberTask)
        → Reachable s
        → Reachable (task_exits topic_name events t s)
    clone :
        (s : SubscriberActorState) (guard : ℕ)
        → Reachable s
        → Reachable (record s { guards = retain guard s.guards })
    dropped :
        (s : SubscriberActorState) (guard : ℕ)
        → Reachable s
        → Reachable (record s { guards = (release guard s.guards).1 })

  -- In every state that the actor reaches, whatever messages come, whether or not their callers are still
  -- there, whatever the master and the publishers answer and however the tasks read and end: for an address
  -- that counts as connected to a topic exactly one task of the topic's subscription runs, and for any other
  -- address none does.
  pub Reachable-Linked : (s : SubscriberActorState) → Reachable s → Linked s
  unfolding new_state lookup task_reads task_exits
  Reachable-Linked s (start node_name) = λ name g f e. λ addr. ground (arith, e)
  Reachable-Linked s (message s' heard msg w p) =
      handle-Linked world master peers heard msg s' w (Reachable-Linked s' p)
  Reachable-Linked s (reads s' topic_name t p) =
      feed_at-Linked world master peers topic_name (read_once t) s'
        (read_once-Served world master peers t) (Reachable-Linked s' p)
  Reachable-Linked s (exits s' topic_name events t p) =
      feed_at-Linked world master peers topic_name (end_task events t) s' (end_task-Served events t)
        (Reachable-Linked s' p)
  Reachable-Linked s (clone s' guard p) = Reachable-Linked s' p
  Reachable-Linked s (dropped s' guard p) = Reachable-Linked s' p
