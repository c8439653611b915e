-- ===== src/Tcpros/Publication.antt =====
-- The publisher's end of a topic: the tasks of rosrust-async/src/tcpros/publication.rs. A publication's
-- messages are the list of what its channel has had so far.
pub mod Handshake
pub mod Delivery
mod Tests
use rosrust_async.Base.{
  ℕ, Bool, true, false, Option, none, some, List, [], ◌∷◌, ◌++◌, Str, length, Result, ok, err,
  map_err, ◌||◌,
}
use rosrust_async.Base.Action.{Action, ◌>>=◌, ◌>>◌, done, from_result, map_error}
use rosrust_async.Base.Dict.{add, discard}
use rosrust_async.Tcpros.Bytes.{IoError}
use rosrust_async.Tcpros.Net.{Connection, write, write_all, Broadcast}
use rosrust_async.Tcpros.Spec.{CompatibilityError}
use rosrust_async.Tcpros.Header.Defs.{HeaderError, PublisherHeader, SubscriberHeader}
use rosrust_async.Tcpros.Header.Visit.{Visitor, from_async_read}
use rosrust_async.Tcpros.Header.Compat.{validate_pubsub_compatibility}

pub data PublicationError : Type 0 where
  io : IoError → PublicationError
  header : HeaderError → PublicationError
  compatibility : CompatibilityError → PublicationError

-- `header::from_async_read(&mut subscriber_stream)`. What an error leaves of the input is not told, since
-- the connection is dropped then.
read_header : Visitor SubscriberHeader → Action Connection PublicationError SubscriberHeader
read_header visitor c = elim (from_async_read visitor c.incoming) [
  | ok (subscriber_header, rest) ↦ (ok subscriber_header, record c { incoming = rest })
  | err e ↦ (err (header e), c)
]

-- `if tcp_nodelay || subscriber_header.tcp_nodelay { … set_nodelay(true)? }`
set_nodelay : Bool → Action Connection PublicationError (Unit {0})
set_nodelay true c = (map_err io c.nodelay, c)
set_nodelay false c = (ok tt, c)

-- The subscriber's header, or an error, and the connection, with what was written to it by then.
unfoldable pub setup_connection :
    Visitor SubscriberHeader
    → PublisherHeader
    → Str
    → Bool
    → Action Connection PublicationError SubscriberHeader
unfolding read_header set_nodelay
setup_connection visitor publisher_header header_bytes tcp_nodelay = do
  subscriber_header ← read_header visitor
  from_result
      (map_err compatibility (validate_pubsub_compatibility publisher_header subscriber_header))
  set_nodelay (tcp_nodelay || subscriber_header.tcp_nodelay)
  map_error io (write header_bytes)
  done subscriber_header

-- One round of a task's `select!`, with what the channel has had by then.
pub data PublisherEvent : Type 0 where
  cancelled : PublisherEvent
  data_ready : List Str → PublisherEvent

-- What a task for a subscriber is spawned with.
pub record PublisherTask : Type 0 where
  pub subscriber_id : Str
  pub latched_message : Option Str
  pub data_rx : ℕ
  pub subscriber_stream : Connection

-- The state of the listener's loop, with the set that it shares with its tasks and the tasks that it has
-- spawned.
pub record Listener : Type 0 where
  pub latched_message : Option Str
  pub data_rx : ℕ
  pub subscriber_ids : List Str
  pub tasks : List PublisherTask

pub data ListenerEvent : Type 0 where
  stopped : ListenerEvent
  message : List Str → ListenerEvent
  accepted : List Str → Result IoError Connection → ListenerEvent

module _ (channel : Broadcast) where
  open channel use {RecvError, is_closed}

  -- The rounds, from the receiver's place, and the connection when the task waits or ends.
  unfoldable pub send_loop :
      List PublisherEvent → ℕ → Connection → Result PublicationError Connection
  send_loop [] data_rx c = ok c
  send_loop (cancelled ∷ events) data_rx c = ok c
  send_loop (data_ready sent ∷ events) data_rx c = elim (channel.recv data_rx sent) [
    | none ↦ send_loop events data_rx c
    | some (received, data_rx') ↦ elim received [
      | ok msg ↦ elim (write_all msg c) [
        | ok c' ↦ send_loop events data_rx' c'
        | err e ↦ err (io e)
      ]
      | err e ↦ elim (is_closed e) [ true ↦ ok c | false ↦ send_loop events data_rx' c ]
    ]
  ]

  write_latched : Option Str → Connection → Result PublicationError Connection
  write_latched none c = ok c
  write_latched (some last_msg) c = map_err io (write_all last_msg c)

  unfoldable pub publisher_task :
      List PublisherEvent → PublisherTask → Result PublicationError Connection
  unfolding write_latched send_loop
  publisher_task events t = elim (write_latched t.latched_message t.subscriber_stream) [
    | ok c ↦ send_loop events t.data_rx c
    | err e ↦ err e
  ]

  -- What follows the task, however it ended.
  pub on_exit : PublisherTask → Listener → Listener
  on_exit t l = record l { subscriber_ids = discard t.subscriber_id l.subscriber_ids }

-- A new task has the latched message of the time, and gets what is sent from now on.
spawn : List Str → Listener → Result PublicationError SubscriberHeader × Connection → Listener
spawn sent l (err e, c) = l
spawn sent l (ok subscriber_header, c) = record l {
  subscriber_ids = add subscriber_header.caller_id l.subscriber_ids;
  tasks =
      record {
        subscriber_id = subscriber_header.caller_id;
        latched_message = l.latched_message;
        data_rx = length sent;
        subscriber_stream = c;
      }
      ∷ l.tasks;
}

module _ (channel : Broadcast) (visitor : Visitor SubscriberHeader)
    (publisher_header : PublisherHeader) (header_bytes : Str) (tcp_nodelay : Bool) where
  open channel use {RecvError, is_closed}

  -- Over the events that the loop takes; the message branch is open only for a latching publisher.
  unfoldable pub listener_task : List ListenerEvent → Listener → Listener
  unfolding spawn
  listener_task [] l = l
  listener_task (stopped ∷ events) l = l
  listener_task (message sent ∷ events) l = elim publisher_header.latching [
    | false ↦ listener_task events l
    | true ↦ elim (channel.recv l.data_rx sent) [
      | none ↦ listener_task events l
      | some (received, data_rx') ↦ elim received [
        | ok m ↦ listener_task events (record l { latched_message = some m; data_rx = data_rx' })
        | err e ↦ elim (is_closed e) [
          | true ↦ l
          | false ↦ listener_task events (record l { data_rx = data_rx' })
        ]
      ]
    ]
  ]
  listener_task (accepted sent connection ∷ events) l = elim connection [
    | err e ↦ listener_task events l
    | ok c ↦
        listener_task events
          (spawn sent l (setup_connection visitor publisher_header header_bytes tcp_nodelay c))
  ]
