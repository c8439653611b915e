-- ===== src/Tcpros/Subscription.antt =====
-- The subscriber's end of a topic: rosrust-async/src/tcpros/subscription.rs. The channel to the node's
-- handles is the list of the messages sent on it; it takes them while somebody listens.
pub mod Delivery
pub mod Interleaved
mod Tests
use rosrust_async.Base.{
  Bool, true, false, if◌then◌else◌, Option, none, some, List, [], ◌∷◌, ◌++◌, Str, Result, ok, err,
  ◌>>=◌, map_err,
}
use rosrust_async.Base.Dict.{insert, remove, contains, add, discard}
use rosrust_async.Tcpros.Bytes.{IoError, read_tcpros_frame}
use rosrust_async.Tcpros.Spec.{Topic, CompatibilityError}
use rosrust_async.Tcpros.Header.Defs.{
  HeaderError, PublisherHeader, SubscriberHeader, subscriber_fields,
}
use rosrust_async.Tcpros.Header.Ser.{to_bytes}
use rosrust_async.Tcpros.Header.Visit.{Visitor, from_async_read}
use rosrust_async.Tcpros.Header.Compat.{validate_pubsub_compatibility}
use rosrust_async.Tcpros.Net.{Connection, write_all}

pub data SubscriptionError : Type 0 where
  io : IoError → SubscriptionError
  header_failure : HeaderError → SubscriptionError
  compatibility : CompatibilityError → SubscriptionError

pub record Subscription : Type 0 where
  pub topic : Topic
  pub header : SubscriberHeader
  pub header_bytes : Str
  pub publisher_addrs : List Str
  pub latched_msgs : List (Str × Str)
  pub data_sent : List Str
  pub listened : Bool

-- What a task is spawned with.
pub record SubscriberTask : Type 0 where
  pub publisher_addr : Str
  pub publisher_header : PublisherHeader
  pub incoming : Str

unfoldable pub subscriber_header : Topic → Str → Bool → SubscriberHeader
subscriber_header topic caller_id tcp_nodelay = record {
  caller_id = caller_id;
  topic = topic.name;
  md5sum = topic.spec.md5sum;
  msg_type = topic.spec.msg_type;
  msg_definition = topic.spec.msg_definition;
  tcp_nodelay = tcp_nodelay;
}

unfoldable pub new_subscription : Topic → Str → Bool → Result SubscriptionError Subscription
unfolding subscriber_header
new_subscription topic caller_id tcp_nodelay = do
  let header : SubscriberHeader = subscriber_header topic caller_id tcp_nodelay
  header_bytes ← map_err header_failure (to_bytes (subscriber_fields header))
  ok (record {
    topic = topic;
    header = header;
    header_bytes = header_bytes;
    publisher_addrs = [];
    latched_msgs = [];
    data_sent = [];
    listened = true;
  })

module _ (visitor : Visitor PublisherHeader) where
  -- The handshake with a publisher, over the connection that `TcpStream::connect` gives.
  handshake :
      Subscription → Result IoError Connection → Result SubscriptionError (PublisherHeader × Str)
  handshake s peer = do
    c ← map_err io peer
    c' ← map_err io (write_all s.header_bytes c)
    (publisher_header, rest) ← map_err header_failure (from_async_read visitor c'.incoming)
    _ ← map_err compatibility (validate_pubsub_compatibility publisher_header s.header)
    ok (publisher_header, rest)

  enroll :
      Str
      → Subscription
      → Result SubscriptionError (PublisherHeader × Str)
      → Result SubscriptionError (Option SubscriberTask) × Subscription
  enroll publisher_addr s (err e) = (err e, s)
  enroll publisher_addr s (ok (publisher_header, rest)) = (
    ok (
        some (record {
          publisher_addr = publisher_addr;
          publisher_header = publisher_header;
          incoming = rest;
        })),
    record s { publisher_addrs = add publisher_addr s.publisher_addrs },
  )

  -- The task that is spawned, none for a publisher that was added before.
  unfoldable pub add_publisher :
      Str
      → Result IoError Connection
      → Subscription
      → Result SubscriptionError (Option SubscriberTask) × Subscription
  unfolding handshake enroll
  add_publisher publisher_addr peer s =
      if contains publisher_addr s.publisher_addrs
      then (ok none, s)
      else enroll publisher_addr s (handshake s peer)

-- One round of the task's `select!`.
pub data TaskEvent : Type 0 where
  cancelled data_ready : TaskEvent

latch : PublisherHeader → Str → Subscription → Subscription
latch h data_ s =
    if h.latching then record s { latched_msgs = insert h.caller_id data_ s.latched_msgs } else s

send : Str → Subscription → Subscription
send data_ s = record s { data_sent = s.data_sent ++ (data_ ∷ []) }

-- `subscriber_task` over the events that it takes; with no more of them it waits.
unfoldable pub subscriber_task :
    List TaskEvent → PublisherHeader → Str → Subscription → Result IoError (Unit {0}) × Subscription
unfolding latch send
subscriber_task [] h incoming s = (ok tt, s)
subscriber_task (cancelled ∷ events) h incoming s = (ok tt, s)
subscriber_task (data_ready ∷ events) h incoming s = elim (read_tcpros_frame incoming) [
  | err e ↦ (err e, s)
  | ok (data_, rest) ↦
      if s.listened
      then subscriber_task events h rest (latch h data_ (send data_ s))
      else (ok tt, s)
]

-- What follows the task, however it ended.
unfoldable pub on_exit : Str → Subscription → Subscription
on_exit publisher_addr s = record s {
  latched_msgs = remove publisher_addr s.latched_msgs;
  publisher_addrs = discard publisher_addr s.publisher_addrs;
}

unfoldable pub run_task : List TaskEvent → SubscriberTask → Subscription → Subscription
run_task events t s =
    on_exit t.publisher_addr (subscriber_task events t.publisher_header t.incoming s).1
