-- ===== src/Tcpros/Publication/Tests.antt =====
-- A publication of one topic, a subscription to it and the channel between.
use rosrust_async.Base.{
  ℕ, ◌+◌, ◌≡◌, refl, true, false, Option, none, some, List, [], ◌∷◌, ◌++◌, get_elem?, Str, codes,
  Result, ok, err, arith,
}
use rosrust_async.Base.Dict.{contains}
use rosrust_async.Tcpros.Bytes.{frame, write_u32}
use rosrust_async.Tcpros.Utf8.{is_utf8}
use rosrust_async.Tcpros.Net.{Connection, connection, Broadcast, calls, frames}
use rosrust_async.Tcpros.Header.Defs.{
  PublisherHeader, SubscriberHeader, publisher_fields, subscriber_fields,
}
use rosrust_async.Tcpros.Header.Ser.{to_bytes}
use rosrust_async.Tcpros.Header.Derive.{IsHeader}
use rosrust_async.Tcpros.Header.Wire.{wire, pairs}
use rosrust_async.Tcpros.Header.Compat.{validate_pubsub_compatibility}
use rosrust_async.Tcpros.Header.Samples.FieldTest.{are_fields, are_fields-IsField}
use rosrust_async.Tcpros.Header.Samples.PublisherSample.{publisher_visitor, publisher_Derives}
use rosrust_async.Tcpros.Header.Samples.SubscriberSample.{subscriber_visitor, subscriber_Derives}
use rosrust_async.Tcpros.Subscription.{Subscription, subscriber_task, add_publisher}
use rosrust_async.Tcpros.Subscription.Delivery.{rounds, latched_after}
use rosrust_async.Tcpros.Publication.{
  PublisherTask, Listener, ListenerEvent, message, accepted, setup_connection, publisher_task,
  listener_task,
}
use rosrust_async.Tcpros.Publication.Delivery.{
  sends, publisher_task-subscriber_task, listener_task_missed,
}
use rosrust_async.Tcpros.Publication.Handshake.{
  accepted_as, answered, enrolled_as, setup_connection-add_publisher,
}

-- A channel that gives the next message, or waits.
abbrev next_of : ℕ → Option Str → Option (Result (Unit {0}) Str × ℕ)
next_of n none = none
next_of n (some msg) = some (ok msg, n + 1)

abbrev channel : Broadcast
channel = record {
  RecvError = Unit {0};
  is_closed = λ e. true;
  capacity = 8;
  recv = λ n sent. next_of n (get_elem? sent n);
  recv_next = λ n sent msg found few. rw (found) refl;
}

abbrev publisher_header : PublisherHeader
publisher_header = record {
  caller_id = codes "/a";
  topic = codes "/t";
  md5sum = codes "*";
  msg_type = codes "p/T";
  msg_definition = codes "x";
  latching = true;
}

abbrev subscriber_header : SubscriberHeader
subscriber_header = record {
  caller_id = codes "/b";
  topic = codes "/t";
  md5sum = codes "*";
  msg_type = codes "*";
  msg_definition = codes "x";
  tcp_nodelay = false;
}

abbrev subscriber_bytes : Str
subscriber_bytes = frame (wire (pairs (subscriber_fields subscriber_header)))

abbrev publisher_bytes : Str
publisher_bytes = frame (wire (pairs (publisher_fields publisher_header)))

abbrev subscription : Subscription
subscription = record {
  topic = record {
    name = codes "/t";
    spec = record { md5sum = codes "*"; msg_type = codes "*"; msg_definition = codes "x" };
  };
  header = subscriber_header;
  header_bytes = subscriber_bytes;
  publisher_addrs = [];
  latched_msgs = [];
  data_sent = codes "old" ∷ [];
  listened = true;
}

publisher_header-IsHeader : IsHeader (publisher_fields publisher_header)
unfolding publisher_fields are_fields rosrust_async.Base.str_eq is_utf8 write_u32
publisher_header-IsHeader = record {
  supported = (tt, (tt, (tt, (tt, (tt, (tt, tt))))));
  well_formed = are_fields-IsField (pairs (publisher_fields publisher_header)) refl;
  fits = omega arith;
}

subscriber_header-IsHeader : IsHeader (subscriber_fields subscriber_header)
unfolding subscriber_fields are_fields rosrust_async.Base.str_eq is_utf8 write_u32
subscriber_header-IsHeader = record {
  supported = (tt, (tt, (tt, (tt, (tt, (tt, tt))))));
  well_formed = are_fields-IsField (pairs (subscriber_fields subscriber_header)) refl;
  fits = omega arith;
}

publisher_task-subscriber_task_example :
    (c : Connection) × (publisher_task channel
        (sends (frames (codes "a" ∷ codes "b" ∷ [])) (codes "a" ∷ codes "b" ∷ []))
        (record {
          subscriber_id = codes "/b";
          latched_message = some (frame (codes "L"));
          data_rx = 0;
          subscriber_stream = connection [] [];
        })
      ≡ ok c)
    × (subscriber_task
          (rounds (codes "L" ∷ codes "a" ∷ codes "b" ∷ []))
          publisher_header
          c.sent
          subscription
        ≡ (
          ok tt,
          record subscription {
            data_sent = codes "old" ∷ frames (codes "L" ∷ codes "a" ∷ codes "b" ∷ []);
            latched_msgs =
                latched_after publisher_header (codes "L" ∷ codes "a" ∷ codes "b" ∷ []) [];
          },
        ))
publisher_task-subscriber_task_example =
    publisher_task-subscriber_task channel (some (codes "L")) (codes "a" ∷ codes "b" ∷ []) []
      (codes "/b") publisher_header subscription (omega arith)
      (omega arith, (omega arith, (omega arith, tt))) refl

setup_connection-add_publisher_example :
    (setup_connection subscriber_visitor publisher_header publisher_bytes true
        (connection subscriber_bytes [])
      ≡ accepted_as (ok tt) publisher_bytes subscriber_header)
    × (add_publisher publisher_visitor
          (codes "http://a")
          (ok (
            connection
              (answered
                (setup_connection subscriber_visitor publisher_header publisher_bytes true
                  (connection subscriber_bytes []))
                (codes "more"))
              []))
          subscription
        ≡ enrolled_as
            (ok tt)
            (record {
              publisher_addr = codes "http://a";
              publisher_header = publisher_header;
              incoming = codes "more";
            })
            subscription)
unfolding to_bytes subscriber_fields write_u32 publisher_fields contains
    validate_pubsub_compatibility rosrust_async.Tcpros.Spec.are_fields_compatible
    rosrust_async.Base.str_eq
setup_connection-add_publisher_example =
    setup_connection-add_publisher subscriber_Derives publisher_Derives subscription
      publisher_header publisher_bytes (codes "more") (codes "http://a") true refl refl
      subscriber_header-IsHeader publisher_header-IsHeader refl

-- The publisher has sent "m", which its listener has not taken; its latched message is "old", and "n" follows.
listener_task_missed_example :
    let now = frame (codes "old") ∷ frame (codes "m") ∷ [] in
    let l : Listener = record {
      latched_message = some (frame (codes "old"));
      data_rx = 1;
      subscriber_ids = [];
      tasks = [];
    } in
    let run = λ (events : List ListenerEvent).
      listener_task channel subscriber_visitor publisher_header publisher_bytes false events l in
    let c = connection subscriber_bytes [] in
    let early = run (message now ∷ accepted now (ok c) ∷ []) in
    let late = run (accepted now (ok c) ∷ message now ∷ []) in
    let gets = publisher_task channel (sends (now ++ frames (codes "n" ∷ [])) (codes "n" ∷ [])) in
    (early.latched_message ≡ some (frame (codes "m")))
    × (late.latched_message ≡ some (frame (codes "m")))
    × (t : PublisherTask) × (early.tasks ≡ t ∷ [])
    × (gets t ≡ ok (connection [] (publisher_bytes ++ calls (codes "m" ∷ codes "n" ∷ []))))
    × (t' : PublisherTask) × (late.tasks ≡ t' ∷ [])
    × (gets t' ≡ ok (connection [] (publisher_bytes ++ calls (codes "old" ∷ codes "n" ∷ []))))
unfolding to_bytes subscriber_fields write_u32 publisher_fields contains
    validate_pubsub_compatibility rosrust_async.Tcpros.Spec.are_fields_compatible
    rosrust_async.Base.str_eq
listener_task_missed_example =
    listener_task_missed channel subscriber_visitor publisher_header publisher_bytes false
      (some (codes "old")) [] [] (frame (codes "old") ∷ []) (codes "n" ∷ []) (codes "m") []
      publisher_bytes (connection subscriber_bytes []) subscriber_header refl (omega arith)
      (omega arith)
      (setup_connection-add_publisher subscriber_Derives publisher_Derives subscription
        publisher_header publisher_bytes [] (codes "http://a") false refl refl
        subscriber_header-IsHeader publisher_header-IsHeader refl).0
